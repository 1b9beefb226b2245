-- ===== src/Parking/Booking.antt =====
-- api/src/parking/parking.service.ts: booking and cancelling. Between the checks of `book` and
-- each of its writes other requests may commit: `others` is what they do to the database.
pub mod Contract
pub mod Choice
pub mod Many
use digitalreception.Base.{
  ℕ, ◌+◌, String, Bool, true, false, ◌&&◌, ◌||◌, not, List, [], ◌∷◌, ◌++◌, map, Option, none, some,
  ◌==◌, ltb, leb, if◌then◌else◌, is, is_some, length, filter, any, find, contains, dedup, sort_by,
  Result, ok, err, ◌>>=◌, ◌>>◌, require, or_throw,
}
use digitalreception.Parking.Rules.{max_active, local_day, bookable_days}
use digitalreception.Parking.Store.{
  ParkingSpot, ParkingBooking, manual, Employee, Site, Db, Env, has_parking, is_manager, is_user,
  is_none, insert_booking, has_booking, active_booking,
}

-- The exceptions. `no_entity` is TypeORM's, all others are HTTP exceptions.
pub data Error : Type 0 where
  no_parking site_not_found day_closed already_booked limit spot_not_found spot_taken full : Error
  not_found day_past no_entity : Error

abbrev pub is_http : Error → Bool
is_http no_entity = false
is_http _ = true

pub record Booked : Type 0 where
  pub id : ℕ
  pub date : ℕ
  pub spot : String
  pub note : Option String

-- One round of the loop of `book`: it returns or throws, or goes on to the next spot.
pub data Attempt : Type 0 where
  done : Result Error Booked → Db → Attempt
  go_on : Db → Attempt

-- `person`
unfoldable pub person : ℕ → ℕ → Db → Result Error Employee
person tenant employee db = do
  e ← or_throw (find (λ e. e.id == employee && e.tenant == tenant) db.employees) no_entity
  require (not (is_none e.parking_role || has_parking e.apps_off)) no_parking
  ok e

-- The active site of a request.
unfoldable pub active_site : ℕ → ℕ → Db → Result Error Site
active_site tenant site db =
    or_throw (find (λ s. s.id == site && (s.tenant == tenant && s.active)) db.sites) site_not_found

-- The active spots of a site, in the order of the table.
abbrev pub site_spots : ℕ → ℕ → Db → List ParkingSpot
site_spots tenant site db =
    filter (λ s. s.tenant == tenant && (s.site == site && s.active)) db.spots

-- The spots that are taken at a site on a day.
abbrev pub taken_spots : ℕ → ℕ → ℕ → Db → List ℕ
taken_spots tenant site date db =
    map (λ b. b.spot)
      (filter (λ b. b.tenant == tenant && (b.site == site && b.date == date)) db.bookings)

-- The days of the request, each once, in order.
abbrev pub request_days : List ℕ → List ℕ
request_days dates = sort_by ltb (dedup dates)

-- Another manager's fixed spot.
abbrev pub fixed_of_other : ℕ → ℕ → Db → ParkingSpot → Bool
fixed_of_other tenant employee db s =
    any
      (λ m.
        m.tenant == tenant
        && (is_manager m.parking_role && (not (m.id == employee) && is m.parking_spot s.id)))
      db.employees

module _ (env : Env) where
  abbrev pub today_at : Site → ℕ
  today_at site = (local_day env.intl site.timezone env.now).date

  -- The manager's own spot first, then by code.
  abbrev pub spot_before : Employee → ParkingSpot → ParkingSpot → Bool
  spot_before e a b =
      let own_a = is e.parking_spot a.id in
      let own_b = is e.parking_spot b.id in
      (own_a && not own_b)
      || (((own_a && own_b) || (not own_a && not own_b)) && env.code_before a.code b.code)

  -- The spots to try: the chosen one, or all, those fixed to other managers last.
  unfoldable pub spots_to_try :
      ℕ → Employee → ℕ → ℕ → Option ℕ → Db → Result Error (List ParkingSpot)
  spots_to_try tenant e site date none db =
      let spots = sort_by (spot_before e) (site_spots tenant site db) in
      ok (
        filter (λ s. not (fixed_of_other tenant e.id db s)) spots
        ++ filter (fixed_of_other tenant e.id db) spots)
  spots_to_try tenant e site date (some spot) db = do
    let spots = sort_by (spot_before e) (site_spots tenant site db)
    chosen ← or_throw (find (λ s. s.id == spot) spots) spot_not_found
    require (not (contains chosen.id (taken_spots tenant site date db))) spot_taken
    ok (chosen ∷ [])

  -- Everything that `book` checks before it writes.
  unfoldable pub book_checks : ℕ → ℕ → ℕ → ℕ → Option ℕ → Db → Result Error (List ParkingSpot)
  book_checks tenant employee date site spot db = do
    e ← person tenant employee db
    s ← active_site tenant site db
    require (contains date (bookable_days env.intl s.timezone env.now)) day_closed
    require (not (has_booking tenant employee date db.bookings)) already_booked
    require
        (not (
          is_user e.parking_role
          && leb max_active
              (length (filter (active_booking tenant employee (today_at s)) db.bookings))))
        limit
    spots_to_try tenant e site date spot db

  -- The row that `book` writes.
  abbrev pub new_booking : ℕ → ℕ → ℕ → ℕ → ParkingSpot → Db → ParkingBooking
  new_booking tenant employee date site s now = record {
    id = env.new_id now.bookings;
    tenant = tenant;
    site = site;
    spot = s.id;
    employee = employee;
    date = date;
    source = manual;
  }

  module _ (others : Db → Db) where
    -- One round of the loop over the spots.
    unfoldable pub try_spot : ℕ → ℕ → ℕ → ℕ → Bool → List ℕ → ParkingSpot → Db → Attempt
    try_spot tenant employee date site chosen taken s db = elim (contains s.id taken) [
      | true ↦ go_on db
      | false ↦
          let now = others db in
          let b = new_booking tenant employee date site s now in
          elim (insert_booking b now) [
            | some saved ↦
                done (ok (record { id = b.id; date = date; spot = s.code; note = s.note })) saved
            | none ↦ elim (has_booking tenant employee date now.bookings) [
              | true ↦ done (err already_booked) now
              | false ↦ elim chosen [ true ↦ done (err spot_taken) now | false ↦ go_on now ]
            ]
          ]
    ]

    -- The loop over the spots.
    unfoldable pub try_spots :
        ℕ → ℕ → ℕ → ℕ → Bool → List ℕ → List ParkingSpot → Db → Result Error Booked × Db
    try_spots tenant employee date site chosen taken [] db = (err full, db)
    try_spots tenant employee date site chosen taken (s ∷ rest) db =
        elim (try_spot tenant employee date site chosen taken s db) [
          | done r last ↦ (r, last)
          | go_on next ↦ try_spots tenant employee date site chosen taken rest next
        ]

    -- `book`
    unfoldable pub book : ℕ → ℕ → ℕ → ℕ → Option ℕ → Db → Result Error Booked × Db
    book tenant employee date site spot db = elim (book_checks tenant employee date site spot db) [
      | err e ↦ (err e, db)
      | ok order ↦
          try_spots tenant employee date site (is_some spot) (taken_spots tenant site date db) order
            db
    ]

    -- The loop of `bookMany` over the days, with the lists of what was booked and what failed.
    unfoldable pub book_days :
        ℕ
        → ℕ
        → ℕ
        → Option ℕ
        → List ℕ
        → List Booked
        → List (ℕ × Error)
        → Db
        → Result Error (List Booked × List (ℕ × Error)) × Db
    book_days tenant employee site spot [] booked failed db = (ok (booked, failed), db)
    book_days tenant employee site spot (date ∷ days) booked failed db =
        let r = book tenant employee date site spot db in
        elim r.0 [
          | ok b ↦ book_days tenant employee site spot days (booked ++ b ∷ []) failed r.1
          | err e ↦ elim (is_http e) [
            | true ↦ book_days tenant employee site spot days booked (failed ++ (date, e) ∷ []) r.1
            | false ↦ (err e, r.1)
          ]
        ]

    -- What `bookMany` checks for the whole request.
    unfoldable pub book_many_checks : ℕ → ℕ → ℕ → List ℕ → Db → Result Error (Unit {0})
    book_many_checks tenant employee site dates db = do
      e ← person tenant employee db
      s ← active_site tenant site db
      require
          (not (
            is_user e.parking_role
            && ltb max_active (
                length (filter (active_booking tenant employee (today_at s)) db.bookings)
                + length (request_days dates))))
          limit

    -- `bookMany`
    unfoldable pub book_many :
        ℕ → ℕ → ℕ → List ℕ → Option ℕ → Db → Result Error (List Booked × List (ℕ × Error)) × Db
    book_many tenant employee site dates spot db =
        elim (book_many_checks tenant employee site dates db) [
          | err e ↦ (err e, db)
          | ok _ ↦ book_days tenant employee site spot (request_days dates) [] [] db
        ]

  -- `siteZones` at one site, with its default.
  abbrev pub zone_of : ℕ → ℕ → Db → String
  zone_of tenant site db = elim (find (λ s. s.id == site && s.tenant == tenant) db.sites) [
    | none ↦ "UTC"
    | some s ↦ s.timezone
  ]

  abbrev pub today_in : ℕ → ℕ → Db → ℕ
  today_in tenant site db = (local_day env.intl (zone_of tenant site db) env.now).date

  -- `cancel`; with no employee it is the console that cancels.
  unfoldable pub cancel : ℕ → Option ℕ → ℕ → Db → Result Error ParkingBooking × Db
  cancel tenant employee id db =
      let mine = λ (b : ParkingBooking).
        b.id == id
        && (b.tenant == tenant && elim employee [ none ↦ true | some e ↦ b.employee == e ]) in
      elim (find mine db.bookings) [
        | none ↦ (err not_found, db)
        | some b ↦
            if ltb b.date (today_in tenant b.site db)
            then (err day_past, db)
            else (ok b, record db { bookings = filter (λ c. not (c.id == b.id)) db.bookings })
      ]
