-- ===== src/Parking/Weekly.antt =====
-- api/src/parking/parking.service.ts: the weekly job for the managers' fixed spots, and the changes
-- of benefit and of spots that touch bookings.
pub mod Once
pub mod Benefit
use digitalreception.Base.{
  ℕ, ◌+◌, Bool, true, false, ◌&&◌, not, List, [], ◌∷◌, ◌++◌, map, Option, none, some, ◌==◌, leb,
  if◌then◌else◌, filter, find, update, contains, dedup, Result, ok, err,
}
use digitalreception.Parking.Rules.{monday_of, working_days, next_monday}
use digitalreception.Parking.Store.{
  ParkingSpot, ParkingBooking, ParkingWeek, auto, Employee, Site, Tenant, Db, Env, has_parking,
  is_manager, is_auto, insert_booking, insert_week,
}
use digitalreception.Parking.Booking.{Error, no_entity, today_in}

-- `flatMap(workingDays)`
pub days_of : List ℕ → List ℕ
days_of [] = []
days_of (monday ∷ rest) = working_days monday ++ days_of rest

-- A tenant's active spots, and its active sites that have one.
abbrev pub spots_of : Tenant → Db → List ParkingSpot
spots_of t db = filter (λ s. s.tenant == t.id && s.active) db.spots

abbrev pub sites_of : Tenant → Db → List Site
sites_of t db =
    filter
      (λ s.
        s.tenant == t.id && (contains s.id (dedup (map (λ p. p.site) (spots_of t db))) && s.active))
      db.sites

-- The tenants with the parking app: all, or the one named.
abbrev pub parking_tenants : Option ℕ → Db → List Tenant
parking_tenants only db =
    filter (λ t. elim only [ none ↦ true | some id ↦ t.id == id ] && has_parking t.apps) db.tenants

module _ (env : Env) where
  -- One insert for each day; a duplicate is skipped and not counted.
  unfoldable pub book_days_of : ℕ → ℕ → ℕ → ℕ → List ℕ → Db → ℕ × Db
  book_days_of tenant site spot employee [] db = (0, db)
  book_days_of tenant site spot employee (date ∷ days) db =
      let b : ParkingBooking = record {
        id = env.new_id db.bookings;
        tenant = tenant;
        site = site;
        spot = spot;
        employee = employee;
        date = date;
        source = auto;
      } in
      elim (insert_booking b db) [
        | none ↦ book_days_of tenant site spot employee days db
        | some saved ↦
            let (n, last) = book_days_of tenant site spot employee days saved in (n + 1, last)
      ]

  -- The managers that `bookManagers` loads: active, with one of the spots.
  abbrev pub managers_of : ℕ → List ParkingSpot → Option ℕ → Db → List Employee
  managers_of tenant spots only db =
      filter
        (λ m.
          m.tenant == tenant
          && (m.active
              && (is_manager m.parking_role
                  && (elim m.parking_spot [
                    | none ↦ false
                    | some s ↦ contains s (map (λ p. p.id) spots)
                  ]
                      && elim only [ none ↦ true | some id ↦ m.id == id ]))))
        db.employees

  -- One manager of the loop; one whose parking is turned off is skipped.
  unfoldable pub book_manager : ℕ → ℕ → List ℕ → Employee → Db → ℕ × Db
  book_manager tenant site days m db =
      elim (if has_parking m.apps_off then none else m.parking_spot) [
        | none ↦ (0, db)
        | some spot ↦ book_days_of tenant site spot m.id days db
      ]

  unfoldable pub book_each : ℕ → ℕ → List ℕ → List Employee → Db → ℕ × Db
  book_each tenant site days [] db = (0, db)
  book_each tenant site days (m ∷ ms) db =
      let (n, next) = book_manager tenant site days m db in
      let (k, last) = book_each tenant site days ms next in (n + k, last)

  -- `bookManagers`
  unfoldable pub book_managers : ℕ → ℕ → List ParkingSpot → List ℕ → Option ℕ → Db → ℕ × Db
  unfolding book_each
  book_managers tenant site spots days only db =
      book_each tenant site days (managers_of tenant spots only db) db

  -- The transaction of `weekly` for one site.
  unfoldable pub weekly_site : ℕ → List ParkingSpot → Site → Db → ℕ × Db
  weekly_site tenant spots site db =
      let monday = next_monday env.intl site.timezone env.now in
      let week : ParkingWeek = record {
        tenant = tenant;
        site = site.id;
        monday = monday;
        booked = 0;
      } in
      elim (insert_week week db) [
        | none ↦ (0, db)
        | some started ↦
            let (n, done) =
              book_managers tenant site.id (filter (λ s. s.site == site.id) spots)
                (working_days monday) none started in
            (
              n,
              record done {
                weeks =
                    update (λ w. w.tenant == tenant && (w.site == site.id && w.monday == monday))
                      (λ w. record w { booked = n }) done.weeks;
              },
            )
      ]

  unfoldable pub weekly_sites : ℕ → List ParkingSpot → List Site → Db → ℕ × Db
  weekly_sites tenant spots [] db = (0, db)
  weekly_sites tenant spots (site ∷ sites) db =
      let (n, next) = weekly_site tenant spots site db in
      let (k, last) = weekly_sites tenant spots sites next in (n + k, last)

  unfoldable pub weekly_tenants : List Tenant → Db → ℕ × Db
  weekly_tenants [] db = (0, db)
  weekly_tenants (t ∷ ts) db =
      let (n, next) = weekly_sites t.id (spots_of t db) (sites_of t db) db in
      let (k, last) = weekly_tenants ts next in (n + k, last)

  -- `weekly`
  unfoldable pub weekly : Option ℕ → Db → ℕ × Db
  weekly only db = weekly_tenants (parking_tenants only db) db

  -- A person's weekly bookings from today on (at the site of each).
  abbrev pub future_auto : ℕ → ℕ → Db → ParkingBooking → Bool
  future_auto tenant employee db b =
      b.tenant == tenant
      && (b.employee == employee
          && (is_auto b.source && leb (today_in env tenant b.site db) b.date))

  -- The days a new fixed spot is booked for: this week's and those of the weeks handed out.
  abbrev pub days_handed_out : ℕ → ℕ → ℕ → Db → List ℕ
  days_handed_out tenant site today db =
      filter (λ d. leb today d)
        (dedup (
          days_of (
            monday_of today
            ∷ map (λ w. w.monday)
                (filter
                  (λ w. w.tenant == tenant && (w.site == site && leb (monday_of today) w.monday))
                  db.weeks))))

  -- `benefitChanged`
  unfoldable pub benefit_changed : ℕ → ℕ → Db → Result Error (Unit {0}) × Db
  benefit_changed tenant employee db =
      elim (find (λ e. e.id == employee && e.tenant == tenant) db.employees) [
        | none ↦ (err no_entity, db)
        | some e ↦
            let dropped = record db {
              bookings =
                  let ids = map (λ b. b.id) (filter (future_auto tenant employee db) db.bookings) in
                  filter (λ b. not (contains b.id ids)) db.bookings;
            } in
            elim (if is_manager e.parking_role then e.parking_spot else none) [
              | none ↦ (ok tt, dropped)
              | some id ↦
                  elim (find (λ s. s.id == id && (s.tenant == tenant && s.active)) db.spots) [
                    | none ↦ (ok tt, dropped)
                    | some spot ↦
                        let days =
                          days_handed_out tenant spot.site (today_in env tenant spot.site db) db in
                        (
                          ok tt,
                          (book_managers tenant spot.site (spot ∷ []) days (some e.id) dropped).1,
                        )
                  ]
            ]
      ]

  -- `spotOff`
  unfoldable pub spot_off : ℕ → ParkingSpot → Db → Db
  spot_off tenant spot db = record db {
    bookings =
        filter
          (λ b. not (
            b.tenant == tenant
            && (b.spot == spot.id && leb (today_in env tenant spot.site db) b.date)))
          db.bookings;
  }
