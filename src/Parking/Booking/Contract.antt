-- ===== src/Parking/Booking/Contract.antt =====
-- What `book` and `bookMany` promise (parking.service.ts), with no request in between.
use digitalreception.Base.{
  ℕ, ◌<◌, ◌≡◌, refl, ◌⊎◌, inl, inr, ◌↔◌, arith, Bool, true, false, not, ◌&&◌, List, [], ◌∷◌, Option,
  none, some, ◌==◌, filter, any, find, contains, length, map, sort_by, insert_by, Bool-cases, In,
  All, Result, ok, err, Result-cases,
}
use digitalreception.Parking.Rules.{bookable_days, max_active}
use digitalreception.Parking.Store.{
  ParkingSpot, ParkingBooking, manual, Employee, Site, Db, Env, clashes, insert_booking-fresh,
  has_booking, is_user, active_booking,
}
use digitalreception.Parking.Booking.{
  Error, full, Booked, done, go_on, person, active_site, taken_spots, new_booking, today_at,
  spots_to_try, book_checks, try_spot, try_spots,
}

-- Sorting keeps the elements.
module _ {A : Type 0} (before : A → A → Bool) where
  In-insert_by : (x : A) (xs : List A) (a : A) → In a (insert_by before x xs) ↔ ((a ≡ x) ⊎ In a xs)
  In-insert_by x [] a = (λ h. h, λ h. h)
  In-insert_by x (y ∷ ys) a = ground (arith, In-insert_by x ys a)

  pub In-sort_by : (xs : List A) (a : A) → In a (sort_by before xs) ↔ In a xs
  In-sort_by [] a = (λ h. h, λ h. h)
  In-sort_by (x ∷ xs) a = ground (arith, In-insert_by x (sort_by before xs) a, In-sort_by xs a)

-- A free spot, for the list of those taken.
abbrev pub free_in : List ℕ → ParkingSpot → Bool
free_in taken s = not (contains s.id taken)

-- Bookings are at the site of their spot.
abbrev pub AtSite : ℕ → ParkingSpot → List ParkingBooking → Type 0
AtSite tenant s [] = Unit {0}
AtSite tenant s (b ∷ bs) =
    (b.tenant ≡ tenant → b.spot ≡ s.id → b.site ≡ s.site) × AtSite tenant s bs

module _ (env : Env) (tenant employee date site : ℕ) (spot : Option ℕ) where
  abbrev pub taken : Db → List ℕ
  taken db = taken_spots tenant site date db

  -- A spot that is not among those taken, for a person with no booking, is inserted.
  pub no_clash :
      (s : ParkingSpot) (id : ℕ) (bs : List ParkingBooking)
      → s.site ≡ site
      → AtSite tenant s bs
      → contains s.id (
          map
            (λ b. b.spot)
            (filter (λ b. b.tenant == tenant && (b.site == site && b.date == date)) bs))
        ≡ false
      → any (λ b. b.tenant == tenant && (b.employee == employee && b.date == date)) bs ≡ false
      → any
          (clashes (record {
            id = id;
            tenant = tenant;
            site = site;
            spot = s.id;
            employee = employee;
            date = date;
            source = manual;
          }))
          bs
        ≡ false
  no_clash s id [] at ats free mine = refl
  no_clash s id (b ∷ bs) at ats free mine = ground (arith, no_clash s id bs at ats.1)

  -- The outcome for a list of spots: the first free one, or none.
  abbrev pub first_free : List ParkingSpot → Db → Result Error Booked × Db
  first_free order db = elim (find (free_in (taken db)) order) [
    | none ↦ (err full, db)
    | some s ↦ (
      ok (record { id = env.new_id db.bookings; date = date; spot = s.code; note = s.note }),
      record db { bookings = new_booking env tenant employee date site s db ∷ db.bookings },
    )
  ]

  try_spot_free :
      (chosen : Bool) (s : ParkingSpot) (db : Db)
      → s.site ≡ site
      → AtSite tenant s db.bookings
      → contains s.id (taken db) ≡ false
      → has_booking tenant employee date db.bookings ≡ false
      → try_spot env (λ d. d) tenant employee date site chosen (taken db) s db
        ≡ done
            (ok (record { id = env.new_id db.bookings; date = date; spot = s.code; note = s.note }))
            (record db { bookings = new_booking env tenant employee date site s db ∷ db.bookings })
  unfolding try_spot has_booking
  try_spot_free chosen s db at ats free mine =
      let fresh =
        insert_booking-fresh (new_booking env tenant employee date site s db) db
          (no_clash s (env.new_id db.bookings) db.bookings at ats free mine) in
      rw (try_spot, free, fresh)

  try_spot-taken :
      (chosen : Bool) (s : ParkingSpot) (db : Db)
      → contains s.id (taken db) ≡ true
      → try_spot env (λ d. d) tenant employee date site chosen (taken db) s db ≡ go_on db
  unfolding try_spot
  try_spot-taken chosen s db h = rw (try_spot, h)

  pub try_spots_lem :
      (chosen : Bool) (order : List ParkingSpot) (db : Db)
      → All (λ s. (s.site ≡ site) × AtSite tenant s db.bookings) order
      → has_booking tenant employee date db.bookings ≡ false
      → try_spots env (λ d. d) tenant employee date site chosen (taken db) order db
        ≡ first_free order db
  unfolding try_spots
  try_spots_lem chosen [] db ats mine = refl
  try_spots_lem chosen (s ∷ rest) db ats mine = elim (Bool-cases (contains s.id (taken db))) [
    | inl busy ↦
        ground (arith, try_spot-taken chosen s db busy, try_spots_lem chosen rest db ats.1 mine)
    | inr free ↦ ground (arith, try_spot_free chosen s db ats.0.0 ats.0.1 free mine)
  ]

  -- What the checks have established when `book` goes on to write.
  pub record Checked (db : Db) (order : List ParkingSpot) : Type 0 where
    pub who : Employee
    pub where_at : Site
    pub allowed : person tenant employee db ≡ ok who
    pub open_site : active_site tenant site db ≡ ok where_at
    pub open_day : contains date (bookable_days env.intl where_at.timezone env.now) ≡ true
    pub free_day : has_booking tenant employee date db.bookings ≡ false
    pub under_limit :
        is_user who.parking_role ≡ true
        → length (filter (active_booking tenant employee (today_at env where_at)) db.bookings)
          < max_active
    pub tries : spots_to_try env tenant who site date spot db ≡ ok order

  pub book_checks-Checked :
      (db : Db) (order : List ParkingSpot)
      → book_checks env tenant employee date site spot db ≡ ok order
      → Checked db order
  unfolding book_checks
  book_checks-Checked db order h = elim (Result-cases (person tenant employee db)) [
    | inr (e, p) ↦ absurd (ground (arith, p))
    | inl (e, p) ↦ elim (Result-cases (active_site tenant site db)) [
      | inr (x, q) ↦ absurd (ground (arith, p, q))
      | inl (s, q) ↦ record {
        who = e;
        where_at = s;
        allowed = p;
        open_site = q;
        open_day = ground (arith, p, q);
        free_day = ground (arith, p, q);
        under_limit = λ u. ground (arith, p, q);
        tries = ground (arith, p, q);
      }
    ]
  ]
