-- ===== src/Parking/Booking/Choice.antt =====
-- Which spot `book` takes (parking.service.ts), with no request between its steps.
use digitalreception.Base.{
  ℕ, ◌≤◌, ◌<◌, ◌≡◌, refl, sym, ◌∙◌, subst, subst₂, ◌⊎◌, inl, inr, arith, Bool, true, false, ◌&&◌,
  List, [], ◌∷◌, Option, none, some, ◌==◌, is_some, filter, find, find_sound, find-In, contains,
  length, sort_by, Option-cases, In, All, All-In, In-filter, Result, ok, err, Result-cases,
  ok-injective, In-parts, In-parts_of,
}
use digitalreception.Parking.Rules.{max_active}
use digitalreception.Parking.Store.{ParkingSpot, Employee, Site, Db, Env, is_user, active_booking}
use digitalreception.Parking.Booking.{
  Error, full, Booked, person, active_site, site_spots, taken_spots, fixed_of_other, new_booking,
  today_at, spot_before, spots_to_try, book_checks, book,
}
use digitalreception.Parking.Booking.Contract.{
  In-sort_by, free_in, AtSite, first_free, try_spots_lem, book_checks-Checked,
}

-- Every booking of a spot is recorded at the site of the spot.
abbrev pub IsPlaced : ℕ → Db → Type 0
IsPlaced tenant db = All (λ s. AtSite tenant s db.bookings) db.spots

All-of : {A : Type 0} (P : A → Type 0) (xs : List A) → ((a : A) → In a xs → P a) → All P xs
All-of P [] h = tt
All-of P (x ∷ xs) h = (h x (inl refl), All-of P xs (λ a m. h a (inr m)))

find-none :
    {A : Type 0} (p : A → Bool) (xs : List A) (a : A) → find p xs ≡ none → In a xs → p a ≡ false
find-none p [] a h m = elim m [ ]
find-none p (x ∷ xs) a h m = ground (arith, find-none p xs a)

module _ (env : Env) (tenant employee date site : ℕ) where
  abbrev busy : Db → ParkingSpot → Bool
  busy db s = contains s.id (taken_spots tenant site date db)

  -- A chosen spot is tried alone.
  tries_chosen :
      (e : Employee) (id : ℕ) (db : Db) (order : List ParkingSpot)
      → spots_to_try env tenant e site date (some id) db ≡ ok order
      → (c : ParkingSpot) × (find
            (λ s. s.id == id)
            (sort_by (spot_before env e) (site_spots tenant site db))
          ≡ some c)
        × (busy db c ≡ false)
        × (order ≡ c ∷ [])
  unfolding spots_to_try
  tries_chosen e id db order h =
      elim (Option-cases
        (find (λ s. s.id == id) (sort_by (spot_before env e) (site_spots tenant site db)))) [
          | inl missing ↦ absurd (ground (arith, missing))
          | inr (c, found) ↦ (c, found, ground (arith, found), ground (arith, found))
        ]

  -- The order holds spots of the site only, and all of them when none is chosen.
  tries_sound :
      (e : Employee) (spot : Option ℕ) (db : Db) (order : List ParkingSpot) (s : ParkingSpot)
      → spots_to_try env tenant e site date spot db ≡ ok order
      → In s order
      → In s (site_spots tenant site db)
  unfolding spots_to_try
  tries_sound e none db order s h m =
      let spots = site_spots tenant site db in
      (In-sort_by (spot_before env e) spots s).0 (
        In-parts (fixed_of_other tenant e.id db) (sort_by (spot_before env e) spots) s
          (subst (In s) (sym (ok-injective h)) m))
  tries_sound e (some id) db order s h m =
      let (c, found, _, one) = tries_chosen e id db order h in
      let same : s ≡ c = ground (arith, subst (In s) one m) in
      rw same (
        (In-sort_by (spot_before env e) (site_spots tenant site db) c).0
          (find-In (λ x. x.id == id) _ c found))

  tries_complete :
      (e : Employee) (db : Db) (order : List ParkingSpot) (s : ParkingSpot)
      → spots_to_try env tenant e site date none db ≡ ok order
      → In s (site_spots tenant site db)
      → In s order
  unfolding spots_to_try
  tries_complete e db order s h m =
      let spots = site_spots tenant site db in
      subst (In s) (ok-injective h) (
        In-parts_of (fixed_of_other tenant e.id db) (sort_by (spot_before env e) spots) s
          ((In-sort_by (spot_before env e) spots s).1 m))

  order-AtSite :
      (e : Employee) (spot : Option ℕ) (db : Db) (order : List ParkingSpot)
      → IsPlaced tenant db
      → spots_to_try env tenant e site date spot db ≡ ok order
      → All (λ s. (s.site ≡ site) × AtSite tenant s db.bookings) order
  order-AtSite e spot db order placed h = All-of _ order λ s m.
      let (row, ok_row) =
        In-filter (λ x. x.tenant == tenant && (x.site == site && x.active)) db.spots s
          (tries_sound e spot db order s h m) in
      (ground (arith, ok_row), All-In (λ x. AtSite tenant x db.bookings) db.spots s placed row)

  -- Once its checks pass, `book` takes the first free spot of its order, or says that all are
  -- taken and changes nothing.
  book-first_free :
      (spot : Option ℕ) (db : Db) (order : List ParkingSpot)
      → IsPlaced tenant db
      → book_checks env tenant employee date site spot db ≡ ok order
      → book env (λ d. d) tenant employee date site spot db
        ≡ first_free env tenant employee date site spot order db
  unfolding book
  book-first_free spot db order placed h =
      let c = book_checks-Checked env tenant employee date site spot db order h in
      rw (book, h)
        (try_spots_lem env tenant employee date site spot (is_some spot) order db
          (order-AtSite c.who spot db order placed c.tries) c.free_day)

  -- The result for a spot.
  abbrev pub booked_on : ParkingSpot → Db → Result Error Booked × Db
  booked_on s db = (
    ok (record { id = env.new_id db.bookings; date = date; spot = s.code; note = s.note }),
    record db { bookings = new_booking env tenant employee date site s db ∷ db.bookings },
  )

  -- With no spot asked for, no other request beside and the tenant's bookings recorded at the sites
  -- of their spots, once the checks pass: either an active spot of the site that is free that day
  -- is booked, and nothing else changes, or all of them are taken and nothing changes.
  pub book_any_spot :
      (db : Db) (order : List ParkingSpot)
      → IsPlaced tenant db
      → book_checks env tenant employee date site none db ≡ ok order
      → ((s : ParkingSpot) × In s (site_spots tenant site db)
          × (busy db s ≡ false)
          × (book env (λ d. d) tenant employee date site none db ≡ booked_on s db))
        ⊎ ((book env (λ d. d) tenant employee date site none db ≡ (err full, db))
            × ((s : ParkingSpot) → In s (site_spots tenant site db) → busy db s ≡ true))
  book_any_spot db order placed h =
      let c = book_checks-Checked env tenant employee date site none db order h in
      let free = free_in (taken_spots tenant site date db) in
      elim (Option-cases (find free order)) [
        | inr (s, e) ↦ inl (
          s,
          tries_sound c.who none db order s c.tries (find-In free order s e),
          ground (arith, find_sound free order s e),
          book-first_free none db order placed h ∙ (rw (first_free, e)),
        )
        | inl e ↦ inr (
          book-first_free none db order placed h ∙ (rw (first_free, e)),
          λ s m.
              ground (arith, find-none free order s e (tries_complete c.who db order s c.tries m)),
        )
      ]

  book_outcome :
      (spot : Option ℕ) (db : Db) (order : List ParkingSpot)
      → IsPlaced tenant db
      → book_checks env tenant employee date site spot db ≡ ok order
      → (book env (λ d. d) tenant employee date site spot db ≡ (err full, db))
        ⊎ ((s : ParkingSpot) × (book env (λ d. d) tenant employee date site spot db
              ≡ booked_on s db))
  book_outcome spot db order placed h =
      let same = book-first_free spot db order placed h in
      elim (Option-cases (find (free_in (taken_spots tenant site date db)) order)) [
        | inr (s, e) ↦ inr (s, same ∙ (rw (first_free, e)))
        | inl e ↦ inl (same ∙ (rw (first_free, e)))
      ]

  book-err :
      (spot : Option ℕ) (db : Db) (x : Error)
      → book_checks env tenant employee date site spot db ≡ err x
      → book env (λ d. d) tenant employee date site spot db ≡ (err x, db)
  unfolding book
  book-err spot db x h = rw (book, h)

  -- When no other request runs beside and the tenant's bookings stand at the sites of their spots,
  -- a standard user who holds at most four bookings from today on, by the site's clock, holds at
  -- most four after `book`.
  pub book_limit :
      (spot : Option ℕ) (db : Db) (e : Employee) (s : Site)
      → IsPlaced tenant db
      → person tenant employee db ≡ ok e
      → active_site tenant site db ≡ ok s
      → is_user e.parking_role ≡ true
      → length (filter (active_booking tenant employee (today_at env s)) db.bookings) ≤ max_active
      → length (
          filter
            (active_booking tenant employee (today_at env s))
            (book env (λ d. d) tenant employee date site spot db).1.bookings)
        ≤ max_active
  book_limit spot db e s placed p q u h =
      elim (Result-cases (book_checks env tenant employee date site spot db)) [
        | inr (x, bad) ↦ rw (book-err spot db x bad) h
        | inl (order, good) ↦
            let c = book_checks-Checked env tenant employee date site spot db order good in
            let who : c.who ≡ e = ok-injective {E = Error} (sym c.allowed ∙ p) in
            let at : c.where_at ≡ s = ok-injective {E = Error} (sym c.open_site ∙ q) in
            let under =
              subst₂
                (λ (y : Employee) (t : Site).
                  is_user y.parking_role ≡ true
                  → length (filter (active_booking tenant employee (today_at env t)) db.bookings)
                    < max_active)
                who at c.under_limit u in
            elim (book_outcome spot db order placed good) [
              | inl same ↦ rw same h
              | inr (x, more) ↦ rw more (ground (arith, under))
            ]
      ]
