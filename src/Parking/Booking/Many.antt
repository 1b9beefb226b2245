-- ===== src/Parking/Booking/Many.antt =====
-- `bookMany` (parking.service.ts): every requested day comes back once, booked or failed.
use digitalreception.Base.{
  ℕ, ◌+◌, ◌<◌, ◌≡◌, ◌⊎◌, inl, inr, ◌↔◌, arith, Bool, true, List, [], ◌∷◌, ◌++◌, map, Option, ltb,
  is_some, contains-In, dedup, dedup_from, length, length-append, filter, Bool-cases, In, ok, err,
  Result-cases,
}
use digitalreception.Parking.Rules.{max_active}
use digitalreception.Parking.Store.{ParkingSpot, Db, Env, Employee, Site, is_user, active_booking}
use digitalreception.Parking.Booking.{
  Error, Booked, person, active_site, today_at, is_http, limit, try_spot, try_spots, book,
  book_days, request_days, book_many_checks, book_many, taken_spots,
}
use digitalreception.Parking.Booking.Contract.{In-sort_by}

In-dedup_from :
    (seen xs : List ℕ) (d : ℕ) → (In d (dedup_from seen xs) ⊎ In d seen) ↔ (In d xs ⊎ In d seen)
In-dedup_from seen [] d = (λ h. h, λ h. h)
In-dedup_from seen (x ∷ xs) d =
    ground (arith, contains-In x seen, In-dedup_from seen xs d, In-dedup_from (x ∷ seen) xs d)

pub In-dedup : (xs : List ℕ) (d : ℕ) → In d (dedup xs) ↔ In d xs
In-dedup xs d = ground (arith, In-dedup_from [] xs d)

In-map_snoc :
    {A : Type 0} (f : A → ℕ) (xs : List A) (x : A) (d : ℕ)
    → In d (map f (xs ++ x ∷ [])) ↔ (In d (map f xs) ⊎ (d ≡ f x))
In-map_snoc f [] x d = ground arith
In-map_snoc f (y ∷ ys) x d = ground (arith, In-map_snoc f ys x d)

module _ (env : Env) (others : Db → Db) (tenant employee site : ℕ) (spot : Option ℕ) where
  try_spots-date :
      (date : ℕ) (chosen : Bool) (taken : List ℕ) (order : List ParkingSpot) (db : Db) (b : Booked)
      → (try_spots env others tenant employee date site chosen taken order db).0 ≡ ok b
      → b.date ≡ date
  unfolding try_spots try_spot
  try_spots-date date chosen taken [] db b h = cc
  try_spots-date date chosen taken (s ∷ rest) db b h =
      grind (arith, try_spots-date date chosen taken rest)

  book-date :
      (date : ℕ) (db : Db) (b : Booked)
      → (book env others tenant employee date site spot db).0 ≡ ok b
      → b.date ≡ date
  unfolding book
  book-date date db b h =
      grind (arith, try_spots-date date (is_some spot) (taken_spots tenant site date db))

  -- A day is among those that a request has dealt with.
  abbrev pub Reported : ℕ → List Booked × List (ℕ × Error) → Type 0
  Reported d r = In d (map (λ b. b.date) r.0) ⊎ In d (map (λ f. f.0) r.1)

  book_days-Reported :
      (days : List ℕ) (booked : List Booked) (failed : List (ℕ × Error)) (db : Db)
      (r : List Booked × List (ℕ × Error)) (d : ℕ)
      → (book_days env others tenant employee site spot days booked failed db).0 ≡ ok r
      → (Reported d r ↔ (In d days ⊎ Reported d (booked, failed)))
        × (length r.0 + length r.1 ≡ length days + (length booked + length failed))
  unfolding book_days
  book_days-Reported [] booked failed db r d h = ground arith
  book_days-Reported (day ∷ days) booked failed db r d h =
      let next = (book env others tenant employee day site spot db).1 in
      elim (Result-cases (book env others tenant employee day site spot db).0) [
        | inl (b, e) ↦ ground (
          arith,
          book-date day db b e,
          In-map_snoc (λ x. x.date) booked b d,
          length-append booked (b ∷ []),
          book_days-Reported days (booked ++ b ∷ []) failed next r d (ground (arith, e)),
        )
        | inr (x, e) ↦ elim (Bool-cases (is_http x)) [
          | inl http ↦ ground (
            arith,
            In-map_snoc (λ y. y.0) failed (day, x) d,
            length-append failed ((day, x) ∷ []),
            book_days-Reported days booked (failed ++ (day, x) ∷ []) next r d (ground (arith, e)),
          )
          | inr bad ↦ absurd (ground (arith, e))
        ]
      ]

  -- When `bookMany` answers, its lists report exactly the days that were asked for, and as many
  -- entries as there are different days, whatever other requests do in the meantime.
  pub book_many_partition :
      (dates : List ℕ) (db : Db) (r : List Booked × List (ℕ × Error))
      → (book_many env others tenant employee site dates spot db).0 ≡ ok r
      → ((d : ℕ) → Reported d r ↔ In d dates)
        × (length r.0 + length r.1 ≡ length (request_days dates))
  unfolding book_many
  book_many_partition dates db r h =
      let started : (book_days env others tenant employee site spot (request_days dates) [] [] db).0
          ≡ ok r =
        ground arith in
      let facts = λ (d : ℕ). book_days-Reported (request_days dates) [] [] db r d started in
      (
        λ d. ground (arith, facts d, In-sort_by ltb (dedup dates) d, In-dedup dates d),
        ground (arith, facts 0),
      )

  -- A standard user who asks, at an active site, for more days than the limit leaves is refused as
  -- a whole: nothing is booked.
  pub book_many_limit :
      (dates : List ℕ) (db : Db) (e : Employee) (s : Site)
      → person tenant employee db ≡ ok e
      → active_site tenant site db ≡ ok s
      → is_user e.parking_role ≡ true
      → max_active
        < length (filter (active_booking tenant employee (today_at env s)) db.bookings)
          + length (request_days dates)
      → book_many env others tenant employee site dates spot db ≡ (err limit, db)
  unfolding book_many book_many_checks
  book_many_limit dates db e s p q u h = ground (arith, p, q, u, h)
