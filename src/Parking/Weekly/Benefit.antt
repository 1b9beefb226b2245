-- ===== src/Parking/Weekly/Benefit.antt =====
-- Changes of benefit (parking.service.ts, `benefitChanged`).
use digitalreception.Base.{
  ℕ, ◌==◌, ◌&&◌, ◌≡◌, inl, inr, arith, false, not, List, [], ◌∷◌, map, some, find, filter, contains,
  In, In-filter, In-filter_of, In-contains, ok, Bool-cases,
}
use digitalreception.Parking.Store.{ParkingBooking, Employee, Db, Env, is_manager}
use digitalreception.Parking.Weekly.{future_auto, benefit_changed}

In-map : {A : Type 0} (f : A → ℕ) (xs : List A) (a : A) → In a xs → In (f a) (map f xs)
In-map f [] a m = elim m [ ]
In-map f (x ∷ xs) a m = ground (arith, In-map f xs a)

module _ (env : Env) (tenant employee : ℕ) where
  -- The identifiers of the weekly bookings from today on.
  abbrev pub dropped_ids : Db → List ℕ
  dropped_ids db = map (λ b. b.id) (filter (future_auto env tenant employee db) db.bookings)

  benefit_lost_lem :
      (db : Db) (e : Employee)
      → find (λ x. x.id == employee && x.tenant == tenant) db.employees ≡ some e
      → is_manager e.parking_role ≡ false
      → benefit_changed env tenant employee db ≡ (
        ok tt,
        record db { bookings = filter (λ b. not (contains b.id (dropped_ids db))) db.bookings },
      )
  unfolding benefit_changed
  benefit_lost_lem db e found lost = rw (benefit_changed, found, lost)

  -- Who is no longer a manager keeps no weekly booking from today on; every booking whose
  -- identifier is not that of such a booking stays.
  pub benefit_lost :
      (db : Db) (e : Employee) (b : ParkingBooking)
      → find (λ x. x.id == employee && x.tenant == tenant) db.employees ≡ some e
      → is_manager e.parking_role ≡ false
      → (In b (benefit_changed env tenant employee db).1.bookings
          → future_auto env tenant employee db b ≡ false)
        × (In b db.bookings
            → contains b.id (dropped_ids db) ≡ false
            → In b (benefit_changed env tenant employee db).1.bookings)
  benefit_lost db e b found lost =
      let stays = λ (x : ParkingBooking). not (contains x.id (dropped_ids db)) in
      rw (benefit_lost_lem db e found lost) (
        λ m.
            let (row, kept) = In-filter stays db.bookings b m in
            elim (Bool-cases (future_auto env tenant employee db b)) [
              | inr no_auto ↦ no_auto
              | inl auto ↦ absurd (
                  ground (
                    arith,
                    kept,
                    In-contains b.id (dropped_ids db) (
                        In-map (λ x. x.id) _ b
                          (In-filter_of (future_auto env tenant employee db) db.bookings b row
                            auto)),
                  ))
            ],
        λ m fresh. In-filter_of stays db.bookings b m (rw fresh),
      )
