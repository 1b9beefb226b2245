-- ===== src/Parking/Unique.antt =====
-- The unique indexes of the bookings, as an invariant of every operation in any order.
use digitalreception.Base.{
  ℕ, ◌≡◌, refl, Bool, false, List, [], ◌∷◌, Option, some, arith, filter, any,
}
use digitalreception.Parking.Store.{
  ParkingBooking, Db, Env, clashes, insert_booking, insert_booking-some,
}
use digitalreception.Parking.Keeps.{IsInvariant, Op, run, run-keeps, book-keeps}
use digitalreception.Parking.Booking.{book}

-- No two bookings share a spot and a day, nor a person and a day.
abbrev Distinct : List ParkingBooking → Type 0
Distinct [] = Unit {0}
Distinct (b ∷ bs) = (any (clashes b) bs ≡ false) × Distinct bs

abbrev pub IsUnique : Db → Type 0
IsUnique db = Distinct db.bookings

any-filter-false {ℓ} :
    {A : Type ℓ} (p q : A → Bool) (xs : List A) → any p xs ≡ false → any p (filter q xs) ≡ false
any-filter-false p q [] h = refl
any-filter-false p q (x ∷ xs) h = ground (arith, any-filter-false p q xs)

Distinct-filter :
    (q : ParkingBooking → Bool) (bs : List ParkingBooking) → Distinct bs → Distinct (filter q bs)
Distinct-filter q [] h = tt
Distinct-filter q (b ∷ bs) h =
    ground (arith, any-filter-false (clashes b) q bs, Distinct-filter q bs h.1)

insert_booking-IsUnique :
    (b : ParkingBooking) (db saved : Db)
    → insert_booking b db ≡ some saved
    → IsUnique db
    → IsUnique saved
insert_booking-IsUnique b db saved e h =
    let (fresh, new) = insert_booking-some b db saved e in rw new (fresh, h)

pub IsUnique-invariant : IsInvariant IsUnique
IsUnique-invariant = record {
  inserts = insert_booking-IsUnique;
  deletes = λ q db h. Distinct-filter q db.bookings h;
  dates = λ ws db h. h;
}

-- From tables where it holds, whatever operations run, in whatever order and at whatever times: no
-- spot is booked twice for a day, and nobody holds two bookings on a day.
pub run-IsUnique : (ops : List (Env × Op)) (db : Db) → IsUnique db → IsUnique (run ops db)
run-IsUnique = run-keeps IsUnique-invariant

-- A booking request, too, leaves no spot booked twice for a day and nobody with two bookings on a
-- day, when that holds before and the requests that commit between its steps keep it so.
pub book-IsUnique :
    (env : Env) (others : Db → Db) (tenant employee date site : ℕ) (spot : Option ℕ) (db : Db)
    → ((d : Db) → IsUnique d → IsUnique (others d))
    → IsUnique db
    → IsUnique (book env others tenant employee date site spot db).1
book-IsUnique env others tenant employee date site spot db keep h =
    book-keeps IsUnique-invariant env others keep tenant employee date site spot db h
