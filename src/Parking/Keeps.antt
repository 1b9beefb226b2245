-- ===== src/Parking/Keeps.antt =====
-- The invariant rule of the parking service: a property of the database that survives one insert,
-- a deletion of bookings and a change of the weeks survives every operation.
use digitalreception.Base.{ℕ, ◌≡◌, arith, Bool, List, [], ◌∷◌, Option, some, filter, is_some}
use digitalreception.Parking.Store.{
  ParkingSpot, ParkingBooking, ParkingWeek, Employee, Site, Tenant, Db, Env, insert_booking,
  insert_week,
}
use digitalreception.Parking.Booking.{
  Error, Booked, Attempt, done, go_on, try_spot, try_spots, book, book_days, book_many, cancel,
  taken_spots, request_days,
}
use digitalreception.Parking.Weekly.{
  book_days_of, book_manager, book_each, book_managers, weekly_site, weekly_sites, weekly_tenants,
  weekly, benefit_changed, spot_off,
}

-- What the database operations keep.
pub record IsInvariant (P : Db → Type 0) : Type 0 where
  pub inserts :
      (b : ParkingBooking) (db saved : Db) → insert_booking b db ≡ some saved → P db → P saved
  pub deletes :
      (q : ParkingBooking → Bool) (db : Db)
      → P db
      → P (record db { bookings = filter q db.bookings })
  pub dates : (ws : List ParkingWeek) (db : Db) → P db → P (record db { weeks = ws })

-- The database that an attempt leaves.
abbrev pub left : Attempt → Db
left (done r db) = db
left (go_on db) = db

module _ {P : Db → Type 0} (inv : IsInvariant P) (env : Env) (others : Db → Db)
    (keep : (db : Db) → P db → P (others db)) where
  try_spot-keeps :
      (tenant employee date site : ℕ) (chosen : Bool) (taken : List ℕ) (s : ParkingSpot) (db : Db)
      → P db
      → P (left (try_spot env others tenant employee date site chosen taken s db))
  unfolding try_spot
  try_spot-keeps tenant employee date site chosen taken s db h = grind (arith, keep, inv.inserts)

  try_spots-keeps :
      (tenant employee date site : ℕ) (chosen : Bool) (taken : List ℕ) (order : List ParkingSpot)
      (db : Db)
      → P db
      → P (try_spots env others tenant employee date site chosen taken order db).1
  unfolding try_spots
  try_spots-keeps tenant employee date site chosen taken [] db h = h
  try_spots-keeps tenant employee date site chosen taken (s ∷ rest) db h = grind (
    arith,
    try_spot-keeps tenant employee date site chosen taken s db h,
    try_spots-keeps tenant employee date site chosen taken rest,
  )

  pub book-keeps :
      (tenant employee date site : ℕ) (spot : Option ℕ) (db : Db)
      → P db
      → P (book env others tenant employee date site spot db).1
  unfolding book
  book-keeps tenant employee date site spot db h = grind (
    arith,
    try_spots-keeps tenant employee date site (is_some spot) (taken_spots tenant site date db),
  )

  book_days-keeps :
      (tenant employee site : ℕ) (spot : Option ℕ) (days : List ℕ) (booked : List Booked)
      (failed : List (ℕ × Error)) (db : Db)
      → P db
      → P (book_days env others tenant employee site spot days booked failed db).1
  unfolding book_days
  book_days-keeps tenant employee site spot [] booked failed db h = h
  book_days-keeps tenant employee site spot (date ∷ days) booked failed db h = grind (
    arith,
    book-keeps tenant employee date site spot db h,
    book_days-keeps tenant employee site spot days,
  )

  book_many-keeps :
      (tenant employee site : ℕ) (dates : List ℕ) (spot : Option ℕ) (db : Db)
      → P db
      → P (book_many env others tenant employee site dates spot db).1
  unfolding book_many
  book_many-keeps tenant employee site dates spot db h =
      grind (arith, book_days-keeps tenant employee site spot (request_days dates) [] [] db h)

module _ {P : Db → Type 0} (inv : IsInvariant P) (env : Env) where
  cancel-keeps :
      (tenant : ℕ) (employee : Option ℕ) (id : ℕ) (db : Db)
      → P db
      → P (cancel env tenant employee id db).1
  unfolding cancel
  cancel-keeps tenant employee id db h = grind (arith, inv.deletes)

  book_days_of-keeps :
      (tenant site spot employee : ℕ) (days : List ℕ) (db : Db)
      → P db
      → P (book_days_of env tenant site spot employee days db).1
  unfolding book_days_of
  book_days_of-keeps tenant site spot employee [] db h = h
  book_days_of-keeps tenant site spot employee (date ∷ days) db h =
      grind (arith, inv.inserts, book_days_of-keeps tenant site spot employee days)

  book_manager-keeps :
      (tenant site : ℕ) (days : List ℕ) (m : Employee) (db : Db)
      → P db
      → P (book_manager env tenant site days m db).1
  unfolding book_manager
  book_manager-keeps tenant site days m db h = grind (arith, book_days_of-keeps)

  book_each-keeps :
      (tenant site : ℕ) (days : List ℕ) (ms : List Employee) (db : Db)
      → P db
      → P (book_each env tenant site days ms db).1
  unfolding book_each
  book_each-keeps tenant site days [] db h = h
  book_each-keeps tenant site days (m ∷ ms) db h =
      book_each-keeps tenant site days ms _ (book_manager-keeps tenant site days m db h)

  weekly_site-keeps :
      (tenant : ℕ) (spots : List ParkingSpot) (site : Site) (db : Db)
      → P db
      → P (weekly_site env tenant spots site db).1
  unfolding weekly_site insert_week book_managers
  weekly_site-keeps tenant spots site db h = grind (arith, inv.dates, book_each-keeps)

  weekly_sites-keeps :
      (tenant : ℕ) (spots : List ParkingSpot) (sites : List Site) (db : Db)
      → P db
      → P (weekly_sites env tenant spots sites db).1
  unfolding weekly_sites
  weekly_sites-keeps tenant spots [] db h = h
  weekly_sites-keeps tenant spots (site ∷ sites) db h =
      weekly_sites-keeps tenant spots sites _ (weekly_site-keeps tenant spots site db h)

  weekly_tenants-keeps : (ts : List Tenant) (db : Db) → P db → P (weekly_tenants env ts db).1
  unfolding weekly_tenants
  weekly_tenants-keeps [] db h = h
  weekly_tenants-keeps (t ∷ ts) db h = weekly_tenants-keeps ts _ (weekly_sites-keeps t.id _ _ db h)

  weekly-keeps : (only : Option ℕ) (db : Db) → P db → P (weekly env only db).1
  unfolding weekly
  weekly-keeps only db h = weekly_tenants-keeps _ db h

  benefit_changed-keeps :
      (tenant employee : ℕ) (db : Db) → P db → P (benefit_changed env tenant employee db).1
  unfolding benefit_changed book_managers
  benefit_changed-keeps tenant employee db h = grind (arith, inv.deletes, book_each-keeps)

  spot_off-keeps :
      (tenant : ℕ) (spot : ParkingSpot) (db : Db) → P db → P (spot_off env tenant spot db)
  unfolding spot_off
  spot_off-keeps tenant spot db h = inv.deletes _ db h

-- A request, or a run of the weekly job.
pub data Op : Type 0 where
  books : ℕ → ℕ → ℕ → ℕ → Option ℕ → Op
  books_many : ℕ → ℕ → ℕ → List ℕ → Option ℕ → Op
  cancels : ℕ → Option ℕ → ℕ → Op
  runs_weekly : Option ℕ → Op
  changes_benefit : ℕ → ℕ → Op
  turns_off : ℕ → ParkingSpot → Op

-- One operation at the clock of `env`, while nothing else commits.
pub step : Env → Op → Db → Db
step env (books tenant employee date site spot) db =
    (book env (λ d. d) tenant employee date site spot db).1
step env (books_many tenant employee site dates spot) db =
    (book_many env (λ d. d) tenant employee site dates spot db).1
step env (cancels tenant employee id) db = (cancel env tenant employee id db).1
step env (runs_weekly only) db = (weekly env only db).1
step env (changes_benefit tenant employee) db = (benefit_changed env tenant employee db).1
step env (turns_off tenant spot) db = spot_off env tenant spot db

-- Operations in any order, each with its own clock.
pub run : List (Env × Op) → Db → Db
run [] db = db
run ((env, op) ∷ ops) db = run ops (step env op db)

module _ {P : Db → Type 0} (inv : IsInvariant P) where
  pub step-keeps : (env : Env) (op : Op) (db : Db) → P db → P (step env op db)
  unfolding step
  step-keeps env (books tenant employee date site spot) db h =
      book-keeps inv env (λ d. d) (λ d k. k) tenant employee date site spot db h
  step-keeps env (books_many tenant employee site dates spot) db h =
      book_many-keeps inv env (λ d. d) (λ d k. k) tenant employee site dates spot db h
  step-keeps env (cancels tenant employee id) db h = cancel-keeps inv env tenant employee id db h
  step-keeps env (runs_weekly only) db h = weekly-keeps inv env only db h
  step-keeps env (changes_benefit tenant employee) db h =
      benefit_changed-keeps inv env tenant employee db h
  step-keeps env (turns_off tenant spot) db h = spot_off-keeps inv env tenant spot db h

  pub run-keeps : (ops : List (Env × Op)) (db : Db) → P db → P (run ops db)
  unfolding run
  run-keeps [] db h = h
  run-keeps ((env, op) ∷ ops) db h = run-keeps ops (step env op db) (step-keeps env op db h)
