-- ===== src/Parking/Store.antt =====
-- api/src/entities/parking.entity.ts and the columns of other tables that parking reads. The
-- database is a record of tables; identifiers (UUIDs) are numbers.
use digitalreception.Base.{
  ℕ, String, Bool, true, false, ◌&&◌, ◌||◌, List, ◌∷◌, Option, none, some, ◌==◌, arith, ◌≡◌, leb,
  if◌then◌else◌, any,
}
use digitalreception.Calendar.{Intl}
use digitalreception.Parking.Rules.{ParkingRole}

-- common/app-keys.ts
pub data AppKey : Type 0 where
  reception access parcels parking : AppKey

pub record ParkingSpot : Type 0 where
  pub id : ℕ
  pub tenant : ℕ
  pub site : ℕ
  pub code : String
  pub note : Option String
  pub active : Bool

pub data BookingSource : Type 0 where
  auto manual : BookingSource

pub record ParkingBooking : Type 0 where
  pub id : ℕ
  pub tenant : ℕ
  pub site : ℕ
  pub spot : ℕ
  pub employee : ℕ
  pub date : ℕ
  pub source : BookingSource

pub record ParkingWeek : Type 0 where
  pub tenant : ℕ
  pub site : ℕ
  pub monday : ℕ
  pub booked : ℕ

pub record Employee : Type 0 where
  pub id : ℕ
  pub tenant : ℕ
  pub active : Bool
  pub parking_role : ParkingRole
  pub parking_spot : Option ℕ
  pub apps_off : List AppKey

pub record Site : Type 0 where
  pub id : ℕ
  pub tenant : ℕ
  pub name : String
  pub timezone : String
  pub active : Bool

pub record Tenant : Type 0 where
  pub id : ℕ
  pub apps : List AppKey

pub record Db : Type 0 where
  pub spots : List ParkingSpot
  pub bookings : List ParkingBooking
  pub weeks : List ParkingWeek
  pub employees : List Employee
  pub sites : List Site
  pub tenants : List Tenant

-- What the service takes from outside: the clock (`now()`), the time zones, the order of spot
-- codes (`localeCompare` with numbers) and the identifiers that the database gives to new rows.
pub record Env : Type 0 where
  pub now : ℕ
  pub intl : Intl
  pub code_before : String → String → Bool
  pub new_id : List ParkingBooking → ℕ

abbrev is_parking : AppKey → Bool
is_parking parking = true
is_parking _ = false

-- `apps.includes('parking')`
unfoldable pub has_parking : List AppKey → Bool
has_parking apps = any is_parking apps

abbrev pub is_manager : ParkingRole → Bool
is_manager ParkingRole.manager = true
is_manager _ = false

abbrev pub is_user : ParkingRole → Bool
is_user ParkingRole.user = true
is_user _ = false

abbrev pub is_none : ParkingRole → Bool
is_none ParkingRole.no_parking = true
is_none _ = false

abbrev pub is_auto : BookingSource → Bool
is_auto auto = true
is_auto manual = false

-- The unique indexes of `parking_bookings`: one spot a day, one booking a person a day.
abbrev pub same_spot_day : ParkingBooking → ParkingBooking → Bool
same_spot_day a b = a.tenant == b.tenant && (a.spot == b.spot && a.date == b.date)

abbrev pub same_person_day : ParkingBooking → ParkingBooking → Bool
same_person_day a b = a.tenant == b.tenant && (a.employee == b.employee && a.date == b.date)

abbrev pub clashes : ParkingBooking → ParkingBooking → Bool
clashes a b = same_spot_day a b || same_person_day a b

-- An INSERT; `none` is ER_DUP_ENTRY.
unfoldable pub insert_booking : ParkingBooking → Db → Option Db
insert_booking b db =
    if any (clashes b) db.bookings then none else some (record db { bookings = b ∷ db.bookings })

pub insert_booking-some :
    (b : ParkingBooking) (db saved : Db)
    → insert_booking b db ≡ some saved
    → (any (clashes b) db.bookings ≡ false) × (saved ≡ record db { bookings = b ∷ db.bookings })
unfolding insert_booking
insert_booking-some b db saved e = ground arith

pub insert_booking-fresh :
    (b : ParkingBooking) (db : Db)
    → any (clashes b) db.bookings ≡ false
    → insert_booking b db ≡ some (record db { bookings = b ∷ db.bookings })
unfolding insert_booking
insert_booking-fresh b db e = rw e

abbrev pub same_week : ParkingWeek → ParkingWeek → Bool
same_week a b = a.tenant == b.tenant && (a.site == b.site && a.monday == b.monday)

-- The unique index of `parking_weeks`.
unfoldable pub insert_week : ParkingWeek → Db → Option Db
insert_week w db =
    if any (same_week w) db.weeks then none else some (record db { weeks = w ∷ db.weeks })

-- `repo.exist({ where: { tenantId, employeeId, date } })`
unfoldable pub has_booking : ℕ → ℕ → ℕ → List ParkingBooking → Bool
has_booking tenant employee date =
    any (λ b. b.tenant == tenant && (b.employee == employee && b.date == date))

-- A person's bookings from a day on.
abbrev pub active_booking : ℕ → ℕ → ℕ → ParkingBooking → Bool
active_booking tenant employee today b =
    b.tenant == tenant && (b.employee == employee && leb today b.date)
