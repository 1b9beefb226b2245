-- ===== src/Parking/Tests.antt =====
-- The parking theorems at concrete inputs, and small runs of the operations.
use digitalreception.Base.{
  ℕ, ◌+◌, ◌*◌, ◌≡◌, ◌≤◌, ◌⊎◌, refl, arith, true, false, not, List, [], ◌∷◌, none, some, ◌==◌,
  filter, length, contains, In, ok, err,
}
use digitalreception.Calendar.{day_ms}
use digitalreception.Calendar.Utc.{utc_intl}
use digitalreception.Parking.Rules.{
  max_active, user, manager, monday_of, bookable_days, opens_on, working_days, local_day,
  weekday_of, next_monday,
}
use digitalreception.Parking.Store.{
  reception, parking, ParkingSpot, ParkingBooking, auto, manual, Employee, Site, Db, Env,
  has_parking, insert_booking, insert_week, has_booking, active_booking,
}
use digitalreception.Parking.Booking.{
  person, active_site, today_at, spots_to_try, book_checks, try_spot, try_spots, book, book_days,
  book_many_checks, book_many, cancel, full, day_closed, site_spots,
}
use digitalreception.Parking.Booking.Choice.{IsPlaced, booked_on, book_any_spot, book_limit}
use digitalreception.Parking.Keeps.{books, runs_weekly, cancels, run}
use digitalreception.Parking.Unique.{IsUnique, IsUnique-invariant, run-IsUnique}
use digitalreception.Parking.Weekly.{
  weekly, weekly_tenants, weekly_sites, weekly_site, book_managers, book_each, book_manager,
  book_days_of,
}
use digitalreception.Parking.Weekly.Once.{SameWeek, weekly_twice, weekly-cancel}

-- Day 10 is a Thursday, day 8 a Tuesday.
abbrev at_day : ℕ → Env
at_day d = record {
  now = d * day_ms;
  intl = utc_intl;
  code_before = λ a b. false;
  new_id = λ bs. length bs + 100;
}

abbrev garage : Db
garage = record {
  spots =
      record { id = 1; tenant = 1; site = 1; code = "P1"; note = none; active = true }
      ∷ record { id = 2; tenant = 1; site = 1; code = "P2"; note = none; active = true }
      ∷ [];
  bookings =
      record { id = 9; tenant = 1; site = 1; spot = 1; employee = 3; date = 11; source = manual }
      ∷ record { id = 8; tenant = 1; site = 1; spot = 2; employee = 5; date = 14; source = auto }
      ∷ [];
  weeks = [];
  employees =
      record {
        id = 5;
        tenant = 1;
        active = true;
        parking_role = manager;
        parking_spot = some 2;
        apps_off = [];
      }
      ∷ record {
        id = 7;
        tenant = 1;
        active = true;
        parking_role = user;
        parking_spot = none;
        apps_off = reception ∷ [];
      }
      ∷ [];
  sites = record { id = 1; tenant = 1; name = "HQ"; timezone = "UTC"; active = true } ∷ [];
  tenants = record { id = 1; apps = parking ∷ [] } ∷ [];
}

abbrev guest_user : Employee
guest_user = record {
  id = 7;
  tenant = 1;
  active = true;
  parking_role = user;
  parking_spot = none;
  apps_off = reception ∷ [];
}

abbrev hq : Site
hq = record { id = 1; tenant = 1; name = "HQ"; timezone = "UTC"; active = true }

window_on_thursday :
    bookable_days utc_intl "UTC" (10 * day_ms) ≡ 10 ∷ 11 ∷ 14 ∷ 15 ∷ 16 ∷ 17 ∷ 18 ∷ []
unfolding bookable_days monday_of weekday_of working_days
window_on_thursday = refl

opens_on_tuesday : opens_on utc_intl "UTC" (8 * day_ms) ≡ some 10
unfolding opens_on monday_of weekday_of
opens_on_tuesday = refl

garage-IsPlaced : IsPlaced 1 garage
garage-IsPlaced = ground arith

checks_day_11 :
    book_checks (at_day 10) 1 7 11 1 none garage
    ≡ ok (
        record { id = 1; tenant = 1; site = 1; code = "P1"; note = none; active = true }
        ∷ record { id = 2; tenant = 1; site = 1; code = "P2"; note = none; active = true }
        ∷ [])
unfolding book_checks person active_site bookable_days monday_of weekday_of working_days local_day
    has_parking has_booking spots_to_try
checks_day_11 = refl

book_any_spot_example :
    ((s : ParkingSpot) × In s (site_spots 1 1 garage)
      × (contains s.id (1 ∷ []) ≡ false)
      × (book (at_day 10) (λ d. d) 1 7 11 1 none garage ≡ booked_on (at_day 10) 1 7 11 1 s garage))
    ⊎ ((book (at_day 10) (λ d. d) 1 7 11 1 none garage ≡ (err full, garage))
        × ((s : ParkingSpot) → In s (site_spots 1 1 garage) → contains s.id (1 ∷ []) ≡ true))
book_any_spot_example = book_any_spot (at_day 10) 1 7 11 1 garage _ garage-IsPlaced checks_day_11

found_user : person 1 7 garage ≡ ok guest_user
unfolding person has_parking
found_user = refl

found_site : active_site 1 1 garage ≡ ok hq
unfolding active_site
found_site = refl

book_limit_example :
    length (
      filter
        (active_booking 1 7 (today_at (at_day 10) hq))
        (book (at_day 10) (λ d. d) 1 7 11 1 none garage).1.bookings)
    ≤ max_active
book_limit_example =
    book_limit (at_day 10) 1 7 11 1 none garage guest_user hq garage-IsPlaced found_user found_site
      refl (omega arith)

garage-IsUnique : IsUnique garage
garage-IsUnique = (refl, (refl, tt))

run-IsUnique_example : IsUnique (
    run
      ((at_day 10, books 1 7 11 1 none)
        ∷ (at_day 10, runs_weekly none)
        ∷ (at_day 10, cancels 1 none 9)
        ∷ [])
      garage)
run-IsUnique_example = run-IsUnique _ garage garage-IsUnique

-- Another request takes P2 in the meantime.
abbrev rival : Db → Db
rival db = record db { bookings = filter (λ b. not (b.id == 9)) db.bookings }

rival-IsUnique : (d : Db) → IsUnique d → IsUnique (rival d)
rival-IsUnique d h = IsUnique-invariant.deletes (λ b. not (b.id == 9)) d h

-- Thursday and Friday.
one_week : SameWeek (at_day 10) (at_day 11) garage
unfolding monday_of weekday_of local_day
one_week s m = refl

weekly_twice_example :
    weekly (at_day 11) none (weekly (at_day 10) none garage).1
    ≡ (0, (weekly (at_day 10) none garage).1)
weekly_twice_example = weekly_twice (at_day 10) (at_day 11) none garage one_week

-- The manager's spot is booked for the four days of the next week that are free.
weekly_books : (weekly (at_day 10) none garage).0 ≡ 4
unfolding weekly weekly_tenants weekly_sites weekly_site book_managers book_each book_manager
    book_days_of insert_booking insert_week has_parking next_monday monday_of weekday_of
    working_days local_day
weekly_books = refl

weekly-cancel_example :
    weekly (at_day 11) none (cancel (at_day 10) 1 (some 5) 8 (weekly (at_day 10) none garage).1).1
    ≡ (0, (cancel (at_day 10) 1 (some 5) 8 (weekly (at_day 10) none garage).1).1)
weekly-cancel_example =
    weekly-cancel (at_day 10) (at_day 11) none (some 5) (at_day 10) 1 8 garage one_week

abbrev wanted : List ℕ
wanted = 11 ∷ 12 ∷ 11 ∷ []

-- Saturday is refused, Friday is booked.
many_answer :
    (book_many (at_day 10) (λ d. d) 1 7 1 wanted none garage).0
    ≡ ok (record { id = 102; date = 11; spot = "P2"; note = none } ∷ [], (12, day_closed) ∷ [])
unfolding book_many book_many_checks book_days book book_checks try_spots try_spot person
    active_site bookable_days monday_of weekday_of working_days local_day has_parking has_booking
    spots_to_try insert_booking
many_answer = refl

abbrev old_booking : ParkingBooking
old_booking = record {
  id = 4;
  tenant = 1;
  site = 1;
  spot = 1;
  employee = 7;
  date = 15;
  source = auto;
}

-- The person was a manager when the job booked day 15.
abbrev demoted : Db
demoted = record garage { bookings = old_booking ∷ garage.bookings }
