-- ===== src/Parking/Rules.antt =====
-- api/src/parking/parking-rules.ts: which days can be booked. All functions are pure.
pub mod Window
use digitalreception.Base.{
  ℕ, ◌+◌, ◌-◌, ◌*◌, ◌%◌, String, Bool, List, [], ◌∷◌, ◌++◌, Option, none, some, map, leb,
  if◌then◌else◌, filter,
}
use digitalreception.Calendar.{Intl}

pub data ParkingRole : Type 0 where
  no_parking user manager : ParkingRole

abbrev pub max_active : ℕ
max_active = 4

-- The ISO weekday from which the week after opens (Thursday).
abbrev pub opens_on_weekday : ℕ
opens_on_weekday = 4

pub record LocalDay : Type 0 where
  pub date : ℕ
  pub weekday : ℕ

-- `localDay`
unfoldable pub local_day : Intl → String → ℕ → LocalDay
local_day intl zone now = record {
  date = intl.local_date zone now;
  weekday = intl.local_weekday zone now;
}

-- `getUTCDay()`, 0 = Sunday, of a day number; day 0 is a Monday.
abbrev utc_day : ℕ → ℕ
utc_day date = (date + 1) % 7

-- `weekdayOf`
unfoldable pub weekday_of : ℕ → ℕ
weekday_of date = (utc_day date + 6) % 7 + 1

-- `mondayOf`: `addDays(date, 1 - weekdayOf(date))`
unfoldable pub monday_of : ℕ → ℕ
unfolding weekday_of
monday_of date = date + 1 - weekday_of date

-- `workingDays`
unfoldable pub working_days : ℕ → List ℕ
working_days monday = map (λ i. monday + i) (0 ∷ 1 ∷ 2 ∷ 3 ∷ 4 ∷ [])

-- `nextMonday`
unfoldable pub next_monday : Intl → String → ℕ → ℕ
unfolding local_day monday_of
next_monday intl zone now = monday_of (local_day intl zone now).date + 7

-- `bookableDays`
unfoldable pub bookable_days : Intl → String → ℕ → List ℕ
unfolding local_day
bookable_days intl zone now =
    let today = local_day intl zone now in
    let monday = monday_of today.date in
    let days = filter (λ d. leb today.date d) (working_days monday) in
    if leb opens_on_weekday today.weekday then days ++ working_days (monday + 7) else days

-- `opensOn`
unfoldable pub opens_on : Intl → String → ℕ → Option ℕ
unfolding local_day
opens_on intl zone now =
    let today = local_day intl zone now in
    if leb opens_on_weekday today.weekday
    then none
    else some (monday_of today.date + (opens_on_weekday - 1))
