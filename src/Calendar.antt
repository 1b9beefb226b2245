-- ===== src/Calendar.antt =====
-- Local days and the parts of the platform that the code asks for them.
-- A local date (YYYY-MM-DD) is its day number, counted from Monday 1 January 1900 (day 0), so that
-- the order of the texts is the order of the numbers. An instant is its milliseconds since 1970.
pub mod Utc
use digitalreception.Base.{ℕ, ◌+◌, ◌*◌, ◌%◌, ◌≡◌, String}

-- What `Intl.DateTimeFormat` answers for a time zone and an instant: the local date, the weekday
-- (1 = Monday) and the minutes since local midnight. The time zone data is not part of the code.
pub record Intl : Type 0 where
  pub local_date : String → ℕ → ℕ
  pub local_weekday : String → ℕ → ℕ
  pub local_minutes : String → ℕ → ℕ
  -- The weekday of a formatted instant is that of its formatted date.
  pub weekday_law : (zone : String) (now : ℕ) → local_weekday zone now ≡ local_date zone now % 7 + 1

-- Milliseconds of a day and of a minute.
abbrev pub day_ms : ℕ
day_ms = 86400000

abbrev pub minute_ms : ℕ
minute_ms = 60000

-- common/time.util.ts: `addDays` on an instant, for a number of days that is not negative.
abbrev pub instant_add_days : ℕ → ℕ → ℕ
instant_add_days t days = t + days * day_ms
