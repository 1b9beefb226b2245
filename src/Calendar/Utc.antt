-- ===== src/Calendar/Utc.antt =====
-- A calendar with the same clock in every zone, for tests.
use digitalreception.Base.{ℕ, ◌+◌, ◌/◌, ◌%◌, ◌≡◌, refl, String}
use digitalreception.Calendar.{Intl, day_ms, minute_ms}

abbrev weekday_of_day : (zone : String) (now : ℕ) → now / day_ms % 7 + 1 ≡ now / day_ms % 7 + 1
weekday_of_day zone now = refl

abbrev pub utc_intl : Intl
utc_intl = record {
  local_date = λ zone now. now / day_ms;
  local_weekday = λ zone now. now / day_ms % 7 + 1;
  local_minutes = λ zone now. now / minute_ms % 1440;
  weekday_law = weekday_of_day;
}
