-- ===== src/Midnight.antt =====
-- api/src/common/time.util.ts: the instants at which local days start. What `Intl` answers for a
-- zone and an instant is the wall clock, in milliseconds as if it were UTC; the time zone data is
-- not part of the code. Instants are milliseconds since 1970.
mod Tests
pub mod Offset
use digitalreception.Base.{ℕ, ◌+◌, ◌*◌, ◌-◌, ◌/◌}
use digitalreception.Calendar.{day_ms}

module _ (wall : ℕ → ℕ) where
  -- `base - offsetMs(at)`, where the offset is the wall clock less the instant in whole seconds.
  unfoldable pub less_offset : ℕ → ℕ → ℕ
  less_offset base at = base + at / 1000 * 1000 - wall at

  -- `startOfLocalDay`
  unfoldable pub start_of_local_day : ℕ → ℕ
  unfolding less_offset
  start_of_local_day at =
      let naive = wall at / day_ms * day_ms in
      let first = less_offset naive naive in less_offset naive first

  -- `localDateToUtc`, of the day with this number since 1970.
  unfoldable pub local_date_to_utc : ℕ → ℕ
  unfolding start_of_local_day
  local_date_to_utc day = start_of_local_day (day * day_ms + 12 * 3600000)
