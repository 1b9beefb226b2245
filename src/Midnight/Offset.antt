-- ===== src/Midnight/Offset.antt =====
-- The start of a local day in a zone whose offset is a fixed number of minutes (time.util.ts).
use digitalreception.Base.{ℕ, ◌+◌, ◌*◌, ◌/◌, ◌≤◌, ◌<◌, ◌≡◌, arith}
use digitalreception.Calendar.{day_ms}
use digitalreception.Midnight.{less_offset, start_of_local_day, local_date_to_utc}

-- Zones ahead of UTC, up to 14 hours, and behind it.
module _ (wall : ℕ → ℕ) (minutes : ℕ) where
  abbrev pub Ahead : Type 0
  Ahead = (t : ℕ) → wall t ≡ t / 1000 * 1000 + minutes * 60000

  abbrev pub Behind : Type 0
  Behind = (t : ℕ) → minutes * 60000 ≤ t → wall t + minutes * 60000 ≡ t / 1000 * 1000

  start_ahead :
      Ahead
      → (at : ℕ) → minutes ≤ 840
      → day_ms ≤ at
      → start_of_local_day wall at + minutes * 60000 ≡ wall at / day_ms * day_ms
  unfolding start_of_local_day less_offset
  start_ahead law at few late =
      let n = wall at / day_ms * day_ms in
      let first = less_offset wall n n in
      let wall_at = law at in
      let wall_n = law n in
      let wall_first = law first in
      let one : first + minutes * 60000 ≡ n = omega arith in
      let two : wall first ≡ n = omega arith in omega arith

  start_behind :
      Behind
      → (at : ℕ) → minutes ≤ 840
      → 3 * day_ms ≤ at
      → start_of_local_day wall at ≡ wall at / day_ms * day_ms + minutes * 60000
  unfolding start_of_local_day less_offset
  start_behind law at few late =
      let n = wall at / day_ms * day_ms in
      let first = less_offset wall n n in
      let wall_at = law at (omega arith) in
      let wall_n = law n (omega arith) in
      let one : first ≡ n + minutes * 60000 = omega arith in
      let wall_first = law first (omega arith) in
      let two : wall first ≡ n = omega arith in omega arith

  -- In a zone at a fixed offset of at most 14 hours ahead of UTC the instant is the local midnight
  -- of the day that was asked for when the zone is less than twelve hours ahead; from twelve hours
  -- on it is that of the day after.
  pub local_date_to_utc_ahead :
      Ahead
      → (day : ℕ) → minutes ≤ 840
      → 1 ≤ day
      → ((minutes < 720) → local_date_to_utc wall day + minutes * 60000 ≡ day * day_ms)
        × ((720 ≤ minutes) → local_date_to_utc wall day + minutes * 60000 ≡ (day + 1) * day_ms)
  unfolding local_date_to_utc
  local_date_to_utc_ahead law day few late =
      let at = day * day_ms + 12 * 3600000 in
      let s = start_ahead law at few (omega arith) in
      let w = law at in (λ small. omega arith, λ large. omega arith)

  -- In a zone at a fixed offset of at most twelve hours behind UTC the instant is the local
  -- midnight of the day that was asked for, from the fourth day of 1970 on.
  pub local_date_to_utc_behind :
      Behind
      → (day : ℕ) → minutes ≤ 720
      → 4 ≤ day
      → local_date_to_utc wall day ≡ day * day_ms + minutes * 60000
  unfolding local_date_to_utc
  local_date_to_utc_behind law day few late =
      let at = day * day_ms + 12 * 3600000 in
      let s = start_behind law at (omega arith) (omega arith) in
      let w = law at (omega arith) in omega arith
