-- ===== src/Midnight/Tests.antt =====
-- The starts of local days at concrete offsets.
use digitalreception.Base.{ℕ, ◌+◌, ◌*◌, ◌-◌, ◌/◌, ◌≤◌, ◌<◌, ◌≡◌, refl, arith}
use digitalreception.Calendar.{day_ms}
use digitalreception.Midnight.{local_date_to_utc, start_of_local_day, less_offset}
use digitalreception.Midnight.Offset.{Ahead, Behind, local_date_to_utc_ahead}

-- Thirteen hours ahead of UTC, and five behind it.
abbrev auckland : ℕ → ℕ
auckland t = t / 1000 * 1000 + 780 * 60000

abbrev lima : ℕ → ℕ
lima t = t / 1000 * 1000 - 300 * 60000

auckland-Ahead : Ahead auckland 780
auckland-Ahead t = refl

lima-Behind : Behind lima 300
lima-Behind t late = omega arith

local_date_to_utc_ahead_example :
    ((780 < 720) → local_date_to_utc auckland 20000 + 780 * 60000 ≡ 20000 * day_ms)
    × ((720 ≤ 780) → local_date_to_utc auckland 20000 + 780 * 60000 ≡ 20001 * day_ms)
local_date_to_utc_ahead_example =
    local_date_to_utc_ahead auckland 780 auckland-Ahead 20000 (omega arith) (omega arith)

-- In Auckland the day asked for becomes the day after.
auckland_day : local_date_to_utc auckland 20000 ≡ 1728039600000
unfolding local_date_to_utc start_of_local_day less_offset
auckland_day = refl
