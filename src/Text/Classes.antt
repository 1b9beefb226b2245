-- ===== src/Text/Classes.antt =====
-- The character classes of the code's regular expressions.
use digitalreception.Base.{ℕ, Bool, ◌&&◌, ◌||◌, leb}

abbrev pub between : ℕ → ℕ → ℕ → Bool
between lo hi c = leb lo c && leb c hi

-- `\d`
abbrev pub is_digit : ℕ → Bool
is_digit c = between b'0' b'9' c

-- `[0-9a-f]`
abbrev pub is_lower_hex : ℕ → Bool
is_lower_hex c = between b'0' b'9' c || between b'a' b'f' c

-- `[0-9A-F]`
abbrev pub is_upper_hex : ℕ → Bool
is_upper_hex c = between b'0' b'9' c || between b'A' b'F' c
