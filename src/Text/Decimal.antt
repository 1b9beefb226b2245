-- ===== src/Text/Decimal.antt =====
-- `${n}` and `Number(digits)`.
use native.Mathlib.Nat.{pow-suc}
use digitalreception.Base.{
  ℕ, zero, suc, ◌+◌, ◌*◌, ◌-◌, ◌/◌, ◌%◌, ◌^◌, ◌≤◌, ◌<◌, ◌≡◌, refl, arith, true, List, [], ◌∷◌, ltb,
  if◌then◌else◌, all, length, ap,
}
use digitalreception.Text.Classes.{is_digit}

-- A number that JavaScript keeps exactly has at most 16 digits.
abbrev pub max_digits : ℕ
max_digits = 16

-- The digits of a number in front of a text, least significant last.
unfoldable pub digits_before : ℕ → ℕ → List ℕ → List ℕ
digits_before zero n rest = rest
digits_before (suc fuel) n rest =
    let more = digits_before fuel (n / 10) ((b'0' + n % 10) ∷ rest) in
    if ltb n 10 then (b'0' + n % 10) ∷ rest else more

-- `${n}`
unfoldable pub show : ℕ → List ℕ
unfolding digits_before
show n = digits_before max_digits n []

-- `Number(digits)`, for a text of digits.
unfoldable pub read_from : ℕ → List ℕ → ℕ
read_from acc [] = acc
read_from acc (c ∷ s) = read_from (acc * 10 + (c - b'0')) s

unfoldable pub read : List ℕ → ℕ
unfolding read_from
read = read_from 0

first_digit : (n : ℕ) → n < 10 → 0 * 10 + (b'0' + n % 10 - b'0') ≡ n
first_digit n h = omega arith

digits_before-read :
    (fuel n : ℕ) (rest : List ℕ)
    → n < 10 ^ fuel
    → read_from 0 (digits_before fuel n rest) ≡ read_from n rest
unfolding digits_before read_from
digits_before-read zero n rest h = ap (λ m. read_from m rest) (omega arith)
digits_before-read (suc fuel) n rest h =
    let small : n / 10 < 10 ^ fuel = omega (arith, pow-suc 10 fuel) in
    let last : n / 10 * 10 + (b'0' + n % 10 - b'0') ≡ n = omega arith in
    ground (
      arith,
      digits_before-read fuel (n / 10) ((b'0' + n % 10) ∷ rest) small,
      ap (λ m. read_from m rest) last,
      λ (h10 : n < 10). ap (λ m. read_from m rest) (first_digit n h10),
    )

-- Reading back a number that is printed.
pub read-show : (n : ℕ) → n < 10 ^ 16 → read (show n) ≡ n
unfolding read show
read-show n h = digits_before-read 16 n [] h

-- What is printed are digits, at least one, and at most `k` for a number below 10 ^ k.
digits_before-digits :
    (fuel n : ℕ) (rest : List ℕ)
    → all is_digit rest ≡ true
    → all is_digit (digits_before fuel n rest) ≡ true
unfolding digits_before
digits_before-digits zero n rest h = h
digits_before-digits (suc fuel) n rest h =
    let digit : is_digit (b'0' + n % 10) ≡ true = ground arith in
    ground (arith, digit, digits_before-digits fuel (n / 10) ((b'0' + n % 10) ∷ rest))

pub show-digits : (n : ℕ) → all is_digit (show n) ≡ true
unfolding show
show-digits n = digits_before-digits 16 n [] refl

digits_before-grows :
    (fuel n : ℕ) (rest : List ℕ) → length rest ≤ length (digits_before fuel n rest)
unfolding digits_before
digits_before-grows zero n rest = omega arith
digits_before-grows (suc fuel) n rest =
    ground (arith, digits_before-grows fuel (n / 10) ((b'0' + n % 10) ∷ rest))

digits_before-length :
    (fuel k n : ℕ) (rest : List ℕ)
    → n < 10 ^ suc k
    → length (digits_before fuel n rest) ≤ suc k + length rest
unfolding digits_before
digits_before-length zero k n rest h = omega arith
digits_before-length (suc fuel) zero n rest h = ground arith
digits_before-length (suc fuel) (suc k) n rest h =
    let small : n / 10 < 10 ^ suc k = omega (arith, pow-suc 10 (suc k)) in
    ground (arith, digits_before-length fuel k (n / 10) ((b'0' + n % 10) ∷ rest) small)

pub show-length : (n : ℕ) → n < 10 ^ 12 → (1 ≤ length (show n)) × (length (show n) ≤ 12)
unfolding show
show-length n h =
    let more = digits_before-grows 15 (n / 10) ((b'0' + n % 10) ∷ []) in
    (unfold digits_before in ground (arith, more), omega (arith, digits_before-length 16 11 n [] h))
