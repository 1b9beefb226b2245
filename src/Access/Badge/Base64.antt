-- ===== src/Access/Badge/Base64.antt =====
-- What the phone decodes is what was encoded (mobile/src/lib/badge.ts, `base64ToBytes`).
use digitalreception.Base.{
  ℕ, zero, suc, ◌+◌, ◌*◌, ◌/◌, ◌%◌, ◌<◌, ◌≡◌, refl, ◌∙◌, ap, inl, inr, arith, Bool, true, ◌&&◌,
  ◌==◌, List, [], ◌∷◌, ltb, all, filter, Bool-cases, ==_iff,
}
use digitalreception.Text.{Text}
use digitalreception.Access.Badge.{b64, index_in, is_b64, decode_loop, base64_to_bytes}

abbrev nth : Text → ℕ → ℕ
nth [] n = 0
nth (c ∷ s) zero = c
nth (c ∷ s) (suc n) = nth s n

-- The character of a group of six bits.
unfoldable pub char_of : ℕ → ℕ
char_of n = nth b64 n

-- The base64 text of some bytes, padded (RFC 4648, 4): three bytes are four characters.
abbrev pub base64 : List ℕ → Text
base64 [] = []
base64 (a ∷ []) = char_of (a / 4) ∷ char_of (a % 4 * 16) ∷ b'=' ∷ b'=' ∷ []
base64 (a ∷ b ∷ []) =
    char_of (a / 4) ∷ char_of (a % 4 * 16 + b / 16) ∷ char_of (b % 16 * 4) ∷ b'=' ∷ []
base64 (a ∷ b ∷ c ∷ s) =
    char_of (a / 4)
    ∷ char_of (a % 4 * 16 + b / 16)
    ∷ char_of (b % 16 * 4 + c / 64)
    ∷ char_of (c % 64)
    ∷ base64 s

abbrev pub is_byte : ℕ → Bool
is_byte b = ltb b 256

abbrev all_below : (ℕ → Bool) → ℕ → Bool
all_below p zero = true
all_below p (suc n) = p n && all_below p n

all_below-at : (p : ℕ → Bool) (n i : ℕ) → all_below p n ≡ true → i < n → p i ≡ true
all_below-at p zero i h less = absurd (ground (arith, less))
all_below-at p (suc n) i h less = elim (Bool-cases (i == n)) [
  | inl at ↦ ground (arith, h, at)
  | inr other ↦ all_below-at p n i (ground (arith, h)) (ground (arith, less, other))
]

-- Each of the 64 characters is found at its place.
all_found : all_below (λ i. index_in b64 (char_of i) == i) 64 ≡ true
unfolding char_of
all_found = refl

all_kept : all_below (λ i. is_b64 (char_of i)) 64 ≡ true
unfolding char_of
all_kept = refl

index_in-char_of : (i : ℕ) → i < 64 → index_in b64 (char_of i) ≡ i
index_in-char_of i h =
    (==_iff (index_in b64 (char_of i)) i).0
      (all_below-at (λ n. index_in b64 (char_of n) == n) 64 i all_found h)

is_b64-char_of : (i : ℕ) → i < 64 → is_b64 (char_of i) ≡ true
is_b64-char_of i h = all_below-at (λ n. is_b64 (char_of n)) 64 i all_kept h

-- One character of the clean text.
keeps : (i : ℕ) (s : Text) → i < 64 → filter is_b64 (char_of i ∷ s) ≡ char_of i ∷ filter is_b64 s
keeps i s h = rw (is_b64-char_of i h) refl

-- The value after a character.
abbrev after : ℕ → ℕ → ℕ
after value i = (value * 64 + i) % 4294967296

-- Characters that end no byte, and that end one with `left` bits over.
wait_0 :
    (value i : ℕ) (s : Text)
    → i < 64
    → decode_loop value 0 (char_of i ∷ s) ≡ decode_loop (after value i) 6 s
unfolding decode_loop
wait_0 value i s h = rw (index_in-char_of i h) refl

byte_6 :
    (value i : ℕ) (s : Text)
    → i < 64
    → decode_loop value 6 (char_of i ∷ s)
      ≡ (after value i / 16 % 256) ∷ decode_loop (after value i) 4 s
unfolding decode_loop
byte_6 value i s h = rw (index_in-char_of i h) refl

byte_4 :
    (value i : ℕ) (s : Text)
    → i < 64
    → decode_loop value 4 (char_of i ∷ s)
      ≡ (after value i / 4 % 256) ∷ decode_loop (after value i) 2 s
unfolding decode_loop
byte_4 value i s h = rw (index_in-char_of i h) refl

byte_2 :
    (value i : ℕ) (s : Text)
    → i < 64
    → decode_loop value 2 (char_of i ∷ s) ≡ (after value i % 256) ∷ decode_loop (after value i) 0 s
unfolding decode_loop
byte_2 value i s h =
    rw (index_in-char_of i h) (ap (λ z. z ∷ decode_loop (after value i) 0 s) (omega arith))

first_byte :
    (v a b : ℕ) → a < 256 → b < 256 → after (after v (a / 4)) (a % 4 * 16 + b / 16) / 16 % 256 ≡ a
first_byte v a b h k = omega arith

second_byte :
    (v x b c : ℕ)
    → b < 256
    → c < 256
    → after (after v (x % 4 * 16 + b / 16)) (b % 16 * 4 + c / 64) / 4 % 256 ≡ b
second_byte v x b c h k = omega arith

third_byte : (v b c : ℕ) → c < 256 → after (after v (b % 16 * 4 + c / 64)) (c % 64) % 256 ≡ c
third_byte v b c h = omega arith

last_byte : (v a : ℕ) → a < 256 → after (after v (a / 4)) (a % 4 * 16) / 16 % 256 ≡ a
last_byte v a h = omega arith

last_bytes :
    (v x b : ℕ) → b < 256 → after (after v (x % 4 * 16 + b / 16)) (b % 16 * 4) / 4 % 256 ≡ b
last_bytes v x b h = omega arith

-- The first byte of two characters.
two_chars :
    (v i j : ℕ) (s : Text)
    → i < 64
    → j < 64
    → decode_loop v 0 (filter is_b64 (char_of i ∷ char_of j ∷ s))
      ≡ (after (after v i) j / 16 % 256) ∷ decode_loop (after (after v i) j) 4 (filter is_b64 s)
two_chars v i j s h k =
    ap (decode_loop v 0) (keeps i (char_of j ∷ s) h ∙ ap (λ t. char_of i ∷ t) (keeps j s k))
    ∙ wait_0 v i (char_of j ∷ filter is_b64 s) h
    ∙ byte_6 (after v i) j (filter is_b64 s) k

third_char :
    (v i : ℕ) (s : Text)
    → i < 64
    → decode_loop v 4 (filter is_b64 (char_of i ∷ s))
      ≡ (after v i / 4 % 256) ∷ decode_loop (after v i) 2 (filter is_b64 s)
third_char v i s h = ap (decode_loop v 4) (keeps i s h) ∙ byte_4 v i (filter is_b64 s) h

fourth_char :
    (v i : ℕ) (s : Text)
    → i < 64
    → decode_loop v 2 (filter is_b64 (char_of i ∷ s))
      ≡ (after v i % 256) ∷ decode_loop (after v i) 0 (filter is_b64 s)
fourth_char v i s h = ap (decode_loop v 2) (keeps i s h) ∙ byte_2 v i (filter is_b64 s) h

cons_eq : {x y : ℕ} {s t : List ℕ} → x ≡ y → s ≡ t → (x ∷ s) ≡ (y ∷ t)
cons_eq {x} {y} {s} {t} p q = ap (λ z. z ∷ s) p ∙ ap (λ r. y ∷ r) q

decode_loop-base64 :
    (v : ℕ) (bs : List ℕ) → all is_byte bs ≡ true → decode_loop v 0 (filter is_b64 (base64 bs)) ≡ bs
unfolding decode_loop
decode_loop-base64 v [] h = refl
decode_loop-base64 v (a ∷ []) h =
    let ah : a < 256 = ground (arith, h) in
    two_chars v (a / 4) (a % 4 * 16) (b'=' ∷ b'=' ∷ []) (omega (arith, ah)) (omega arith)
    ∙ cons_eq (last_byte v a ah) refl
decode_loop-base64 v (a ∷ b ∷ []) h =
    let ah : a < 256 = ground (arith, h) in
    let bh : b < 256 = ground (arith, h) in
    let w = after v (a / 4) in
    two_chars v (a / 4) (a % 4 * 16 + b / 16) (char_of (b % 16 * 4) ∷ b'=' ∷ []) (omega (arith, ah))
      (omega (arith, bh))
    ∙ cons_eq (first_byte v a b ah bh) (
        third_char (after w (a % 4 * 16 + b / 16)) (b % 16 * 4) (b'=' ∷ []) (omega arith)
        ∙ cons_eq (last_bytes w a b bh) refl)
decode_loop-base64 v (a ∷ b ∷ c ∷ bs) h =
    let ah : a < 256 = ground (arith, h) in
    let bh : b < 256 = ground (arith, h) in
    let ch : c < 256 = ground (arith, h) in
    let w = after v (a / 4) in
    let x = after w (a % 4 * 16 + b / 16) in
    let y = after x (b % 16 * 4 + c / 64) in
    let rest = decode_loop-base64 (after y (c % 64)) bs (ground (arith, h)) in
    two_chars v (a / 4) (a % 4 * 16 + b / 16)
      (char_of (b % 16 * 4 + c / 64) ∷ char_of (c % 64) ∷ base64 bs) (omega (arith, ah))
      (omega (arith, bh))
    ∙ cons_eq (first_byte v a b ah bh) (
        third_char x (b % 16 * 4 + c / 64) (char_of (c % 64) ∷ base64 bs) (omega (arith, ch))
        ∙ cons_eq (second_byte w a b c bh ch)
            (fourth_char y (c % 64) (base64 bs) (omega arith) ∙ cons_eq (third_byte x b c ch) rest))

-- `base64ToBytes` undoes the base64 text of any bytes.
pub base64_to_bytes-base64 :
    (bs : List ℕ) → all is_byte bs ≡ true → base64_to_bytes (base64 bs) ≡ bs
unfolding base64_to_bytes
base64_to_bytes-base64 bs h = decode_loop-base64 0 bs h
