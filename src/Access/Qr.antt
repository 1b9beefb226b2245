-- ===== src/Access/Qr.antt =====
-- The rotating QR of the phone badge: how the API reads and judges it
-- (api/src/access/access.service.ts).
pub mod RoundTrip
use digitalreception.Base.{
  ℕ, ◌+◌, ◌*◌, ◌-◌, ◌/◌, Bool, true, false, ◌&&◌, ◌||◌, ◌==◌, List, [], ◌∷◌, ◌++◌, Option, none,
  some, leb, ltb, if◌then◌else◌, length, not,
}
use digitalreception.Text.{
  Text, codes, trim, strip_prefix, take_class, span, is_digit, is_lower_hex, same_text,
}
use digitalreception.Text.Decimal.{show, read}

-- Functions of the platform, with bytes as numbers: HMAC-SHA256 of a key and a message, its digest in
-- hexadecimal, and the bytes of a base64 text (`Buffer.from(s, 'base64')`).
pub record Hmac : Type 0 where
  pub mac : List ℕ → Text → List ℕ
  pub digest : List ℕ → Text → Text
  pub from_base64 : Text → List ℕ

abbrev pub qr_step_s : ℕ
qr_step_s = 30

abbrev pub qr_sig_hex : ℕ
qr_sig_hex = 16

abbrev pub qr_expired_window : ℕ
qr_expired_window = 20

abbrev pub qr_prefix : Text
qr_prefix = codes "DRE1:"

abbrev pub dot : ℕ
dot = b'.'

-- `slice(0, n)`
abbrev pub slice_to {ℓ} : {A : Type ℓ} → ℕ → List A → List A
slice_to ℕ.zero xs = []
slice_to (ℕ.suc n) [] = []
slice_to (ℕ.suc n) (x ∷ xs) = x ∷ slice_to n xs

module _ (hmac : Hmac) where
  -- `qrSignature`
  unfoldable pub qr_signature : List ℕ → Text → ℕ → Text
  qr_signature secret employee step =
      slice_to qr_sig_hex (hmac.digest secret (employee ++ dot ∷ show step))

-- The parts of a QR that has the right form.
pub record QrClaim : Type 0 where
  pub employee : Text
  pub step : ℕ
  pub signature : Text

abbrev pub is_uuid_char : ℕ → Bool
is_uuid_char c = is_lower_hex c || c == b'-'

-- `$`
abbrev pub ends : Text → Bool
ends [] = true
ends (c ∷ s) = false

-- The end of the expression: `\.([0-9a-f]{16})$`.
unfoldable pub parse_signature : Text → Text → Text → Option QrClaim
parse_signature employee digits s = elim (strip_prefix (dot ∷ []) s) [
  | none ↦ none
  | some at_signature ↦ elim (take_class is_lower_hex qr_sig_hex at_signature) [
    | none ↦ none
    | some (signature, after) ↦
        if ends after
        then some (record { employee = employee; step = read digits; signature = signature })
        else none
  ]
]

-- The tail of the expression, after the employee: `\.(\d{1,12})\.([0-9a-f]{16})$`.
unfoldable pub parse_step : Text → Text → Option QrClaim
parse_step employee s = elim (strip_prefix (dot ∷ []) s) [
  | none ↦ none
  | some at_step ↦
      let (digits, after) = span is_digit at_step in
      if not (leb 1 (length digits) && leb (length digits) 12)
      then none
      else parse_signature employee digits after
]

-- The regular expression `^DRE1:([0-9a-f-]{36})\.(\d{1,12})\.([0-9a-f]{16})$` on the trimmed text.
-- A run of digits ends at the dot, so the longest run is the only one that can match.
unfoldable pub parse_qr : Text → Option QrClaim
parse_qr input = elim (strip_prefix qr_prefix (trim input)) [
  | none ↦ none
  | some rest ↦ elim (take_class is_uuid_char 36 rest) [
    | none ↦ none
    | some (employee, after) ↦ parse_step employee after
  ]
]

-- Why a QR is refused.
pub data Freshness : Type 0 where
  fresh expired invalid : Freshness

-- The claimed step against the step of the clock: one step either way is accepted, and up to
-- `qr_expired_window` steps old is reported as expired.
unfoldable pub freshness : ℕ → ℕ → Freshness
freshness step claimed =
    if ltb (step + 1) claimed
    then invalid
    else if ltb (claimed + 1) step
    then (if leb (step - claimed) qr_expired_window then expired else invalid)
    else fresh

-- `Math.floor(now / 1000 / QR_STEP_S)`; on the phone `stepAt`.
abbrev pub step_at : ℕ → ℕ
step_at now = now / 1000 / qr_step_s
