-- ===== src/Access/Badge.antt =====
-- The badge on the phone (mobile/src/lib/badge.ts): `base64ToBytes`, `signStep` and `qrPayload`.
pub mod Base64
use digitalreception.Base.{
  ℕ, zero, suc, ◌+◌, ◌-◌, ◌*◌, ◌/◌, ◌%◌, ◌^◌, Bool, ◌==◌, List, [], ◌∷◌, ◌++◌, any, leb, filter,
  if◌then◌else◌,
}
use digitalreception.Text.{Text, codes}
use digitalreception.Text.Decimal.{show}
use digitalreception.Access.Qr.{Hmac, qr_sig_hex, qr_prefix, dot, slice_to}

-- `B64`
abbrev pub b64 : Text
b64 = codes "ABCDEFGHIJKLMNOPQRSTUVWXYZabcdefghijklmnopqrstuvwxyz0123456789+/"

-- `B64.indexOf(c)`, of a character that is there.
abbrev pub index_in : Text → ℕ → ℕ
index_in [] c = 0
index_in (x ∷ xs) c = let rest = index_in xs c in if x == c then 0 else rest + 1

-- `[A-Za-z0-9+/]`
abbrev pub is_b64 : ℕ → Bool
is_b64 c = any (λ x. x == c) b64

-- The loop of `base64ToBytes`: `value` has 32 bits, `bits` of them are not written yet.
unfoldable pub decode_loop : ℕ → ℕ → Text → List ℕ
decode_loop value bits [] = []
decode_loop value bits (c ∷ s) =
    let next = (value * 64 + index_in b64 c) % 2 ^ 32 in
    let wait = decode_loop next (bits + 6) s in
    let rest = decode_loop next (bits + 6 - 8) s in
    if leb 8 (bits + 6) then ((next / 2 ^ (bits + 6 - 8)) % 256) ∷ rest else wait

-- `base64ToBytes`
unfoldable pub base64_to_bytes : Text → List ℕ
base64_to_bytes s = decode_loop 0 0 (filter is_b64 s)

-- `toString(16).padStart(2, '0')` of a byte.
abbrev hex_digit : ℕ → ℕ
hex_digit n = if leb 10 n then b'a' + (n - 10) else b'0' + n

-- `hex`
abbrev pub hex : List ℕ → Text
hex [] = []
hex (b ∷ bs) = hex_digit (b / 16) ∷ hex_digit (b % 16) ∷ hex bs

module _ (hmac : Hmac) where
  -- `signStep`
  unfoldable pub sign_step : Text → Text → ℕ → Text
  sign_step secret employee step =
      slice_to qr_sig_hex (hex (hmac.mac (base64_to_bytes secret) (employee ++ dot ∷ show step)))

  -- `qrPayload`
  unfoldable pub qr_payload : Text → Text → ℕ → Text
  qr_payload employee secret step =
      qr_prefix ++ (employee ++ (dot ∷ (show step ++ (dot ∷ sign_step secret employee step))))
