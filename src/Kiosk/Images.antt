-- ===== src/Kiosk/Images.antt =====
-- `parseImage` (api/src/common/files.service.ts): which data URLs are images.
use digitalreception.Base.{
  ℕ, ◌*◌, Bool, ◌||◌, List, [], ◌∷◌, Option, none, some, ◌==◌, ltb, if◌then◌else◌, all, length,
  take,
}
use digitalreception.Text.{Text, codes, between, is_digit, strip_prefix, same_text}

abbrev pub max_image_bytes : ℕ
max_image_bytes = 3 * 1024 * 1024

pub data Mime : Type 0 where
  jpeg png : Mime

-- The type and the bytes.
pub record Image : Type 0 where
  pub mime : Mime
  pub bytes : List ℕ

-- `[A-Za-z0-9+/=]`
abbrev pub is_base64 : ℕ → Bool
is_base64 c =
    between b'A' b'Z' c
    || (between b'a' b'z' c || (is_digit c || (c == b'+' || (c == b'/' || c == b'='))))

abbrev body : Text → Option Text
body [] = none
body (c ∷ s) = if all is_base64 (c ∷ s) then some (c ∷ s) else none

-- The parts of the regular expression.
unfoldable pub data_url : Text → Option (Mime × Text)
data_url url = elim (strip_prefix (codes "data:image/jpeg;base64,") url) [
  | some rest ↦ elim (body rest) [ none ↦ none | some s ↦ some (jpeg, s) ]
  | none ↦ elim (strip_prefix (codes "data:image/png;base64,") url) [
    | some rest ↦ elim (body rest) [ none ↦ none | some s ↦ some (png, s) ]
    | none ↦ none
  ]
]

-- The first bytes of a JPEG and of a PNG.
abbrev pub is_jpeg : List ℕ → Bool
is_jpeg bytes = same_text (take 3 bytes) (255 ∷ 216 ∷ 255 ∷ [])

abbrev pub is_png : List ℕ → Bool
is_png bytes = same_text (take 8 bytes) (137 ∷ 80 ∷ 78 ∷ 71 ∷ 13 ∷ 10 ∷ 26 ∷ 10 ∷ [])

abbrev pub content_matches : Mime → List ℕ → Bool
content_matches jpeg bytes = is_jpeg bytes
content_matches png bytes = is_png bytes

-- `parseImage`, with the decoder of base64; none is a refusal.
unfoldable pub parse_image : (Text → List ℕ) → Text → Option Image
parse_image decode url = elim (data_url url) [
  | none ↦ none
  | some (mime, s) ↦
      if length (decode s) == 0 || ltb max_image_bytes (length (decode s))
      then none
      else if content_matches mime (decode s)
      then some (record { mime = mime; bytes = decode s })
      else none
]
