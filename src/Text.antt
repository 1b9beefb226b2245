-- ===== src/Text.antt =====
-- Text as the list of its character codes, with the string operations the code uses: `trim`,
-- `===`, decimal printing and reading, and the pieces of its regular expressions.
pub mod Decimal
mod Classes
pub use Classes.*
use Prim.Native.Char.{code}
use digitalreception.Base.{
  ℕ, suc, ◌+◌, ◌*◌, ◌-◌, String, Bool, true, false, ◌&&◌, ◌||◌, not, List, [], ◌∷◌, Option, none,
  some, ◌==◌, leb, ltb, if◌then◌else◌, length,
}

abbrev pub Text : Type 0
Text = List ℕ

-- The codes of a literal.
abbrev pub codes : String → Text
codes String.[] = []
codes (String.◌∷◌ c s) = code c ∷ codes s

-- `===` on texts.
unfoldable pub same_text : Text → Text → Bool
same_text [] [] = true
same_text [] (y ∷ ys) = false
same_text (x ∷ xs) [] = false
same_text (x ∷ xs) (y ∷ ys) = x == y && same_text xs ys

-- The white space that `trim` removes.
unfoldable pub is_space : ℕ → Bool
is_space c =
    between 9 13 c
    || (c == 32
        || (c == 160
            || (c == 5760
                || (between 8192 8202 c
                    || (c == 8232
                        || (c == 8233
                            || (c == 8239 || (c == 8287 || (c == 12288 || c == 65279)))))))))

unfoldable pub trim_start : Text → Text
trim_start [] = []
trim_start (c ∷ s) = let rest = trim_start s in if is_space c then rest else c ∷ s

abbrev is_empty : Text → Bool
is_empty [] = true
is_empty (c ∷ s) = false

unfoldable pub trim_end : Text → Text
trim_end [] = []
trim_end (c ∷ s) = let rest = trim_end s in if is_space c && is_empty rest then [] else c ∷ rest

-- `trim`
unfoldable pub trim : Text → Text
unfolding trim_start trim_end
trim s = trim_end (trim_start s)

-- A literal at the front of a text, and the rest.
unfoldable pub strip_prefix : Text → Text → Option Text
strip_prefix [] s = some s
strip_prefix (p ∷ ps) [] = none
strip_prefix (p ∷ ps) (c ∷ s) = if p == c then strip_prefix ps s else none

-- `[…]{n}`: exactly `n` characters of a class, and the rest.
unfoldable pub take_class : (ℕ → Bool) → ℕ → Text → Option (Text × Text)
take_class cls ℕ.zero s = some ([], s)
take_class cls (suc n) [] = none
take_class cls (suc n) (c ∷ s) = elim (take_class cls n s) [
  | none ↦ none
  | some (t, rest) ↦ if cls c then some (c ∷ t, rest) else none
]

-- `[…]*`: the longest run of a class, and the rest.
unfoldable pub span : (ℕ → Bool) → Text → Text × Text
span cls [] = ([], [])
span cls (c ∷ s) = let (t, rest) = span cls s in if cls c then (c ∷ t, rest) else ([], c ∷ s)
