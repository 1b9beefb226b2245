-- ===== src/Base/Lists.antt =====
-- Lists as tables: JavaScript's array methods over Boolean tests, and their laws.
use Prim.Native.Nat.{ℕ, suc, ◌+◌, ◌≤◌}
use mathlib.Core.Path.{◌≡◌, refl}
use mathlib.Core.Logic.{◌⊎◌, inl, inr}
use mathlib.Core.Bool.{Bool, true, false, not, ◌&&◌, ◌||◌}
use mathlib.Core.Option.{Option, none, some}
use mathlib.Core.List.{List, [], ◌∷◌, ◌++◌}
use native.Mathlib.Omega.{arith}
use digitalreception.Base.Tests.{◌==◌, if◌then◌else◌, Bool-cases}

module _ {ℓ} {A : Type ℓ} where
  abbrev pub length : List A → ℕ
  length [] = 0
  length (x ∷ xs) = suc (length xs)

  abbrev pub filter : (A → Bool) → List A → List A
  filter p [] = []
  filter p (x ∷ xs) = let rest = filter p xs in if p x then x ∷ rest else rest

  abbrev pub any : (A → Bool) → List A → Bool
  any p [] = false
  any p (x ∷ xs) = p x || any p xs

  abbrev pub all : (A → Bool) → List A → Bool
  all p [] = true
  all p (x ∷ xs) = p x && all p xs

  -- The first element that passes.
  abbrev pub find : (A → Bool) → List A → Option A
  find p [] = none
  find p (x ∷ xs) = if p x then some x else find p xs

  -- An UPDATE: every row that passes is rewritten.
  abbrev pub update : (A → Bool) → (A → A) → List A → List A
  update p f [] = []
  update p f (x ∷ xs) = (if p x then f x else x) ∷ update p f xs

  -- A predicate on every element.
  abbrev pub All {κ} : (A → Type κ) → List A → Type κ
  All P [] = Unit
  All P (x ∷ xs) = P x × All P xs

  pub length-append : (xs ys : List A) → length (xs ++ ys) ≡ length xs + length ys
  length-append [] ys = omega arith
  length-append (x ∷ xs) ys = omega (arith, length-append xs ys)

  pub length-filter-le : (p : A → Bool) (xs : List A) → length (filter p xs) ≤ length xs
  length-filter-le p [] = omega arith
  length-filter-le p (x ∷ xs) = ground (arith, length-filter-le p xs)

  pub any-filter : (p q : A → Bool) (xs : List A) → any p (filter q xs) ≡ any (λ x. q x && p x) xs
  any-filter p q [] = refl
  any-filter p q (x ∷ xs) = ground (arith, any-filter p q xs)

  pub filter-find-none : (p : A → Bool) (xs : List A) → find p xs ≡ none → any p xs ≡ false
  filter-find-none p [] h = refl
  filter-find-none p (x ∷ xs) h = ground (arith, filter-find-none p xs)

  pub find_sound : (p : A → Bool) (xs : List A) (a : A) → find p xs ≡ some a → p a ≡ true
  find_sound p [] a h = cc
  find_sound p (x ∷ xs) a h = ground (arith, find_sound p xs a)

-- Rows: membership, by recursion.
module _ {A : Type 0} where
  abbrev pub In : A → List A → Type 0
  In a [] = ⊥
  In a (x ∷ xs) = (a ≡ x) ⊎ In a xs

  pub find-In : (p : A → Bool) (xs : List A) (a : A) → find p xs ≡ some a → In a xs
  find-In p [] a h = cc
  find-In p (x ∷ xs) a h = ground (arith, find-In p xs a)

  pub any-In : (p : A → Bool) (xs : List A) (a : A) → In a xs → p a ≡ true → any p xs ≡ true
  any-In p [] a m h = elim m [ ]
  any-In p (x ∷ xs) a m h = ground (arith, any-In p xs a)

  -- A row after an UPDATE is a row before it, rewritten if it passes.
  pub In-update :
      (q : A → Bool) (f : A → A) (xs : List A) (y : A)
      → In y (update q f xs)
      → (x : A) × In x xs × (y ≡ (if q x then f x else x))
  In-update q f [] y m = absurd m
  In-update q f (x ∷ xs) y (inl here) = (x, inl refl, here)
  In-update q f (x ∷ xs) y (inr m) = let (z, n, e) = In-update q f xs y m in (z, inr n, e)

  pub In-filter : (p : A → Bool) (xs : List A) (a : A) → In a (filter p xs) → In a xs × (p a ≡ true)
  In-filter p [] a m = elim m [ ]
  In-filter p (x ∷ xs) a m = ground (arith, In-filter p xs a)

  pub In-filter_of :
      (p : A → Bool) (xs : List A) (a : A) → In a xs → p a ≡ true → In a (filter p xs)
  In-filter_of p [] a m h = elim m [ ]
  In-filter_of p (x ∷ xs) a m h = ground (arith, In-filter_of p xs a)

  pub In-append : (xs ys : List A) (a : A) → In a (xs ++ ys) → In a xs ⊎ In a ys
  In-append [] ys a m = inr m
  In-append (x ∷ xs) ys a m = ground (arith, In-append xs ys a)

  pub In-append_left : (xs ys : List A) (a : A) → In a xs → In a (xs ++ ys)
  In-append_left [] ys a m = elim m [ ]
  In-append_left (x ∷ xs) ys a m = ground (arith, In-append_left xs ys a)

  pub In-append_right : (xs ys : List A) (a : A) → In a ys → In a (xs ++ ys)
  In-append_right [] ys a m = m
  In-append_right (x ∷ xs) ys a m = inr (In-append_right xs ys a m)

  pub All-In {κ} : (P : A → Type κ) (xs : List A) (a : A) → All P xs → In a xs → P a
  All-In P [] a h m = elim m [ ]
  All-In P (x ∷ xs) a h (inl e) = rw e h.0
  All-In P (x ∷ xs) a h (inr m) = All-In P xs a h.1 m

  -- The elements that fail a test, then those that pass: all the elements.
  pub In-parts :
      (p : A → Bool) (xs : List A) (a : A)
      → In a (filter (λ x. not (p x)) xs ++ filter p xs)
      → In a xs
  In-parts p xs a m = elim (In-append (filter (λ x. not (p x)) xs) (filter p xs) a m) [
    | inl l ↦ (In-filter (λ x. not (p x)) xs a l).0
    | inr r ↦ (In-filter p xs a r).0
  ]

  pub In-parts_of :
      (p : A → Bool) (xs : List A) (a : A)
      → In a xs
      → In a (filter (λ x. not (p x)) xs ++ filter p xs)
  In-parts_of p xs a m = elim (Bool-cases (p a)) [
    | inl yes_p ↦
        In-append_right (filter (λ x. not (p x)) xs) (filter p xs) a (In-filter_of p xs a m yes_p)
    | inr no_p ↦
        In-append_left (filter (λ x. not (p x)) xs) (filter p xs) a
          (In-filter_of (λ x. not (p x)) xs a m (rw no_p))
  ]

-- `xs.includes(n)` and `new Set(xs)` on numbers (identifiers, day numbers).
abbrev pub contains : ℕ → List ℕ → Bool
contains n [] = false
contains n (x ∷ xs) = n == x || contains n xs

-- The first occurrence of each value stays, in order of insertion, as in a `Set`.
abbrev pub dedup_from : List ℕ → List ℕ → List ℕ
dedup_from seen [] = []
dedup_from seen (x ∷ xs) = elim (contains x seen) [
  | true ↦ dedup_from seen xs
  | false ↦ x ∷ dedup_from (x ∷ seen) xs
]

abbrev pub dedup : List ℕ → List ℕ
dedup = dedup_from []

pub contains-In : (n : ℕ) (xs : List ℕ) → contains n xs ≡ true → In n xs
contains-In n [] h = cc
contains-In n (x ∷ xs) h = ground (arith, contains-In n xs)

pub In-contains : (n : ℕ) (xs : List ℕ) → In n xs → contains n xs ≡ true
In-contains n [] m = elim m [ ]
In-contains n (x ∷ xs) m = ground (arith, In-contains n xs)

-- `Array.prototype.sort` with a comparison: stable, so an insertion sort that keeps ties in order.
module _ {ℓ} {A : Type ℓ} (before : A → A → Bool) where
  abbrev pub insert_by : A → List A → List A
  insert_by a [] = a ∷ []
  insert_by a (x ∷ xs) = let rest = x ∷ insert_by a xs in if before x a then rest else a ∷ x ∷ xs

  abbrev pub sort_by : List A → List A
  sort_by [] = []
  sort_by (x ∷ xs) = insert_by x (sort_by xs)
