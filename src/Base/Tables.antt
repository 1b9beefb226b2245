-- ===== src/Base/Tables.antt =====
-- Tables of rows with an identifier, and the loop of a worker that reads the rows to handle and
-- then writes them one by one.
use Prim.Native.Nat.{ℕ, suc, ◌≤◌}
use mathlib.Core.Path.{◌≡◌, refl}
use mathlib.Core.Logic.{inl, inr}
use mathlib.Core.Bool.{Bool, true, false, ◌&&◌}
use mathlib.Core.List.{List, [], ◌∷◌, map}
use native.Mathlib.Omega.{arith}
use digitalreception.Base.Tests.{◌==◌, if◌then◌else◌, Bool-cases}
use digitalreception.Base.Lists.{In, any, update, filter, insert_by, sort_by, length}

-- The first rows of a query.
abbrev pub take {ℓ} : {A : Type ℓ} → ℕ → List A → List A
take ℕ.zero xs = []
take (suc n) [] = []
take (suc n) (x ∷ xs) = x ∷ take n xs

pub length-take-le {ℓ} : {A : Type ℓ} (n : ℕ) (xs : List A) → length (take n xs) ≤ n
length-take-le ℕ.zero xs = omega arith
length-take-le (suc n) [] = omega arith
length-take-le (suc n) (x ∷ xs) = omega (arith, length-take-le n xs)

module _ {A : Type 0} where
  pub take-In : (n : ℕ) (xs : List A) (a : A) → In a (take n xs) → In a xs
  take-In ℕ.zero xs a m = absurd m
  take-In (suc n) [] a m = absurd m
  take-In (suc n) (x ∷ xs) a (inl e) = inl e
  take-In (suc n) (x ∷ xs) a (inr m) = inr (take-In n xs a m)

  pub insert_by-In :
      (before : A → A → Bool) (b : A) (xs : List A) (a : A)
      → In a (insert_by before b xs)
      → In a (b ∷ xs)
  insert_by-In before b [] a m = m
  insert_by-In before b (x ∷ xs) a m = ground (arith, m, insert_by-In before b xs a)

  pub sort_by-In :
      (before : A → A → Bool) (xs : List A) (a : A) → In a (sort_by before xs) → In a xs
  sort_by-In before [] a m = m
  sort_by-In before (x ∷ xs) a m = elim (insert_by-In before x (sort_by before xs) a m) [
    | inl e ↦ inl e
    | inr n ↦ inr (sort_by-In before xs a n)
  ]

module _ {A : Type 0} (id : A → ℕ) where
  abbrev pub has_key : ℕ → A → Bool
  has_key n x = id x == n

  -- A primary key: no two rows share an identifier.
  abbrev pub Unique : List A → Type 0
  Unique [] = Unit
  Unique (x ∷ xs) = (any (has_key (id x)) xs ≡ false) × Unique xs

  any-insert_by :
      (n : ℕ) (before : A → A → Bool) (b : A) (xs : List A)
      → any (has_key n) (insert_by before b xs) ≡ any (has_key n) (b ∷ xs)
  any-insert_by n before b [] = refl
  any-insert_by n before b (x ∷ xs) = ground (arith, any-insert_by n before b xs)

  any-sort_by :
      (n : ℕ) (before : A → A → Bool) (xs : List A)
      → any (has_key n) (sort_by before xs) ≡ any (has_key n) xs
  any-sort_by n before [] = refl
  any-sort_by n before (x ∷ xs) =
      ground (arith, any-insert_by n before x (sort_by before xs), any-sort_by n before xs)

  Unique-insert_by :
      (before : A → A → Bool) (b : A) (xs : List A)
      → any (has_key (id b)) xs ≡ false
      → Unique xs
      → Unique (insert_by before b xs)
  Unique-insert_by before b [] new u = (refl, tt)
  Unique-insert_by before b (x ∷ xs) new u = ground (
    arith,
    any-insert_by (id x) before b xs,
    Unique-insert_by before b xs (ground (arith, new)) u.1,
    new,
    u,
  )

  pub Unique-sort_by :
      (before : A → A → Bool) (xs : List A) → Unique xs → Unique (sort_by before xs)
  Unique-sort_by before [] u = tt
  Unique-sort_by before (x ∷ xs) u =
      Unique-insert_by before x (sort_by before xs)
        (ground (arith, any-sort_by (id x) before xs, u)) (Unique-sort_by before xs u.1)

  any-filter-false :
      (n : ℕ) (p : A → Bool) (xs : List A)
      → any (has_key n) xs ≡ false
      → any (has_key n) (filter p xs) ≡ false
  any-filter-false n p [] h = refl
  any-filter-false n p (x ∷ xs) h = ground (arith, any-filter-false n p xs)

  pub Unique-filter : (p : A → Bool) (xs : List A) → Unique xs → Unique (filter p xs)
  Unique-filter p [] u = tt
  Unique-filter p (x ∷ xs) u =
      ground (arith, any-filter-false (id x) p xs u.0, Unique-filter p xs u.1, u)

  any-take-false :
      (n k : ℕ) (xs : List A) → any (has_key n) xs ≡ false → any (has_key n) (take k xs) ≡ false
  any-take-false n ℕ.zero xs h = refl
  any-take-false n (suc k) [] h = refl
  any-take-false n (suc k) (x ∷ xs) h = ground (arith, any-take-false n k xs)

  pub Unique-take : (k : ℕ) (xs : List A) → Unique xs → Unique (take k xs)
  Unique-take ℕ.zero xs u = tt
  Unique-take (suc k) [] u = tt
  Unique-take (suc k) (x ∷ xs) u = (any-take-false (id x) k xs u.0, Unique-take k xs u.1)

  -- An UPDATE that keeps the identifiers.
  any-update-key :
      (n : ℕ) (q : A → Bool) (f : A → A) (xs : List A)
      → ((x : A) → id (f x) ≡ id x)
      → any (has_key n) (update q f xs) ≡ any (has_key n) xs
  any-update-key n q f [] h = refl
  any-update-key n q f (x ∷ xs) h = ground (arith, h x, any-update-key n q f xs h)

  pub Unique-update :
      (q : A → Bool) (f : A → A) (xs : List A)
      → ((x : A) → id (f x) ≡ id x)
      → Unique xs
      → Unique (update q f xs)
  Unique-update q f [] h u = tt
  Unique-update q f (x ∷ xs) h u =
      ground (arith, h x, any-update-key (id x) q f xs h, u.0, Unique-update q f xs h u.1)

-- An UPDATE that makes no row pass.
pub any-update-false {ℓ} :
    {A : Type ℓ} (p q : A → Bool) (f : A → A) (xs : List A)
    → ((x : A) → p x ≡ false → q x ≡ true → p (f x) ≡ false)
    → any p xs ≡ false
    → any p (update q f xs) ≡ false
any-update-false p q f [] h none_pass = refl
any-update-false p q f (x ∷ xs) h none_pass =
    ground (arith, h x, Bool-cases (q x), Bool-cases (p x), none_pass, any-update-false p q f xs h)

pub length-update {ℓ} :
    {A : Type ℓ} (q : A → Bool) (f : A → A) (xs : List A) → length (update q f xs) ≡ length xs
length-update q f [] = refl
length-update q f (x ∷ xs) = omega (arith, length-update q f xs)

pub length-map {ℓ κ} :
    {A : Type ℓ} {B : Type κ} (f : A → B) (xs : List A) → length (map f xs) ≡ length xs
length-map f [] = refl
length-map f (x ∷ xs) = omega (arith, length-map f xs)

-- A condition that goes into what the UPDATE writes.
pub update-both {ℓ} :
    {A : Type ℓ} (p q : A → Bool) (f : A → A) (xs : List A)
    → update (λ x. p x && q x) f xs ≡ update p (λ x. if q x then f x else x) xs
update-both p q f [] = refl
update-both p q f (x ∷ xs) =
    ground (arith, Bool-cases (p x), Bool-cases (q x), update-both p q f xs)
