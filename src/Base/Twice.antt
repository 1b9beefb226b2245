-- ===== src/Base/Twice.antt =====
-- Lists: an UPDATE or a DELETE that runs twice.
use mathlib.Core.Path.{◌≡◌, refl}
use mathlib.Core.Logic.{inl, inr, ◌⊎◌}
use mathlib.Core.Bool.{Bool, true, false, not}
use mathlib.Core.Option.{some}
use mathlib.Core.List.{List, [], ◌∷◌, ◌++◌, map}
use native.Mathlib.Omega.{arith}
use digitalreception.Base.Tests.{Bool-cases}
use digitalreception.Base.Lists.{any, update, filter, find}

module _ {A : Type 0} where
  pub update-idle : (p : A → Bool) (f : A → A) (xs : List A) → any p xs ≡ false → update p f xs ≡ xs
  update-idle p f [] h = refl
  update-idle p f (x ∷ xs) h = ground (arith, h, update-idle p f xs)

  pub update-twice :
      (p : A → Bool) (f : A → A) (xs : List A)
      → ((x : A) → p x ≡ true → f (f x) ≡ f x)
      → update p f (update p f xs) ≡ update p f xs
  update-twice p f [] h = refl
  update-twice p f (x ∷ xs) h =
      let rest = update-twice p f xs h in
      elim (Bool-cases (p x)) [
        | inl hits ↦ elim (Bool-cases (p (f x))) [
          | inl again ↦ ground (arith, h x, hits, again, rest)
          | inr stops ↦ ground (arith, hits, stops, rest)
        ]
        | inr misses ↦ ground (arith, misses, rest)
      ]

  pub find-update :
      (q p : A → Bool) (r x : A) (xs : List A)
      → q r ≡ true
      → find q xs ≡ some x
      → p x ≡ true
      → find q (update p (λ y. r) xs) ≡ some r
  find-update q p r x [] hit found here = absurd (ground (arith, found))
  find-update q p r x (y ∷ ys) hit found here = elim (Bool-cases (p y)) [
    | inl hits ↦ ground (arith, hits, hit)
    | inr misses ↦ elim (Bool-cases (q y)) [
      | inl first ↦ absurd (ground (arith, first, found, here, misses))
      | inr later ↦ ground (arith, later, misses, find-update q p r x ys hit, found, here)
    ]
  ]

  pub found-update :
      (q p : A → Bool) (r z : A) (xs : List A)
      → q r ≡ true
      → find q (update p (λ y. r) xs) ≡ some z
      → (z ≡ r) ⊎ (find q xs ≡ some z)
  found-update q p r z [] hit found = inr found
  found-update q p r z (y ∷ ys) hit found = elim (Bool-cases (p y)) [
    | inl hits ↦ inl (ground (arith, hits, hit, found))
    | inr misses ↦ elim (Bool-cases (q y)) [
      | inl first ↦ inr (ground (arith, first, found, misses))
      | inr later ↦ elim (found-update q p r z ys hit (ground (arith, later, misses, found))) [
        | inl new ↦ inl new
        | inr old ↦ inr (ground (arith, later, old))
      ]
    ]
  ]

  pub filter-all : (p : A → Bool) (xs : List A) → any (λ x. not (p x)) xs ≡ false → filter p xs ≡ xs
  filter-all p [] h = refl
  filter-all p (x ∷ xs) h = ground (arith, h, Bool-cases (p x), filter-all p xs)

  pub filter-twice : (p : A → Bool) (xs : List A) → filter p (filter p xs) ≡ filter p xs
  filter-twice p [] = refl
  filter-twice p (x ∷ xs) = ground (arith, Bool-cases (p x), filter-twice p xs)

  pub any-none :
      (p q : A → Bool) (xs : List A)
      → ((x : A) → q x ≡ false → p x ≡ false)
      → any q xs ≡ false
      → any p xs ≡ false
  any-none p q [] h n = refl
  any-none p q (x ∷ xs) h n = ground (arith, h x, n, any-none p q xs h)

  pub filter-map-none :
      {B : Type 0} (p : A → Bool) (g : B → A) (xs : List B) (ys : List A)
      → ((b : B) → p (g b) ≡ false)
      → filter p (map g xs ++ ys) ≡ filter p ys
  filter-map-none p g [] ys h = refl
  filter-map-none p g (b ∷ bs) ys h = ground (arith, h b, filter-map-none p g bs ys h)
