-- ===== src/Base/Queries.antt =====
-- The query of a worker: the first rows, in some order, of those that pass a test.
use Prim.Native.Nat.{ℕ, suc, ◌+◌, ◌≤◌}
use mathlib.Core.Path.{◌≡◌, refl, subst, sym}
use mathlib.Core.Bool.{Bool, true, false}
use mathlib.Core.List.{List, [], ◌∷◌}
use native.Mathlib.Omega.{arith}
use digitalreception.Base.Tests.{Bool-cases}
use digitalreception.Base.Lists.{In, In-filter, filter, insert_by, sort_by, length}
use digitalreception.Base.Tables.{
  take, take-In, sort_by-In, Unique, Unique-filter, Unique-sort_by, Unique-take,
}
use digitalreception.Base.Work.{total}

-- A query of a worker: the first rows, in an order, of those that pass.
module _ {A : Type 0} (id : A → ℕ) (weight : A → ℕ) (p : A → Bool) (before : A → A → Bool)
    (limit : ℕ) where
  pub query-Ready :
      ((a : A) → p a ≡ true → 1 ≤ weight a)
      → (xs : List A) (a : A) → In a (take limit (sort_by before (filter p xs)))
      → In a xs × (1 ≤ weight a)
  query-Ready busy xs a m =
      let (n, h) =
        In-filter p xs a
          (sort_by-In before (filter p xs) a (take-In limit (sort_by before (filter p xs)) a m)) in
      (n, busy a h)

  pub query-Unique :
      (xs : List A) → Unique id xs → Unique id (take limit (sort_by before (filter p xs)))
  query-Unique xs u =
      Unique-take id limit (sort_by before (filter p xs))
        (Unique-sort_by id before (filter p xs) (Unique-filter id p xs u))

  length-insert_by : (a : A) (xs : List A) → length (insert_by before a xs) ≡ length xs + 1
  length-insert_by a [] = refl
  length-insert_by a (x ∷ xs) = ground (arith, length-insert_by a xs)

  length-sort_by : (xs : List A) → length (sort_by before xs) ≡ length xs
  length-sort_by [] = refl
  length-sort_by (x ∷ xs) = omega (arith, length-insert_by x (sort_by before xs), length-sort_by xs)

  filter-finds :
      ((a : A) → p a ≡ false → weight a ≡ 0)
      → (xs : List A) → 1 ≤ total weight xs
      → 1 ≤ length (filter p xs)
  filter-finds idle [] h = omega (arith, h)
  filter-finds idle (x ∷ xs) h = ground (arith, Bool-cases (p x), idle x, filter-finds idle xs)

  take-finds : (k : ℕ) (xs : List A) → 1 ≤ length xs → 1 ≤ length (take (suc k) xs)
  take-finds k [] h = omega (arith, h)
  take-finds k (x ∷ xs) h = omega arith

  pub query-finds :
      (k : ℕ)
      → limit ≡ suc k
      → ((a : A) → p a ≡ false → weight a ≡ 0)
      → (xs : List A) → 1 ≤ total weight xs
      → 1 ≤ length (take limit (sort_by before (filter p xs)))
  query-finds k some_rows idle xs h =
      subst (λ (n : ℕ). 1 ≤ length (take n (sort_by before (filter p xs)))) (sym some_rows)
        (take-finds k (sort_by before (filter p xs))
          (omega (arith, length-sort_by (filter p xs), filter-finds idle xs h)))
