-- ===== src/Base/Batches.antt =====
-- A loop that reads the rows that are due in batches and handles each, until a batch is not full.
use Prim.Native.Nat.{ℕ, zero, suc, ◌≤◌, ◌<◌}
use mathlib.Core.Path.{◌≡◌, refl, subst}
use mathlib.Core.Logic.{inl, inr}
use mathlib.Core.Bool.{Bool, false}
use mathlib.Core.Option.{Option, none, some}
use mathlib.Core.List.{List, [], ◌∷◌}
use native.Mathlib.Omega.{arith}
use digitalreception.Base.Tests.{ltb, if◌then◌else◌, Bool-cases}
use digitalreception.Base.Lists.{In-filter, any, filter, length}
use digitalreception.Base.Tables.{take, take-In, Unique, Unique-filter, Unique-take}
use digitalreception.Base.Work.{total, work, Lightens, Ready, work-total}

-- The loop on fuel; none is that the fuel was spent.
abbrev pub batches {ℓ κ} :
    {S : Type ℓ} {A : Type κ} → (A → Bool) → (S → List A) → (A → S → S) → ℕ → ℕ → S → Option S
batches due rows handle size zero s = none
batches due rows handle size (suc fuel) s =
    let ds = take size (filter due (rows s)) in
    let next = work handle ds s in
    let rest = batches due rows handle size fuel next in
    if ltb (length ds) size then some next else rest

module _ {A : Type 0} (due : A → Bool) where
  -- One for a row that is due.
  abbrev pub due_weight : A → ℕ
  due_weight a = if due a then 1 else 0

  total-due : (xs : List A) → total due_weight xs ≡ length (filter due xs)
  total-due [] = refl
  total-due (x ∷ xs) = ground (arith, total-due xs)

  none-due : (xs : List A) → total due_weight xs ≡ 0 → any due xs ≡ false
  none-due [] h = refl
  none-due (x ∷ xs) h = ground (arith, h, none-due xs)

  take-short : (n : ℕ) (xs : List A) → length (take n xs) < n → length (take n xs) ≡ length xs
  take-short zero xs h = omega (arith, h)
  take-short (suc n) [] h = refl
  take-short (suc n) (x ∷ xs) h = omega (arith, take-short n xs (omega (arith, h)))

-- Handling a due row is an UPDATE of it by identifier, after which it is not due.
module _ {S : Type 0} {A : Type 0} (id : A → ℕ) (due : A → Bool) (rows : S → List A)
    (handle : A → S → S) where
  abbrev pub Settles : Type 0
  Settles = Lightens id (due_weight due) rows handle

  batch-Ready :
      (size : ℕ) (s : S) → Ready id (due_weight due) rows (take size (filter due (rows s))) s
  batch-Ready size s a m =
      let (n, h) = In-filter due (rows s) a (take-In size (filter due (rows s)) a m) in
      (n, ground (arith, h))

  -- With more fuel than rows are due, the loop ends, and nothing is due then.
  pub batches-end :
      (settles : Settles) (size fuel : ℕ) (s : S)
      → Unique id (rows s)
      → length (filter due (rows s)) < fuel
      → 1 ≤ size
      → (t : S) × (batches due rows handle size fuel s ≡ some t)
        × (any due (rows t) ≡ false)
        × Unique id (rows t)
  batches-end settles size zero s u enough some_rows = absurd (omega (arith, enough))
  batches-end settles size (suc fuel) s u enough some_rows =
      let ds = take size (filter due (rows s)) in
      let next = work handle ds s in
      let (less, still) =
        work-total id (due_weight due) rows handle settles ds s u
          (Unique-take id size (filter due (rows s)) (Unique-filter id due (rows s) u))
          (batch-Ready size s) in
      let count = total-due due (rows s) in
      let left = total-due due (rows next) in
      elim (Bool-cases (ltb (length ds) size)) [
        | inl short ↦
            let all_taken = take-short due size (filter due (rows s)) (ground (arith, short)) in
            (
              next,
              rw short refl,
              none-due due (rows next) (omega (arith, less, count, all_taken)),
              still,
            )
        | inr full ↦
            let (t, e, clean, keyed) =
              batches-end settles size fuel next still
                (ground (arith, less, count, left, enough, full, some_rows)) some_rows in
            (t, rw full e, clean, keyed)
      ]

-- What no turn of the loops changes holds at their end.
work-invariant :
    {S : Type 0} {A : Type 0} (P : S → Type 0) (handle : A → S → S) (ds : List A) (s : S)
    → ((d : A) (x : S) → P x → P (handle d x))
    → P s
    → P (work handle ds s)
work-invariant P handle [] s h p = p
work-invariant P handle (d ∷ ds) s h p = work-invariant P handle ds (handle d s) h (h d s p)

pub batches-invariant :
    {S : Type 0} {A : Type 0} (P : S → Type 0) (due : A → Bool) (rows : S → List A)
    (handle : A → S → S) (size fuel : ℕ) (s t : S)
    → ((d : A) (x : S) → P x → P (handle d x))
    → P s
    → batches due rows handle size fuel s ≡ some t
    → P t
batches-invariant P due rows handle size zero s t h p e = cc
batches-invariant P due rows handle size (suc fuel) s t h p e =
    let ds = take size (filter due (rows s)) in
    let next = work-invariant P handle ds s h p in
    elim (Bool-cases (ltb (length ds) size)) [
      | inl short ↦ let last : work handle ds s ≡ t = ground (arith, e, short) in subst P last next
      | inr full ↦
          batches-invariant P due rows handle size fuel (work handle ds s) t h next
            (ground (arith, e, full))
    ]
