-- ===== src/Base/Work.antt =====
-- The loop of a worker over a table: it handles rows that it read before, each with one UPDATE by
-- identifier, and each time there is less work left in the table.
use Prim.Native.Nat.{ℕ, ◌+◌, ◌≤◌}
use mathlib.Core.Path.{◌≡◌, refl, subst, ap, sym, ◌∙◌}
use mathlib.Core.Logic.{inl, inr}
use mathlib.Core.Bool.{Bool, true, false}
use mathlib.Core.List.{List, [], ◌∷◌}
use native.Mathlib.Omega.{arith}
use digitalreception.Base.Tests.{◌==◌, Bool-cases}
use digitalreception.Base.Lists.{In, any, any-In, update, length}
use digitalreception.Base.Tables.{has_key, Unique, Unique-update}

-- The sum of a measure over the rows.
abbrev pub total {ℓ} : {A : Type ℓ} → (A → ℕ) → List A → ℕ
total weight [] = 0
total weight (x ∷ xs) = weight x + total weight xs

module _ {A : Type 0} (id : A → ℕ) (weight : A → ℕ) where
  -- No row has the identifier: nothing is written.
  total-update-none :
      (n : ℕ) (f : A → A) (xs : List A)
      → any (has_key id n) xs ≡ false
      → total weight (update (has_key id n) f xs) ≡ total weight xs
  total-update-none n f [] h = refl
  total-update-none n f (x ∷ xs) h = ground (arith, total-update-none n f xs)

  -- One row is written, and its measure falls.
  pub total-update :
      (f : A → A) (d : A) (xs : List A)
      → Unique id xs
      → In d xs
      → weight (f d) + 1 ≤ weight d
      → total weight (update (has_key id (id d)) f xs) + 1 ≤ total weight xs
  total-update f d [] u m less = absurd m
  total-update f d (x ∷ xs) u (inl here) less =
      let lighter : weight (f x) + 1 ≤ weight x =
        subst (λ (z : A). weight (f z) + 1 ≤ weight z) here less in
      let same : (id x == id d) ≡ true = ground (arith, ap id here) in
      let rest : any (has_key id (id d)) xs ≡ false =
        subst (λ (n : ℕ). any (has_key id n) xs ≡ false) (ap id (sym here)) u.0 in
      ground (arith, same, lighter, total-update-none (id d) f xs rest)
  total-update f d (x ∷ xs) u (inr m) less = elim (Bool-cases (id x == id d)) [
    | inl same ↦
        let found = any-In (has_key id (id d)) xs d m (ground arith) in
        let e : id x ≡ id d = ground (arith, same) in
        absurd (ground (arith, subst (λ (n : ℕ). any (has_key id n) xs ≡ false) e u.0, found))
    | inr other ↦ ground (arith, other, total-update f d xs u.1 m less)
  ]

  -- Another row stays.
  pub In-update-other :
      (n : ℕ) (f : A → A) (a : A) (xs : List A)
      → In a xs
      → (id a == n) ≡ false
      → In a (update (has_key id n) f xs)
  In-update-other n f a [] m other = absurd m
  In-update-other n f a (x ∷ xs) (inl here) other =
      let no_x : (id x == n) ≡ false = subst (λ (z : A). (id z == n) ≡ false) here other in
      ground (arith, here, no_x)
  In-update-other n f a (x ∷ xs) (inr m) other = inr (In-update-other n f a xs m other)

-- The loop, on any state that holds the table.
abbrev pub work {ℓ κ} : {S : Type ℓ} {A : Type κ} → (A → S → S) → List A → S → S
work handle [] s = s
work handle (d ∷ ds) s = work handle ds (handle d s)

-- What no turn of the loop changes.
pub work-keeps :
    {S : Type 0} {A : Type 0} {T : Type 0} (keep : S → T) (handle : A → S → S) (ds : List A) (s : S)
    → ((d : A) (x : S) → keep (handle d x) ≡ keep x)
    → keep (work handle ds s) ≡ keep s
work-keeps keep handle [] s h = refl
work-keeps keep handle (d ∷ ds) s h = work-keeps keep handle ds (handle d s) h ∙ h d s

-- What an UPDATE does not change of the measure of any row.
pub total-update-same :
    {A : Type 0} (weight : A → ℕ) (q : A → Bool) (f : A → A) (xs : List A)
    → ((x : A) → weight (f x) ≡ weight x)
    → total weight (update q f xs) ≡ total weight xs
total-update-same weight q f [] h = refl
total-update-same weight q f (x ∷ xs) h = ground (arith, h x, total-update-same weight q f xs h)

pub total-zero :
    {A : Type 0} (weight : A → ℕ) (xs : List A) (a : A)
    → total weight xs ≡ 0
    → In a xs
    → weight a ≡ 0
total-zero weight [] a h m = absurd m
total-zero weight (x ∷ xs) a h (inl e) = ap weight e ∙ omega (arith, h)
total-zero weight (x ∷ xs) a h (inr m) = total-zero weight xs a (omega (arith, h)) m

module _ {S : Type 0} {A : Type 0} (id : A → ℕ) (weight : A → ℕ) (rows : S → List A) where
  abbrev pub Ready : List A → S → Type 0
  Ready ds s = (a : A) → In a ds → In a (rows s) × (1 ≤ weight a)

  module _ (handle : A → S → S) where
    -- Handling a row with work left is one UPDATE of it that leaves less.
    abbrev pub Lightens : Type 0
    Lightens =
        (d : A) (s : S)
        → 1 ≤ weight d
        → (f : A → A) × (rows (handle d s) ≡ update (has_key id (id d)) f (rows s))
          × ((x : A) → id (f x) ≡ id x)
          × (weight (f d) + 1 ≤ weight d)

    pub work-total :
        (lightens : Lightens) (ds : List A) (s : S)
        → Unique id (rows s)
        → Unique id ds
        → Ready ds s
        → (total weight (rows (work handle ds s)) + length ds ≤ total weight (rows s))
          × Unique id (rows (work handle ds s))
    work-total lightens [] s u v ready = (omega arith, u)
    work-total lightens (d ∷ ds) s u v ready =
        let (here, busy) = ready d (inl refl) in
        let (f, written, same, less) = lightens d s busy in
        let less_left : total weight (rows (handle d s)) + 1 ≤ total weight (rows s) =
          subst (λ (ys : List A). total weight ys + 1 ≤ total weight (rows s)) (sym written)
            (total-update id weight f d (rows s) u here less) in
        let still : Unique id (rows (handle d s)) =
          subst (λ (ys : List A). Unique id ys) (sym written)
            (Unique-update id (has_key id (id d)) f (rows s) same u) in
        let later : Ready ds (handle d s) = λ a m.
          let (there, more) = ready a (inr m) in
          let other : (id a == id d) ≡ false = elim (Bool-cases (id a == id d)) [
            | inl e ↦ absurd (ground (arith, any-In (has_key id (id d)) ds a m e, v.0))
            | inr e ↦ e
          ] in
          (
            subst (λ (ys : List A). In a ys) (sym written)
                (In-update-other id weight (id d) f a (rows s) there other),
            more,
          ) in
        let (all_less, last) = work-total lightens ds (handle d s) still v.1 later in
        (omega (arith, all_less, less_left), last)

  -- One run of a worker: what it reads first, what it writes for each row, and why each write counts.
  pub record Worker : Type 0 where
    pub query : S → List A
    pub handle : A → S → S
    pub lightens : Lightens handle
    pub ready : (s : S) → Ready (query s) s
    pub unique : (s : S) → Unique id (rows s) → Unique id (query s)

  abbrev pub run : Worker → S → S
  run w s = work w.handle (w.query s) s

  pub run-total :
      (w : Worker) (s : S)
      → Unique id (rows s)
      → (total weight (rows (run w s)) + length (w.query s) ≤ total weight (rows s))
        × Unique id (rows (run w s))
  run-total w s u = work-total w.handle w.lightens (w.query s) s u (w.unique s u) (w.ready s)

  -- With a query that finds a row as long as there is work left, a run leaves less.
  pub run-progress :
      (w : Worker) (n : ℕ) (s : S)
      → Unique id (rows s)
      → (1 ≤ total weight (rows s) → 1 ≤ length (w.query s))
      → total weight (rows s) ≤ n + 1
      → total weight (rows (run w s)) ≤ n
  run-progress w n s u finds enough = ground (arith, run-total w s u, finds)
