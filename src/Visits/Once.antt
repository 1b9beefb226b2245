-- ===== src/Visits/Once.antt =====
-- A visit is closed once (kiosk.service.ts `checkOut`, visits.service.ts `manualCheckout`), whatever
-- else happens to it.
use digitalreception.Base.{
  ℕ, ◌+◌, ◌≤◌, ◌≡◌, refl, inl, inr, arith, Bool, true, false, ◌&&◌, List, [], ◌∷◌, none, some,
  is_some, ◌==◌, if◌then◌else◌, any, update, Bool-cases, Option-cases, In, In-update, sym, ◌∙◌, ap,
  subst, subst₂,
}
use digitalreception.Text.{Text}
use digitalreception.Visits.Store.{closed, Visit, Db}
use digitalreception.Visits.Lifecycle.{
  open_with_id, close_visit, visit_with_id, anonymised, anonymize, left_open, auto_close,
}

-- After the UPDATE no row of the visit is open.
pub close_visit-closed :
    (tenant id now : ℕ) (by : Text) (db saved : Db) (v : Visit)
    → close_visit tenant id now by db ≡ some saved
    → In v saved.visits
    → open_with_id tenant id v ≡ false
unfolding close_visit
close_visit-closed tenant id now by db saved v h m =
    let f = λ (x : Visit). record x {
      status = closed;
      check_out_at = some now;
      check_out_by = some by;
    } in
    let rows : saved.visits ≡ update (open_with_id tenant id) f db.visits = ground (arith, h) in
    let (x, n, at) =
      In-update (open_with_id tenant id) f db.visits v
        (subst (λ (vs : List Visit). In v vs) rows m) in
    elim (Bool-cases (open_with_id tenant id x)) [
      | inl hits ↦
          let e : v ≡ f x = ground (arith, at, hits) in ap (open_with_id tenant id) e ∙ ground arith
      | inr misses ↦
          let e : v ≡ x = ground (arith, at, misses) in ap (open_with_id tenant id) e ∙ misses
    ]

-- What happens to visits, as the writes interleave.
pub data Op : Type 0 where
  -- A check-in, with a row that the request has made.
  arrives : Visit → Op
  -- A check-out at the tablet or in the console.
  leaves : (tenant id now : ℕ) → Text → Op
  -- Erasure, anonymisation, and the end of the day.
  anonymizes : (tenant id : ℕ) → Bool → ℕ → Op
  ends_day : (tenant site day_start : ℕ) → Op

unfoldable pub step : Op → Db → Db
step (arrives v) db = record db { visits = v ∷ db.visits }
step (leaves tenant id now by) db = elim (close_visit tenant id now by db) [
  | none ↦ db
  | some saved ↦ saved
]
step (anonymizes tenant id e now) db = anonymize tenant id e now db
step (ends_day tenant site day_start) db = auto_close tenant site day_start db

-- Whether a step closes this visit at a tablet or in the console.
abbrev pub closes : ℕ → ℕ → Op → Db → Bool
closes tenant id (leaves t i now by) db =
    (t == tenant && i == id) && is_some (close_visit t i now by db)
closes tenant id _ db = false

-- A check-in never takes the identifier of this visit again.
abbrev pub NotAgain : ℕ → List Op → Type 0
NotAgain id [] = Unit
NotAgain id (arrives v ∷ ops) = ((v.id == id) ≡ false) × NotAgain id ops
NotAgain id (leaves t i now by ∷ ops) = NotAgain id ops
NotAgain id (anonymizes t i e now ∷ ops) = NotAgain id ops
NotAgain id (ends_day t s day_start ∷ ops) = NotAgain id ops

unfoldable pub times_closed : ℕ → ℕ → List Op → Db → ℕ
times_closed tenant id [] db = 0
times_closed tenant id (op ∷ ops) db =
    (if closes tenant id op db then 1 else 0) + times_closed tenant id ops (step op db)

-- An UPDATE that opens no visit.
any-update-closed :
    (p q : Visit → Bool) (f : Visit → Visit) (vs : List Visit)
    → ((x : Visit) → p x ≡ false → q x ≡ true → p (f x) ≡ false)
    → any p vs ≡ false
    → any p (update q f vs) ≡ false
any-update-closed p q f [] h none_open = refl
any-update-closed p q f (x ∷ vs) h none_open =
    ground (arith, h x, Bool-cases (q x), Bool-cases (p x), none_open, any-update-closed p q f vs h)

abbrev NoOpen : ℕ → ℕ → Db → Type 0
NoOpen tenant id db = any (open_with_id tenant id) db.visits ≡ false

none_open :
    (tenant id : ℕ) (vs : List Visit)
    → ((v : Visit) → In v vs → open_with_id tenant id v ≡ false)
    → any (open_with_id tenant id) vs ≡ false
none_open tenant id [] h = refl
none_open tenant id (v ∷ vs) h =
    ground (arith, h v (inl refl), none_open tenant id vs (λ w m. h w (inr m)))

NoOpen-leaves :
    (tenant id t i now : ℕ) (by : Text) (db : Db)
    → NoOpen tenant id db
    → NoOpen tenant id (step (leaves t i now by) db)
unfolding step close_visit
NoOpen-leaves tenant id t i now by db h = elim (Bool-cases (any (open_with_id t i) db.visits)) [
  | inl some_row ↦
      rw (step, close_visit, some_row)
        (any-update-closed (open_with_id tenant id) (open_with_id t i)
          (λ v. record v { status = closed; check_out_at = some now; check_out_by = some by })
          db.visits (λ x a b. ground arith) h)
  | inr no_row ↦ rw (step, close_visit, no_row) h
]

NoOpen-step :
    (tenant id : ℕ) (op : Op) (ops : List Op) (db : Db)
    → NotAgain id (op ∷ ops)
    → NoOpen tenant id db
    → NoOpen tenant id (step op db) × NotAgain id ops
unfolding step anonymize auto_close
NoOpen-step tenant id (arrives v) ops db fresh h = (ground (arith, fresh, h), fresh.1)
NoOpen-step tenant id (leaves t i now by) ops db fresh h =
    (NoOpen-leaves tenant id t i now by db h, fresh)
NoOpen-step tenant id (anonymizes t i e now) ops db fresh h = (
  any-update-closed (open_with_id tenant id) (visit_with_id t i) (anonymised e now) db.visits
      (λ x a b. ground (arith, a, Bool-cases e)) h,
  fresh,
)
NoOpen-step tenant id (ends_day t s day_start) ops db fresh h = (
  any-update-closed (open_with_id tenant id) (left_open t s day_start) _ db.visits
      (λ x a b. ground arith) h,
  fresh,
)

-- Without an open row nothing closes.
closes-NoOpen :
    (tenant id : ℕ) (op : Op) (db : Db) → NoOpen tenant id db → closes tenant id op db ≡ false
unfolding close_visit
closes-NoOpen tenant id (arrives v) db h = refl
closes-NoOpen tenant id (leaves t i now by) db h = elim (Bool-cases (t == tenant && i == id)) [
  | inr other ↦ ground (arith, other)
  | inl same ↦
      let at_t : t ≡ tenant = ground (arith, same) in
      let at_i : i ≡ id = ground (arith, same) in
      let none_open_here : any (open_with_id t i) db.visits ≡ false =
        subst₂ (λ a b. any (open_with_id a b) db.visits ≡ false) (sym at_t) (sym at_i) h in
      ground (arith, same, none_open_here)
]
closes-NoOpen tenant id (anonymizes t i e now) db h = refl
closes-NoOpen tenant id (ends_day t s day_start) db h = refl

NoOpen-times_closed :
    (ops : List Op) (tenant id : ℕ) (db : Db)
    → NotAgain id ops
    → NoOpen tenant id db
    → times_closed tenant id ops db ≡ 0
unfolding times_closed
NoOpen-times_closed [] tenant id db fresh h = refl
NoOpen-times_closed (op ∷ ops) tenant id db fresh h =
    let (next, later) = NoOpen-step tenant id op ops db fresh h in
    let rest = NoOpen-times_closed ops tenant id (step op db) later next in
    let not_now : closes tenant id op db ≡ false = closes-NoOpen tenant id op db h in
    ground (arith, rest, not_now)

-- What a step that closes the visit leaves: no open row of it.
closes-step :
    (tenant id : ℕ) (op : Op) (db : Db)
    → closes tenant id op db ≡ true
    → NoOpen tenant id (step op db)
unfolding step
closes-step tenant id (arrives v) db h = cc
closes-step tenant id (leaves t i now by) db h = elim (Option-cases (close_visit t i now by db)) [
  | inl gone ↦ absurd (ground (arith, h, gone))
  | inr (saved, done) ↦
      let at_t : t ≡ tenant = ground (arith, h) in
      let at_i : i ≡ id = ground (arith, h) in
      let none_left : any (open_with_id t i) saved.visits ≡ false =
        none_open t i saved.visits (λ v m. close_visit-closed t i now by db saved v done m) in
      rw (step, done)
        (subst₂ (λ a b. any (open_with_id a b) saved.visits ≡ false) at_t at_i none_left)
]
closes-step tenant id (anonymizes t i e now) db h = cc
closes-step tenant id (ends_day t s day_start) db h = cc

NotAgain-tail : (id : ℕ) (op : Op) (ops : List Op) → NotAgain id (op ∷ ops) → NotAgain id ops
NotAgain-tail id (arrives v) ops h = h.1
NotAgain-tail id (leaves t i now by) ops h = h
NotAgain-tail id (anonymizes t i e now) ops h = h
NotAgain-tail id (ends_day t s day_start) ops h = h

-- Whatever check-ins, check-outs at a tablet or in the console, erasures, anonymisations and ends of
-- the day are written, in whatever order and at whatever times: a visit is closed by a check-out at
-- most once, when no later check-in takes its identifier.
pub closed_once :
    (ops : List Op) (tenant id : ℕ) (db : Db) → NotAgain id ops → times_closed tenant id ops db ≤ 1
unfolding times_closed
closed_once [] tenant id db fresh = omega arith
closed_once (op ∷ ops) tenant id db fresh =
    let later = NotAgain-tail id op ops fresh in
    elim (Bool-cases (closes tenant id op db)) [
      | inl now ↦ ground (
        arith,
        now,
        NoOpen-times_closed ops tenant id (step op db) later (closes-step tenant id op db now),
      )
      | inr not_now ↦ ground (arith, not_now, closed_once ops tenant id (step op db) later)
    ]
