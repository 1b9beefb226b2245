-- ===== src/Invitations/Once.antt =====
-- An invitation is used once (invitations.service.ts, `consume`).
use digitalreception.Base.{
  ℕ, ◌+◌, ◌≤◌, ◌≡◌, refl, inl, inr, arith, Bool, true, false, ◌&&◌, List, [], ◌∷◌, none, some,
  is_some, ◌==◌, if◌then◌else◌, any, update, Bool-cases, Result-cases, In, In-update, sym, ◌∙◌, ap,
  subst, ==_iff,
}
use digitalreception.Text.{Text}
use digitalreception.Invitations.Store.{
  used, cancelled, waiting, Invitation, Db, is_pending, clashes, insert_invitation,
}
use digitalreception.Invitations.Writes.{
  Env, Actor, InvitationInput, pending_with_id, has_id, create, create_checks, new_invitation,
  save_with_code, cancel_writes, resend_writes, consume_writes,
}

-- Requests as their writes interleave: each writes with a row that it read at any earlier moment.
pub data Op : Type 0 where
  creates : Actor → InvitationInput → Op
  cancels : ℕ → Invitation → Op
  resends : Invitation → Op
  consumes : Invitation → ℕ → Op

unfoldable pub step : Env → Op → Db → Db
step env (creates actor dto) db = (create env actor dto db).1
step env (cancels tenant inv) db = cancel_writes env tenant inv db
step env (resends inv) db = resend_writes env inv db
step env (consumes inv visit) db = elim (consume_writes env inv visit db) [
  | none ↦ db
  | some saved ↦ saved
]

-- Whether an operation uses this invitation.
abbrev pub uses : ℕ → Env → Op → Db → Bool
uses id env (consumes inv visit) db = inv.id == id && is_some (consume_writes env inv visit db)
uses id env _ db = false

-- How many operations of a sequence use it.
unfoldable pub times_used : ℕ → List (Env × Op) → Db → ℕ
unfolding step
times_used id [] db = 0
times_used id ((env, op) ∷ ops) db =
    (if uses id env op db then 1 else 0) + times_used id ops (step env op db)

-- The invitation is there, and no longer pending.
abbrev Over : ℕ → List Invitation → Type 0
Over id rows =
    (any (has_id id) rows ≡ true)
    × ((i : Invitation) → In i rows → i.id ≡ id → is_pending i.status ≡ false)

any-update :
    (p q : Invitation → Bool) (f : Invitation → Invitation) (rows : List Invitation)
    → ((x : Invitation) → p (f x) ≡ p x)
    → any p (update q f rows) ≡ any p rows
any-update p q f [] h = refl
any-update p q f (x ∷ rows) h = ground (arith, h x, any-update p q f rows h)

-- An UPDATE that keeps identifiers and starts no invitation again.
update-Over :
    (id : ℕ) (q : Invitation → Bool) (f : Invitation → Invitation) (rows : List Invitation)
    → ((x : Invitation) → (f x).id ≡ x.id)
    → ((x : Invitation) → is_pending x.status ≡ false → is_pending (f x).status ≡ false)
    → Over id rows
    → Over id (update q f rows)
update-Over id q f rows same stays (here, over) = (
  any-update (has_id id) q f rows (λ x. rw (same x) refl) ∙ here,
  λ i m is_id.
      let (x, n, at) = In-update q f rows i m in
      elim (Bool-cases (q x)) [
        | inl hits ↦
            let e : i ≡ f x = ground (arith, at, hits) in
            ap (λ (z : Invitation). is_pending z.status) e
            ∙ stays x (over x n (sym (ap (λ (z : Invitation). z.id) e ∙ same x) ∙ is_id))
        | inr misses ↦
            let e : i ≡ x = ground (arith, at, misses) in
            ap (λ (z : Invitation). is_pending z.status) e
            ∙ over x n (sym (ap (λ (z : Invitation). z.id) e) ∙ is_id)
      ],
)

-- The invitation that is used is over.
update-used :
    (id visit now : ℕ) (rows : List Invitation)
    → any (pending_with_id id) rows ≡ true
    → Over id (
        update
          (pending_with_id id)
          (λ i. record i { status = used; visit = some visit; used_at = some now })
          rows)
update-used id visit now rows here = (
  any-update (has_id id) (pending_with_id id)
        (λ i. record i { status = used; visit = some visit; used_at = some now }) rows (λ x. refl)
      ∙ any-weaker rows here,
  λ i m is_id.
      let (x, n, at) =
        In-update (pending_with_id id)
          (λ i. record i { status = used; visit = some visit; used_at = some now }) rows i m in
      elim (Bool-cases (pending_with_id id x)) [
        | inl hits ↦ ground (arith, at, hits)
        | inr misses ↦
            let e : i ≡ x = ground (arith, at, misses) in
            let same : x.id ≡ id = sym (ap (λ (z : Invitation). z.id) e) ∙ is_id in
            ap (λ (z : Invitation). is_pending z.status) e ∙ ground (arith, same, misses)
      ],
)
  where
    any-weaker :
        (rows : List Invitation)
        → any (pending_with_id id) rows ≡ true
        → any (has_id id) rows ≡ true
    any-weaker [] h = h
    any-weaker (x ∷ rows) h = ground (arith, any-weaker rows)

-- A new row has a new identifier.
has_id-clashes :
    (new : Invitation) (rows : List Invitation)
    → any (has_id new.id) rows ≡ true
    → any (clashes new) rows ≡ true
has_id-clashes new [] h = h
has_id-clashes new (x ∷ rows) h = ground (arith, has_id-clashes new rows)

insert-Over :
    (id : ℕ) (new : Invitation) (rows : List Invitation)
    → any (clashes new) rows ≡ false
    → Over id rows
    → Over id (new ∷ rows)
insert-Over id new rows free (here, over) =
    let other : (new.id == id) ≡ false = elim (Bool-cases (new.id == id)) [
      | inr differs ↦ differs
      | inl same ↦
          let at = sym ((==_iff new.id id).0 same) in
          let clash =
            has_id-clashes new rows (subst (λ (n : ℕ). any (has_id n) rows ≡ true) at here) in
          absurd (ground (arith, clash))
    ] in
    (
      ground (arith, here, other),
      λ i m is_id. elim m [
        | inl at ↦ absurd (ground (arith, other, ap (λ (z : Invitation). z.id) at, is_id))
        | inr n ↦ over i n is_id
      ],
    )

save-Over :
    (env : Env) (id tries attempt : ℕ) (row : Text → Db → Invitation) (db : Db)
    → Over id db.invitations
    → Over id (save_with_code env tries attempt row db).1.invitations
unfolding save_with_code insert_invitation
save-Over env id ℕ.zero attempt row db over = over
save-Over env id (ℕ.suc tries) attempt row db (here, over) =
    let new = row (env.code attempt) db in
    elim (Bool-cases (any (clashes new) db.invitations)) [
      | inl taken ↦
          rw (save_with_code, insert_invitation, taken)
            (save-Over env id tries (attempt + 1) row db (here, over))
      | inr free ↦
          rw (save_with_code, insert_invitation, free)
            (insert-Over id new db.invitations free (here, over))
    ]

step-Over :
    (env : Env) (op : Op) (id : ℕ) (db : Db)
    → Over id db.invitations
    → Over id (step env op db).invitations
unfolding step create cancel_writes resend_writes consume_writes
step-Over env (creates actor dto) id db over =
    elim (Result-cases (create_checks env actor dto db)) [
      | inl (draft, passed) ↦
          rw (step, create, passed)
            (save-Over env id 5 0 (new_invitation env actor dto draft) db over)
      | inr (e, bad) ↦ rw (step, create, bad) over
    ]
step-Over env (cancels tenant inv) id db over =
    update-Over id (pending_with_id inv.id) (λ i. record i { status = cancelled }) db.invitations
      (λ x. refl) (λ x h. refl) over
step-Over env (resends inv) id db over =
    update-Over id (has_id inv.id) (λ i. record i { email_status = waiting; email_attempts = 0 })
      db.invitations (λ x. refl) (λ x h. h) over
step-Over env (consumes inv visit) id db over =
    let next =
      update-Over id (pending_with_id inv.id)
        (λ i. record i { status = used; visit = some visit; used_at = some env.now }) db.invitations
        (λ x. refl) (λ x h. refl) over in
    elim (Bool-cases (any (pending_with_id inv.id) db.invitations)) [
      | inl there ↦ rw (step, consume_writes, there) next
      | inr gone ↦ rw (step, consume_writes, gone) over
    ]

-- An invitation that is over is not used again.
none_pending :
    (id : ℕ) (rows : List Invitation)
    → ((i : Invitation) → In i rows → i.id ≡ id → is_pending i.status ≡ false)
    → any (pending_with_id id) rows ≡ false
none_pending id [] h = refl
none_pending id (x ∷ rows) h =
    ground (arith, h x (inl refl), none_pending id rows (λ i m. h i (inr m)))

Over-uses :
    (env : Env) (op : Op) (id : ℕ) (db : Db) → Over id db.invitations → uses id env op db ≡ false
unfolding consume_writes
Over-uses env (creates actor dto) id db over = refl
Over-uses env (cancels tenant inv) id db over = refl
Over-uses env (resends inv) id db over = refl
Over-uses env (consumes inv visit) id db (here, over) = elim (Bool-cases (inv.id == id)) [
  | inr other ↦ ground (arith, other)
  | inl same ↦
      let at = sym ((==_iff inv.id id).0 same) in
      let gone =
        subst (λ (n : ℕ). any (pending_with_id n) db.invitations ≡ false) at
          (none_pending id db.invitations over) in
      rw (consume_writes, gone) (ground arith)
]

uses-Over :
    (env : Env) (op : Op) (id : ℕ) (db : Db)
    → uses id env op db ≡ true
    → Over id (step env op db).invitations
unfolding step consume_writes
uses-Over env (creates actor dto) id db h = absurd (ground (arith, h))
uses-Over env (cancels tenant inv) id db h = absurd (ground (arith, h))
uses-Over env (resends inv) id db h = absurd (ground (arith, h))
uses-Over env (consumes inv visit) id db h =
    elim (Bool-cases (any (pending_with_id inv.id) db.invitations)) [
      | inr gone ↦ absurd (ground (arith, h, gone))
      | inl there ↦
          let at = (==_iff inv.id id).0 (ground arith) in
          rw (step, consume_writes, there)
            (subst
              (λ (n : ℕ). Over n (
                update (pending_with_id inv.id)
                  (λ i. record i { status = used; visit = some visit; used_at = some env.now })
                  db.invitations))
              at (update-used inv.id visit env.now db.invitations there))
    ]

Over-times :
    (ops : List (Env × Op)) (id : ℕ) (db : Db) → Over id db.invitations → times_used id ops db ≡ 0
unfolding times_used
Over-times [] id db over = refl
Over-times ((env, op) ∷ ops) id db over = ground (
  arith,
  Over-uses env op id db over,
  Over-times ops id (step env op db) (step-Over env op id db over),
)

-- Whatever requests write, in whatever order and with whatever rows they read before, an invitation
-- is used at most once.
pub used_once : (ops : List (Env × Op)) (id : ℕ) (db : Db) → times_used id ops db ≤ 1
unfolding times_used
used_once [] id db = omega arith
used_once ((env, op) ∷ ops) id db = elim (Bool-cases (uses id env op db)) [
  | inr not_now ↦ ground (arith, not_now, used_once ops id (step env op db))
  | inl now ↦ ground (arith, now, Over-times ops id (step env op db) (uses-Over env op id db now))
]
