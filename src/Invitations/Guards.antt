-- ===== src/Invitations/Guards.antt =====
-- When an invitation may be used, cancelled or sent again (invitations.service.ts).
use digitalreception.Base.{
  ℕ, ◌≤◌, ◌<◌, ◌≡◌, ◌↔◌, refl, inl, inr, arith, true, false, ◌&&◌, none, some, ◌==◌, ltb, any, find,
  ok, err, Option-cases, Bool-cases, Result-cases, find_sound, find-In, In, In-update, is, ◌≢◌, ◌⊎◌,
  subst, ap, sym, ◌∙◌,
}
use digitalreception.Text.{Text, same_text}
use digitalreception.Invitations.Store.{
  InvitationStatus, pending, used, cancelled, Invitation, StoredFile, Db, is_pending, is_used,
}
use digitalreception.Invitations.Writes.{
  Env, Device, Error, invitation_used, invitation_cancelled, invitation_expired, is_own,
  pending_with_id, normalise_invite_code, assert_open, own, own_open, cancel, cancel_writes, resend,
  assert_usable_at, usable, consume, consume_writes,
}

pending-status : (s : InvitationStatus) → is_pending s ≡ true → s ≡ pending
pending-status pending h = refl
pending-status used h = cc
pending-status cancelled h = cc

module _ (env : Env) where
  -- The tablet takes the invitation that a code finds exactly when it is of the tablet's site,
  -- still pending, and of the current day.
  pub usable_iff :
      (device : Device) (raw : Text) (db : Db) (inv : Invitation)
      → find
          (λ i.
            i.tenant == device.tenant
            && same_text i.code_hash (env.sha (normalise_invite_code raw)))
          db.invitations
        ≡ some inv
      → (usable env device raw db ≡ ok inv) ↔ (
          (inv.site ≡ device.site)
          × (inv.status ≡ pending)
          × (inv.details.valid_from ≤ env.now)
          × (env.now < inv.details.valid_until))
  unfolding usable assert_usable_at
  usable_iff device raw db inv found = (
    λ h. (
      ground (arith, found),
      pending-status inv.status (ground (arith, found)),
      ground (arith, found),
      ground (arith, found),
    ),
    λ (site, status, from, until). ground (arith, found, site, status),
  )

  -- A check-in that uses an invitation found it for the tablet's tenant and site, on its day, with
  -- the code that was read; the row was still pending when it was written.
  pub consume_sound :
      (others : Db → Db) (device : Device) (raw : Text) (visit : ℕ) (db : Db) (inv : Invitation)
      → (consume env others device raw visit db).0 ≡ ok inv
      → In inv db.invitations
        × (inv.tenant ≡ device.tenant)
        × (same_text inv.code_hash (env.sha (normalise_invite_code raw)) ≡ true)
        × (inv.site ≡ device.site)
        × (inv.details.valid_from ≤ env.now)
        × (env.now < inv.details.valid_until)
        × (any (pending_with_id inv.id) (others db).invitations ≡ true)
  unfolding consume consume_writes usable assert_usable_at
  consume_sound others device raw visit db inv h =
      let mine = λ (i : Invitation).
        i.tenant == device.tenant && same_text i.code_hash (env.sha (normalise_invite_code raw)) in
      elim (Option-cases (find mine db.invitations)) [
        | inl gone ↦ absurd (ground (arith, gone))
        | inr (x, found) ↦
            let p = find_sound mine db.invitations x found in
            let at : x ≡ inv = ground (arith, found) in
            subst
              (λ (i : Invitation).
                In i db.invitations
                × (i.tenant ≡ device.tenant)
                × (same_text i.code_hash (env.sha (normalise_invite_code raw)) ≡ true)
                × (i.site ≡ device.site)
                × (i.details.valid_from ≤ env.now)
                × (env.now < i.details.valid_until)
                × (any (pending_with_id i.id) (others db).invitations ≡ true))
              at
              (
                find-In mine db.invitations x found,
                ground (arith, p),
                ground (arith, p),
                ground (arith, found),
                ground (arith, found),
                ground (arith, found),
                ground (arith, found),
              )
      ]

  -- Who cancels an invitation, or sends it again, that is used or cancelled or whose day is over is
  -- refused with one of the three errors for that, the same one for both, and nothing changes.
  pub closed_refused :
      (others : Db → Db) (tenant id : ℕ) (db : Db) (inv : Invitation)
      → find (is_own tenant id) db.invitations ≡ some inv
      → (is_pending inv.status ≡ false) ⊎ (inv.details.valid_until < env.now)
      → (e : Error) × ((e ≡ invitation_used)
          ⊎ (e ≡ invitation_cancelled)
          ⊎ (e ≡ invitation_expired))
        × (cancel env others tenant id db ≡ (err e, db))
        × (resend env others tenant id db ≡ (err e, db))
  unfolding cancel resend own_open own assert_open
  closed_refused others tenant id db inv found closed = elim (Bool-cases (is_pending inv.status)) [
    | inr no_more ↦ elim (Bool-cases (is_used inv.status)) [
      | inl was ↦ (
        invitation_used,
        inl refl,
        ground (arith, found, no_more, was),
        ground (arith, found, no_more, was),
      )
      | inr was_not ↦ (
        invitation_cancelled,
        inr (inl refl),
        ground (arith, found, no_more, was_not),
        ground (arith, found, no_more, was_not),
      )
    ]
    | inl waits ↦
        let late : ltb inv.details.valid_until env.now ≡ true = ground (arith, closed, waits) in
        (
          invitation_expired,
          inr (inr refl),
          ground (arith, found, waits, late),
          ground (arith, found, waits, late),
        )
  ]

  cancelled_rows :
      (tenant : ℕ) (inv : Invitation) (db : Db) (i : Invitation)
      → In i (cancel_writes env tenant inv db).invitations
      → i.id ≡ inv.id
      → is_pending i.status ≡ false
  unfolding cancel_writes
  cancelled_rows tenant inv db i m same =
      let f = λ (z : Invitation). record z { status = cancelled } in
      let (x, n, at) = In-update (pending_with_id inv.id) f db.invitations i m in
      elim (Bool-cases (pending_with_id inv.id x)) [
        | inl hits ↦ ground (arith, at, hits)
        | inr misses ↦
            let is : i ≡ x = ground (arith, at, misses) in
            ap (λ (z : Invitation). is_pending z.status) is
            ∙ ground (arith, ap (λ (z : Invitation). z.id) is, same, misses)
      ]

  cancelled_files :
      (tenant : ℕ) (inv : Invitation) (db : Db) (f : StoredFile)
      → In f (cancel_writes env tenant inv db).files
      → f.tenant ≡ tenant
      → f.invitation ≡ some inv.id
      → f.purged_at ≢ none
  unfolding cancel_writes
  cancelled_files tenant inv db f m owner link gone =
      let mine = λ (z : StoredFile).
        z.tenant == tenant
        && (is z.invitation inv.id && elim z.purged_at [ none ↦ true | some t ↦ false ]) in
      let purge = λ (z : StoredFile). record z { purged_at = some env.now } in
      let (x, n, at) = In-update mine purge db.files f m in
      elim (Bool-cases (mine x)) [
        | inl hits ↦ absurd (ground (arith, at, hits, gone))
        | inr misses ↦
            let same : f ≡ x = ground (arith, at, misses) in
            let o : x.tenant ≡ tenant = sym (ap (λ (z : StoredFile). z.tenant) same) ∙ owner in
            let l : x.invitation ≡ some inv.id =
              sym (ap (λ (z : StoredFile). z.invitation) same) ∙ link in
            let g : x.purged_at ≡ none = sym (ap (λ (z : StoredFile). z.purged_at) same) ∙ gone in
            absurd (ground (arith, misses, o, l, g))
      ]

  -- After a cancellation no row of the invitation is pending, and every file of its
  -- pre-registration is purged, whatever other requests wrote in the meantime.
  pub cancel_purges :
      (others : Db → Db) (tenant id : ℕ) (db : Db) (inv : Invitation)
      → (cancel env others tenant id db).0 ≡ ok inv
      → ((i : Invitation)
          → In i (cancel env others tenant id db).1.invitations
          → i.id ≡ inv.id
          → is_pending i.status ≡ false)
        × ((f : StoredFile)
            → In f (cancel env others tenant id db).1.files
            → f.tenant ≡ tenant
            → f.invitation ≡ some inv.id
            → f.purged_at ≢ none)
  unfolding cancel
  cancel_purges others tenant id db inv h = elim (Result-cases (own_open env tenant id db)) [
    | inr (e, bad) ↦ absurd (ground (arith, bad))
    | inl (x, good) ↦
        let at : x ≡ inv = ground (arith, good) in
        rw (cancel, good, at)
          (cancelled_rows tenant inv (others db), cancelled_files tenant inv (others db))
  ]
