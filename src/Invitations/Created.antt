-- ===== src/Invitations/Created.antt =====
-- What a new invitation is (invitations.service.ts, `create`).
use digitalreception.Base.{
  ℕ, ◌+◌, ◌≤◌, ◌<◌, ◌≡◌, refl, inl, inr, arith, false, ◌&&◌, ◌∷◌, ◌==◌, any, find, contains, ok,
  err, ◌⊎◌, Option-cases, Bool-cases, Result-cases,
}
use text.Mathlib.Text.{◌==◌ as str_eq}
use digitalreception.Text.{Text}
use digitalreception.Calendar.{instant_add_days}
use digitalreception.Invitations.Store.{pending, Invitation, Db, clashes, insert_invitation, Host}
use digitalreception.Invitations.Writes.{
  Env, Actor, InvitationInput, Error, no_code, max_days_ahead, save_with_code, create_checks,
  create, new_invitation, Draft,
}

module _ (env : Env) where
  -- Saving: a code that collides with no row, or none after all tries and nothing changed.
  save-cases :
      (tries attempt : ℕ) (row : Text → Db → Invitation) (db : Db)
      → (save_with_code env tries attempt row db ≡ (err no_code, db))
        ⊎ ((code : Text) × (any (clashes (row code db)) db.invitations ≡ false)
            × (save_with_code env tries attempt row db
                ≡ (ok (row code db), record db { invitations = row code db ∷ db.invitations })))
  unfolding save_with_code insert_invitation
  save-cases ℕ.zero attempt row db = inl refl
  save-cases (ℕ.suc tries) attempt row db =
      elim (Bool-cases (any (clashes (row (env.code attempt) db)) db.invitations)) [
        | inr free ↦ inr (env.code attempt, free, rw (save_with_code, insert_invitation, free) refl)
        | inl taken ↦
            rw (save_with_code, insert_invitation, taken) (save-cases tries (attempt + 1) row db)
      ]

  -- What the checks of `create` let through: a day that is not over, and not too far.
  checks_sound :
      (actor : Actor) (dto : InvitationInput) (db : Db) (draft : Draft)
      → create_checks env actor dto db ≡ ok draft
      → (env.now < draft.valid_until)
        × (draft.expected_at ≤ instant_add_days env.now max_days_ahead)
  unfolding create_checks
  checks_sound actor dto db draft h =
      elim (Option-cases
        (find (λ s. s.id == dto.site && (s.tenant == actor.tenant && s.active)) db.sites)) [
          | inl no_site ↦ absurd (ground (arith, no_site))
          | inr (site, s) ↦
              let fits = λ (h : Host).
                h.id == dto.host
                && (h.tenant == actor.tenant && (h.active && contains site.id h.sites)) in
              elim (Option-cases (find fits db.hosts)) [
                | inl no_host ↦ absurd (ground (arith, s, no_host))
                | inr (host, t) ↦ elim (Option-cases dto.date) [
                  | inl no_date ↦ absurd (ground (arith, s, t, no_date))
                  | inr (date, d) ↦
                      elim (Option-cases (
                        find (λ p. p.tenant == actor.tenant && str_eq p.country site.country)
                          db.policies)) [
                            | inl no_policy ↦ absurd (ground (arith, s, t, d, no_policy))
                            | inr (policy, p) ↦
                                (ground (arith, s, t, d, p), ground (arith, s, t, d, p))
                          ]
                ]
              ]
        ]

  -- `create` saves an invitation that nobody has used, for a day at the site that is not over and an
  -- hour at most ninety days ahead, whose code no other invitation of the tenant has; it answers the
  -- row that it saved and changes nothing else. When it refuses, nothing changes.
  pub create_sound :
      (actor : Actor) (dto : InvitationInput) (db : Db)
      → ((inv : Invitation) × (create env actor dto db
            ≡ (ok inv, record db { invitations = inv ∷ db.invitations }))
          × (any (clashes inv) db.invitations ≡ false)
          × (inv.status ≡ pending)
          × (inv.tenant ≡ actor.tenant)
          × (env.now < inv.details.valid_until)
          × (inv.details.expected_at ≤ instant_add_days env.now max_days_ahead))
        ⊎ ((e : Error) × (create env actor dto db ≡ (err e, db)))
  unfolding create
  create_sound actor dto db = elim (Result-cases (create_checks env actor dto db)) [
    | inr (e, bad) ↦ inr (e, rw (create, bad) refl)
    | inl (draft, good) ↦
        let row = new_invitation env actor dto draft in
        let (open_day, near) = checks_sound actor dto db draft good in
        elim (save-cases 5 0 row db) [
          | inl full ↦ inr (no_code, rw (create, good) full)
          | inr (code, free, saved) ↦
              inl (row code db, rw (create, good) saved, free, refl, refl, open_day, near)
        ]
  ]
