-- ===== src/Access/Activation/Issued.antt =====
-- What a successful activation requires and changes (access.service.ts, `activateBadge`).
use digitalreception.Base.{
  ℕ, ◌≡◌, inl, inr, arith, true, false, ◌&&◌, none, some, ◌==◌, find, not, Result, ok, ok-injective,
  Option-cases, Bool-cases, find_sound, find-In, In, In-filter, In-update, sym, subst, ap, ◌∙◌,
}
use digitalreception.Text.{Text, same_text}
use digitalreception.Access.Activation.{
  Sha, Employee, PushDevice, Db, Env, Badge, Error, is_after, has_email, with_id, new_badge,
  code_holder, take_attempt, guess, issue_badge, activate_badge,
}

module _ (sha : Sha) where
  issued_rows :
      (env : Env) (tenant : ℕ) (e : Employee) (db : Db) (row : Employee)
      → In row (issue_badge sha env tenant e db).1.employees
      → row.id ≡ e.id
      → (row.secret ≡ some env.secret) × (row.code_hash ≡ none) × (row.code_attempts ≡ 0)
  unfolding issue_badge new_badge
  issued_rows env tenant e db row m same =
      let (x, n, at) = In-update (with_id e.id) (new_badge sha env) db.employees row m in
      elim (Bool-cases (with_id e.id x)) [
        | inl hits ↦
            let is : row ≡ new_badge sha env x = ground (arith, at, hits) in
            (
              ap (λ (z : Employee). z.secret) is,
              ap (λ (z : Employee). z.code_hash) is,
              ap (λ (z : Employee). z.code_attempts) is,
            )
        | inr misses ↦
            let is : row ≡ x = ground (arith, at, misses) in
            absurd (ground (arith, ap (λ (z : Employee). z.id) is, same, misses))
      ]

  issued_devices :
      (env : Env) (tenant : ℕ) (e : Employee) (db : Db) (d : PushDevice)
      → In d (issue_badge sha env tenant e db).1.devices
      → d.tenant ≡ tenant
      → (d.employee == e.id) ≡ false
  unfolding issue_badge
  issued_devices env tenant e db d m same =
      ground (
        arith,
        In-filter (λ x. not (x.tenant == tenant && x.employee == e.id)) db.devices d m,
        same,
      )

  -- A badge is issued only for an active employee with the address, whose unexpired code is the one
  -- that was typed; it is the employee's badge, all rows of the employee hold its secret and no code
  -- any more, and no phone registered for the employee stays registered.
  pub activate_badge_sound :
      (env : Env) (others : Db → Db) (tenant : ℕ) (email code : Text) (db : Db) (b : Badge)
      → (activate_badge sha env others tenant email code db).0 ≡ ok b
      → (e : Employee) × (hash : Text) × In e db.employees
        × (has_email tenant email e ≡ true)
        × (is_after e.code_expires env.now ≡ true)
        × (e.code_hash ≡ some hash)
        × (same_text hash (sha.of_code e.id code) ≡ true)
        × (b ≡ record { employee = e.id; secret = env.secret; token = env.token })
        × ((row : Employee)
            → In row (activate_badge sha env others tenant email code db).1.employees
            → row.id ≡ e.id
            → (row.secret ≡ some env.secret) × (row.code_hash ≡ none) × (row.code_attempts ≡ 0))
        × ((d : PushDevice)
            → In d (activate_badge sha env others tenant email code db).1.devices
            → d.tenant ≡ tenant
            → (d.employee == e.id) ≡ false)
  unfolding activate_badge code_holder guess
  activate_badge_sound env others tenant email code db b h =
      let holds = λ (e : Employee). has_email tenant email e && is_after e.code_expires env.now in
      elim (Option-cases (find holds db.employees)) [
        | inl gone ↦ absurd (ground (arith, gone))
        | inr (e, found) ↦ elim (Option-cases e.code_hash) [
          | inl no_code ↦ absurd (ground (arith, found, no_code))
          | inr (hash, has) ↦ elim (Option-cases (take_attempt e.id (others db))) [
            | inl full ↦ absurd (ground (arith, found, has, full))
            | inr (taken, took) ↦ elim (Bool-cases (same_text hash (sha.of_code e.id code))) [
              | inr bad ↦ absurd (ground (arith, found, has, took, bad))
              | inl right ↦
                  let answer : activate_badge sha env others tenant email code db ≡ (
                    ok (issue_badge sha env tenant e taken).0,
                    (issue_badge sha env tenant e taken).1,
                  ) =
                    ground (arith, found, has, took, right) in
                  let p = find_sound holds db.employees e found in
                  (
                    e,
                    hash,
                    find-In holds db.employees e found,
                    ground (arith, p),
                    ground (arith, p),
                    has,
                    right,
                    unfold issue_badge in
                        ok-injective (sym h ∙ ap (λ (r : Result Error Badge × Db). r.0) answer),
                    λ row m same.
                        issued_rows env tenant e taken row
                          (subst (λ (r : Result Error Badge × Db). In row r.1.employees) answer m)
                          same,
                    λ d m same.
                        issued_devices env tenant e taken d
                          (subst (λ (r : Result Error Badge × Db). In d r.1.devices) answer m) same,
                  )
            ]
          ]
        ]
      ]
