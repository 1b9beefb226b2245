-- ===== src/SignIn/Once.antt =====
-- A code of the authenticator app works once (auth.controller.ts, `checkSecondFactor`).
use digitalreception.Base.{
  ℕ, ◌+◌, ◌≤◌, ◌≡◌, refl, inl, inr, arith, Bool, true, false, ◌&&◌, not, List, [], ◌∷◌, Option,
  none, some, is, is_some, or_else, ◌*◌, ◌==◌, if◌then◌else◌, leb, any, filter, update,
  Option-cases, Bool-cases, In, In-update, sym, ◌∙◌, ap, subst, ==_iff,
}
use digitalreception.Calendar.{minute_ms}
use digitalreception.Text.{Text, same_text}
use digitalreception.SignIn.Store.{User, Db}
use digitalreception.SignIn.Totp.{verify_totp, verify_totp_lem, normalise_recovery_code}
use digitalreception.SignIn.Login.{
  Config, with_id, step_is_new, recovery_is, take_step, take_recovery, check_totp, check_recovery,
  check_second_factor, fail_attempt, start, log_out,
}

-- Writes of sign-ins as they interleave, each with a row that was read at any earlier moment.
pub data Op : Type 0 where
  checks fails starts : User → Text → Op
  leaves : ℕ → Op

-- The rows of a user whose step, or a later one, is used.
abbrev Used : ℕ → ℕ → List User → Type 0
Used id step rows = (u : User) → In u rows → u.id ≡ id → step_is_new u.mfa_last_step step ≡ false

update-Used :
    (id step : ℕ) (q : User → Bool) (f : User → User) (rows : List User)
    → ((x : User) → (f x).id ≡ x.id)
    → ((x : User)
        → q x ≡ true
        → step_is_new x.mfa_last_step step ≡ false
        → step_is_new (f x).mfa_last_step step ≡ false)
    → Used id step rows
    → Used id step (update q f rows)
update-Used id step q f rows same stays h u m is_id =
    let (x, n, at) = In-update q f rows u m in
    elim (Bool-cases (q x)) [
      | inl hits ↦
          let e : u ≡ f x = ground (arith, at, hits) in
          ap (λ (z : User). step_is_new z.mfa_last_step step) e
          ∙ stays x hits (h x n (sym (ap (λ (z : User). z.id) e ∙ same x) ∙ is_id))
      | inr misses ↦
          let e : u ≡ x = ground (arith, at, misses) in
          ap (λ (z : User). step_is_new z.mfa_last_step step) e
          ∙ h x n (sym (ap (λ (z : User). z.id) e) ∙ is_id)
    ]

-- The rows after a step is taken.
taken-Used :
    (id step : ℕ) (rows : List User)
    → Used id step (
        update
          (λ u. u.id == id && step_is_new u.mfa_last_step step)
          (λ u. record u { mfa_last_step = some step })
          rows)
taken-Used id step rows u m is_id =
    let q = λ (u : User). u.id == id && step_is_new u.mfa_last_step step in
    let f = λ (u : User). record u { mfa_last_step = some step } in
    let (x, n, at) = In-update q f rows u m in
    elim (Bool-cases (q x)) [
      | inl hits ↦
          let e : u ≡ f x = ground (arith, at, hits) in
          ap (λ (z : User). step_is_new z.mfa_last_step step) e ∙ ground arith
      | inr misses ↦
          let e : u ≡ x = ground (arith, at, misses) in
          let same : x.id ≡ id = sym (ap (λ (z : User). z.id) e) ∙ is_id in
          ap (λ (z : User). step_is_new z.mfa_last_step step) e ∙ ground (arith, same, misses)
    ]

none_new :
    (id step : ℕ) (rows : List User)
    → Used id step rows
    → any (λ u. u.id == id && step_is_new u.mfa_last_step step) rows ≡ false
none_new id step [] h = refl
none_new id step (x ∷ rows) h =
    ground (arith, h x (inl refl), none_new id step rows (λ u m. h u (inr m)))

module _ (cfg : Config) where
  unfoldable pub step_of : ℕ → Op → Db → Db
  step_of now (checks user code) db = (check_second_factor cfg now user code db).1
  step_of now (fails user code) db = fail_attempt cfg user now db
  step_of now (starts user code) db = (start cfg user now db).1
  step_of now (leaves id) db = log_out cfg id db

  -- Whether a check answers that the code passed, when it is the code of this step of this user.
  abbrev pub accepts : ℕ → ℕ → ℕ → Op → Db → Bool
  accepts step id now (checks user code) db = elim user.mfa_secret [
    | none ↦ false
    | some secret ↦
        user.id == id
        && (is (verify_totp cfg.code_of secret code user.mfa_last_step now) step
            && is_some (check_second_factor cfg now user code db).0)
  ]
  accepts step id now _ db = false

  -- How many operations of a sequence accept it.
  unfoldable pub times_accepted : ℕ → ℕ → List (ℕ × Op) → Db → ℕ
  unfolding step_of
  times_accepted step id [] db = 0
  times_accepted step id ((now, op) ∷ ops) db =
      (if accepts step id now op db then 1 else 0) + times_accepted step id ops (step_of now op db)

  take_step-Used :
      (id step other k : ℕ) (db saved : Db)
      → take_step cfg other k db ≡ some saved
      → Used id step db.users
      → Used id step saved.users
  unfolding take_step
  take_step-Used id step other k db saved t h =
      let next =
        update-Used id step (λ u. u.id == other && step_is_new u.mfa_last_step k)
          (λ u. record u { mfa_last_step = some k }) db.users (λ x. refl)
          (λ x hits old. ground arith) h in
      ground (arith, next)

  take_recovery-Used :
      (id step other : ℕ) (old : Option (List Text)) (hash : Text) (hashes : List Text)
      (db saved : Db)
      → take_recovery cfg other old hash hashes db ≡ some saved
      → Used id step db.users
      → Used id step saved.users
  unfolding take_recovery
  take_recovery-Used id step other old hash hashes db saved t h =
      let next =
        update-Used id step (λ u. u.id == other && recovery_is u.mfa_recovery old)
          (λ u. record u { mfa_recovery = some (filter (λ x. not (same_text x hash)) hashes) })
          db.users (λ x. refl) (λ x hits old. old) h in
      ground (arith, next)

  check_totp-Used :
      (id step now : ℕ) (user : User) (secret code : Text) (db : Db)
      → Used id step db.users
      → Used id step (check_totp cfg now user secret code db).1.users
  unfolding check_totp
  check_totp-Used id step now user secret code db h =
      elim (Option-cases (verify_totp cfg.code_of secret code user.mfa_last_step now)) [
        | inl bad ↦ ground (arith, bad, h)
        | inr (k, good) ↦ elim (Option-cases (take_step cfg user.id k db)) [
          | inl gone ↦ ground (arith, good, gone, h)
          | inr (saved, t) ↦
              let next = take_step-Used id step user.id k db saved t h in
              ground (arith, good, t, next)
        ]
      ]

  check_recovery-Used :
      (id step : ℕ) (user : User) (code : Text) (db : Db)
      → Used id step db.users
      → Used id step (check_recovery cfg user code db).1.users
  unfolding check_recovery
  check_recovery-Used id step user code db h =
      let hashes = or_else user.mfa_recovery [] in
      let hash = cfg.sha (normalise_recovery_code code) in
      elim (Option-cases (take_recovery cfg user.id user.mfa_recovery hash hashes db)) [
        | inl gone ↦ ground (arith, gone, h)
        | inr (saved, t) ↦
            let next =
              take_recovery-Used id step user.id user.mfa_recovery hash hashes db saved t h in
            ground (arith, t, next, h)
      ]

  check-Used :
      (id step now : ℕ) (user : User) (code : Text) (db : Db)
      → Used id step db.users
      → Used id step (check_second_factor cfg now user code db).1.users
  unfolding check_second_factor
  check-Used id step now user code db h = elim (Option-cases user.mfa_secret) [
    | inl no_secret ↦ ground (arith, no_secret, h)
    | inr (secret, s) ↦
        let a = check_totp-Used id step now user secret code db h in
        let b = check_recovery-Used id step user code db h in ground (arith, s, a, b)
  ]

  step_of-Used :
      (id step now : ℕ) (op : Op) (db : Db)
      → Used id step db.users
      → Used id step (step_of now op db).users
  unfolding step_of fail_attempt start log_out
  step_of-Used id step now (checks user code) db h = check-Used id step now user code db h
  step_of-Used id step now (fails user code) db h =
      update-Used id step (with_id user.id)
        (λ u. record u {
          failed_logins =
              if leb cfg.max_failed_logins (user.failed_logins + 1)
              then 0
              else user.failed_logins + 1;
          locked_until =
              if leb cfg.max_failed_logins (user.failed_logins + 1)
              then some (now + cfg.lock_minutes * minute_ms)
              else none;
        })
        db.users (λ x. refl) (λ x hits old. old) h
  step_of-Used id step now (starts user code) db h =
      update-Used id step (with_id user.id)
        (λ u. record u { failed_logins = 0; locked_until = none; last_login_at = some now })
        db.users (λ x. refl) (λ x hits old. old) h
  step_of-Used id step now (leaves other) db h =
      update-Used id step (with_id other)
        (λ u. record u { session_version = u.session_version + 1 }) db.users (λ x. refl)
        (λ x hits old. old) h

  not_taken : (id step : ℕ) (db : Db) → Used id step db.users → take_step cfg id step db ≡ none
  unfolding take_step
  not_taken id step db h = rw (take_step, none_new id step db.users h) refl

  taken :
      (id step : ℕ) (db saved : Db)
      → take_step cfg id step db ≡ some saved
      → Used id step saved.users
  unfolding take_step
  taken id step db saved t = ground (arith, taken-Used id step db.users)

  Used-accepts :
      (id step now : ℕ) (op : Op) (db : Db)
      → Used id step db.users
      → accepts step id now op db ≡ false
  unfolding check_second_factor check_totp
  Used-accepts id step now (checks user code) db h = elim (Option-cases user.mfa_secret) [
    | inl no_secret ↦ ground (arith, no_secret)
    | inr (secret, s) ↦
        elim (Option-cases (verify_totp cfg.code_of secret code user.mfa_last_step now)) [
          | inl bad ↦ ground (arith, s, bad)
          | inr (k, good) ↦ elim (Bool-cases (user.id == id && k == step)) [
            | inr other ↦ ground (arith, s, good, other)
            | inl same ↦
                let full : take_step cfg user.id k db ≡ none =
                  rw
                    (
                      (==_iff user.id id).0 (ground (arith, same)),
                      (==_iff k step).0 (ground (arith, same)),
                    )
                    (not_taken id step db h) in
                let six =
                  ((verify_totp_lem cfg.code_of secret code user.mfa_last_step now).0 k good).0 in
                ground (arith, s, six, good, full)
          ]
        ]
  ]
  Used-accepts id step now (fails user code) db h = refl
  Used-accepts id step now (starts user code) db h = refl
  Used-accepts id step now (leaves other) db h = refl

  accepts-Used :
      (id step now : ℕ) (op : Op) (db : Db)
      → accepts step id now op db ≡ true
      → Used id step (step_of now op db).users
  unfolding step_of check_second_factor check_totp
  accepts-Used id step now (checks user code) db h = elim (Option-cases user.mfa_secret) [
    | inl no_secret ↦ absurd (ground (arith, h, no_secret))
    | inr (secret, s) ↦
        elim (Option-cases (verify_totp cfg.code_of secret code user.mfa_last_step now)) [
          | inl bad ↦ absurd (ground (arith, h, s, bad))
          | inr (k, good) ↦
              let six =
                ((verify_totp_lem cfg.code_of secret code user.mfa_last_step now).0 k good).0 in
              elim (Option-cases (take_step cfg user.id k db)) [
                | inl full ↦ absurd (ground (arith, h, s, six, good, full))
                | inr (saved, t) ↦
                    let same : user.id ≡ id = (==_iff user.id id).0 (ground (arith, h, s, good)) in
                    let at : k ≡ step = (==_iff k step).0 (ground (arith, h, s, good)) in
                    let next = taken id step db saved (
                      subst (λ (i : ℕ). take_step cfg i step db ≡ some saved) same
                        (subst (λ (n : ℕ). take_step cfg user.id n db ≡ some saved) at t)) in
                    ground (arith, s, six, good, t, next)
              ]
        ]
  ]
  accepts-Used id step now (fails user code) db h = absurd (ground (arith, h))
  accepts-Used id step now (starts user code) db h = absurd (ground (arith, h))
  accepts-Used id step now (leaves other) db h = absurd (ground (arith, h))

  Used-times :
      (id step : ℕ) (ops : List (ℕ × Op)) (db : Db)
      → Used id step db.users
      → times_accepted step id ops db ≡ 0
  unfolding times_accepted
  Used-times id step [] db h = refl
  Used-times id step ((now, op) ∷ ops) db h = ground (
    arith,
    Used-accepts id step now op db h,
    Used-times id step ops (step_of now op db) (step_of-Used id step now op db h),
  )

  -- However sign-ins, failures and logouts interleave, and whatever rows they read before,
  -- `checkSecondFactor` answers that a code passed at most once for the code of one time step of a
  -- user.
  pub code_once : (id step : ℕ) (ops : List (ℕ × Op)) (db : Db) → times_accepted step id ops db ≤ 1
  unfolding times_accepted
  code_once id step [] db = omega arith
  code_once id step ((now, op) ∷ ops) db = elim (Bool-cases (accepts step id now op db)) [
    | inr not_now ↦ ground (arith, not_now, code_once id step ops (step_of now op db))
    | inl here ↦ ground (
      arith,
      here,
      Used-times id step ops (step_of now op db) (accepts-Used id step now op db here),
    )
  ]
