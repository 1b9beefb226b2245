-- ===== src/SignIn/Lock.antt =====
-- Who gets a session, and what failures do (auth.controller.ts, `login` and `failAttempt`).
use digitalreception.Base.{
  ℕ, ◌+◌, ◌*◌, ◌≤◌, ◌<◌, ◌≡◌, inl, inr, arith, Bool, true, false, ◌&&◌, List, none, some, ◌==◌,
  if◌then◌else◌, leb, find, Option-cases, Bool-cases, In, In-update, find-In, find_sound, ◌∙◌, ap,
  subst, ok, err,
}
use digitalreception.Calendar.{minute_ms}
use digitalreception.Text.{Text, same_text, trim}
use digitalreception.SignIn.Store.{User, Db}
use digitalreception.SignIn.Login.{
  Config, invalid_credentials, Opened, session, Claims, Method, normal_email, with_id, is_after,
  check_second_factor, fail_attempt, start, needs_sso, log_in, log_in_mfa,
}

module _ (cfg : Config) where
  abbrev pub has_email : ℕ → Text → User → Bool
  has_email tenant email u = u.tenant == tenant && same_text u.email (normal_email email)

  -- While a user is locked, a login is refused whatever the password, with the answer that a wrong
  -- password gets, and no user changes.
  pub locked_refused :
      (tenant : ℕ) (email password : Text) (now : ℕ) (db : Db) (u : User)
      → find (has_email tenant email) db.users ≡ some u
      → is_after u.locked_until now ≡ true
      → ((log_in cfg tenant email password now db).0 ≡ err invalid_credentials)
        × ((log_in cfg tenant email password now db).1.users ≡ db.users)
  unfolding log_in
  locked_refused tenant email password now db u found locked =
      (ground (arith, found, locked), ground (arith, found, locked))

  fail_attempt-rows :
      (u : User) (now : ℕ) (db : Db) (row : User)
      → In row (fail_attempt cfg u now db).users
      → row.id ≡ u.id
      → (cfg.max_failed_logins ≤ u.failed_logins + 1
          → (row.locked_until ≡ some (now + cfg.lock_minutes * minute_ms))
            × (row.failed_logins ≡ 0))
        × (u.failed_logins + 1 < cfg.max_failed_logins
            → (row.locked_until ≡ none) × (row.failed_logins ≡ u.failed_logins + 1))
  unfolding fail_attempt
  fail_attempt-rows u now db row m same =
      let f = λ (z : User). record z {
        failed_logins =
            if leb cfg.max_failed_logins (u.failed_logins + 1) then 0 else u.failed_logins + 1;
        locked_until =
            if leb cfg.max_failed_logins (u.failed_logins + 1)
            then some (now + cfg.lock_minutes * minute_ms)
            else none;
      } in
      let (x, n, at) = In-update (with_id u.id) f db.users row m in
      elim (Bool-cases (with_id u.id x)) [
        | inl hits ↦
            let e : row ≡ f x = ground (arith, at, hits) in
            let l = ap (λ (z : User). z.locked_until) e in
            let c = ap (λ (z : User). z.failed_logins) e in
            (
              λ many. (l ∙ ground arith, c ∙ ground arith),
              λ few. (l ∙ ground arith, c ∙ ground arith),
            )
        | inr misses ↦
            let e : row ≡ x = ground (arith, at, misses) in
            absurd (ground (arith, ap (λ (z : User). z.id) e, same, misses))
      ]

  -- A wrong password of a user who is found and not locked is refused and counts: the failure that
  -- reaches the limit locks the user for the configured minutes and starts the count again.
  pub wrong_password_counts :
      (tenant : ℕ) (email password : Text) (now : ℕ) (db : Db) (u : User)
      → find (has_email tenant email) db.users ≡ some u
      → is_after u.locked_until now ≡ false
      → cfg.password_ok password u.password_hash ≡ false
      → ((log_in cfg tenant email password now db).0 ≡ err invalid_credentials)
        × ((row : User)
            → In row (log_in cfg tenant email password now db).1.users
            → row.id ≡ u.id
            → (cfg.max_failed_logins ≤ u.failed_logins + 1
                → (row.locked_until ≡ some (now + cfg.lock_minutes * minute_ms))
                  × (row.failed_logins ≡ 0))
              × (u.failed_logins + 1 < cfg.max_failed_logins
                  → (row.locked_until ≡ none) × (row.failed_logins ≡ u.failed_logins + 1)))
  unfolding log_in
  wrong_password_counts tenant email password now db u found not_locked wrong = (
    ground (arith, found, not_locked, wrong),
    λ row m same.
        let after : (log_in cfg tenant email password now db).1.users
            ≡ (fail_attempt cfg u now db).users =
          ground (arith, found, not_locked, wrong) in
        fail_attempt-rows u now db row (subst (λ (rows : List User). In row rows) after m) same,
  )

  -- A password alone opens a session only for the active user of the tenant with that address and
  -- password, who is not locked, has no second factor and need not sign in through the directory.
  pub session_sound :
      (tenant : ℕ) (email password : Text) (now id version : ℕ) (db : Db)
      → (log_in cfg tenant email password now db).0 ≡ ok (session id version)
      → (u : User) × In u db.users
        × (has_email tenant email u ≡ true)
        × (u.id ≡ id)
        × (u.active ≡ true)
        × (is_after u.locked_until now ≡ false)
        × (cfg.password_ok password u.password_hash ≡ true)
        × (u.mfa_enabled_at ≡ none)
        × (needs_sso cfg u db ≡ false)
  unfolding log_in start
  session_sound tenant email password now id version db h =
      elim (Option-cases (find (has_email tenant email) db.users)) [
        | inl gone ↦ absurd (ground (arith, gone))
        | inr (u, found) ↦ (
          u,
          find-In (has_email tenant email) db.users u found,
          find_sound (has_email tenant email) db.users u found,
          ground (arith, found),
          ground (arith, found),
          ground (arith, found),
          ground (arith, found),
          ground (arith, found),
          ground (arith, found),
        )
      ]

  -- The second step opens a session only with a ticket for it, of this tenant and of the user's
  -- current sessions, for an active user who is not locked and whose code passed.
  pub mfa_session_sound :
      (others : Db → Db) (tenant : ℕ) (claims : Claims) (code : Text) (now : ℕ) (db : Db)
      (o : Opened)
      → (log_in_mfa cfg others tenant (some claims) code now db).0 ≡ ok o
      → (u : User) × (m : Method) × In u db.users
        × (claims.is_mfa ≡ true)
        × (claims.tenant ≡ tenant)
        × (u.id ≡ claims.user)
        × (u.session_version ≡ claims.version)
        × (u.active ≡ true)
        × (is_after u.locked_until now ≡ false)
        × ((check_second_factor cfg now u (trim code) (others db)).0 ≡ some m)
  unfolding log_in_mfa start
  mfa_session_sound others tenant claims code now db o h =
      let mine = λ (u : User). u.id == claims.user && u.tenant == claims.tenant in
      elim (Option-cases (find mine db.users)) [
        | inl gone ↦ absurd (ground (arith, gone))
        | inr (u, found) ↦
            elim (Option-cases (check_second_factor cfg now u (trim code) (others db)).0) [
              | inl bad ↦ absurd (ground (arith, found, bad))
              | inr (m, good) ↦ (
                u,
                m,
                find-In mine db.users u found,
                ground (arith, found),
                ground (arith, found),
                ground (arith, find_sound mine db.users u found),
                ground (arith, found),
                ground (arith, found),
                ground (arith, found),
                good,
              )
            ]
      ]
