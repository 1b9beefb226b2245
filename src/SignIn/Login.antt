-- ===== src/SignIn/Login.antt =====
-- api/src/auth/auth.controller.ts and api/src/auth/session.service.ts: passwords, second factors and
-- sessions. Passwords, tokens and hashes of the platform are parameters.
use digitalreception.Base.{
  ℕ, ◌+◌, ◌*◌, String, Bool, true, false, ◌&&◌, ◌||◌, not, List, [], ◌∷◌, Option, none, some,
  is_some, or_else, ◌==◌, leb, ltb, if◌then◌else◌, any, find, update, filter, map, Result, ok, err,
}
use digitalreception.Calendar.{minute_ms}
use digitalreception.Text.{Text, same_text, trim, between}
use digitalreception.SignIn.Store.{
  User, unknown_user, is_locked, inactive, bad_password, sso_needed, bad_code, AuditEntry,
  login_failed, login, logged_out, password_changed, Db,
}
use digitalreception.SignIn.Totp.{six_digits, verify_totp, normalise_recovery_code}

-- The configuration, and what the platform computes.
pub record Config : Type 0 where
  pub max_failed_logins : ℕ
  pub lock_minutes : ℕ
  pub providers : String → Bool
  pub password_ok : Text → Text → Bool
  pub hash_password : Text → Text
  pub code_of : Text → ℕ → Text
  pub sha : Text → Text

pub data Error : Type 0 where
  invalid_credentials sso_required mfa_session_expired mfa_code_invalid : Error
  password_reused no_row : Error

pub data Method : Type 0 where
  totp recovery : Method

-- What a login with a password answers: a session, or a ticket for the second step.
pub data Opened : Type 0 where
  session : ℕ → ℕ → Opened
  mfa_ticket : ℕ → ℕ → Opened

-- The claims of a ticket that the platform verified.
pub record Claims : Type 0 where
  pub user : ℕ
  pub tenant : ℕ
  pub version : ℕ
  pub is_mfa : Bool

abbrev lower : ℕ → ℕ
lower c = if between b'A' b'Z' c then c + 32 else c

unfoldable pub normal_email : Text → Text
normal_email email = map lower (trim email)

abbrev pub with_id : ℕ → User → Bool
with_id id u = u.id == id

abbrev pub is_after : Option ℕ → ℕ → Bool
is_after none now = false
is_after (some t) now = ltb now t

-- `mfaLastStep IS NULL OR mfaLastStep < :step`
abbrev pub step_is_new : Option ℕ → ℕ → Bool
step_is_new none step = true
step_is_new (some last) step = ltb last step

abbrev pub same_hashes : List Text → List Text → Bool
same_hashes [] [] = true
same_hashes (h ∷ hs) (k ∷ ks) = same_text h k && same_hashes hs ks
same_hashes _ _ = false

-- `mfaRecoveryHashes = :old`; a NULL equals nothing.
abbrev pub recovery_is : Option (List Text) → Option (List Text) → Bool
recovery_is (some a) (some b) = same_hashes a b
recovery_is _ _ = false

module _ (cfg : Config) where
  -- The conditional UPDATE that uses a step; `none` is no row affected.
  unfoldable pub take_step : ℕ → ℕ → Db → Option Db
  take_step id step db =
      if any (λ u. u.id == id && step_is_new u.mfa_last_step step) db.users
      then some (record db {
        users =
            update (λ u. u.id == id && step_is_new u.mfa_last_step step)
              (λ u. record u { mfa_last_step = some step }) db.users;
      })
      else none

  -- The conditional UPDATE that uses a recovery code.
  unfoldable pub take_recovery : ℕ → Option (List Text) → Text → List Text → Db → Option Db
  take_recovery id old h hashes db =
      if any (λ u. u.id == id && recovery_is u.mfa_recovery old) db.users
      then some (record db {
        users =
            update (λ u. u.id == id && recovery_is u.mfa_recovery old)
              (λ u. record u { mfa_recovery = some (filter (λ x. not (same_text x h)) hashes) })
              db.users;
      })
      else none

  -- A code of the authenticator app: its step is checked, then used.
  unfoldable pub check_totp : ℕ → User → Text → Text → Db → Option Method × Db
  check_totp now user secret code db =
      elim (verify_totp cfg.code_of secret code user.mfa_last_step now) [
        | none ↦ (none, db)
        | some step ↦ elim (take_step user.id step db) [
          | none ↦ (none, db)
          | some saved ↦ (some totp, saved)
        ]
      ]

  -- A recovery code.
  unfoldable pub check_recovery : User → Text → Db → Option Method × Db
  check_recovery user code db =
      let hashes = or_else user.mfa_recovery [] in
      let h = cfg.sha (normalise_recovery_code code) in
      if any (λ x. same_text x h) hashes
      then elim (take_recovery user.id user.mfa_recovery h hashes db) [
        | none ↦ (none, db)
        | some saved ↦ (some recovery, saved)
      ]
      else (none, db)

  -- `checkSecondFactor`, with the row that was read before: how the code passed, and the database.
  unfoldable pub check_second_factor : ℕ → User → Text → Db → Option Method × Db
  check_second_factor now user code db = elim user.mfa_secret [
    | none ↦ (none, db)
    | some secret ↦
        if six_digits code then check_totp now user secret code db else check_recovery user code db
  ]

  -- `failAttempt`
  unfoldable pub fail_attempt : User → ℕ → Db → Db
  fail_attempt user now db =
      let failed = user.failed_logins + 1 in
      let lock = leb cfg.max_failed_logins failed in
      record db {
        users =
            update (with_id user.id)
              (λ u. record u {
                failed_logins = if lock then 0 else failed;
                locked_until = if lock then some (now + cfg.lock_minutes * minute_ms) else none;
              })
              db.users;
      }

  -- `start` of the session service.
  unfoldable pub start : User → ℕ → Db → Opened × Db
  start user now db = (
    session user.id user.session_version,
    record db {
      users =
          update (with_id user.id)
            (λ u. record u { failed_logins = 0; locked_until = none; last_login_at = some now })
            db.users;
      audit = login user.id ∷ db.audit;
    },
  )

  abbrev pub audited : AuditEntry → Db → Db
  audited entry db = record db { audit = entry ∷ db.audit }

  -- Whether the organisation signs in through its directory.
  unfoldable pub needs_sso : User → Db → Bool
  needs_sso user db = not user.sso_exempt && elim (find (λ t. t.id == user.tenant) db.tenants) [
    | none ↦ false
    | some t ↦
        t.sso_enforced
        && (is_some t.sso_org && elim t.sso_provider [ none ↦ false | some p ↦ cfg.providers p ])
  ]

  -- `login`
  unfoldable pub log_in : ℕ → Text → Text → ℕ → Db → Result Error Opened × Db
  log_in tenant email password now db =
      elim (find (λ u. u.tenant == tenant && same_text u.email (normal_email email)) db.users) [
        | none ↦ (err invalid_credentials, audited (login_failed none unknown_user) db)
        | some user ↦
            let locked = is_after user.locked_until now in
            let valid = cfg.password_ok password user.password_hash in
            if not user.active || (locked || not valid)
            then (
              err invalid_credentials,
              audited
                  (login_failed (some user.id) (
                    if locked
                    then is_locked
                    else if not user.active
                    then inactive
                    else bad_password))
                  (if not locked && not valid then fail_attempt user now db else db),
            )
            else if needs_sso user db
            then (err sso_required, audited (login_failed (some user.id) sso_needed) db)
            else if is_some user.mfa_enabled_at
            then (ok (mfa_ticket user.id user.session_version), db)
            else (let (opened, last) = start user now db in (ok opened, last))
      ]

  -- `loginMfa`, while other requests commit between its read and its writes; no claims is a ticket
  -- that the platform does not verify.
  unfoldable pub log_in_mfa :
      (Db → Db) → ℕ → Option Claims → Text → ℕ → Db → Result Error Opened × Db
  log_in_mfa others tenant none code now db = (err mfa_session_expired, db)
  log_in_mfa others tenant (some claims) code now db =
      if not claims.is_mfa || not (claims.tenant == tenant)
      then (err mfa_session_expired, db)
      else elim (find (λ u. u.id == claims.user && u.tenant == claims.tenant) db.users) [
        | none ↦ (err mfa_session_expired, db)
        | some user ↦
            if not user.active
              || (not (user.session_version == claims.version) || not (is_some user.mfa_enabled_at))
            then (err mfa_session_expired, db)
            else if is_after user.locked_until now
            then (err invalid_credentials, audited (login_failed (some user.id) is_locked) db)
            else (let (method, checked) = check_second_factor now user (trim code) (others db) in
                elim method [
                  | none ↦ (
                    err mfa_code_invalid,
                    audited (login_failed (some user.id) bad_code) (fail_attempt user now checked),
                  )
                  | some m ↦ (let (opened, last) = start user now checked in (ok opened, last))
                ])
      ]

  -- `logout`: every session of the user ends.
  unfoldable pub log_out : ℕ → Db → Db
  log_out id db = record db {
    users =
        update (with_id id) (λ u. record u { session_version = u.session_version + 1 }) db.users;
    audit = logged_out id ∷ db.audit;
  }

  -- `changePassword`
  unfoldable pub change_password : ℕ → ℕ → Text → Text → Db → Result Error (Unit {0}) × Db
  change_password id tenant current new db =
      elim (find (λ u. u.id == id && u.tenant == tenant) db.users) [
        | none ↦ (err no_row, db)
        | some full ↦
            if not (cfg.password_ok current full.password_hash)
            then (err invalid_credentials, db)
            else if same_text current new
            then (err password_reused, db)
            else (
              ok tt,
              record db {
                users =
                    update (with_id id)
                      (λ u. record u {
                        password_hash = cfg.hash_password new;
                        must_change_password = false;
                        session_version = full.session_version + 1;
                      })
                      db.users;
                audit = password_changed id ∷ db.audit;
              },
            )
      ]
