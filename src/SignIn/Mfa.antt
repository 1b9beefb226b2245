-- ===== src/SignIn/Mfa.antt =====
-- api/src/auth/auth.controller.ts: turning the second factor on and off. The secret and the recovery
-- codes are random values of the platform, and so parameters.
use digitalreception.Base.{
  ℕ, ◌≡◌, inl, inr, arith, Bool, true, false, ◌&&◌, not, List, Option, none, some, is_some, ◌==◌,
  if◌then◌else◌, any, find, update, map, Result, ok, err, Option-cases, In, find-In, find_sound,
}
use digitalreception.Text.{Text, trim}
use digitalreception.SignIn.Store.{User, Db, mfa_enabled, recovery_codes_regenerated, mfa_disabled}
use digitalreception.SignIn.Totp.{normalise_recovery_code}
use digitalreception.SignIn.Login.{Config, Method, totp, with_id, check_second_factor, audited}

pub data MfaError : Type 0 where
  already_enabled setup_not_started not_enabled code_refused password_refused : MfaError
  required_by_organisation no_user : MfaError

-- `withMfa`
abbrev pub with_mfa : ℕ → ℕ → Db → Option User
with_mfa id tenant db = find (λ u. u.id == id && u.tenant == tenant) db.users

abbrev pub is_totp : Option Method → Bool
is_totp (some totp) = true
is_totp _ = false

-- `mfaSetup`: the user of the session says whether the second factor is on.
unfoldable pub mfa_setup : Bool → ℕ → ℕ → Text → Db → Result MfaError Text × Db
mfa_setup enabled id tenant secret db = if enabled then (err already_enabled, db) else (
  ok secret,
  record db {
    users =
        update (λ u. u.id == id && u.tenant == tenant)
          (λ u. record u { mfa_secret = some secret; mfa_last_step = none; mfa_recovery = none })
          db.users;
  },
)

module _ (cfg : Config) where
  -- The hashes that are kept of new recovery codes.
  abbrev pub recovery_hashes : List Text → List Text
  recovery_hashes codes = map (λ c. cfg.sha (normalise_recovery_code c)) codes

  -- `mfaEnable`
  unfoldable pub mfa_enable :
      Bool → ℕ → ℕ → Text → List Text → ℕ → Db → Result MfaError (List Text) × Db
  mfa_enable enabled id tenant code codes now db =
      if enabled then (err already_enabled, db) else elim (with_mfa id tenant db) [
        | none ↦ (err no_user, db)
        | some user ↦
            if not (is_some user.mfa_secret)
            then (err setup_not_started, db)
            else (let (method, checked) = check_second_factor cfg now user code db in
                if not (is_totp method) then (err code_refused, checked) else (
                  ok codes,
                  audited cfg (mfa_enabled id) (record checked {
                    users =
                        update (with_id user.id)
                          (λ u. record u {
                            mfa_enabled_at = some now;
                            mfa_recovery = some (recovery_hashes codes);
                          })
                          checked.users;
                  }),
                ))
      ]

  -- `mfaRecoveryCodes`
  unfoldable pub mfa_recovery_codes :
      ℕ → ℕ → Text → List Text → ℕ → Db → Result MfaError (List Text) × Db
  mfa_recovery_codes id tenant code codes now db = elim (with_mfa id tenant db) [
    | none ↦ (err no_user, db)
    | some user ↦
        if not (is_some user.mfa_enabled_at)
        then (err not_enabled, db)
        else (let (method, checked) = check_second_factor cfg now user code db in
            if not (is_totp method) then (err code_refused, checked) else (
              ok codes,
              audited cfg (recovery_codes_regenerated id) (record checked {
                users =
                    update (with_id user.id)
                      (λ u. record u { mfa_recovery = some (recovery_hashes codes) }) checked.users;
              }),
            ))
  ]

  -- `mfaDisable`
  unfoldable pub mfa_disable : ℕ → ℕ → Text → Text → ℕ → Db → Result MfaError (Unit {0}) × Db
  mfa_disable id tenant password code now db =
      if any (λ t. t.id == tenant && t.mfa_required) db.tenants
      then (err required_by_organisation, db)
      else elim (with_mfa id tenant db) [
        | none ↦ (err no_user, db)
        | some user ↦
            if not (is_some user.mfa_enabled_at)
            then (err not_enabled, db)
            else if not (cfg.password_ok password user.password_hash)
            then (err password_refused, db)
            else (let (method, checked) = check_second_factor cfg now user (trim code) db in
                if not (is_some method) then (err code_refused, checked) else (
                  ok tt,
                  audited cfg (mfa_disabled id) (record checked {
                    users =
                        update (with_id user.id)
                          (λ u. record u {
                            mfa_enabled_at = none;
                            mfa_secret = none;
                            mfa_last_step = none;
                            mfa_recovery = none;
                          })
                          checked.users;
                  }),
                ))
      ]

  -- The second factor goes off only when the organisation does not require it, and only for a user
  -- who had it on, gave the right password and whose code passed.
  pub mfa_disable_sound :
      (id tenant : ℕ) (password code : Text) (now : ℕ) (db : Db)
      → (mfa_disable id tenant password code now db).0 ≡ ok tt
      → (any (λ t. t.id == tenant && t.mfa_required) db.tenants ≡ false)
        × (u : User) × (m : Method) × In u db.users
        × (u.id ≡ id)
        × (u.tenant ≡ tenant)
        × (is_some u.mfa_enabled_at ≡ true)
        × (cfg.password_ok password u.password_hash ≡ true)
        × ((check_second_factor cfg now u (trim code) db).0 ≡ some m)
  unfolding mfa_disable
  mfa_disable_sound id tenant password code now db h =
      let free : any (λ t. t.id == tenant && t.mfa_required) db.tenants ≡ false = ground arith in
      let mine = λ (u : User). u.id == id && u.tenant == tenant in
      elim (Option-cases (with_mfa id tenant db)) [
        | inl gone ↦ absurd (ground (arith, gone, free))
        | inr (u, found) ↦ elim (Option-cases (check_second_factor cfg now u (trim code) db).0) [
          | inl bad ↦ absurd (ground (arith, found, bad, free))
          | inr (m, good) ↦ (
            free,
            u,
            m,
            find-In mine db.users u found,
            ground (arith, find_sound mine db.users u found),
            ground (arith, find_sound mine db.users u found),
            ground (arith, found, free),
            ground (arith, found, free),
            good,
          )
        ]
      ]
