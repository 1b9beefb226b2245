-- ===== src/SignIn/Store.antt =====
-- The tables of the sign-in (api/src/entities/user.entity.ts, tenant.entity.ts, audit-log.entity.ts).
use digitalreception.Base.{ℕ, String, Bool, List, Option}
use digitalreception.Text.{Text}

-- The encrypted secret of the second factor is its text in base32; the recovery codes are hashes.
pub record User : Type 0 where
  pub id : ℕ
  pub tenant : ℕ
  pub email : Text
  pub password_hash : Text
  pub active : Bool
  pub must_change_password : Bool
  pub session_version : ℕ
  pub failed_logins : ℕ
  pub locked_until : Option ℕ
  pub last_login_at : Option ℕ
  pub mfa_secret : Option Text
  pub mfa_enabled_at : Option ℕ
  pub mfa_last_step : Option ℕ
  pub mfa_recovery : Option (List Text)
  pub sso_exempt : Bool

pub record Tenant : Type 0 where
  pub id : ℕ
  pub sso_enforced : Bool
  pub sso_provider : Option String
  pub sso_org : Option Text
  pub mfa_required : Bool

-- Why a sign-in failed, as the audit trail has it.
pub data Reason : Type 0 where
  unknown_user is_locked inactive bad_password sso_needed bad_code : Reason

pub data AuditEntry : Type 0 where
  login_failed : Option ℕ → Reason → AuditEntry
  login logged_out password_changed : ℕ → AuditEntry
  mfa_enabled recovery_codes_regenerated mfa_disabled : ℕ → AuditEntry

pub record Db : Type 0 where
  pub users : List User
  pub tenants : List Tenant
  pub audit : List AuditEntry
