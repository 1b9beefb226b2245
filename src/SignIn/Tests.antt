-- ===== src/SignIn/Tests.antt =====
-- The theorems on signing in at concrete inputs.
use digitalreception.Base.{
  any, is_some, ◌==◌, ◌&&◌, ℕ, ◌+◌, ◌*◌, ◌≤◌, ◌<◌, ◌≡◌, refl, true, false, List, [], ◌∷◌, none,
  some, find, In, ok, err,
}
use digitalreception.Calendar.{minute_ms}
use digitalreception.Text.{codes, same_text, trim, trim_start, trim_end, is_space}
use digitalreception.SignIn.Store.{User, Db}
use digitalreception.SignIn.Totp.{first_match, verify_totp}
use digitalreception.SignIn.Login.{
  Config, invalid_credentials, session, Claims, Method, normal_email, is_after, take_step,
  check_totp, check_second_factor, start, needs_sso, log_in, log_in_mfa,
}
use digitalreception.SignIn.Mfa.{mfa_setup, mfa_enable, mfa_disable, mfa_disable_sound}
use digitalreception.SignIn.Once.{Op, checks, leaves, times_accepted, code_once}
use digitalreception.SignIn.Lock.{
  has_email, wrong_password_counts, session_sound, mfa_session_sound,
}

-- The code of every step is 123456, and a password is its own hash.
abbrev plain : Config
plain = record {
  max_failed_logins = 5;
  lock_minutes = 15;
  providers = λ name. false;
  password_ok = λ password hash. same_text password hash;
  hash_password = λ password. password;
  code_of = λ secret step. codes "123456";
  sha = λ code. code;
}

abbrev boss : User
boss = record {
  id = 1;
  tenant = 1;
  email = codes "boss@example.org";
  password_hash = codes "correct horse";
  active = true;
  must_change_password = false;
  session_version = 7;
  failed_logins = 4;
  locked_until = none;
  last_login_at = none;
  mfa_secret = none;
  mfa_enabled_at = none;
  mfa_last_step = none;
  mfa_recovery = none;
  sso_exempt = false;
}

abbrev with_phone : User
with_phone = record boss {
  id = 2;
  email = codes "phone@example.org";
  mfa_secret = some (codes "JBSWY3DP");
  mfa_enabled_at = some 5;
}

abbrev locked_out : User
locked_out = record boss { id = 3; email = codes "locked@example.org"; locked_until = some 900000 }

abbrev office : Db
office = record {
  users = boss ∷ with_phone ∷ locked_out ∷ [];
  tenants =
      record {
        id = 1;
        sso_enforced = false;
        sso_provider = none;
        sso_org = none;
        mfa_required = false;
      }
      ∷ [];
  audit = [];
}

-- Step 2 is used, so the code counts for step 3.
step_three : verify_totp plain.code_of (codes "JBSWY3DP") (codes "123456") (some 2) 90000 ≡ some 3
unfolding verify_totp first_match same_text
step_three = refl

abbrev twice : List (ℕ × Op)
twice =
    (90000, checks with_phone (codes "123456"))
    ∷ (90000, leaves 2)
    ∷ (90001, checks with_phone (codes "123456"))
    ∷ []

code_once_example : times_accepted plain 2 2 twice office ≤ 1
code_once_example = code_once plain 2 2 twice office

locked_found : find (has_email plain 1 (codes "locked@example.org")) office.users ≡ some locked_out
unfolding normal_email same_text trim trim_start trim_end is_space
locked_found = refl

boss_found : find (has_email plain 1 (codes "Boss@example.org ")) office.users ≡ some boss
unfolding normal_email same_text trim trim_start trim_end is_space
boss_found = refl

wrong : plain.password_ok (codes "guess") boss.password_hash ≡ false
unfolding same_text
wrong = refl

wrong_password_counts_example :
    ((log_in plain 1 (codes "Boss@example.org ") (codes "guess") 1000 office).0
      ≡ err invalid_credentials)
    × ((row : User)
        → In row (log_in plain 1 (codes "Boss@example.org ") (codes "guess") 1000 office).1.users
        → row.id ≡ boss.id
        → (plain.max_failed_logins ≤ boss.failed_logins + 1
            → (row.locked_until ≡ some (1000 + plain.lock_minutes * minute_ms))
              × (row.failed_logins ≡ 0))
          × (boss.failed_logins + 1 < plain.max_failed_logins
              → (row.locked_until ≡ none) × (row.failed_logins ≡ boss.failed_logins + 1)))
wrong_password_counts_example =
    wrong_password_counts plain 1 (codes "Boss@example.org ") (codes "guess") 1000 office boss
      boss_found refl wrong

opened :
    (log_in plain 1 (codes "Boss@example.org ") (codes "correct horse") 1000 office).0
    ≡ ok (session 1 7)
unfolding log_in needs_sso start normal_email same_text trim trim_start trim_end is_space
opened = refl

session_sound_example :
    (u : User) × In u office.users
    × (has_email plain 1 (codes "Boss@example.org ") u ≡ true)
    × (u.id ≡ 1)
    × (u.active ≡ true)
    × (is_after u.locked_until 1000 ≡ false)
    × (plain.password_ok (codes "correct horse") u.password_hash ≡ true)
    × (u.mfa_enabled_at ≡ none)
    × (needs_sso plain u office ≡ false)
session_sound_example =
    session_sound plain 1 (codes "Boss@example.org ") (codes "correct horse") 1000 1 7 office opened

abbrev ticket : Claims
ticket = record { user = 2; tenant = 1; version = 7; is_mfa = true }

mfa_opened :
    (log_in_mfa plain (λ d. d) 1 (some ticket) (codes "123456") 90000 office).0 ≡ ok (session 2 7)
unfolding log_in_mfa check_second_factor check_totp take_step verify_totp first_match start
    same_text trim trim_start trim_end is_space
mfa_opened = refl

mfa_session_sound_example :
    (u : User) × (m : Method) × In u office.users
    × (ticket.is_mfa ≡ true)
    × (ticket.tenant ≡ 1)
    × (u.id ≡ ticket.user)
    × (u.session_version ≡ ticket.version)
    × (u.active ≡ true)
    × (is_after u.locked_until 90000 ≡ false)
    × ((check_second_factor plain 90000 u (trim (codes "123456")) office).0 ≡ some m)
mfa_session_sound_example =
    mfa_session_sound plain (λ d. d) 1 ticket (codes "123456") 90000 office (session 2 7) mfa_opened

switched_off :
    (mfa_disable plain 2 1 (codes "correct horse") (codes "123456") 90000 office).0 ≡ ok tt
unfolding mfa_disable check_second_factor check_totp take_step verify_totp first_match same_text
    trim trim_start trim_end is_space
switched_off = refl

mfa_disable_sound_example :
    (any (λ t. t.id == 1 && t.mfa_required) office.tenants ≡ false)
    × (u : User) × (m : Method) × In u office.users
    × (u.id ≡ 2)
    × (u.tenant ≡ 1)
    × (is_some u.mfa_enabled_at ≡ true)
    × (plain.password_ok (codes "correct horse") u.password_hash ≡ true)
    × ((check_second_factor plain 90000 u (trim (codes "123456")) office).0 ≡ some m)
mfa_disable_sound_example =
    mfa_disable_sound plain 2 1 (codes "correct horse") (codes "123456") 90000 office switched_off

-- Enrolment: a new secret, and its first code.
enrolled :
    (mfa_enable plain false 1 1
      (codes "123456")
      (codes "AAAAA-BBBBB" ∷ [])
      90000
      (mfa_setup false 1 1 (codes "JBSWY3DP") office).1).0
    ≡ ok (codes "AAAAA-BBBBB" ∷ [])
unfolding mfa_setup mfa_enable check_second_factor check_totp take_step verify_totp first_match
    same_text
enrolled = refl
