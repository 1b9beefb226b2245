-- ===== src/Access/Activation.antt =====
-- api/src/access/access.service.ts: a phone becomes a badge, with a code sent by mail or with the
-- company account. SHA-256 is a parameter; encrypted columns are plaintext.
pub mod Guesses
pub mod Issued
mod Tests
use digitalreception.Base.{
  ℕ, ◌+◌, ◌*◌, ◌-◌, ◌/◌, Bool, true, false, ◌&&◌, not, List, [], ◌∷◌, Option, none, some, ◌==◌, leb,
  ltb, if◌then◌else◌, filter, find, update, map, Result, ok, err,
}
use digitalreception.Calendar.{minute_ms}
use digitalreception.Text.{Text, same_text, trim}

abbrev pub login_code_ttl_min : ℕ
login_code_ttl_min = 10

abbrev pub login_code_max_attempts : ℕ
login_code_max_attempts = 5

-- The columns of an employee that the activation reads and writes.
pub record Employee : Type 0 where
  pub id : ℕ
  pub tenant : ℕ
  pub email : Text
  pub active : Bool
  pub code_hash : Option Text
  pub code_expires : Option ℕ
  pub code_attempts : ℕ
  pub secret : Option Text
  pub issued_at : Option ℕ
  pub app_token : Option Text

pub record PushDevice : Type 0 where
  pub id : ℕ
  pub tenant : ℕ
  pub employee : ℕ

-- What is sent by mail.
pub record CodeMail : Type 0 where
  pub to : Text
  pub code : Text
  pub minutes : ℕ

pub record Db : Type 0 where
  pub employees : List Employee
  pub devices : List PushDevice
  pub mails : List CodeMail

-- The clock, the configuration of mail and the random values of a request.
pub record Env : Type 0 where
  pub now : ℕ
  pub mail_enabled : Bool
  pub mail_ok : Bool
  pub code : Text
  pub secret : Text
  pub token : Text

-- SHA-256 in hexadecimal, of an employee's identifier with a code, and of a token.
pub record Sha : Type 0 where
  pub of_code : ℕ → Text → Text
  pub of_token : Text → Text

pub data Sent : Type 0 where
  sent unknown_email email_disabled send_failed locked : Sent

pub data Error : Type 0 where
  code_invalid no_employee : Error

pub record Badge : Type 0 where
  pub employee : ℕ
  pub secret : Text
  pub token : Text

abbrev lower : ℕ → ℕ
lower c = if leb b'A' c && leb c b'Z' then c + 32 else c

-- `email.trim().toLowerCase()`, on ASCII text.
unfoldable pub normal_email : Text → Text
normal_email email = map lower (trim email)

-- An active employee with this address.
abbrev pub has_email : ℕ → Text → Employee → Bool
has_email tenant email e =
    e.tenant == tenant && (same_text e.email (normal_email email) && e.active)

-- A moment that is after now; none is not.
abbrev pub is_after : Option ℕ → ℕ → Bool
is_after none now = false
is_after (some t) now = ltb now t

abbrev pub with_id : ℕ → Employee → Bool
with_id id e = e.id == id

-- The end of the window: the one that is open, or a new one.
abbrev pub window_end : Env → Employee → ℕ
window_end env e = elim e.code_expires [
  | none ↦ env.now + login_code_ttl_min * minute_ms
  | some t ↦ if ltb env.now t then t else env.now + login_code_ttl_min * minute_ms
]

-- `Math.max(1, Math.ceil((expiresAt - now) / 60_000))`
abbrev pub minutes_left : ℕ → ℕ → ℕ
minutes_left expires now =
    let m = (expires - now + (minute_ms - 1)) / minute_ms in if ltb m 1 then 1 else m

-- The row that `activateBadge` reads.
unfoldable pub code_holder : Env → ℕ → Text → Db → Option Employee
code_holder env tenant email db =
    find (λ e. has_email tenant email e && is_after e.code_expires env.now) db.employees

-- The conditional UPDATE that takes one attempt; `none` is no row affected.
unfoldable pub take_attempt : ℕ → Db → Option Db
take_attempt id db =
    elim (find (λ e. e.id == id && ltb e.code_attempts login_code_max_attempts) db.employees) [
      | none ↦ none
      | some _ ↦ some (record db {
        employees =
            update (λ e. e.id == id && ltb e.code_attempts login_code_max_attempts)
              (λ e. record e { code_attempts = e.code_attempts + 1 }) db.employees;
      })
    ]

module _ (sha : Sha) where
  -- The row after a new code; an open window keeps its end and its count.
  unfoldable pub new_code : Env → Bool → ℕ → Employee → Employee → Employee
  new_code env in_time expires read row = record row {
    code_hash = some (sha.of_code read.id env.code);
    code_expires = some expires;
    code_attempts = if in_time then read.code_attempts else 0;
  }

  -- `requestLoginCode`
  unfoldable pub request_login_code : Env → ℕ → Text → Db → Sent × Db
  request_login_code env tenant email db = elim (find (has_email tenant email) db.employees) [
    | none ↦ (unknown_email, db)
    | some e ↦
        let in_time = is_after e.code_expires env.now in
        if not env.mail_enabled
        then (email_disabled, db)
        else if in_time && leb login_code_max_attempts e.code_attempts
        then (locked, db)
        else (
          if env.mail_ok then sent else send_failed,
          record {
            employees =
                update (with_id e.id) (new_code env in_time (window_end env e) e) db.employees;
            devices = db.devices;
            mails =
                record {
                  to = email;
                  code = env.code;
                  minutes = minutes_left (window_end env e) env.now;
                }
                ∷ db.mails;
          },
        )
  ]

  -- The row after a new badge.
  unfoldable pub new_badge : Env → Employee → Employee
  new_badge env row = record row {
    secret = some env.secret;
    issued_at = some env.now;
    app_token = some (sha.of_token env.token);
    code_hash = none;
    code_expires = none;
    code_attempts = 0;
  }

  -- `issueBadge`
  unfoldable pub issue_badge : Env → ℕ → Employee → Db → Badge × Db
  issue_badge env tenant e db = (
    record { employee = e.id; secret = env.secret; token = env.token },
    record db {
      devices = filter (λ d. not (d.tenant == tenant && d.employee == e.id)) db.devices;
      employees = update (with_id e.id) (new_badge env) db.employees;
    },
  )

  -- What `activateBadge` does with the row that it read: whether a guess was compared, the answer,
  -- the database.
  unfoldable pub guess : Env → ℕ → Employee → Text → Db → Bool × Result Error Badge × Db
  guess env tenant e code db = elim e.code_hash [
    | none ↦ (false, err code_invalid, db)
    | some hash ↦ elim (take_attempt e.id db) [
      | none ↦ (false, err code_invalid, db)
      | some taken ↦
          if same_text hash (sha.of_code e.id code)
          then (let (b, last) = issue_badge env tenant e taken in (true, ok b, last))
          else (true, err code_invalid, taken)
    ]
  ]

  -- `activateBadge`, while other requests commit between its read and its first write.
  unfoldable pub activate_badge : Env → (Db → Db) → ℕ → Text → Text → Db → Result Error Badge × Db
  activate_badge env others tenant email code db = elim (code_holder env tenant email db) [
    | none ↦ (err code_invalid, db)
    | some e ↦ (let (compared, r, last) = guess env tenant e code (others db) in (r, last))
  ]

  -- `activateBadgeBySso`
  unfoldable pub activate_badge_by_sso : Env → ℕ → Text → Db → Result Error Badge × Db
  activate_badge_by_sso env tenant email db = elim (find (has_email tenant email) db.employees) [
    | none ↦ (err no_employee, db)
    | some e ↦ (let (b, last) = issue_badge env tenant e db in (ok b, last))
  ]
