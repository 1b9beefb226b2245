-- ===== src/Access/Verify.antt =====
-- api/src/access/access.service.ts: verification at the door. Encrypted columns are modelled by
-- what they decrypt to; the index of a badge by the normalised identifier that it is computed from.
pub mod Granted
pub mod Log
pub mod Phone
use digitalreception.Base.{
  ℕ, ◌-◌, String, Bool, true, false, ◌&&◌, ◌||◌, not, List, [], ◌∷◌, ◌++◌, Option, none, some, ◌==◌,
  leb, ltb, if◌then◌else◌, filter, any, find, length, or_else, is_some, map,
}
use mathlib.Core.Option
use text.Mathlib.Text.{◌==◌ as str_eq}
use digitalreception.Calendar.{Intl}
use digitalreception.Text.{Text, codes, same_text, is_upper_hex}
use digitalreception.Notices.Store.{access_denied, EventData, Webhook, WebhookDelivery}
use digitalreception.Notices.Hooks.{enqueue}
use digitalreception.Parking.Store.{AppKey, access}
use digitalreception.Access.Rules.{AccessRule, rule_allows}
use digitalreception.Access.Qr.{
  Hmac, QrClaim, Freshness, fresh, expired, invalid, freshness, qr_signature, parse_qr, step_at,
  slice_to,
}

pub record Employee : Type 0 where
  pub id : Text
  pub tenant : ℕ
  pub badge : Option Text
  pub secret : Option Text
  pub first_name : Option Text
  pub last_name : Option Text
  pub active : Bool
  pub apps_off : List AppKey
  pub valid_from : Option ℕ
  pub valid_until : Option ℕ

pub record Door : Type 0 where
  pub id : ℕ
  pub tenant : ℕ
  pub site : ℕ
  pub name : String
  pub active : Bool

pub record Site : Type 0 where
  pub id : ℕ
  pub tenant : ℕ
  pub name : String
  pub country : String
  pub timezone : String

pub record CountryPolicy : Type 0 where
  pub tenant : ℕ
  pub country : String
  pub default_locale : String

pub data AccessMethod : Type 0 where
  qr nfc : AccessMethod

pub data AccessResult : Type 0 where
  granted denied : AccessResult

pub data Reason : Type 0 where
  qr_invalid qr_expired unknown_credential employee_inactive app_disabled not_yet_valid : Reason
  past_validity door_inactive no_permission outside_schedule : Reason

pub record AccessEvent : Type 0 where
  pub tenant : ℕ
  pub site : ℕ
  pub door : ℕ
  pub reader : ℕ
  pub employee : Option Text
  pub method : AccessMethod
  pub result : AccessResult
  pub reason : Option Reason
  pub at : ℕ

pub record Db : Type 0 where
  pub employees : List Employee
  pub doors : List Door
  pub sites : List Site
  pub rules : List AccessRule
  pub policies : List CountryPolicy
  pub events : List AccessEvent
  pub webhooks : List Webhook
  pub deliveries : List WebhookDelivery

pub record Reader : Type 0 where
  pub id : ℕ
  pub tenant : ℕ
  pub door : ℕ

-- What a reader sends: the text of a QR, or else the identifier of a card.
pub record Input : Type 0 where
  pub qr_text : Option Text
  pub nfc_uid : Option Text

pub record Answer : Type 0 where
  pub result : AccessResult
  pub reason : Option Reason
  pub name : Option (Text × Text)
  pub door : String
  pub at : ℕ

-- A text that is not there, or empty, is false in a condition.
abbrev pub truthy : Option Text → Option Text
truthy none = none
truthy (some []) = none
truthy (some (c ∷ s)) = some (c ∷ s)

-- `normaliseBadgeUid`, on ASCII text: upper case, hexadecimal digits only.
abbrev to_upper : ℕ → ℕ
to_upper c = if leb b'a' c && leb c b'z' then c - 32 else c

unfoldable pub normalise_badge_uid : Text → Text
normalise_badge_uid uid = filter is_upper_hex (map to_upper uid)

abbrev pub is_access : AppKey → Bool
is_access access = true
is_access _ = false

-- The judgement on a QR whose employee and secret are known.
unfoldable pub judge_qr : Hmac → QrClaim → Employee → Text → ℕ → Option Employee × Option Reason
judge_qr hmac claim e secret now =
    if not (same_text (qr_signature hmac (hmac.from_base64 secret) e.id claim.step) claim.signature)
    then (none, some qr_invalid)
    else elim (freshness (step_at now) claim.step) [
      | fresh ↦ (some e, none)
      | expired ↦ (some e, some qr_expired)
      | invalid ↦ (some e, some qr_invalid)
    ]

-- Who holds the QR, and why it is refused.
unfoldable pub identify_qr : Hmac → ℕ → Text → ℕ → Db → Option Employee × Option Reason
identify_qr hmac tenant text now db = elim (parse_qr text) [
  | none ↦ (none, some qr_invalid)
  | some claim ↦
      elim (find (λ e. same_text e.id claim.employee && e.tenant == tenant) db.employees) [
        | none ↦ (none, some unknown_credential)
        | some e ↦ elim (truthy e.secret) [
          | none ↦ (none, some unknown_credential)
          | some secret ↦ judge_qr hmac claim e secret now
        ]
      ]
]

abbrev pub has_badge : Text → Option Text → Bool
has_badge uid none = false
has_badge uid (some b) = same_text b uid

-- Who holds the card.
unfoldable pub identify_nfc : ℕ → Text → Db → Option Employee × Option Reason
identify_nfc tenant raw db =
    let uid = normalise_badge_uid raw in
    if leb 4 (length uid)
    then elim (find (λ e. e.tenant == tenant && has_badge uid e.badge) db.employees) [
      | none ↦ (none, some unknown_credential)
      | some e ↦ (some e, none)
    ]
    else (none, some unknown_credential)

unfoldable pub identify : Hmac → ℕ → Input → ℕ → Db → Option Employee × Option Reason
identify hmac tenant input now db = elim (truthy input.qr_text) [
  | some text ↦ identify_qr hmac tenant text now db
  | none ↦ identify_nfc tenant (or_else input.nfc_uid []) db
]

abbrev pub method_of : Input → AccessMethod
method_of input = elim (truthy input.qr_text) [ some _ ↦ qr | none ↦ nfc ]

-- The rules of an employee at a door.
abbrev pub rules_of : ℕ → Employee → Door → Db → List AccessRule
rules_of tenant e door db =
    filter (λ r. r.tenant == tenant && (same_text r.employee e.id && r.door == door.id)) db.rules

abbrev is_nil : List AccessRule → Bool
is_nil [] = true
is_nil (r ∷ rs) = false

-- Before its start, or at or after its end; a missing bound is none.
abbrev pub before_start : Option ℕ → ℕ → Bool
before_start none now = false
before_start (some from) now = ltb now from

abbrev pub at_end : Option ℕ → ℕ → Bool
at_end none now = false
at_end (some until) now = leb until now

-- The validity and the permissions of an employee who was identified.
unfoldable pub refusal : Intl → ℕ → Employee → Door → Site → ℕ → Db → Option Reason
refusal intl tenant e door site now db =
    if not e.active
    then some employee_inactive
    else if any is_access e.apps_off
    then some app_disabled
    else if before_start e.valid_from now
    then some not_yet_valid
    else if at_end e.valid_until now
    then some past_validity
    else if not door.active
    then some door_inactive
    else if is_nil (rules_of tenant e door db)
    then some no_permission
    else if not (any (λ r. rule_allows intl r now site.timezone) (rules_of tenant e door db))
    then some outside_schedule
    else none

abbrev pub full_name : Option Employee → Option (Text × Text)
full_name none = none
full_name (some e) = elim (truthy e.first_name) [
  | none ↦ none
  | some first ↦ elim (truthy e.last_name) [ none ↦ none | some last ↦ some (first, last) ]
]

-- First name and initial of the last name.
abbrev pub shown_name : Option (Text × Text) → Option (Text × Text)
shown_name none = none
shown_name (some (first, last)) = some (first, slice_to 1 last)

unfoldable pub decide :
    Intl → ℕ → Door → Site → ℕ → Db → Option Employee × Option Reason → Option Reason
decide intl tenant door site now db (who, some reason) = some reason
decide intl tenant door site now db (none, none) = none
decide intl tenant door site now db (some e, none) = refusal intl tenant e door site now db

abbrev pub result_of : Option Reason → AccessResult
result_of none = granted
result_of (some r) = denied

abbrev pub locale_of : ℕ → Site → Db → String
locale_of tenant site db =
    elim (find (λ p. p.tenant == tenant && str_eq p.country site.country) db.policies) [
      | none ↦ "en"
      | some p ↦ p.default_locale
    ]

-- The row of the access log.
abbrev pub new_event :
    Reader → Door → Option Employee → AccessMethod → Option Reason → ℕ → AccessEvent
new_event reader door who method reason now = record {
  tenant = reader.tenant;
  site = door.site;
  door = door.id;
  reader = reader.id;
  employee = Option.map (λ e. e.id) who;
  method = method;
  result = result_of reason;
  reason = reason;
  at = now;
}

-- The texts of the reasons.
abbrev pub reason_code : Reason → String
reason_code qr_invalid = "QR_INVALID"
reason_code qr_expired = "QR_EXPIRED"
reason_code unknown_credential = "UNKNOWN_CREDENTIAL"
reason_code employee_inactive = "EMPLOYEE_INACTIVE"
reason_code app_disabled = "APP_DISABLED"
reason_code not_yet_valid = "NOT_YET_VALID"
reason_code past_validity = "EXPIRED"
reason_code door_inactive = "DOOR_INACTIVE"
reason_code no_permission = "NO_PERMISSION"
reason_code outside_schedule = "OUTSIDE_SCHEDULE"

-- What the webhooks are told of a refusal.
abbrev pub denied_event : Reader → Door → Site → Option Employee → Reason → Db → EventData
denied_event reader door site who r db = record {
  site = site.name;
  locale = locale_of reader.tenant site db;
  visitor = none;
  company = none;
  host = none;
  door = some (codes door.name);
  reason = some (codes (reason_code r));
  employee = Option.map (λ name. name.0 ++ codes " " ++ name.1) (full_name who);
  guests = none;
  employees = none;
}

-- The transaction that logs the attempt; a refusal also queues `access.denied` for the webhooks, with
-- the identifiers that the database gives.
unfoldable pub log_attempt :
    (List WebhookDelivery → ℕ)
    → Reader
    → Door
    → Site
    → Option Employee
    → AccessMethod
    → Option Reason
    → ℕ
    → Db
    → Db
log_attempt new_id reader door site who method reason now db =
    let event = new_event reader door who method reason now in
    let logged : Db = record db { events = event ∷ db.events } in
    elim reason [
      | none ↦ logged
      | some r ↦ record logged {
        deliveries =
            (enqueue new_id reader.tenant site.id access_denied
              (denied_event reader door site who r db) now
              (record { webhooks = db.webhooks; deliveries = db.deliveries })).deliveries;
      }
    ]

-- The door of a reader and its site.
unfoldable pub place : Reader → Db → Option (Door × Site)
place reader db = elim (find (λ d. d.id == reader.door && d.tenant == reader.tenant) db.doors) [
  | none ↦ none
  | some door ↦ elim (find (λ s. s.id == door.site && s.tenant == reader.tenant) db.sites) [
    | none ↦ none
    | some site ↦ some (door, site)
  ]
]

-- What the reader is told.
abbrev pub answer_of : Door → Option Employee → Option Reason → ℕ → Answer
answer_of door who reason now = record {
  result = result_of reason;
  reason = reason;
  name = shown_name (full_name who);
  door = door.name;
  at = now;
}

-- `verify`; `none` is a reader whose door or site is gone (`findOneOrFail` throws).
unfoldable pub verify :
    Hmac → Intl → (List WebhookDelivery → ℕ) → Reader → Input → ℕ → Db → Option Answer × Db
verify hmac intl new_id reader input now db = elim (place reader db) [
  | none ↦ (none, db)
  | some (door, site) ↦
      let who = identify hmac reader.tenant input now db in
      let reason = decide intl reader.tenant door site now db who in
      (
        some (answer_of door who.0 reason now),
        log_attempt new_id reader door site who.0 (method_of input) reason now db,
      )
]
