-- ===== src/Access/Tests.antt =====
-- The theorems on doors at concrete inputs, and small runs of the checks at a door.
use digitalreception.Base.{
  List, length, ℕ, ◌+◌, ◌-◌, ◌*◌, ◌%◌, ◌≡◌, ◌↔◌, ◌≤◌, ◌<◌, refl, inl, arith, true, false, ◌&&◌, [],
  ◌∷◌, Option, none, some, ◌==◌, find, all, In,
}
use digitalreception.Calendar.{minute_ms}
use digitalreception.Calendar.Utc.{utc_intl}
use digitalreception.Text.{
  Text, codes, same_text, is_lower_hex, trim, trim_start, trim_end, strip_prefix, take_class, span,
  is_space,
}
use digitalreception.Text.Decimal.{show, read}
use digitalreception.Access.Rules.{ClockTime, AccessRule, in_window, rule_allows}
use digitalreception.Access.Rules.Window.{rule_allows_iff}
use digitalreception.Access.Qr.{
  Hmac, QrClaim, parse_qr, parse_step, parse_signature, freshness, qr_signature, step_at,
}
use digitalreception.Access.Badge.{base64_to_bytes, decode_loop, sign_step, qr_payload}
use digitalreception.Access.Badge.Base64.{char_of}
use digitalreception.Access.Verify.{
  Employee, Door, Site, Db, Reader, Input, Answer, qr_invalid, granted, denied, truthy, identify_qr,
  judge_qr, identify_nfc, normalise_badge_uid, decide, refusal, log_attempt, identify, place,
  verify,
}
use digitalreception.Access.Verify.Granted.{MayPass, verify_granted_iff, identify_qr_sound}
use digitalreception.Access.Verify.Phone.{PhoneBadge, phone_opens}
use digitalreception.Notices.Store.{Webhook, WebhookDelivery, access_denied, slack}
use digitalreception.Access.Verify.Log.{Logged, verify_logs}

night_window : in_window 1320 360 120 ≡ true
unfolding in_window
night_window = refl

abbrev anna : Text
anna = codes "0a1b2c3d-0000-4000-8000-00000000cafe"

abbrev ten : ClockTime
ten = record { hours = 10; minutes = 0 }

abbrev eleven : ClockTime
eleven = record { hours = 11; minutes = 0 }

-- Mondays, from ten to eleven.
abbrev monday_rule : AccessRule
monday_rule = record {
  tenant = 1;
  employee = anna;
  door = 4;
  days = some (1 ∷ []);
  from_time = some ten;
  to_time = some eleven;
}

-- Monday, half past ten.
abbrev half_past_ten : ℕ
half_past_ten = 630 * minute_ms

rule_allows_iff_example :
    (rule_allows utc_intl monday_rule half_past_ten "UTC" ≡ true)
    ↔ (In {A = ℕ} 1 (1 ∷ []) × ((630 + 1440 - 600) % 1440 < (660 + 1440 - 600) % 1440))
rule_allows_iff_example =
    rule_allows_iff utc_intl monday_rule half_past_ten "UTC" 1 [] ten eleven refl refl refl
      (omega arith) (omega arith) (omega arith)

-- The bytes of `secret`, and their base64 text.
abbrev key_bytes : List ℕ
key_bytes = 115 ∷ 101 ∷ 99 ∷ 114 ∷ 101 ∷ 116 ∷ []

abbrev key : Text
key = codes "c2VjcmV0"

-- A code that is the same for every message.
abbrev one_mac : List ℕ
one_mac = 1 ∷ 35 ∷ 69 ∷ 103 ∷ 137 ∷ 171 ∷ 205 ∷ 239 ∷ []

abbrev one_digest : Hmac
one_digest = record {
  mac = λ k message. one_mac;
  digest = λ k message. codes "0123456789abcdef";
  from_base64 = λ s. key_bytes;
}

signature_of : (step : ℕ) → qr_signature one_digest key_bytes anna step ≡ codes "0123456789abcdef"
unfolding qr_signature
signature_of step = refl

anna_form : all (λ c. is_lower_hex c) (codes "0123456789abcdef") ≡ true
anna_form = refl

abbrev anna_row : Employee
anna_row = record {
  id = anna;
  tenant = 1;
  badge = some (codes "04A1B2C3");
  secret = some key;
  first_name = some (codes "Anna");
  last_name = some (codes "Puig");
  active = true;
  apps_off = [];
  valid_from = none;
  valid_until = some (2000 * minute_ms);
}

abbrev front_door : Door
front_door = record { id = 4; tenant = 1; site = 2; name = "Front"; active = true }

abbrev hq : Site
hq = record { id = 2; tenant = 1; name = "HQ"; country = "ES"; timezone = "UTC" }

abbrev ops : Webhook
ops = record {
  id = 3;
  tenant = 1;
  kind = slack;
  events = access_denied ∷ [];
  site = none;
  include_names = false;
  active = true;
  last_result = none;
  last_at = none;
}

abbrev count_rows : List WebhookDelivery → ℕ
count_rows rows = length rows + 1

abbrev building : Db
building = record {
  employees = anna_row ∷ [];
  doors = front_door ∷ [];
  sites = hq ∷ [];
  rules = monday_rule ∷ [];
  policies = record { tenant = 1; country = "ES"; default_locale = "es" } ∷ [];
  events = [];
  webhooks = ops ∷ [];
  deliveries = [];
}

abbrev front_reader : Reader
front_reader = record { id = 8; tenant = 1; door = 4 }

-- The card's identifier as a reader writes it, with colons.
abbrev card : Input
card = record { qr_text = none; nfc_uid = some (codes "04:a1:b2:c3") }

abbrev shown_at : ℕ → Input
shown_at now = record {
  qr_text = some (qr_payload one_digest anna key (step_at now));
  nfc_uid = none;
}

front_place : place front_reader building ≡ some (front_door, hq)
unfolding place
front_place = refl

card_names_anna : identify one_digest 1 card half_past_ten building ≡ (some anna_row, none)
unfolding identify identify_nfc normalise_badge_uid same_text
card_names_anna = refl

anna_may : MayPass utc_intl 1 anna_row front_door hq half_past_ten building
unfolding rule_allows same_text
anna_may = record {
  active = refl;
  app = refl;
  started = tt;
  not_ended = omega arith;
  door_active = refl;
  rule = monday_rule;
  has_rule = inl refl;
  allows = refl;
}

abbrev welcome : Answer
welcome = record {
  result = granted;
  reason = none;
  name = some (codes "Anna", codes "P");
  door = "Front";
  at = half_past_ten;
}

card_opens :
    (verify one_digest utc_intl count_rows front_reader card half_past_ten building).0
    ≡ some welcome
unfolding verify place identify identify_nfc normalise_badge_uid decide refusal rule_allows
    same_text log_attempt in_window
card_opens = refl

verify_granted_iff_example : (welcome.result ≡ granted) ↔ (
    (e : Employee) × (identify one_digest 1 card half_past_ten building ≡ (some e, none))
    × MayPass utc_intl 1 e front_door hq half_past_ten building)
verify_granted_iff_example =
    verify_granted_iff one_digest utc_intl count_rows front_reader card half_past_ten building
      front_door hq welcome front_place card_opens

anna_badge : PhoneBadge one_digest 1 anna_row key_bytes building
unfolding same_text char_of
anna_badge = record {
  form = refl;
  size = refl;
  bytes = refl;
  decoded = refl;
  digested = λ message. refl;
  lower_hex = λ step. rw (signature_of step) refl;
  full = λ step. rw (signature_of step) refl;
  stored = refl;
  found = refl;
}

abbrev phone_text : Text
phone_text = codes "DRE1:0a1b2c3d-0000-4000-8000-00000000cafe.1260.0123456789abcdef"

abbrev claim : QrClaim
claim = record { employee = anna; step = 1260; signature = codes "0123456789abcdef" }

payload : qr_payload one_digest anna key 1260 ≡ phone_text
unfolding qr_payload sign_step base64_to_bytes decode_loop show
payload = refl

phone_parsed : parse_qr phone_text ≡ some claim
unfolding parse_qr parse_step parse_signature trim trim_start trim_end strip_prefix take_class span
    read is_space
phone_parsed = refl

-- The phone's QR names its employee.
qr_names_anna : identify_qr one_digest 1 phone_text half_past_ten building ≡ (some anna_row, none)
unfolding identify_qr judge_qr qr_signature same_text freshness
qr_names_anna = rw (identify_qr, phone_parsed) refl

identify_qr_sound_example :
    (c : QrClaim) × (secret : Text) × (parse_qr phone_text ≡ some c)
    × (same_text anna c.employee ≡ true)
    × (anna_row.tenant ≡ 1)
    × (truthy (some key) ≡ some secret)
    × (same_text (qr_signature one_digest (one_digest.from_base64 secret) anna c.step) c.signature
        ≡ true)
    × (c.step ≤ 1261)
    × (1260 ≤ c.step + 1)
identify_qr_sound_example =
    identify_qr_sound one_digest 1 phone_text half_past_ten building anna_row qr_names_anna

abbrev phone : Option Text → Input
phone nfc = record { qr_text = some (qr_payload one_digest anna key 1260); nfc_uid = nfc }

-- The phone decodes the stored text.
key_decoded : base64_to_bytes key ≡ key_bytes
unfolding base64_to_bytes decode_loop
key_decoded = refl

phone-welcome :
    (verify one_digest utc_intl count_rows front_reader (phone none) half_past_ten building).0
    ≡ some welcome
unfolding verify identify decide refusal rule_allows same_text log_attempt in_window
phone-welcome = rw (verify, front_place, identify, payload, qr_names_anna) refl

phone_opens_example : welcome.result ≡ granted
unfolding char_of
phone_opens_example =
    phone_opens one_digest utc_intl count_rows 1 anna_row key_bytes building anna_badge front_reader
      none half_past_ten half_past_ten front_door hq welcome refl (omega arith) (omega arith)
      (omega arith) front_place anna_may phone-welcome

verify_logs_example :
    (a : Answer) × ((verify one_digest utc_intl count_rows front_reader card half_past_ten
        building).0
      ≡ some a)
    × Logged front_reader front_door hq
        (identify one_digest 1 card half_past_ten building).0
        a
        half_past_ten
        building
        (verify one_digest utc_intl count_rows front_reader card half_past_ten building).1
verify_logs_example =
    verify_logs one_digest utc_intl count_rows front_reader card half_past_ten building front_door
      hq front_place

abbrev forged_text : Text
forged_text = codes "DRE1:0a1b2c3d-0000-4000-8000-00000000cafe.1260.ffffffffffffffff"

abbrev forged_claim : QrClaim
forged_claim = record { employee = anna; step = 1260; signature = codes "ffffffffffffffff" }

forged_parsed : parse_qr forged_text ≡ some forged_claim
unfolding parse_qr parse_step parse_signature trim trim_start trim_end strip_prefix take_class span
    read is_space
forged_parsed = refl

abbrev forged : Input
forged = record { qr_text = some forged_text; nfc_uid = none }

abbrev refused : Answer
refused = record {
  result = denied;
  reason = some qr_invalid;
  name = none;
  door = "Front";
  at = half_past_ten;
}

forged-refused :
    (verify one_digest utc_intl count_rows front_reader forged half_past_ten building).0
    ≡ some refused
unfolding verify identify identify_qr judge_qr qr_signature decide same_text log_attempt
forged-refused = rw (verify, front_place, identify, identify_qr, forged_parsed) refl

anna_found : find (λ x. same_text x.id anna && x.tenant == 1) building.employees ≡ some anna_row
unfolding same_text
anna_found = refl

signature_wrong :
    same_text (qr_signature one_digest key_bytes anna 1260) forged_claim.signature ≡ false
unfolding qr_signature same_text
signature_wrong = refl
