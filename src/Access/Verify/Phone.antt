-- ===== src/Access/Verify/Phone.antt =====
-- From the phone to the door (mobile/src/lib/badge.ts, access.service.ts).
use digitalreception.Base.{
  ℕ, ◌+◌, ◌^◌, ◌≤◌, ◌<◌, ◌≡◌, refl, arith, true, ◌&&◌, List, Option, none, some, ◌==◌, find, all,
  length, ◌∷◌, ◌++◌, subst, sym,
}
use digitalreception.Calendar.{Intl}
use digitalreception.Text.{Text, same_text, is_lower_hex}
use digitalreception.Notices.Store.{WebhookDelivery}
use digitalreception.Access.Qr.{Hmac, qr_signature, qr_sig_hex, dot, is_uuid_char, step_at}
use digitalreception.Text.Decimal.{show}
use digitalreception.Access.Badge.{sign_step, qr_payload, hex}
use digitalreception.Access.Badge.Base64.{base64, is_byte, base64_to_bytes-base64}
use digitalreception.Access.Qr.RoundTrip.{parse_qr-qr_payload}
use digitalreception.Access.Verify.{
  Employee, Door, Site, Db, Reader, Input, Answer, granted, truthy, judge_qr, identify_qr, identify,
  place, verify,
}
use digitalreception.Access.Verify.Granted.{MayPass, freshness-fresh, verify_granted_iff}

pub same_text_refl : (s : Text) → same_text s s ≡ true
unfolding same_text
same_text_refl List.[] = refl
same_text_refl (List.◌∷◌ c s) = ground (arith, same_text_refl s)

-- An employee with a phone badge: an identifier of 36 characters, the only employee of the tenant
-- that it finds, and a key whose base64 text is stored. Of the platform: it decodes that text to the
-- key, a digest is the code of the key and the message in hexadecimal, and has 16 characters at least.
pub record PhoneBadge (hmac : Hmac) (tenant : ℕ) (e : Employee) (key : List ℕ) (db : Db)
    : Type 0 where
  pub form : all is_uuid_char e.id ≡ true
  pub size : length e.id ≡ 36
  pub bytes : all is_byte key ≡ true
  pub stored : truthy e.secret ≡ some (base64 key)
  pub found : find (λ x. same_text x.id e.id && x.tenant == tenant) db.employees ≡ some e
  pub decoded : hmac.from_base64 (base64 key) ≡ key
  pub digested : (message : Text) → hmac.digest key message ≡ hex (hmac.mac key message)
  pub lower_hex : (step : ℕ) → all is_lower_hex (qr_signature hmac key e.id step) ≡ true
  pub full : (step : ℕ) → length (qr_signature hmac key e.id step) ≡ qr_sig_hex

module _ (hmac : Hmac) (intl : Intl) (new_id : List WebhookDelivery → ℕ) (tenant : ℕ) (e : Employee)
    (key : List ℕ) (db : Db) (badge : PhoneBadge hmac tenant e key db) where
  -- The phone signs as the API does.
  sign_step_lem :
      (step : ℕ) → sign_step hmac (base64 key) e.id step ≡ qr_signature hmac key e.id step
  unfolding sign_step qr_signature
  sign_step_lem step =
      rw (base64_to_bytes-base64 key badge.bytes, badge.digested (e.id ++ dot ∷ show step)) refl

  phone-identify :
      (shown now : ℕ)
      → step_at shown < 10 ^ 12
      → step_at shown ≤ step_at now + 1
      → step_at now ≤ step_at shown + 1
      → identify_qr hmac tenant (qr_payload hmac e.id (base64 key) (step_at shown)) now db
        ≡ (some e, none)
  unfolding identify_qr judge_qr
  phone-identify shown now bound early late =
      let signed = sign_step_lem (step_at shown) in
      let read =
        parse_qr-qr_payload hmac e.id (base64 key) (step_at shown) badge.form badge.size
          (subst (λ t. all is_lower_hex t ≡ true) (sym signed) (badge.lower_hex (step_at shown)))
          (subst (λ (t : Text). length t ≡ qr_sig_hex) (sym signed) (badge.full (step_at shown)))
          bound in
      let fits = (freshness-fresh (step_at now) (step_at shown)).1 (early, late) in
      rw (
        identify_qr,
        read,
        badge.found,
        badge.stored,
        judge_qr,
        badge.decoded,
        signed,
        same_text_refl (qr_signature hmac key e.id (step_at shown)),
        fits,
      )

  -- The QR that a phone shows at one moment opens the door at another, when the two are at most one
  -- step of 30 seconds apart and the employee may pass; the employee is of the reader's tenant and
  -- the one that the identifier finds, with an identifier of 36 characters and the stored base64
  -- text of the phone's key; the platform decodes that text to the key and its digest is
  -- the same code in hexadecimal, of 16 characters or more; the step has at most 12 digits, and the
  -- reader's door and site exist.
  pub phone_opens :
      (reader : Reader) (nfc : Option Text) (shown now : ℕ) (door : Door) (site : Site) (a : Answer)
      → reader.tenant ≡ tenant
      → step_at shown < 10 ^ 12
      → step_at shown ≤ step_at now + 1
      → step_at now ≤ step_at shown + 1
      → place reader db ≡ some (door, site)
      → MayPass intl reader.tenant e door site now db
      → (verify hmac intl new_id reader
          (record {
            qr_text = some (qr_payload hmac e.id (base64 key) (step_at shown));
            nfc_uid = nfc;
          })
          now
          db).0
        ≡ some a
      → a.result ≡ granted
  unfolding identify qr_payload
  phone_opens reader nfc shown now door site a here bound early late at may h =
      let input : Input = record {
        qr_text = some (qr_payload hmac e.id (base64 key) (step_at shown));
        nfc_uid = nfc;
      } in
      let who : identify hmac reader.tenant input now db ≡ (some e, none) =
        rw (here, identify) (phone-identify shown now bound early late) in
      (verify_granted_iff hmac intl new_id reader input now db door site a at h).1 (e, who, may)
