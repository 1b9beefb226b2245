-- ===== src/Access/Verify/Log.antt =====
-- What an attempt leaves behind (access.service.ts, `verify`).
use digitalreception.Base.{
  ℕ, ◌≡◌, refl, arith, false, ◌&&◌, List, ◌∷◌, Option, none, some, ◌==◌, find, filter,
}
use digitalreception.Calendar.{Intl}
use digitalreception.Text.{Text, same_text}
use digitalreception.Notices.Store.{access_denied, WebhookDelivery}
use digitalreception.Notices.Hooks.{wants}
use digitalreception.Notices.Queued.{Queued, enqueue-Queued}
use digitalreception.Access.Qr.{Hmac, QrClaim, qr_signature, parse_qr}
use digitalreception.Access.Verify.{
  Employee, Door, Site, Db, Reader, Input, Answer, AccessEvent, new_event, denied_event, Reason,
  qr_invalid, denied, truthy, judge_qr, identify_qr, identify, decide, log_attempt, AccessMethod,
  method_of, result_of, answer_of, place, verify,
}

-- The notices after an attempt: for a refusal one delivery for each webhook that is active and wants
-- refusals at the site, due at once and with the reason.
abbrev pub Notified : Reader → Door → Site → Option Employee → Option Reason → ℕ → Db → Db → Type 0
Notified reader door site who none now before after = after.deliveries ≡ before.deliveries
Notified reader door site who (some r) now before after =
    Queued (filter (wants reader.tenant site.id access_denied) before.webhooks) reader.tenant
      (record {
        event = access_denied;
        at = now;
        data_of = denied_event reader door site who r before;
      })
      now before.deliveries after.deliveries

-- What an answered attempt leaves behind: one event with the answer's result, reason and time, at
-- the reader's door; notices for a refusal only; everything else unchanged.
pub record Logged (reader : Reader) (door : Door) (site : Site) (who : Option Employee) (a : Answer)
    (now : ℕ) (before after : Db) : Type 0 where
  pub event : AccessEvent
  pub logged : after.events ≡ event ∷ before.events
  pub result : (event.result ≡ a.result) × (a.result ≡ result_of a.reason)
  pub reason : event.reason ≡ a.reason
  pub moment : (event.at ≡ now) × (a.at ≡ now)
  pub place_of :
      (event.door ≡ door.id) × (event.reader ≡ reader.id) × (event.tenant ≡ reader.tenant)
  pub notified : Notified reader door site who a.reason now before after
  pub tables :
      (after.employees ≡ before.employees)
      × (after.doors ≡ before.doors)
      × (after.sites ≡ before.sites)
      × (after.rules ≡ before.rules)
      × (after.policies ≡ before.policies)
      × (after.webhooks ≡ before.webhooks)

log_attempt-Logged :
    (new_id : List WebhookDelivery → ℕ) (reader : Reader) (door : Door) (site : Site)
    (who : Option Employee) (method : AccessMethod) (reason : Option Reason) (now : ℕ) (db : Db)
    → Logged reader door site who
        (answer_of door who reason now)
        now
        db
        (log_attempt new_id reader door site who method reason now db)
unfolding log_attempt
log_attempt-Logged new_id reader door site who method none now db = record {
  event = new_event reader door who method none now;
  logged = refl;
  result = (refl, refl);
  reason = refl;
  moment = (refl, refl);
  place_of = (refl, refl, refl);
  notified = refl;
  tables = (refl, refl, refl, refl, refl, refl);
}
log_attempt-Logged new_id reader door site who method (some r) now db = record {
  event = new_event reader door who method (some r) now;
  logged = refl;
  result = (refl, refl);
  reason = refl;
  moment = (refl, refl);
  place_of = (refl, refl, refl);
  notified =
      enqueue-Queued new_id reader.tenant site.id access_denied
        (denied_event reader door site who r db) now
        (record { webhooks = db.webhooks; deliveries = db.deliveries });
  tables = (refl, refl, refl, refl, refl, refl);
}

module _ (hmac : Hmac) (intl : Intl) (new_id : List WebhookDelivery → ℕ) where
  -- An attempt at a reader whose door and site exist is answered, and leaves one event with the
  -- answer's result, reason and time at the reader's door, and, if it is refused, one delivery of the
  -- reason and of the name of who was identified for each webhook that is active and wants refusals
  -- at the site, none if it is granted; everything else is unchanged.
  pub verify_logs :
      (reader : Reader) (input : Input) (now : ℕ) (db : Db) (door : Door) (site : Site)
      → place reader db ≡ some (door, site)
      → (a : Answer) × ((verify hmac intl new_id reader input now db).0 ≡ some a)
        × Logged reader door site
            (identify hmac reader.tenant input now db).0
            a
            now
            db
            (verify hmac intl new_id reader input now db).1
  unfolding verify
  verify_logs reader input now db door site at =
      let who = identify hmac reader.tenant input now db in
      let reason = decide intl reader.tenant door site now db who in
      (
        answer_of door who.0 reason now,
        rw (verify, at) refl,
        rw (verify, at)
            (log_attempt-Logged new_id reader door site who.0 (method_of input) reason now db),
      )

  -- At a reader whose door and site exist, a QR that finds an employee with a phone but whose
  -- signature does not check names nobody: the attempt is refused, the reader shows no name, and
  -- the event is not linked to the employee that the QR claims.
  pub verify_forged :
      (reader : Reader) (input : Input) (text secret : Text) (c : QrClaim) (e : Employee) (now : ℕ)
      (db : Db) (door : Door) (site : Site) (a : Answer)
      → place reader db ≡ some (door, site)
      → truthy input.qr_text ≡ some text
      → parse_qr text ≡ some c
      → find (λ x. same_text x.id c.employee && x.tenant == reader.tenant) db.employees ≡ some e
      → truthy e.secret ≡ some secret
      → same_text (qr_signature hmac (hmac.from_base64 secret) e.id c.step) c.signature ≡ false
      → (verify hmac intl new_id reader input now db).0 ≡ some a
      → (a.result ≡ denied)
        × (a.reason ≡ some qr_invalid)
        × (a.name ≡ none)
        × (ev : AccessEvent) × ((verify hmac intl new_id reader input now db).1.events
            ≡ ev ∷ db.events)
        × (ev.employee ≡ none)
  unfolding verify log_attempt identify identify_qr judge_qr decide
  verify_forged reader input text secret c e now db door site a at q p f s bad h = (
    ground (arith, at, q, p, f, s, bad),
    ground (arith, at, q, p, f, s, bad),
    ground (arith, at, q, p, f, s, bad),
    new_event reader door none (method_of input) (some qr_invalid) now,
    ground (arith, at, q, p, f, s, bad),
    refl,
  )
