-- ===== src/Notices/Hooks.antt =====
-- The outbox of webhooks (api/src/common/webhooks.service.ts): `enqueue` and `deliverDue`.
use digitalreception.Base.{
  ℕ, suc, ◌+◌, ◌*◌, Bool, true, false, ◌&&◌, ◌||◌, not, List, [], ◌∷◌, Option, none, some, is,
  is_some, ◌==◌, leb, ltb, if◌then◌else◌, any, find, filter, update, sort_by, take, length, has_key,
  work,
}
use digitalreception.Calendar.{minute_ms}
use digitalreception.Text.{Text, same_text, codes}
use digitalreception.Notices.Store.{
  WebhookEvent, visit_arrived, access_denied, evacuation_started, test, EventData, Webhook,
  DeliveryStatus, pending, delivered, failed, WebhookDelivery,
}

-- Minutes before the next attempt.
abbrev pub backoff_min : List ℕ
backoff_min = 1 ∷ 5 ∷ 30 ∷ 120 ∷ []

-- `xs[i] ?? 0`
abbrev pub nth_or_zero : List ℕ → ℕ → ℕ
nth_or_zero [] i = 0
nth_or_zero (x ∷ xs) ℕ.zero = x
nth_or_zero (x ∷ xs) (suc i) = nth_or_zero xs i

abbrev same_event : WebhookEvent → WebhookEvent → Bool
same_event visit_arrived visit_arrived = true
same_event access_denied access_denied = true
same_event evacuation_started evacuation_started = true
same_event test test = true
same_event _ _ = false

abbrev pub is_pending : DeliveryStatus → Bool
is_pending pending = true
is_pending _ = false

pub record Outbox : Type 0 where
  pub webhooks : List Webhook
  pub deliveries : List WebhookDelivery

-- Whether a webhook wants the event of a site.
unfoldable pub wants : ℕ → ℕ → WebhookEvent → Webhook → Bool
wants tenant site event h =
    (h.tenant == tenant && h.active)
    && (any (same_event event) h.events && (not (is_some h.site) || is h.site site))

abbrev pub enqueue_for :
    (List WebhookDelivery → ℕ)
    → ℕ
    → WebhookEvent
    → EventData
    → ℕ
    → List Webhook
    → List WebhookDelivery
    → List WebhookDelivery
enqueue_for new_id tenant event d now [] rows = rows
enqueue_for new_id tenant event d now (h ∷ hs) rows = enqueue_for new_id tenant event d now hs (
    record {
      id = new_id rows;
      tenant = tenant;
      webhook = h.id;
      payload = record { event = event; at = now; data_of = d };
      status = pending;
      attempts = 0;
      next_at = now;
      created_at = now;
    }
    ∷ rows)

-- `enqueue`, with the identifiers that the database gives.
unfoldable pub enqueue :
    (List WebhookDelivery → ℕ) → ℕ → ℕ → WebhookEvent → EventData → ℕ → Outbox → Outbox
enqueue new_id tenant site event d now db = record db {
  deliveries =
      enqueue_for new_id tenant event d now (filter (wants tenant site event) db.webhooks)
        db.deliveries;
}

-- The status after an attempt, and when the next one is due.
unfoldable pub after_attempt : Bool → ℕ → DeliveryStatus
after_attempt success attempts =
    if success then delivered else if ltb (length backoff_min) attempts then failed else pending

unfoldable pub due : ℕ → WebhookDelivery → Bool
due now d = is_pending d.status && leb d.next_at now

abbrev pub sooner : WebhookDelivery → WebhookDelivery → Bool
sooner a b = ltb a.next_at b.next_at

-- The rows that a run handles.
unfoldable pub due_rows : ℕ → ℕ → Outbox → List WebhookDelivery
due_rows limit now db = take limit (sort_by sooner (filter (due now) db.deliveries))

-- The webhook of a delivery, unless it was deleted or turned off.
abbrev pub live_hook : WebhookDelivery → Outbox → Option Webhook
live_hook d db = elim (find (λ h. h.id == d.webhook && h.tenant == d.tenant) db.webhooks) [
  | none ↦ none
  | some h ↦ if h.active then some h else none
]

-- `send` answers 'OK' or why it failed, `clock` is the time after it.
module _ (send : Webhook → WebhookDelivery → Text) (clock : WebhookDelivery → ℕ) where
  -- The writes of one turn of the loop of `deliverDue`.
  unfoldable pub deliver : WebhookDelivery → Outbox → Outbox
  deliver d db = elim (live_hook d db) [
    | none ↦ record db {
      deliveries =
          update (has_key (λ (x : WebhookDelivery). x.id) d.id) (λ x. record x { status = failed })
            db.deliveries;
    }
    | some h ↦
        let success = same_text (send h d) (codes "OK") in
        record db {
          deliveries =
              update (has_key (λ (x : WebhookDelivery). x.id) d.id)
                (λ x. record x {
                  attempts = d.attempts + 1;
                  status = after_attempt success (d.attempts + 1);
                  next_at = clock d + nth_or_zero backoff_min d.attempts * minute_ms;
                })
                db.deliveries;
          webhooks =
              update (λ w. w.id == h.id)
                (λ w. record w { last_result = some (send h d); last_at = some (clock d) })
                db.webhooks;
        }
  ]

  -- `deliverDue`: how many rows were handled.
  unfoldable pub deliver_due : ℕ → ℕ → Outbox → ℕ × Outbox
  deliver_due limit now db = let rows = due_rows limit now db in (length rows, work deliver rows db)
