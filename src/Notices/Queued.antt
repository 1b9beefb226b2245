-- ===== src/Notices/Queued.antt =====
-- What an event leaves in the outbox of webhooks (api/src/common/webhooks.service.ts, `enqueue`).
use digitalreception.Base.{
  ℕ, ◌+◌, ◌≡◌, refl, inl, inr, ◌⊎◌, arith, List, [], ◌∷◌, ◌==◌, filter, length, In, Bool-cases,
}
use digitalreception.Notices.Store.{
  WebhookEvent, EventData, Payload, Webhook, pending, WebhookDelivery,
}
use digitalreception.Notices.Hooks.{enqueue_for, wants, Outbox, enqueue}

-- One delivery more for each of the webhooks, due at once with the payload, and every other as it was.
pub record Queued (hooks : List Webhook) (tenant : ℕ) (payload : Payload) (now : ℕ)
    (before after : List WebhookDelivery) : Type 0 where
  pub one_each :
      (w : ℕ)
      → length (filter (λ d. d.webhook == w) after)
        ≡ length (filter (λ d. d.webhook == w) before) + length (filter (λ h. h.id == w) hooks)
  pub kept : (d : WebhookDelivery) → In d before → In d after
  pub fresh :
      (d : WebhookDelivery)
      → In d after
      → In d before
        ⊎ ((d.payload ≡ payload)
            × (d.tenant ≡ tenant)
            × (d.status ≡ pending)
            × (d.attempts ≡ 0)
            × (d.next_at ≡ now))

enqueue_for-Queued :
    (new_id : List WebhookDelivery → ℕ) (tenant : ℕ) (event : WebhookEvent) (d : EventData)
    (now : ℕ) (hooks : List Webhook) (rows : List WebhookDelivery)
    → Queued hooks tenant
        (record { event = event; at = now; data_of = d })
        now
        rows
        (enqueue_for new_id tenant event d now hooks rows)
enqueue_for-Queued new_id tenant event d now [] rows = record {
  one_each = λ w. ground arith;
  kept = λ x m. m;
  fresh = λ x m. inl m;
}
enqueue_for-Queued new_id tenant event d now (h ∷ hooks) rows =
    let row : WebhookDelivery = record {
      id = new_id rows;
      tenant = tenant;
      webhook = h.id;
      payload = record { event = event; at = now; data_of = d };
      status = pending;
      attempts = 0;
      next_at = now;
      created_at = now;
    } in
    let rest = enqueue_for-Queued new_id tenant event d now hooks (row ∷ rows) in
    record {
      one_each = λ w. ground (arith, rest.one_each w, Bool-cases (h.id == w));
      kept = λ x m. rest.kept x (inr m);
      fresh = λ x m. elim (rest.fresh x m) [
        | inl (inl e) ↦ inr (rw e (refl, refl, refl, refl, refl))
        | inl (inr old) ↦ inl old
        | inr new ↦ inr new
      ];
    }

pub enqueue-Queued :
    (new_id : List WebhookDelivery → ℕ) (tenant site : ℕ) (event : WebhookEvent) (d : EventData)
    (now : ℕ) (db : Outbox)
    → Queued
        (filter (wants tenant site event) db.webhooks)
        tenant
        (record { event = event; at = now; data_of = d })
        now
        db.deliveries
        (enqueue new_id tenant site event d now db).deliveries
unfolding enqueue
enqueue-Queued new_id tenant site event d now db =
    enqueue_for-Queued new_id tenant event d now (filter (wants tenant site event) db.webhooks)
      db.deliveries
