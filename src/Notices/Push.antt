-- ===== src/Notices/Push.antt =====
-- The outbox of push notices (api/src/common/push.service.ts): `enqueueArrival` and `deliverDue`.
use digitalreception.Base.{
  ℕ, ◌+◌, ◌*◌, String, Bool, true, false, ◌&&◌, not, List, [], ◌∷◌, Option, none, some, ◌==◌, leb,
  ltb, if◌then◌else◌, any, find, filter, update, map, sort_by, take, length, has_key, work,
}
use digitalreception.Calendar.{minute_ms}
use digitalreception.Text.{Text}
use digitalreception.Invitations.Store.{Host}
use digitalreception.Notices.Store.{
  PushDevice, arrival, DeliveryStatus, pending, delivered, failed, PushDelivery,
}
use digitalreception.Notices.Hooks.{nth_or_zero, is_pending}

-- Minutes before the next attempt.
abbrev pub push_backoff_min : List ℕ
push_backoff_min = 1 ∷ 3 ∷ []

pub data SendResult : Type 0 where
  sent_ok retry_later gone : SendResult

abbrev pub is_sent : SendResult → Bool
is_sent sent_ok = true
is_sent _ = false

abbrev pub is_retry : SendResult → Bool
is_retry retry_later = true
is_retry _ = false

abbrev is_gone : SendResult → Bool
is_gone gone = true
is_gone _ = false

-- Identifier, tenant and whether active, of each employee.
pub record Outbox : Type 0 where
  pub hosts : List Host
  pub employees : List (ℕ × ℕ × Bool)
  pub devices : List PushDevice
  pub deliveries : List PushDelivery

-- The employee behind the host, if there is one with a device.
unfoldable pub notified : ℕ → Option ℕ → Outbox → Option ℕ
notified tenant none db = none
notified tenant (some host) db = elim (find (λ h. h.id == host && h.tenant == tenant) db.hosts) [
  | none ↦ none
  | some h ↦ elim h.employee [
    | none ↦ none
    | some e ↦
        if any (λ x. x.0 == e && (x.1 == tenant && x.2)) db.employees
          && any (λ d. d.tenant == tenant && d.employee == e) db.devices
        then some e
        else none
  ]
]

-- `enqueueArrival`: whether a notice was queued.
unfoldable pub enqueue_arrival :
    (List PushDelivery → ℕ)
    → ℕ
    → Option ℕ
    → String
    → Text
    → Option Text
    → ℕ
    → Outbox
    → Bool × Outbox
enqueue_arrival new_id tenant host site visitor company now db = elim (notified tenant host db) [
  | none ↦ (false, db)
  | some e ↦ (
    true,
    record db {
      deliveries =
          record {
            id = new_id db.deliveries;
            tenant = tenant;
            employee = e;
            payload = arrival site visitor company;
            status = pending;
            attempts = 0;
            next_at = now;
            created_at = now;
          }
          ∷ db.deliveries;
    },
  )
]

-- The status after an attempt.
unfoldable pub after_push : Bool → ℕ → DeliveryStatus
after_push retry attempts =
    if not retry
    then delivered
    else if ltb (length push_backoff_min) attempts
    then failed
    else pending

unfoldable pub push_due : ℕ → PushDelivery → Bool
push_due now d = is_pending d.status && leb d.next_at now

abbrev pub sooner : PushDelivery → PushDelivery → Bool
sooner a b = ltb a.next_at b.next_at

-- The rows that a run handles.
unfoldable pub push_rows : ℕ → ℕ → Outbox → List PushDelivery
push_rows limit now db = take limit (sort_by sooner (filter (push_due now) db.deliveries))

-- `send` is what a device's service answers for a notice, `clock` the time after it.
module _ (send : PushDevice → PushDelivery → SendResult) (clock : PushDelivery → ℕ) where
  -- The devices of the employee.
  abbrev pub devices_of : PushDelivery → Outbox → List PushDevice
  devices_of d db = filter (λ v. v.tenant == d.tenant && v.employee == d.employee) db.devices

  -- Whether to try again: a device asks for it and none took the notice.
  unfoldable pub to_retry : PushDelivery → Outbox → Bool
  to_retry d db =
      let results = map (λ v. send v d) (devices_of d db) in
      any is_retry results && not (any is_sent results)

  -- The writes of one turn of the loop of `deliverDue`; a device that is gone is deleted.
  unfoldable pub deliver_push : PushDelivery → Outbox → Outbox
  deliver_push d db = record db {
    devices =
        filter (λ v. not ((v.tenant == d.tenant && v.employee == d.employee) && is_gone (send v d)))
          db.devices;
    deliveries =
        update (has_key (λ (x : PushDelivery). x.id) d.id)
          (λ x. record x {
            attempts = d.attempts + 1;
            status = after_push (to_retry d db) (d.attempts + 1);
            next_at = clock d + nth_or_zero push_backoff_min d.attempts * minute_ms;
          })
          db.deliveries;
  }

  -- `deliverDue`: how many rows were handled.
  unfoldable pub deliver_due_push : ℕ → ℕ → Outbox → ℕ × Outbox
  deliver_due_push limit now db =
      let rows = push_rows limit now db in (length rows, work deliver_push rows db)
