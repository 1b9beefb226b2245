-- ===== src/Notices/Retries.antt =====
-- The worker of push (api/src/common/push.service.ts): three attempts at most for a notice.
use digitalreception.Base.{
  ℕ, ◌+◌, ◌-◌, ◌*◌, ◌≤◌, ◌≡◌, refl, arith, Bool, List, if◌then◌else◌, Bool-cases, length, Unique,
  total, Worker, Ready, run-total, query-Ready, query-Unique, update, has_key,
}
use digitalreception.Calendar.{minute_ms}
use digitalreception.Notices.Store.{PushDevice, PushDelivery}
use digitalreception.Notices.Hooks.{nth_or_zero, is_pending}
use digitalreception.Notices.Push.{
  SendResult, Outbox, push_backoff_min, after_push, push_due, sooner, to_retry, deliver_push,
  push_rows, deliver_due_push,
}

-- The attempts that a notice may still take.
abbrev pub push_left : PushDelivery → ℕ
push_left d = if is_pending d.status then 1 + (length push_backoff_min - d.attempts) else 0

abbrev pub notice_id : PushDelivery → ℕ
notice_id d = d.id

abbrev push_table : Outbox → List PushDelivery
push_table o = o.deliveries

push-left :
    (b : Bool) (n : ℕ)
    → (if is_pending (after_push b (n + 1)) then 1 + (2 - (n + 1)) else 0) + 1 ≤ 1 + (2 - n)
unfolding after_push
push-left b n = ground (arith, Bool-cases b)

deliver_push-lightens :
    (send : PushDevice → PushDelivery → SendResult) (clock : PushDelivery → ℕ) (d : PushDelivery)
    (db : Outbox)
    → 1 ≤ push_left d
    → (f : PushDelivery → PushDelivery) × ((deliver_push send clock d db).deliveries
        ≡ update (has_key notice_id d.id) f db.deliveries)
      × ((x : PushDelivery) → (f x).id ≡ x.id)
      × (push_left (f d) + 1 ≤ push_left d)
unfolding deliver_push
deliver_push-lightens send clock d db busy = (
  λ x. record x {
    attempts = d.attempts + 1;
    status = after_push (to_retry send clock d db) (d.attempts + 1);
    next_at = clock d + nth_or_zero push_backoff_min d.attempts * minute_ms;
  },
  refl,
  λ x. refl,
  ground (arith, busy, push-left (to_retry send clock d db) d.attempts),
)

push-Ready :
    (limit now : ℕ) (db : Outbox) → Ready notice_id push_left push_table (push_rows limit now db) db
unfolding push_rows push_due
push-Ready limit now db =
    query-Ready notice_id push_left (push_due now) sooner limit (λ a h. ground (arith, h))
      db.deliveries

push-Unique :
    (limit now : ℕ) (db : Outbox)
    → Unique notice_id db.deliveries
    → Unique notice_id (push_rows limit now db)
unfolding push_rows
push-Unique limit now db =
    query-Unique notice_id push_left (push_due now) sooner limit db.deliveries

-- Each run of the worker of push takes at least one attempt from what is left for every notice that
-- it handles, when the identifiers are distinct, and leaves them distinct.
deliver_due_push-total :
    (send : PushDevice → PushDelivery → SendResult) (clock : PushDelivery → ℕ) (limit now : ℕ)
    (db : Outbox)
    → Unique notice_id db.deliveries
    → (total push_left (deliver_due_push send clock limit now db).1.deliveries
          + (deliver_due_push send clock limit now db).0
        ≤ total push_left db.deliveries)
      × Unique notice_id (deliver_due_push send clock limit now db).1.deliveries
unfolding deliver_due_push
deliver_due_push-total send clock limit now db u =
    let worker : Worker notice_id push_left push_table = record {
      query = push_rows limit now;
      handle = deliver_push send clock;
      lightens = deliver_push-lightens send clock;
      ready = push-Ready limit now;
      unique = push-Unique limit now;
    } in
    run-total notice_id push_left push_table worker db u
