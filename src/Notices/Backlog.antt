-- ===== src/Notices/Backlog.antt =====
-- The workers of the webhooks and of push: every attempt leaves less to do.
use digitalreception.Base.{
  ℕ, ◌+◌, ◌-◌, ◌*◌, ◌≤◌, ◌≡◌, refl, inl, inr, arith, Bool, List, [], ◌∷◌, if◌then◌else◌,
  Option-cases, Bool-cases, length, Unique, total, Worker, Ready, run-total, query-Ready,
  query-Unique, update, has_key,
}
use digitalreception.Calendar.{minute_ms}
use digitalreception.Text.{Text, same_text, codes}
use digitalreception.Notices.Store.{failed, Webhook, WebhookDelivery}
use digitalreception.Notices.Hooks as hooks
use digitalreception.Notices.Hooks.{
  Outbox, backoff_min, nth_or_zero, is_pending, after_attempt, due, deliver, due_rows, deliver_due,
}

-- The attempts that a delivery may still take.
abbrev pub attempts_left : WebhookDelivery → ℕ
attempts_left d = if is_pending d.status then 1 + (length backoff_min - d.attempts) else 0

abbrev pub delivery_id : WebhookDelivery → ℕ
delivery_id d = d.id

abbrev outbox_rows : Outbox → List WebhookDelivery
outbox_rows o = o.deliveries

attempt-left :
    (b : Bool) (n : ℕ)
    → (if is_pending (after_attempt b (n + 1)) then 1 + (4 - (n + 1)) else 0) + 1 ≤ 1 + (4 - n)
unfolding after_attempt
attempt-left b n = ground (arith, Bool-cases b)

deliver-lightens :
    (send : Webhook → WebhookDelivery → Text) (clock : WebhookDelivery → ℕ) (d : WebhookDelivery)
    (db : Outbox)
    → 1 ≤ attempts_left d
    → (f : WebhookDelivery → WebhookDelivery) × ((deliver send clock d db).deliveries
        ≡ update (has_key delivery_id d.id) f db.deliveries)
      × ((x : WebhookDelivery) → (f x).id ≡ x.id)
      × (attempts_left (f d) + 1 ≤ attempts_left d)
unfolding deliver
deliver-lightens send clock d db busy = elim (Option-cases (hooks.live_hook d db)) [
  | inl dead ↦
      (λ x. record x { status = failed }, rw (deliver, dead) refl, λ x. refl, ground (arith, busy))
  | inr (h, live) ↦
      let success = same_text (send h d) (codes "OK") in
      (
        λ x. record x {
          attempts = d.attempts + 1;
          status = after_attempt success (d.attempts + 1);
          next_at = clock d + nth_or_zero backoff_min d.attempts * minute_ms;
        },
        rw (deliver, live) refl,
        λ x. refl,
        ground (arith, busy, attempt-left success d.attempts),
      )
]

due-Ready :
    (limit now : ℕ) (db : Outbox)
    → Ready delivery_id attempts_left outbox_rows (due_rows limit now db) db
unfolding due_rows due
due-Ready limit now db =
    query-Ready delivery_id attempts_left (due now) hooks.sooner limit (λ a h. ground (arith, h))
      db.deliveries

due-Unique :
    (limit now : ℕ) (db : Outbox)
    → Unique delivery_id db.deliveries
    → Unique delivery_id (due_rows limit now db)
unfolding due_rows
due-Unique limit now db =
    query-Unique delivery_id attempts_left (due now) hooks.sooner limit db.deliveries

-- A run of the worker of the webhooks: what the addresses answer, the time after each attempt, how
-- many rows it takes and when it starts.
pub record HookRun : Type 0 where
  pub send : Webhook → WebhookDelivery → Text
  pub clock : WebhookDelivery → ℕ
  pub limit : ℕ
  pub now : ℕ

hook_worker : HookRun → Worker delivery_id attempts_left outbox_rows
hook_worker r = record {
  query = due_rows r.limit r.now;
  handle = deliver r.send r.clock;
  lightens = deliver-lightens r.send r.clock;
  ready = due-Ready r.limit r.now;
  unique = due-Unique r.limit r.now;
}

abbrev pub deliver_run : HookRun → Outbox → ℕ × Outbox
deliver_run r db = deliver_due r.send r.clock r.limit r.now db

-- Runs one after the other, and how many rows they handle in all.
abbrev pub deliver_runs : List HookRun → Outbox → Outbox
deliver_runs [] db = db
deliver_runs (r ∷ rs) db = deliver_runs rs (deliver_run r db).1

abbrev pub attempted : List HookRun → Outbox → ℕ
attempted [] db = 0
attempted (r ∷ rs) db = (deliver_run r db).0 + attempted rs (deliver_run r db).1

deliver_run-total :
    (r : HookRun) (db : Outbox)
    → Unique delivery_id db.deliveries
    → (total attempts_left (deliver_run r db).1.deliveries + (deliver_run r db).0
        ≤ total attempts_left db.deliveries)
      × Unique delivery_id (deliver_run r db).1.deliveries
unfolding deliver_due hook_worker
deliver_run-total r db u = run-total delivery_id attempts_left outbox_rows (hook_worker r) db u

-- However often the worker of the webhooks runs, whatever the addresses answer, whatever the times
-- and the limits: the rows that the runs handle, each counted as often as it is handled, and the
-- attempts still left at the end are together at most the attempts left at the start, where a
-- delivery that waits has five of them less those it has used (never less than one) and another
-- none. Deliveries have distinct identifiers; none is queued in between.
pub deliver_runs-total :
    (rs : List HookRun) (db : Outbox)
    → Unique delivery_id db.deliveries
    → total attempts_left (deliver_runs rs db).deliveries + attempted rs db
      ≤ total attempts_left db.deliveries
deliver_runs-total [] db u = omega arith
deliver_runs-total (r ∷ rs) db u =
    let (less, still) = deliver_run-total r db u in
    omega (arith, less, deliver_runs-total rs (deliver_run r db).1 still)
