-- ===== src/Notices/Tests.antt =====
-- The notices on concrete rows.
use digitalreception.Base.{◌+◌, ◌≤◌, ◌≡◌, refl, arith, true, false, [], ◌∷◌, none, some, total}
use digitalreception.Text.{codes}
use digitalreception.Visits.Sample.{ona, head_office, spain, notice_in_spanish}
use digitalreception.Notices.Store.{slack, visit_arrived, Payload, Webhook, pending}
use digitalreception.Notices.Hooks as hooks
use digitalreception.Notices.Backlog.{
  HookRun, attempts_left, deliver_runs, attempted, deliver_runs-total,
}
use digitalreception.Notices.Mail.{Outbox, MailRun}
use digitalreception.Notices.Ends.{executes, Drained, executes-Drained}
use digitalreception.Notices.Render.{Json, with_names, render, render-anonymous}

abbrev arrival : Payload
arrival = record {
  event = visit_arrived;
  at = 1000;
  data_of = record {
    site = "HQ";
    locale = "es";
    visitor = some (codes "Ona Roig");
    company = none;
    host = some (codes "Pau");
    door = none;
    reason = none;
    employee = none;
    guests = none;
    employees = none;
  };
}

abbrev channel : Webhook
channel = record {
  id = 5;
  tenant = 1;
  kind = slack;
  events = visit_arrived ∷ [];
  site = none;
  include_names = false;
  active = true;
  last_result = none;
  last_at = none;
}

abbrev queue : hooks.Outbox
queue = record {
  webhooks = channel ∷ [];
  deliveries =
      record {
        id = 9;
        tenant = 1;
        webhook = 5;
        payload = arrival;
        status = pending;
        attempts = 0;
        next_at = 1000;
        created_at = 1000;
      }
      ∷ [];
}

-- A run in which the address does not answer.
abbrev broken : HookRun
broken = record { send = λ h d. codes "TIMEOUT"; clock = λ d. 3000; limit = 100; now = 2000 }

deliver_runs-total_example :
    total attempts_left (deliver_runs (broken ∷ broken ∷ []) queue).deliveries
      + attempted (broken ∷ broken ∷ []) queue
    ≤ total attempts_left queue.deliveries
deliver_runs-total_example = deliver_runs-total (broken ∷ broken ∷ []) queue (refl, tt)

-- The mail server takes nothing.
abbrev no_mail : MailRun
no_mail = record {
  notice_goes = λ v. false;
  badge_goes = λ v. false;
  host_goes = λ v. false;
  invitation_goes = λ i. false;
  parcel_goes = λ p. false;
  clock = λ i. 2000;
  older = λ a b. false;
}

abbrev mails : Outbox
mails = record {
  visits = ona ∷ [];
  invitations = [];
  notices = notice_in_spanish ∷ [];
  sites = head_office ∷ [];
  hosts = [];
  policies = spain ∷ [];
  parcels = [];
  employees = [];
  tenants = 1 ∷ [];
}

executes-Drained_example : Drained (executes (no_mail ∷ no_mail ∷ no_mail ∷ []) mails)
executes-Drained_example =
    executes-Drained (no_mail ∷ no_mail ∷ no_mail ∷ []) mails ((refl, tt), tt, tt)
      (omega arith, omega arith, omega arith, omega arith, omega arith)

abbrev plain : Json
plain = record {
  slack_message = λ t. t;
  teams_card = λ t. t;
  generic_message = λ e at t d. t;
  sign = λ k b. k;
}

render-anonymous_example :
    render plain channel (with_names (some (codes "X")) none none arrival) []
    ≡ render plain channel arrival []
render-anonymous_example =
    render-anonymous plain channel arrival [] (some (codes "X")) none none refl
