-- ===== src/Notices/Ends.antt =====
-- Enough runs of the mail worker (mail-outbox.service.ts) leave no mail that waits.
use digitalreception.Base.{
  ℕ, ◌+◌, ◌≤◌, ◌≡◌, arith, false, List, [], ◌∷◌, In, length, Unique, total, total-zero, Bool-cases,
  subst, sym, ◌∙◌,
}
use digitalreception.Invitations.Store.{Invitation}
use digitalreception.Visits.Store.{Visit, Mail}
use digitalreception.Parcels.Desk.{Parcel}
use digitalreception.Notices.Mail.{
  Outbox, MailRun, is_queued, is_queued_parcel, waiting_visits, send_notice, send_badge,
  send_host_arrival, send_notices, send_badges, send_host_arrivals, send_invitations, execute,
}
use digitalreception.Notices.Turns.{
  mail_left, invitation_left, parcel_left, send_notice-Turn, send_badge-Turn,
  send_host_arrival-Turn,
}
use digitalreception.Notices.Drained.{
  visit_id, invitation_id, parcel_id, queue_left, visits-progress, visits-others,
  send_invitations-progress, send_invitations-others, send_parcels-progress, send_parcels-others,
}

abbrev pub notice_of : Visit → Mail
notice_of v = v.notice_email

abbrev pub badge_of : Visit → Mail
badge_of v = v.badge_email

abbrev pub host_mail_of : Visit → Mail
host_mail_of v = v.host_email

-- The identifiers are keys.
abbrev pub Keyed : Outbox → Type 0
Keyed db =
    Unique visit_id db.visits × Unique invitation_id db.invitations × Unique parcel_id db.parcels

-- In each of the five queues at most `n` attempts are left.
abbrev pub AtMost : ℕ → Outbox → Type 0
AtMost n db =
    (queue_left notice_of db ≤ n)
    × (queue_left badge_of db ≤ n)
    × (queue_left host_mail_of db ≤ n)
    × (total invitation_left db.invitations ≤ n)
    × (total parcel_left db.parcels ≤ n)

-- Runs one after the other.
abbrev pub executes : List MailRun → Outbox → Outbox
executes [] db = db
executes (r ∷ rs) db = executes rs (execute r db)

execute-progress :
    (r : MailRun) (n : ℕ) (db : Outbox)
    → Keyed db
    → AtMost (n + 1) db
    → AtMost n (execute r db) × Keyed (execute r db)
unfolding execute send_notices send_badges send_host_arrivals
execute-progress r n db (uv, ui, up) (a, b, c, d, e) =
    let one = send_notices r.notice_goes db in
    let notices = send_notice-Turn r.notice_goes in
    let handle_one = send_notice r.notice_goes in
    let (a₁, u₁) = visits-progress notice_of badge_of host_mail_of handle_one notices n db uv a in
    let (b₁, c₁, i₁, p₁) =
      visits-others notice_of badge_of host_mail_of handle_one notices (waiting_visits notice_of db)
        db in
    let two = send_badges r.badge_goes one in
    let badges = send_badge-Turn r.badge_goes in
    let handle_two = send_badge r.badge_goes in
    let (b₂, u₂) =
      visits-progress badge_of notice_of host_mail_of handle_two badges n one u₁
        (omega (arith, b₁, b)) in
    let (a₂, c₂, i₂, p₂) =
      visits-others badge_of notice_of host_mail_of handle_two badges (waiting_visits badge_of one)
        one in
    let three = send_host_arrivals r.host_goes two in
    let hosts = send_host_arrival-Turn r.host_goes in
    let handle_three = send_host_arrival r.host_goes in
    let (c₃, u₃) =
      visits-progress host_mail_of notice_of badge_of handle_three hosts n two u₂
        (omega (arith, c₂, c₁, c)) in
    let (a₃, b₃, i₃, p₃) =
      visits-others host_mail_of notice_of badge_of handle_three hosts
        (waiting_visits host_mail_of two) two in
    let invitations : three.invitations ≡ db.invitations = i₃ ∙ i₂ ∙ i₁ in
    let parcels : three.parcels ≡ db.parcels = p₃ ∙ p₂ ∙ p₁ in
    let four = send_invitations r.invitation_goes r.clock r.older three in
    let (d₄, u₄) =
      send_invitations-progress r.invitation_goes r.clock r.older n three
        (subst (λ (is : List Invitation). Unique invitation_id is) (sym invitations) ui)
        (subst (λ (is : List Invitation). total invitation_left is ≤ n + 1) (sym invitations) d) in
    let (v₄, p₄) = send_invitations-others r.invitation_goes r.clock r.older three in
    let (e₅, u₅) =
      send_parcels-progress r.parcel_goes n four
        (subst (λ (ps : List Parcel). Unique parcel_id ps) (sym (p₄ ∙ parcels)) up)
        (subst (λ (ps : List Parcel). total parcel_left ps ≤ n + 1) (sym (p₄ ∙ parcels)) e) in
    let (v₅, i₅) = send_parcels-others r.parcel_goes four in
    let same = v₅ ∙ v₄ in
    let left = λ (mail : Visit → Mail) (vs : List Visit). total (λ v. mail_left (mail v)) vs ≤ n in
    (
      (
        subst (left notice_of) (sym same) (omega (arith, a₁, a₂, a₃)),
        subst (left badge_of) (sym same) (omega (arith, b₂, b₃)),
        subst (left host_mail_of) (sym same) c₃,
        subst (λ (is : List Invitation). total invitation_left is ≤ n) (sym i₅) d₄,
        e₅,
      ),
      (
        subst (λ (vs : List Visit). Unique visit_id vs) (sym same) u₃,
        subst (λ (is : List Invitation). Unique invitation_id is) (sym i₅) u₄,
        u₅,
      ),
    )

executes-AtMost :
    (rs : List MailRun) (db : Outbox) → Keyed db → AtMost (length rs) db → AtMost 0 (executes rs db)
executes-AtMost [] db k few = few
executes-AtMost (r ∷ rs) db k few =
    let (fewer, still) = execute-progress r (length rs) db k (ground (arith, few)) in
    executes-AtMost rs (execute r db) still fewer

none-left : (m : Mail) → mail_left m ≡ 0 → is_queued m.status ≡ false
none-left m h = ground (arith, h, Bool-cases (is_queued m.status))

queue-empty :
    (mail : Visit → Mail) (db : Outbox) (v : Visit)
    → queue_left mail db ≤ 0
    → In v db.visits
    → is_queued (mail v).status ≡ false
queue-empty mail db v few m =
    none-left (mail v) (total-zero (λ x. mail_left (mail x)) db.visits v (omega (arith, few)) m)

-- No mail waits in any of the five queues.
abbrev pub Drained : Outbox → Type 0
Drained db =
    ((v : Visit)
      → In v db.visits
      → (is_queued v.notice_email.status ≡ false)
        × (is_queued v.badge_email.status ≡ false)
        × (is_queued v.host_email.status ≡ false))
    × ((i : Invitation) → In i db.invitations → is_queued i.email_status ≡ false)
    × ((p : Parcel) → In p db.parcels → is_queued_parcel p.email_status ≡ false)

-- After as many runs of the mail worker as attempts are left in the fullest of its five queues (three
-- for a mail that has not been tried, and at least one), no mail waits any more, whether the mails
-- went out or not, when the identifiers are distinct and nothing else writes in between.
pub executes-Drained :
    (rs : List MailRun) (db : Outbox) → Keyed db → AtMost (length rs) db → Drained (executes rs db)
executes-Drained rs db k few =
    let last = executes rs db in
    let (a, b, c, d, e) = executes-AtMost rs db k few in
    (
      λ v m. (
        queue-empty notice_of last v a m,
        queue-empty badge_of last v b m,
        queue-empty host_mail_of last v c m,
      ),
      λ i m. ground (
        arith,
        total-zero invitation_left last.invitations i (omega (arith, d)) m,
        Bool-cases (is_queued i.email_status),
      ),
      λ p m. ground (
        arith,
        total-zero parcel_left last.parcels p (omega (arith, e)) m,
        Bool-cases (is_queued_parcel p.email_status),
      ),
    )
