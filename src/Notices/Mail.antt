-- ===== src/Notices/Mail.antt =====
-- The outbox of mails (api/src/retention/mail-outbox.service.ts).
use digitalreception.Base.{
  ℕ, ◌+◌, Bool, true, false, ◌&&◌, ◌||◌, not, List, Option, none, some, is_some, ◌==◌, leb, ltb,
  if◌then◌else◌, find, filter, update, sort_by, take, has_key, work,
}
use text.Mathlib.Text.{◌==◌ as str_eq}
use digitalreception.Text.{Text}
use digitalreception.Invitations.Store.{
  NoticeEmailStatus, waiting, mailed, failed, skipped, Invitation, Host, Site, CountryPolicy,
  is_pending,
}
use digitalreception.Visits.Store.{Visit, Mail, PrivacyNotice, is_open}
use digitalreception.Parcels.Desk.{
  Parcel, Employee, EmailStatus, queued, is_waiting, has_address, skipped as parcel_skipped,
  sent as parcel_sent, failed as parcel_failed,
}

abbrev pub max_attempts : ℕ
max_attempts = 3

abbrev pub batch : ℕ
batch = 100

abbrev pub is_queued : NoticeEmailStatus → Bool
is_queued waiting = true
is_queued _ = false

-- The tables that the worker reads or writes, and the tenants there are.
pub record Outbox : Type 0 where
  pub visits : List Visit
  pub invitations : List Invitation
  pub notices : List PrivacyNotice
  pub sites : List Site
  pub hosts : List Host
  pub policies : List CountryPolicy
  pub parcels : List Parcel
  pub employees : List Employee
  pub tenants : List ℕ

-- `next`
unfoldable pub next_status : Bool → ℕ → NoticeEmailStatus
next_status success attempts =
    if success then mailed else if leb max_attempts attempts then failed else waiting

-- The columns of a mail after an attempt.
abbrev pub tried : Bool → Mail → Mail
tried success m = record {
  status = next_status success (m.attempts + 1);
  attempts = m.attempts + 1;
}

abbrev pub earlier : Visit → Visit → Bool
earlier a b = ltb a.check_in_at b.check_in_at

abbrev pub site_of : ℕ → ℕ → Outbox → Option Site
site_of tenant site db = find (λ s. s.id == site && s.tenant == tenant) db.sites

abbrev pub policy_of : ℕ → Site → Outbox → Option CountryPolicy
policy_of tenant site db =
    find (λ p. p.tenant == tenant && str_eq p.country site.country) db.policies

abbrev pub has_site : ℕ → ℕ → Outbox → Bool
has_site tenant site db = is_some (site_of tenant site db)

-- Whether the site has a row and its country a policy.
abbrev pub has_policy : ℕ → ℕ → Outbox → Bool
has_policy tenant site db = elim (site_of tenant site db) [
  | none ↦ false
  | some s ↦ is_some (policy_of tenant s db)
]

abbrev pub has_tenant : ℕ → Outbox → Bool
has_tenant tenant db = is_some (find (λ t. t == tenant) db.tenants)

-- One UPDATE of a visit by identifier.
abbrev pub set_visit : ℕ → (Visit → Visit) → Outbox → Outbox
set_visit id f db = record db { visits = update (has_key (λ (x : Visit). x.id) id) f db.visits }

-- Whether the host of a visit can be told: in the directory, with an address, and active.
unfoldable pub can_tell_host : Visit → Outbox → Bool
can_tell_host v db = elim v.person.host [
  | none ↦ false
  | some h ↦ elim (find (λ x. x.id == h && x.tenant == v.tenant) db.hosts) [
    | none ↦ false
    | some host ↦ has_address host.email && host.active
  ]
]

-- `send` is whether the mail of a visit goes out.
module _ (send : Visit → Bool) where
  -- The writes of one turn of `sendNotices`.
  unfoldable pub send_notice : Visit → Outbox → Outbox
  send_notice v db =
      if has_address v.person.email
        && (is_some (find (λ n. n.id == v.notice && n.tenant == v.tenant) db.notices)
            && (has_site v.tenant v.site db
                && (has_policy v.tenant v.site db && has_tenant v.tenant db)))
      then set_visit v.id (λ x. record x { notice_email = tried (send v) v.notice_email }) db
      else set_visit v.id
          (λ x. record x { notice_email = record (x.notice_email) { status = failed } }) db

  -- The writes of one turn of `sendBadges`.
  unfoldable pub send_badge : Visit → Outbox → Outbox
  send_badge v db =
      if not (is_open v.status)
      then set_visit v.id
          (λ x. record x { badge_email = record (x.badge_email) { status = skipped } }) db
      else if has_address v.person.email
          && (has_address v.person.first_name
              && (has_address v.person.last_name
                  && (has_site v.tenant v.site db && has_tenant v.tenant db)))
      then set_visit v.id (λ x. record x { badge_email = tried (send v) v.badge_email }) db
      else set_visit v.id
          (λ x. record x { badge_email = record (x.badge_email) { status = failed } }) db

  -- The writes of one turn of `sendHostArrivals`.
  unfoldable pub send_host_arrival : Visit → Outbox → Outbox
  send_host_arrival v db =
      if not (is_open v.status && can_tell_host v db)
      then set_visit v.id
          (λ x. record x { host_email = record (x.host_email) { status = skipped } }) db
      else if has_address v.person.first_name
          && (has_address v.person.last_name
              && (has_policy v.tenant v.site db && has_tenant v.tenant db))
      then set_visit v.id (λ x. record x { host_email = tried (send v) v.host_email }) db
      else set_visit v.id (λ x. record x { host_email = record (x.host_email) { status = failed } })
          db

-- The visits with a mail that waits, first come first.
abbrev pub waiting_visits : (Visit → Mail) → Outbox → List Visit
waiting_visits mail db =
    take batch (sort_by earlier (filter (λ v. is_queued (mail v).status) db.visits))

-- `sendNotices`, `sendBadges` and `sendHostArrivals`.
unfoldable pub send_notices : (Visit → Bool) → Outbox → Outbox
send_notices send db = work (send_notice send) (waiting_visits (λ v. v.notice_email) db) db

unfoldable pub send_badges : (Visit → Bool) → Outbox → Outbox
send_badges send db = work (send_badge send) (waiting_visits (λ v. v.badge_email) db) db

unfoldable pub send_host_arrivals : (Visit → Bool) → Outbox → Outbox
send_host_arrivals send db =
    work (send_host_arrival send) (waiting_visits (λ v. v.host_email) db) db

abbrev pub set_invitation : ℕ → (Invitation → Invitation) → Outbox → Outbox
set_invitation id f db = record db {
  invitations = update (has_key (λ (x : Invitation). x.id) id) f db.invitations;
}

abbrev pub set_parcel : ℕ → (Parcel → Parcel) → Outbox → Outbox
set_parcel id f db = record db { parcels = update (has_key (λ (x : Parcel). x.id) id) f db.parcels }

abbrev pub is_queued_parcel : EmailStatus → Bool
is_queued_parcel queued = true
is_queued_parcel _ = false

-- `next`, on the columns of a parcel.
unfoldable pub next_parcel : Bool → ℕ → EmailStatus
next_parcel success attempts =
    if success then parcel_sent else if leb max_attempts attempts then parcel_failed else queued

-- `older` is the order of creation, `clock` the time at which a row is looked at.
module _ (send : Invitation → Bool) (clock : Invitation → ℕ)
    (older : Invitation → Invitation → Bool) where
  -- The writes of one turn of `sendInvitations`.
  unfoldable pub send_invitation : Invitation → Outbox → Outbox
  send_invitation inv db =
      if not (is_pending inv.status) || ltb inv.details.valid_until (clock inv)
      then set_invitation inv.id (λ x. record x { email_status = skipped }) db
      else if has_address (some inv.details.email)
          && (has_address (some inv.details.code)
              && (has_address (some inv.details.first_name)
                  && (has_address (some inv.details.last_name)
                      && (has_site inv.tenant inv.site db
                          && (is_some (
                                find (λ h. h.id == inv.details.host && h.tenant == inv.tenant)
                                  db.hosts)
                              && has_tenant inv.tenant db)))))
      then set_invitation inv.id
          (λ x. record x {
            email_attempts = inv.email_attempts + 1;
            email_status = next_status (send inv) (inv.email_attempts + 1);
          })
          db
      else set_invitation inv.id (λ x. record x { email_status = failed }) db

  -- `sendInvitations`
  unfoldable pub send_invitations : Outbox → Outbox
  send_invitations db =
      work send_invitation
        (take batch (sort_by older (filter (λ i. is_queued i.email_status) db.invitations))) db

-- The address of the employee whose parcel it is.
abbrev pub address_of : Parcel → Outbox → Option Text
address_of p db = elim (find (λ e. e.id == p.employee && e.tenant == p.tenant) db.employees) [
  | none ↦ none
  | some e ↦ e.email
]

module _ (send : Parcel → Bool) where
  -- The writes of one turn of `sendParcels`.
  unfoldable pub send_parcel : Parcel → Outbox → Outbox
  send_parcel p db =
      if not (is_waiting p.status)
      then set_parcel p.id (λ x. record x { email_status = parcel_skipped }) db
      else if has_address (address_of p db)
          && (has_policy p.tenant p.site db && has_tenant p.tenant db)
      then set_parcel p.id
          (λ x. record x {
            email_attempts = p.email_attempts + 1;
            email_status = next_parcel (send p) (p.email_attempts + 1);
          })
          db
      else set_parcel p.id (λ x. record x { email_status = parcel_failed }) db

  -- `sendParcels`
  unfoldable pub send_parcels : Outbox → Outbox
  send_parcels db =
      work send_parcel
        (take batch (
          sort_by (λ a b. ltb a.received_at b.received_at)
            (filter (λ p. is_queued_parcel p.email_status) db.parcels)))
        db

-- Whether the mails of one run go out, when each invitation is looked at, and their order.
pub record MailRun : Type 0 where
  pub notice_goes : Visit → Bool
  pub badge_goes : Visit → Bool
  pub host_goes : Visit → Bool
  pub invitation_goes : Invitation → Bool
  pub parcel_goes : Parcel → Bool
  pub clock : Invitation → ℕ
  pub older : Invitation → Invitation → Bool

-- `execute`
unfoldable pub execute : MailRun → Outbox → Outbox
execute r db = send_parcels r.parcel_goes (
    send_invitations r.invitation_goes r.clock r.older
      (send_host_arrivals r.host_goes (send_badges r.badge_goes (send_notices r.notice_goes db))))
