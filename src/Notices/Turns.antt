-- ===== src/Notices/Turns.antt =====
-- One turn of each mail worker (mail-outbox.service.ts): one UPDATE that leaves less to do.
use digitalreception.Base.{
  ℕ, ◌+◌, ◌-◌, ◌≤◌, ◌≡◌, refl, inl, inr, arith, Bool, ◌&&◌, ◌||◌, not, some, is_some, ◌==◌, ltb,
  if◌then◌else◌, find, Bool-cases,
}
use digitalreception.Invitations.Store.{failed, skipped, Invitation, is_pending}
use digitalreception.Visits.Store.{Visit, Mail, is_open}
use digitalreception.Parcels.Desk.{
  Parcel, is_waiting, has_address, skipped as parcel_skipped, failed as parcel_failed,
}
use digitalreception.Notices.Mail.{
  Outbox, is_queued, next_status, tried, has_site, has_policy, has_tenant, set_visit,
  set_invitation, set_parcel, send_notice, send_badge, can_tell_host, send_host_arrival,
  is_queued_parcel, next_parcel, send_invitation, address_of, send_parcel,
}

-- The attempts that a mail may still take.
abbrev pub mail_left : Mail → ℕ
mail_left m = if is_queued m.status then 1 + (2 - m.attempts) else 0

abbrev pub invitation_left : Invitation → ℕ
invitation_left i = if is_queued i.email_status then 1 + (2 - i.email_attempts) else 0

abbrev pub parcel_left : Parcel → ℕ
parcel_left p = if is_queued_parcel p.email_status then 1 + (2 - p.email_attempts) else 0

next-left :
    (b : Bool) (n : ℕ)
    → (if is_queued (next_status b (n + 1)) then 1 + (2 - (n + 1)) else 0) + 1 ≤ 1 + (2 - n)
unfolding next_status
next-left b n = ground (arith, Bool-cases b)

next_parcel-left :
    (b : Bool) (n : ℕ)
    → (if is_queued_parcel (next_parcel b (n + 1)) then 1 + (2 - (n + 1)) else 0) + 1 ≤ 1 + (2 - n)
unfolding next_parcel
next_parcel-left b n = ground (arith, Bool-cases b)

-- What an UPDATE of a visit does to its mails: only one of them changes.
abbrev pub Turn : (mail other another : Visit → Mail) → (Outbox → Outbox) → Visit → Outbox → Type 0
Turn mail other another write v db =
    (f : Visit → Visit) × (write db ≡ set_visit v.id f db)
    × ((x : Visit) → (f x).id ≡ x.id)
    × ((x : Visit) → other (f x) ≡ other x)
    × ((x : Visit) → another (f x) ≡ another x)
    × (1 ≤ mail_left (mail v) → mail_left (mail (f v)) + 1 ≤ mail_left (mail v))

pub send_notice-Turn :
    (send : Visit → Bool) (v : Visit) (db : Outbox)
    → Turn (λ x. x.notice_email) (λ x. x.badge_email) (λ x. x.host_email) (send_notice send v) v db
unfolding send_notice
send_notice-Turn send v db =
    elim (Bool-cases (
      has_address v.person.email
      && (is_some (find (λ n. n.id == v.notice && n.tenant == v.tenant) db.notices)
          && (has_site v.tenant v.site db
              && (has_policy v.tenant v.site db && has_tenant v.tenant db))))) [
                | inl all_there ↦ (
                  λ x. record x { notice_email = tried (send v) v.notice_email },
                  rw (send_notice, all_there) refl,
                  λ x. refl,
                  λ x. refl,
                  λ x. refl,
                  λ h. ground (arith, h, next-left (send v) v.notice_email.attempts),
                )
                | inr some_gone ↦ (
                  λ x. record x { notice_email = record (x.notice_email) { status = failed } },
                  rw (send_notice, some_gone) refl,
                  λ x. refl,
                  λ x. refl,
                  λ x. refl,
                  λ h. ground (arith, h),
                )
              ]

pub send_badge-Turn :
    (send : Visit → Bool) (v : Visit) (db : Outbox)
    → Turn (λ x. x.badge_email) (λ x. x.notice_email) (λ x. x.host_email) (send_badge send v) v db
unfolding send_badge
send_badge-Turn send v db = elim (Bool-cases (not (is_open v.status))) [
  | inl over ↦ (
    λ x. record x { badge_email = record (x.badge_email) { status = skipped } },
    rw (send_badge, over) refl,
    λ x. refl,
    λ x. refl,
    λ x. refl,
    λ h. ground (arith, h),
  )
  | inr live ↦
      elim (Bool-cases (
        has_address v.person.email
        && (has_address v.person.first_name
            && (has_address v.person.last_name
                && (has_site v.tenant v.site db && has_tenant v.tenant db))))) [
                  | inl all_there ↦ (
                    λ x. record x { badge_email = tried (send v) v.badge_email },
                    rw (send_badge, live, all_there) refl,
                    λ x. refl,
                    λ x. refl,
                    λ x. refl,
                    λ h. ground (arith, h, next-left (send v) v.badge_email.attempts),
                  )
                  | inr some_gone ↦ (
                    λ x. record x { badge_email = record (x.badge_email) { status = failed } },
                    rw (send_badge, live, some_gone) refl,
                    λ x. refl,
                    λ x. refl,
                    λ x. refl,
                    λ h. ground (arith, h),
                  )
                ]
]

pub send_host_arrival-Turn :
    (send : Visit → Bool) (v : Visit) (db : Outbox)
    → Turn
        (λ x. x.host_email)
        (λ x. x.notice_email)
        (λ x. x.badge_email)
        (send_host_arrival send v)
        v
        db
unfolding send_host_arrival
send_host_arrival-Turn send v db =
    elim (Bool-cases (not (is_open v.status && can_tell_host v db))) [
      | inl over ↦ (
        λ x. record x { host_email = record (x.host_email) { status = skipped } },
        rw (send_host_arrival, over) refl,
        λ x. refl,
        λ x. refl,
        λ x. refl,
        λ h. ground (arith, h),
      )
      | inr live ↦
          elim (Bool-cases (
            has_address v.person.first_name
            && (has_address v.person.last_name
                && (has_policy v.tenant v.site db && has_tenant v.tenant db)))) [
                  | inl all_there ↦ (
                    λ x. record x { host_email = tried (send v) v.host_email },
                    rw (send_host_arrival, live, all_there) refl,
                    λ x. refl,
                    λ x. refl,
                    λ x. refl,
                    λ h. ground (arith, h, next-left (send v) v.host_email.attempts),
                  )
                  | inr some_gone ↦ (
                    λ x. record x { host_email = record (x.host_email) { status = failed } },
                    rw (send_host_arrival, live, some_gone) refl,
                    λ x. refl,
                    λ x. refl,
                    λ x. refl,
                    λ h. ground (arith, h),
                  )
                ]
    ]

pub send_invitation-turn :
    (send : Invitation → Bool) (clock : Invitation → ℕ) (older : Invitation → Invitation → Bool)
    (inv : Invitation) (db : Outbox)
    → (f : Invitation → Invitation) × (send_invitation send clock older inv db
        ≡ set_invitation inv.id f db)
      × ((x : Invitation) → (f x).id ≡ x.id)
      × (1 ≤ invitation_left inv → invitation_left (f inv) + 1 ≤ invitation_left inv)
unfolding send_invitation
send_invitation-turn send clock older inv db =
    elim (Bool-cases (not (is_pending inv.status) || ltb inv.details.valid_until (clock inv))) [
      | inl over ↦ (
        λ x. record x { email_status = skipped },
        rw (send_invitation, over) refl,
        λ x. refl,
        λ h. ground (arith, h),
      )
      | inr live ↦
          elim (Bool-cases (
            has_address (some inv.details.email)
            && (has_address (some inv.details.code)
                && (has_address (some inv.details.first_name)
                    && (has_address (some inv.details.last_name)
                        && (has_site inv.tenant inv.site db
                            && (is_some (
                                  find (λ h. h.id == inv.details.host && h.tenant == inv.tenant)
                                    db.hosts)
                                && has_tenant inv.tenant db))))))) [
                                  | inl all_there ↦ (
                                    λ x. record x {
                                      email_attempts = inv.email_attempts + 1;
                                      email_status =
                                          next_status (send inv) (inv.email_attempts + 1);
                                    },
                                    rw (send_invitation, live, all_there) refl,
                                    λ x. refl,
                                    λ h. ground (arith, h, next-left (send inv) inv.email_attempts),
                                  )
                                  | inr some_gone ↦ (
                                    λ x. record x { email_status = failed },
                                    rw (send_invitation, live, some_gone) refl,
                                    λ x. refl,
                                    λ h. ground (arith, h),
                                  )
                                ]
    ]

pub send_parcel-turn :
    (send : Parcel → Bool) (p : Parcel) (db : Outbox)
    → (f : Parcel → Parcel) × (send_parcel send p db ≡ set_parcel p.id f db)
      × ((x : Parcel) → (f x).id ≡ x.id)
      × (1 ≤ parcel_left p → parcel_left (f p) + 1 ≤ parcel_left p)
unfolding send_parcel
send_parcel-turn send p db = elim (Bool-cases (not (is_waiting p.status))) [
  | inl over ↦ (
    λ x. record x { email_status = parcel_skipped },
    rw (send_parcel, over) refl,
    λ x. refl,
    λ h. ground (arith, h),
  )
  | inr live ↦
      elim (Bool-cases (
        has_address (address_of p db)
        && (has_policy p.tenant p.site db && has_tenant p.tenant db))) [
          | inl all_there ↦ (
            λ x. record x {
              email_attempts = p.email_attempts + 1;
              email_status = next_parcel (send p) (p.email_attempts + 1);
            },
            rw (send_parcel, live, all_there) refl,
            λ x. refl,
            λ h. ground (arith, h, next_parcel-left (send p) p.email_attempts),
          )
          | inr some_gone ↦ (
            λ x. record x { email_status = parcel_failed },
            rw (send_parcel, live, some_gone) refl,
            λ x. refl,
            λ h. ground (arith, h),
          )
        ]
]
