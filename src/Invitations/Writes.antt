-- ===== src/Invitations/Writes.antt =====
-- api/src/invitations/invitations.service.ts: the operations on invitations.
use digitalreception.Base.{
  ℕ, ◌+◌, ◌-◌, ◌*◌, String, Bool, true, false, ◌&&◌, ◌||◌, not, List, [], ◌∷◌, Option, none, some,
  ◌==◌, leb, ltb, if◌then◌else◌, any, find, update, filter, map, contains, is, Result, ok, err,
  or_throw, require, ◌>>=◌, ◌>>◌,
}
use text.Mathlib.Text.{◌==◌ as str_eq}
use digitalreception.Calendar.{minute_ms, instant_add_days}
use digitalreception.Text.{Text, same_text, between, is_digit}
use digitalreception.Midnight.{start_of_local_day, local_date_to_utc}
use digitalreception.Invitations.Store.{
  pending, used, cancelled, waiting, skipped, VisitPurpose, Invitation, CountryPolicy, Db,
  is_pending, is_used, insert_invitation, no_preregistration,
}

abbrev pub invite_code_length : ℕ
invite_code_length = 8

abbrev pub max_days_ahead : ℕ
max_days_ahead = 90

-- `no_row` is a row that `findOneOrFail` does not find, `no_code` the codes that all collided.
pub data Error : Type 0 where
  site_not_found host_not_found invalid_date invitation_in_past invitation_too_far : Error
  no_row no_code not_found invitation_used invitation_cancelled invitation_expired : Error
  email_disabled invitation_not_found invitation_other_site invitation_not_today : Error

-- The clock, the configuration of mail, the zones, SHA-256, new identifiers and random codes.
pub record Env : Type 0 where
  pub now : ℕ
  pub mail_enabled : Bool
  pub wall : String → ℕ → ℕ
  pub sha : Text → Text
  pub new_id : List Invitation → ℕ
  pub code : ℕ → Text

pub record Actor : Type 0 where
  pub tenant : ℕ
  pub user : Option ℕ
  pub employee : Option ℕ

pub record Device : Type 0 where
  pub tenant : ℕ
  pub site : ℕ

-- What a person fills in; the date is the number of its day, none if it is no date.
pub record InvitationInput : Type 0 where
  pub site : ℕ
  pub host : ℕ
  pub date : Option ℕ
  pub hours : ℕ
  pub minutes : ℕ
  pub first_name : Text
  pub last_name : Text
  pub company : Option Text
  pub email : Text
  pub purpose : VisitPurpose
  pub locale : Option String

-- What `create` has found out when it comes to save.
pub record Draft : Type 0 where
  pub site : ℕ
  pub host : ℕ
  pub expected_at : ℕ
  pub valid_from : ℕ
  pub valid_until : ℕ
  pub locale : String

abbrev pub upper : ℕ → ℕ
upper c = if between b'a' b'z' c then c - 32 else c

-- `normaliseInviteCode`, on ASCII text.
unfoldable pub normalise_invite_code : Text → Text
normalise_invite_code raw = filter (λ c. between b'A' b'Z' c || is_digit c) (map upper raw)

-- `dto.company || null`
abbrev pub or_null : Option Text → Option Text
or_null none = none
or_null (some []) = none
or_null (some (c ∷ s)) = some (c ∷ s)

abbrev pub locale_for : Option String → CountryPolicy → String
locale_for none policy = policy.default_locale
locale_for (some l) policy =
    if any (λ x. str_eq x l) policy.locales then l else policy.default_locale

-- The row that `own` reads, and the one that a code finds.
abbrev pub is_own : ℕ → ℕ → Invitation → Bool
is_own tenant id inv = inv.id == id && inv.tenant == tenant

abbrev pub has_id : ℕ → Invitation → Bool
has_id id inv = inv.id == id

abbrev pub pending_with_id : ℕ → Invitation → Bool
pending_with_id id inv = inv.id == id && is_pending inv.status

module _ (env : Env) where
  -- `dayWindow`: the local day of an instant, [from, until).
  unfoldable pub day_window : String → ℕ → ℕ × ℕ
  day_window zone at =
      let from = start_of_local_day (env.wall zone) at in
      (from, start_of_local_day (env.wall zone) (from + 36 * 3600000))

  -- The loop of `create` over the codes: up to `tries` of them, a collision takes the next one.
  unfoldable pub save_with_code :
      ℕ → ℕ → (Text → Db → Invitation) → Db → Result Error Invitation × Db
  save_with_code ℕ.zero attempt row db = (err no_code, db)
  save_with_code (ℕ.suc tries) attempt row db =
      elim (insert_invitation (row (env.code attempt) db) db) [
        | some saved ↦ (ok (row (env.code attempt) db), saved)
        | none ↦ save_with_code tries (attempt + 1) row db
      ]

  -- The checks of `create`.
  unfoldable pub create_checks : Actor → InvitationInput → Db → Result Error Draft
  create_checks actor dto db = do
    site ←
        or_throw (find (λ s. s.id == dto.site && (s.tenant == actor.tenant && s.active)) db.sites)
          site_not_found
    host ←
        or_throw
          (find
            (λ h.
              h.id == dto.host
              && (h.tenant == actor.tenant && (h.active && contains site.id h.sites)))
            db.hosts)
          host_not_found
    date ← or_throw dto.date invalid_date
    let expected =
        local_date_to_utc (env.wall site.timezone) date + (dto.hours * 60 + dto.minutes) * minute_ms
    let (from, until) = day_window site.timezone expected
    require (not (leb until env.now)) invitation_in_past
    require (not (ltb (instant_add_days env.now max_days_ahead) expected)) invitation_too_far
    policy ←
        or_throw (find (λ p. p.tenant == actor.tenant && str_eq p.country site.country) db.policies)
          no_row
    ok (record {
      site = site.id;
      host = host.id;
      expected_at = expected;
      valid_from = from;
      valid_until = until;
      locale = locale_for dto.locale policy;
    })

  -- The row that `create` saves with a code.
  abbrev pub new_invitation : Actor → InvitationInput → Draft → Text → Db → Invitation
  new_invitation actor dto draft code now = record {
    id = env.new_id now.invitations;
    tenant = actor.tenant;
    site = draft.site;
    details = record {
      host = draft.host;
      expected_at = draft.expected_at;
      valid_from = draft.valid_from;
      valid_until = draft.valid_until;
      first_name = dto.first_name;
      last_name = dto.last_name;
      company = or_null dto.company;
      email = dto.email;
      purpose = dto.purpose;
      locale = draft.locale;
      code = code;
      by_user = actor.user;
      by_employee = actor.employee;
    };
    code_hash = env.sha code;
    status = pending;
    visit = none;
    used_at = none;
    email_status = if env.mail_enabled then waiting else skipped;
    email_attempts = 0;
    pre = no_preregistration;
  }

  -- `create`
  unfoldable pub create : Actor → InvitationInput → Db → Result Error Invitation × Db
  create actor dto db = elim (create_checks actor dto db) [
    | err e ↦ (err e, db)
    | ok draft ↦ save_with_code 5 0 (new_invitation actor dto draft) db
  ]

  -- `assertOpen`
  unfoldable pub assert_open : Invitation → Result Error (Unit {0})
  assert_open inv =
      if not (is_pending inv.status)
      then err (if is_used inv.status then invitation_used else invitation_cancelled)
      else if ltb inv.details.valid_until env.now
      then err invitation_expired
      else ok tt

  -- `own`
  unfoldable pub own : ℕ → ℕ → Db → Result Error Invitation
  own tenant id db = or_throw (find (is_own tenant id) db.invitations) not_found

  -- What `own` reads, if it is open.
  unfoldable pub own_open : ℕ → ℕ → Db → Result Error Invitation
  own_open tenant id db = do inv ← own tenant id db; assert_open inv; ok inv

  -- The writes of `cancel`: the row if it is still pending, and the files of the pre-registration.
  unfoldable pub cancel_writes : ℕ → Invitation → Db → Db
  cancel_writes tenant inv db = record db {
    invitations =
        update (pending_with_id inv.id) (λ i. record i { status = cancelled }) db.invitations;
    files =
        update
          (λ f.
            f.tenant == tenant
            && (is f.invitation inv.id && elim f.purged_at [ none ↦ true | some t ↦ false ]))
          (λ f. record f { purged_at = some env.now }) db.files;
  }

  -- `cancel`, while other requests commit between its read and its writes.
  unfoldable pub cancel : (Db → Db) → ℕ → ℕ → Db → Result Error Invitation × Db
  cancel others tenant id db = elim (own_open tenant id db) [
    | err e ↦ (err e, db)
    | ok inv ↦ (ok inv, cancel_writes tenant inv (others db))
  ]

  -- The write of `resend`.
  unfoldable pub resend_writes : Invitation → Db → Db
  resend_writes inv db = record db {
    invitations =
        update (has_id inv.id) (λ i. record i { email_status = waiting; email_attempts = 0 })
          db.invitations;
  }

  -- `resend`
  unfoldable pub resend : (Db → Db) → ℕ → ℕ → Db → Result Error Invitation × Db
  resend others tenant id db = elim (own_open tenant id db) [
    | err e ↦ (err e, db)
    | ok inv ↦
        if not env.mail_enabled
        then (err email_disabled, db)
        else (ok inv, resend_writes inv (others db))
  ]

  -- `qr`: the code that the QR shows.
  unfoldable pub qr : ℕ → ℕ → Db → Result Error Text
  qr tenant id db = do inv ← own_open tenant id db; ok inv.details.code

  -- `assertUsableAt`
  unfoldable pub assert_usable_at : Option Invitation → Device → Result Error Invitation
  assert_usable_at none device = err invitation_not_found
  assert_usable_at (some inv) device =
      if not (inv.site == device.site)
      then err invitation_other_site
      else if is_used inv.status
      then err invitation_used
      else if not (is_pending inv.status)
      then err invitation_not_found
      else if ltb env.now inv.details.valid_from || leb inv.details.valid_until env.now
      then err invitation_not_today
      else ok inv

  -- `usable`, and what `forKiosk` shows.
  unfoldable pub usable : Device → Text → Db → Result Error Invitation
  usable device raw db =
      assert_usable_at
        (find
          (λ i.
            i.tenant == device.tenant
            && same_text i.code_hash (env.sha (normalise_invite_code raw)))
          db.invitations)
        device

  -- The write of `consume`; `none` is no row affected.
  unfoldable pub consume_writes : Invitation → ℕ → Db → Option Db
  consume_writes inv visit db =
      if any (pending_with_id inv.id) db.invitations
      then some (record db {
        invitations =
            update (pending_with_id inv.id)
              (λ i. record i { status = used; visit = some visit; used_at = some env.now })
              db.invitations;
      })
      else none

  -- `consume`
  unfoldable pub consume : (Db → Db) → Device → Text → ℕ → Db → Result Error Invitation × Db
  consume others device raw visit db = elim (usable device raw db) [
    | err e ↦ (err e, db)
    | ok inv ↦ elim (consume_writes inv visit (others db)) [
      | none ↦ (err invitation_used, others db)
      | some saved ↦ (ok inv, saved)
    ]
  ]
