-- ===== src/Parcels/Desk.antt =====
-- Registering a parcel, handing it over, removing it (api/src/admin/parcels.controller.ts), and who
-- may act at a site (api/src/common/guards.ts).
use digitalreception.Base.{
  ℕ, String, Bool, true, false, ◌&&◌, ◌||◌, not, List, [], ◌∷◌, Option, none, some, or_else,
  is_some, ◌==◌, if◌then◌else◌, any, find, update, filter, contains, Result, ok, err, or_throw,
  require, ◌>>=◌, ◌>>◌,
}
use digitalreception.Calendar.{instant_add_days}
use digitalreception.Text.{Text}
use digitalreception.Parking.Store.{AppKey, parcels}

abbrev pub parcel_photo_days : ℕ
parcel_photo_days = 90

abbrev pub parcel_photo_after_collect_days : ℕ
parcel_photo_after_collect_days = 7

pub data Role : Type 0 where
  super_admin site_manager receptionist auditor : Role

pub record AuthUser : Type 0 where
  pub id : ℕ
  pub tenant : ℕ
  pub role : Role
  pub sites : List ℕ

pub data Carrier : Type 0 where
  dhl ups fedex tnt gls brt sda poste amazon seur correos other : Carrier

pub data ParcelStatus : Type 0 where
  waiting collected : ParcelStatus

pub data EmailStatus : Type 0 where
  not_requested queued skipped sent failed : EmailStatus

pub record Parcel : Type 0 where
  pub id : ℕ
  pub tenant : ℕ
  pub site : ℕ
  pub employee : ℕ
  pub carrier : Carrier
  pub pieces : ℕ
  pub tracking : Option Text
  pub note : Option Text
  pub status : ParcelStatus
  pub received_at : ℕ
  pub received_by : ℕ
  pub collected_at : Option ℕ
  pub collected_by : Option ℕ
  pub email_status : EmailStatus
  pub email_attempts : ℕ

-- The photo of a parcel.
pub record Photo : Type 0 where
  pub tenant : ℕ
  pub parcel : ℕ
  pub purge_after : ℕ
  pub purged_at : Option ℕ

pub record Employee : Type 0 where
  pub id : ℕ
  pub tenant : ℕ
  pub active : Bool
  pub apps_off : List AppKey
  pub email : Option Text

pub record Site : Type 0 where
  pub id : ℕ
  pub tenant : ℕ
  pub name : String
  pub active : Bool

-- A notice in the outbox of push.
pub record PushDelivery : Type 0 where
  pub tenant : ℕ
  pub employee : ℕ
  pub site : String
  pub carrier : Option String
  pub pieces : ℕ
  pub next_at : ℕ

pub data AuditEntry : Type 0 where
  parcel_received parcel_collected parcel_deleted : ℕ → AuditEntry

pub record Db : Type 0 where
  pub parcels : List Parcel
  pub photos : List Photo
  pub employees : List Employee
  pub sites : List Site
  -- Tenant and employee of each device that takes notices.
  pub devices : List (ℕ × ℕ)
  pub deliveries : List PushDelivery
  pub audit : List AuditEntry

pub data Error : Type 0 where
  no_access not_found site_not_found employee_not_found employee_app_disabled : Error
  already_collected : Error

pub record CreateParcel : Type 0 where
  pub site : ℕ
  pub employee : ℕ
  pub carrier : Carrier
  pub pieces : Option ℕ
  pub tracking : Option Text
  pub note : Option Text
  pub has_photo : Bool

pub record Created : Type 0 where
  pub id : ℕ
  pub push_queued : Bool
  pub email_status : EmailStatus

abbrev pub carrier_name : Carrier → Option String
carrier_name dhl = some "DHL"
carrier_name ups = some "UPS"
carrier_name fedex = some "FedEx"
carrier_name tnt = some "TNT"
carrier_name gls = some "GLS"
carrier_name brt = some "BRT"
carrier_name sda = some "SDA"
carrier_name poste = some "Poste"
carrier_name amazon = some "Amazon"
carrier_name seur = some "SEUR"
carrier_name correos = some "Correos"
carrier_name other = none

abbrev pub all_sites : Role → Bool
all_sites super_admin = true
all_sites auditor = true
all_sites _ = false

-- `assertSiteAccess`
unfoldable pub site_access : AuthUser → ℕ → Bool
site_access user site = all_sites user.role || contains site user.sites

abbrev pub is_waiting : ParcelStatus → Bool
is_waiting waiting = true
is_waiting collected = false

abbrev is_parcels : AppKey → Bool
is_parcels parcels = true
is_parcels _ = false

-- An empty address is none.
abbrev pub has_address : Option Text → Bool
has_address none = false
has_address (some []) = false
has_address (some (c ∷ s)) = true

abbrev pub waiting_with_id : ℕ → Parcel → Bool
waiting_with_id id p = p.id == id && is_waiting p.status

-- The photos of a parcel that are still kept.
abbrev pub kept_photo : ℕ → ℕ → Photo → Bool
kept_photo tenant parcel f = f.tenant == tenant && (f.parcel == parcel && not (is_some f.purged_at))

-- `load`
unfoldable pub load : AuthUser → ℕ → Db → Result Error Parcel
load user id db = do
  p ← or_throw (find (λ p. p.id == id && p.tenant == user.tenant) db.parcels) not_found
  require (site_access user p.site) no_access
  ok p

-- `enqueueParcel`
unfoldable pub enqueue_parcel : ℕ → Employee → Site → Carrier → ℕ → ℕ → Db → Bool × Db
enqueue_parcel tenant e site carrier pieces now db =
    if any (λ d. d.0 == tenant && d.1 == e.id) db.devices
    then (
      true,
      record db {
        deliveries =
            record {
              tenant = tenant;
              employee = e.id;
              site = site.name;
              carrier = carrier_name carrier;
              pieces = pieces;
              next_at = now;
            }
            ∷ db.deliveries;
      },
    )
    else (false, db)

-- What `create` checks before it writes.
unfoldable pub create_checks : AuthUser → CreateParcel → Db → Result Error (Site × Employee)
create_checks user dto db = do
  require (site_access user dto.site) no_access
  site ←
      or_throw (find (λ s. s.id == dto.site && (s.tenant == user.tenant && s.active)) db.sites)
        site_not_found
  e ←
      or_throw
        (find (λ e. e.id == dto.employee && (e.tenant == user.tenant && e.active)) db.employees)
        employee_not_found
  require (not (any is_parcels e.apps_off)) employee_app_disabled
  ok (site, e)

-- `create`, with the identifier of the new row and whether mail is configured; a photo that is no
-- image is refused before.
unfoldable pub create : Bool → ℕ → AuthUser → CreateParcel → ℕ → Db → Result Error Created × Db
create mail_enabled id user dto now db = elim (create_checks user dto db) [
  | err x ↦ (err x, db)
  | ok (site, e) ↦
      let pieces = or_else dto.pieces 1 in
      let email =
        if has_address e.email then (if mail_enabled then queued else skipped) else not_requested in
      let saved : Db = record db {
        parcels =
            record {
              id = id;
              tenant = user.tenant;
              site = site.id;
              employee = e.id;
              carrier = dto.carrier;
              pieces = pieces;
              tracking = dto.tracking;
              note = dto.note;
              status = waiting;
              received_at = now;
              received_by = user.id;
              collected_at = none;
              collected_by = none;
              email_status = email;
              email_attempts = 0;
            }
            ∷ db.parcels;
        photos =
            if dto.has_photo
            then record {
              tenant = user.tenant;
              parcel = id;
              purge_after = instant_add_days now parcel_photo_days;
              purged_at = none;
            }
              ∷ db.photos
            else db.photos;
      } in
      let (pushed, last) = enqueue_parcel user.tenant e site dto.carrier pieces now saved in
      (
        ok (record { id = id; push_queued = pushed; email_status = email }),
        record last { audit = parcel_received id ∷ last.audit },
      )
]

-- The conditional UPDATE of `collect`; `none` is no row affected.
unfoldable pub hand_over : ℕ → ℕ → ℕ → Db → Option Db
hand_over user id now db =
    if any (waiting_with_id id) db.parcels
    then some (record db {
      parcels =
          update (waiting_with_id id)
            (λ p. record p {
              status = collected;
              collected_at = some now;
              collected_by = some user;
            })
            db.parcels;
    })
    else none

-- `collect`, while other requests commit between its read and its write.
unfoldable pub collect : (Db → Db) → AuthUser → ℕ → ℕ → Db → Result Error ℕ × Db
collect others user id now db = elim (load user id db) [
  | err x ↦ (err x, db)
  | ok p ↦ elim (hand_over user.id p.id now (others db)) [
    | none ↦ (err already_collected, others db)
    | some saved ↦ (
      ok now,
      record saved {
        photos =
            update (kept_photo user.tenant p.id)
              (λ f. record f { purge_after = instant_add_days now parcel_photo_after_collect_days })
              saved.photos;
        audit = parcel_collected p.id ∷ saved.audit;
      },
    )
  ]
]

-- `remove`
unfoldable pub remove : (Db → Db) → AuthUser → ℕ → ℕ → Db → Result Error (Unit {0}) × Db
remove others user id now db = elim (load user id db) [
  | err x ↦ (err x, db)
  | ok p ↦
      if not (is_waiting p.status)
      then (err already_collected, db)
      else (let next = others db in
          (
            ok tt,
            record next {
              photos =
                  update (kept_photo user.tenant p.id) (λ f. record f { purged_at = some now })
                    next.photos;
              parcels = filter (λ q. not (waiting_with_id p.id q)) next.parcels;
              audit = parcel_deleted p.id ∷ next.audit;
            },
          ))
]
