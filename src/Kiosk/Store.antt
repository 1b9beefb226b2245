-- ===== src/Kiosk/Store.antt =====
-- What the tablet sends and what the platform gives (api/src/kiosk/kiosk.dto.ts and the first part
-- of api/src/kiosk/kiosk.service.ts), and the readings that every request starts from.
use digitalreception.Base.{
  ℕ, String, Bool, ◌&&◌, ◌||◌, List, [], ◌∷◌, Option, none, some, ◌==◌, ltb, find, filter, take,
  sort_by, contains, Result, ok, or_throw, require, ◌>>=◌, ◌>>◌,
}
use text.Mathlib.Text.{◌==◌ as str_eq}
use digitalreception.Text.{Text}
use digitalreception.Invitations.Store.{
  VisitPurpose, TravelDistance, DocumentType, StoredFile, Site, Host, CountryPolicy,
}
use digitalreception.Invitations.Writes.{Error as InvitationError, Env as InvitationEnv, Device}
use digitalreception.Notices.Store.{WebhookDelivery, PushDelivery}
use digitalreception.Visits.Store.{Visit, PrivacyNotice, Db}
use digitalreception.Kiosk.Images.{Image}

abbrev pub max_kiosk_hosts : ℕ
max_kiosk_hosts = 2000

-- `no_row` is a row that `findOneOrFail` does not find; `of_invitation` an error of the invitations.
pub data Error : Type 0 where
  site_inactive no_row notice_outdated documents_outdated document_required : Error
  document_photo_required asset_photo_required email_required bad_image : Error
  preregistration_incomplete host_not_found host_required no_code not_found : Error
  already_closed : Error
  of_invitation : InvitationError → Error

-- The tablet, with its identifier and its name; `on` is what the invitations read of it.
pub record Tablet : Type 0 where
  pub id : ℕ
  pub name : Text
  pub on : Device

-- The clock, mail and the hash (with the invitations), the decoder of base64, the keyed hash of the
-- blind indexes, the order of names, random codes, and the identifiers that the database gives.
pub record Env : Type 0 where
  pub inv : InvitationEnv
  pub decode : Text → List ℕ
  pub blind : Text → Option Text
  pub host_before : Host → Host → Bool
  pub code : ℕ → Text
  pub visit_id : List Visit → ℕ
  pub file_id : List StoredFile → ℕ
  pub hook_delivery_id : List WebhookDelivery → ℕ
  pub push_delivery_id : List PushDelivery → ℕ

pub record CheckInDto : Type 0 where
  pub locale : String
  pub first_name : Text
  pub last_name : Text
  pub company : Option Text
  pub email : Option Text
  pub send_notice_email : Bool
  pub host_id : Option ℕ
  pub host : Option Text
  pub travel_distance : TravelDistance
  pub purpose : VisitPurpose
  pub document_type : Option DocumentType
  pub document_number : Option Text
  pub notice : ℕ
  pub accepted_documents : List ℕ
  pub signature : Text
  pub document_photo : Option Text
  pub asset_photo : Option Text
  pub invitation_code : Option Text

-- What `persist` saves.
pub record NewVisit : Type 0 where
  pub locale : String
  pub first_name : Text
  pub last_name : Text
  pub company : Option Text
  pub email : Option Text
  pub send_notice_email : Bool
  pub host_id : Option ℕ
  pub host : Option Text
  pub purpose : VisitPurpose
  pub travel_distance : TravelDistance
  pub document_type : Option DocumentType
  pub document_number : Option Text
  pub notice : ℕ
  pub notice_version : ℕ
  pub accepted_at : ℕ
  pub documents : List (ℕ × ℕ)
  pub signature : Option Image
  pub document_photo : Option Image
  pub asset_photo : Option Image
  pub invitation_code : Option Text
  pub preregistered_from : Option ℕ

-- `documentPhotoRequired`
unfoldable pub document_photo_asked : CountryPolicy → Bool
document_photo_asked p = p.document_data_enabled || p.document_photo_enabled

-- `siteAndPolicy`
unfoldable pub site_and_policy : Tablet → Db → Result Error (Site × CountryPolicy)
site_and_policy t db = do
  site ←
      or_throw (find (λ s. s.id == t.on.site && s.tenant == t.on.tenant) db.base.sites)
        site_inactive
  require site.active site_inactive
  policy ←
      or_throw
        (find (λ p. p.tenant == t.on.tenant && str_eq p.country site.country) db.base.policies)
        no_row
  ok (site, policy)

abbrev first_notice : List PrivacyNotice → Option PrivacyNotice
first_notice [] = none
first_notice (n ∷ ns) = some n

-- `latestNotice`
unfoldable pub latest_notice : ℕ → String → String → Db → Option PrivacyNotice
latest_notice tenant country locale db = first_notice (
    sort_by (λ a b. ltb b.version a.version)
      (filter (λ n. n.tenant == tenant && (str_eq n.country country && str_eq n.locale locale))
        db.notices))

-- `siteHosts`
unfoldable pub site_hosts : Env → Tablet → Db → List Host
site_hosts env t db = take max_kiosk_hosts (
    sort_by env.host_before (
      filter (λ h. contains t.on.site h.sites && (h.tenant == t.on.tenant && h.active))
        db.base.hosts))
