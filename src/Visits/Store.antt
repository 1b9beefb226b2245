-- ===== src/Visits/Store.antt =====
-- api/src/entities/visit.entity.ts, site-document.entity.ts and privacy-notice.entity.ts, and the
-- tables that a visit touches.
use digitalreception.Base.{ℕ, String, Bool, true, false, List, Option}
use digitalreception.Text.{Text}
use digitalreception.Invitations.Store.{
  NoticeEmailStatus, VisitPurpose, TravelDistance, DocumentType, Db as InvitationDb,
}
use digitalreception.Notices.Store.{Webhook, WebhookDelivery, PushDevice, PushDelivery}

pub data VisitStatus : Type 0 where
  opened closed auto_closed erased : VisitStatus

-- The columns that say who the visitor is, and whom they visit; an index is a keyed hash.
pub record Person : Type 0 where
  pub first_name : Option Text
  pub last_name : Option Text
  pub last_name_index : Option Text
  pub company : Option Text
  pub email : Option Text
  pub email_index : Option Text
  pub host_name : Option Text
  pub host : Option ℕ
  pub document_type : Option DocumentType
  pub document_number : Option Text

-- A mail in the outbox.
pub record Mail : Type 0 where
  pub status : NoticeEmailStatus
  pub attempts : ℕ

pub record Visit : Type 0 where
  pub id : ℕ
  pub tenant : ℕ
  pub site : ℕ
  pub status : VisitStatus
  pub code : Text
  pub check_in_at : ℕ
  pub check_out_at : Option ℕ
  pub check_in_device : Option ℕ
  pub check_out_by : Option Text
  pub person : Person
  pub travel_distance : Option TravelDistance
  pub purpose : VisitPurpose
  pub locale : String
  pub notice : ℕ
  pub notice_version : ℕ
  pub accepted_at : ℕ
  pub notice_email : Mail
  pub badge_email : Mail
  pub host_email : Mail
  pub anonymized_at : Option ℕ

pub record PrivacyNotice : Type 0 where
  pub id : ℕ
  pub tenant : ℕ
  pub country : String
  pub locale : String
  pub version : ℕ

-- A document without a site is asked at every site.
pub record SiteDocument : Type 0 where
  pub id : ℕ
  pub tenant : ℕ
  pub site : Option ℕ
  pub active : Bool
  pub position : ℕ
  pub created_at : ℕ

pub record SiteDocumentVersion : Type 0 where
  pub id : ℕ
  pub tenant : ℕ
  pub document : ℕ
  pub locale : String
  pub version : ℕ

pub record VisitDocument : Type 0 where
  pub tenant : ℕ
  pub visit : ℕ
  pub document : ℕ
  pub version_id : ℕ
  pub accepted_at : ℕ

pub data AuditEntry : Type 0 where
  -- The visit, whether a document photo and an asset photo belong to it.
  visit_check_in : ℕ → Bool → Bool → AuditEntry
  visit_check_out : ℕ → Bool → AuditEntry
  visit_check_out_manual visit_erased : ℕ → AuditEntry

-- The tables; sites, hosts, policies, files and invitations are those of the invitations.
pub record Db : Type 0 where
  pub base : InvitationDb
  pub visits : List Visit
  pub notices : List PrivacyNotice
  pub documents : List SiteDocument
  pub versions : List SiteDocumentVersion
  pub visit_documents : List VisitDocument
  -- Identifier, tenant and whether active, of each employee.
  pub employees : List (ℕ × ℕ × Bool)
  pub webhooks : List Webhook
  pub webhook_deliveries : List WebhookDelivery
  pub devices : List PushDevice
  pub push_deliveries : List PushDelivery
  pub audit : List AuditEntry
  -- The files whose image a check-in ever put in the storage.
  pub stored : List ℕ

abbrev pub is_open : VisitStatus → Bool
is_open opened = true
is_open _ = false

abbrev pub is_erased : VisitStatus → Bool
is_erased erased = true
is_erased _ = false
