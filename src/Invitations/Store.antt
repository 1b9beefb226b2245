-- ===== src/Invitations/Store.antt =====
-- api/src/entities/invitation.entity.ts and the tables that the invitations read.
use digitalreception.Base.{
  ℕ, String, Bool, true, false, ◌&&◌, ◌||◌, List, ◌∷◌, Option, none, some, ◌==◌, if◌then◌else◌, any,
}
use digitalreception.Text.{Text, same_text}

pub data InvitationStatus : Type 0 where
  pending used cancelled : InvitationStatus

pub data NoticeEmailStatus : Type 0 where
  not_requested waiting mailed failed skipped : NoticeEmailStatus

pub data VisitPurpose : Type 0 where
  meeting interview supplier maintenance delivery other : VisitPurpose

-- The columns of an invitation that do not change once it is created.
pub record Details : Type 0 where
  pub host : ℕ
  pub expected_at : ℕ
  pub valid_from : ℕ
  pub valid_until : ℕ
  pub first_name : Text
  pub last_name : Text
  pub company : Option Text
  pub email : Text
  pub purpose : VisitPurpose
  pub locale : String
  pub code : Text
  pub by_user : Option ℕ
  pub by_employee : Option ℕ

pub data FileKind : Type 0 where
  signature document asset_in asset_out parcel : FileKind

pub data DocumentType : Type 0 where
  id_card passport driving_license other_document : DocumentType

pub data TravelDistance : Type 0 where
  under_10_km from_10_to_100_km over_100_km : TravelDistance

-- What the guest typed on the phone.
pub record PreregistrationData : Type 0 where
  pub first_name : Text
  pub last_name : Text
  pub company : Option Text
  pub travel_distance : TravelDistance
  pub document_type : Option DocumentType
  pub document_number : Option Text

-- The columns of a pre-registration; the documents are pairs of a document and its version.
pub record Preregistration : Type 0 where
  pub at : Option ℕ
  pub data_of : Option PreregistrationData
  pub locale : Option String
  pub notice : Option ℕ
  pub notice_version : Option ℕ
  pub documents : Option (List (ℕ × ℕ))

-- Before the guest has filled anything in.
abbrev pub no_preregistration : Preregistration
no_preregistration = record {
  at = none;
  data_of = none;
  locale = none;
  notice = none;
  notice_version = none;
  documents = none;
}

pub record Invitation : Type 0 where
  pub id : ℕ
  pub tenant : ℕ
  pub site : ℕ
  pub details : Details
  pub code_hash : Text
  pub status : InvitationStatus
  pub visit : Option ℕ
  pub used_at : Option ℕ
  pub email_status : NoticeEmailStatus
  pub email_attempts : ℕ
  pub pre : Preregistration

-- An image; its content is in the storage.
pub record StoredFile : Type 0 where
  pub id : ℕ
  pub tenant : ℕ
  pub visit : Option ℕ
  pub invitation : Option ℕ
  pub kind : FileKind
  pub purge_after : ℕ
  pub purged_at : Option ℕ

pub record Site : Type 0 where
  pub id : ℕ
  pub tenant : ℕ
  pub name : String
  pub country : String
  pub timezone : String
  pub active : Bool

pub record Host : Type 0 where
  pub id : ℕ
  pub tenant : ℕ
  pub first_name : Text
  pub last_name : Text
  pub email : Option Text
  pub sites : List ℕ
  pub active : Bool
  pub employee : Option ℕ

pub record CountryPolicy : Type 0 where
  pub tenant : ℕ
  pub country : String
  pub locales : List String
  pub default_locale : String
  pub visit_retention_days : ℕ
  pub document_data_enabled : Bool
  pub document_photo_enabled : Bool
  pub document_photo_retention_days : ℕ
  pub asset_photos_required : Bool
  pub asset_photo_retention_days : ℕ

pub record Db : Type 0 where
  pub invitations : List Invitation
  pub files : List StoredFile
  pub sites : List Site
  pub hosts : List Host
  pub policies : List CountryPolicy

abbrev pub is_pending : InvitationStatus → Bool
is_pending pending = true
is_pending _ = false

abbrev pub is_used : InvitationStatus → Bool
is_used used = true
is_used _ = false

-- The primary key, and the unique index on tenant and code.
abbrev pub clashes : Invitation → Invitation → Bool
clashes a b = a.id == b.id || (a.tenant == b.tenant && same_text a.code_hash b.code_hash)

-- An INSERT; `none` is a duplicate entry.
unfoldable pub insert_invitation : Invitation → Db → Option Db
insert_invitation inv db =
    if any (clashes inv) db.invitations
    then none
    else some (record db { invitations = inv ∷ db.invitations })
