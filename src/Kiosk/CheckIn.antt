-- ===== src/Kiosk/CheckIn.antt =====
-- Check-in (api/src/kiosk/kiosk.service.ts): `checkIn`.
use digitalreception.Base.{
  Bool, true, false, ◌&&◌, ◌||◌, not, List, [], ◌∷◌, Option, none, some, is_some, ◌==◌, map, Result,
  ok, err, or_throw, require, ◌>>=◌, ◌>>◌,
}
use digitalreception.Text.{Text}
use digitalreception.Invitations.Store.{Site, CountryPolicy}
use digitalreception.Visits.Store.{PrivacyNotice, Visit, Db}
use digitalreception.Kiosk.Documents.{GuestDocument, for_site, accepts}
use digitalreception.Kiosk.Images.{Image, parse_image}
use digitalreception.Kiosk.Store.{
  Error, notice_outdated, documents_outdated, document_required, document_photo_required,
  asset_photo_required, email_required, bad_image, Tablet, Env, CheckInDto, NewVisit,
  document_photo_asked, site_and_policy, latest_notice,
}
use digitalreception.Kiosk.Persist.{given, persist}

-- The fields that the country's policy requires.
unfoldable pub require_fields : CountryPolicy → CheckInDto → Result Error (Unit {0})
require_fields p dto = do
  require (not p.document_data_enabled || (is_some dto.document_type && given dto.document_number))
      document_required
  require (not (document_photo_asked p) || given dto.document_photo) document_photo_required
  require (not p.asset_photos_required || given dto.asset_photo) asset_photo_required
  require (not dto.send_notice_email || given dto.email) email_required

-- The notice and the documents that the guest must have accepted.
unfoldable pub accepted_texts :
    Tablet
    → Site
    → CountryPolicy
    → CheckInDto
    → Db
    → Result Error (PrivacyNotice × List GuestDocument)
accepted_texts t site policy dto db = do
  notice ← or_throw (latest_notice t.on.tenant site.country dto.locale db) notice_outdated
  require (notice.id == dto.notice) notice_outdated
  let documents =
      for_site t.on.tenant site.id dto.locale policy.default_locale db.documents db.versions
  require (accepts documents dto.accepted_documents) documents_outdated
  ok (notice, documents)

module _ (env : Env) where
  -- The image of an optional data URL, and a refusal if it is no image.
  abbrev pub optional_image : Bool → Option Text → Result Error (Option Image)
  optional_image false url = ok none
  optional_image true none = ok none
  optional_image true (some []) = ok none
  optional_image true (some (c ∷ s)) = do
    i ← or_throw (parse_image env.decode (c ∷ s)) bad_image
    ok (some i)

  -- What the visit takes from the form, the accepted texts and the images.
  abbrev pub form_visit :
      CheckInDto
      → PrivacyNotice
      → List GuestDocument
      → Image
      → Option Image
      → Option Image
      → NewVisit
  form_visit dto notice documents signed shown asset = record {
    locale = dto.locale;
    first_name = dto.first_name;
    last_name = dto.last_name;
    company = dto.company;
    email = dto.email;
    send_notice_email = dto.send_notice_email;
    host_id = dto.host_id;
    host = dto.host;
    purpose = dto.purpose;
    travel_distance = dto.travel_distance;
    document_type = dto.document_type;
    document_number = dto.document_number;
    notice = notice.id;
    notice_version = notice.version;
    accepted_at = env.inv.now;
    documents = map (λ d. (d.document, d.id)) documents;
    signature = some signed;
    document_photo = shown;
    asset_photo = asset;
    invitation_code = dto.invitation_code;
    preregistered_from = none;
  }

  -- What `checkIn` hands to `persist`.
  unfoldable pub new_visit :
      Tablet → CheckInDto → Db → Result Error (Site × CountryPolicy × NewVisit)
  new_visit t dto db = do
    (site, policy) ← site_and_policy t db
    (notice, documents) ← accepted_texts t site policy dto db
    require_fields policy dto
    signed ← or_throw (parse_image env.decode dto.signature) bad_image
    shown ← optional_image (document_photo_asked policy) dto.document_photo
    asset ← optional_image policy.asset_photos_required dto.asset_photo
    ok (site, policy, form_visit dto notice documents signed shown asset)

  -- `checkIn`
  unfoldable pub check_in : (Db → Db) → Tablet → CheckInDto → Db → Result Error Visit × Db
  check_in others t dto db = elim (new_visit t dto db) [
    | err e ↦ (err e, db)
    | ok (site, policy, v) ↦ persist env others t site policy v db
  ]
