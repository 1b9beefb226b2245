-- ===== src/Kiosk/Persist.antt =====
-- Saving a visit (api/src/kiosk/kiosk.service.ts): `persist` and `uniqueCode`.
use digitalreception.Base.{
  ℕ, zero, suc, ◌+◌, Bool, true, false, ◌&&◌, ◌||◌, not, List, [], ◌∷◌, ◌++◌, Option, none, some,
  is, is_some, ◌==◌, ltb, min, if◌then◌else◌, any, find, update, Result, ok, err, or_throw, ◌>>=◌,
  map, take, length, ◌-◌,
}
use digitalreception.Calendar.{instant_add_days}
use digitalreception.Kiosk.Images.{Image}
use digitalreception.Text.{Text, codes, same_text}
use digitalreception.Invitations.Store.{
  not_requested, waiting, skipped, FileKind, signature, document, asset_in, StoredFile, Site, Host,
  CountryPolicy,
}
use digitalreception.Invitations.Writes.{Error as InvitationError, or_null, consume}
use digitalreception.Notices.Store.{visit_arrived, EventData}
use digitalreception.Notices.Hooks.{enqueue}
use digitalreception.Notices.Push.{enqueue_arrival}
use digitalreception.Visits.Store.{opened, visit_check_in, Visit, Mail, Db, is_open}
use digitalreception.Kiosk.Documents.{record_documents}
use digitalreception.Kiosk.Store.{
  Error, host_not_found, host_required, no_code, of_invitation, Tablet, Env, NewVisit,
  document_photo_asked, site_hosts,
}

abbrev pub is_document : FileKind → Bool
is_document document = true
is_document _ = false

abbrev pub is_signature : FileKind → Bool
is_signature signature = true
is_signature _ = false

-- An error of the invitations is one of the request.
abbrev pub from_invitations {ℓ} : {A : Type ℓ} → Result InvitationError A → Result Error A
from_invitations (ok a) = ok a
from_invitations (err e) = err (of_invitation e)

-- A text is empty, or is not there.
abbrev pub given : Option Text → Bool
given s = is_some (or_null s)

-- `store`: a new image of a visit.
unfoldable pub store_file :
    (List StoredFile → ℕ) → ℕ → ℕ → FileKind → ℕ → List StoredFile → List StoredFile
store_file new_id tenant visit kind until files =
    record {
      id = new_id files;
      tenant = tenant;
      visit = some visit;
      invitation = none;
      kind = kind;
      purge_after = until;
      purged_at = none;
    }
    ∷ files

-- The files of a pre-registration that are kept.
abbrev pub file_of : ℕ → ℕ → StoredFile → Bool
file_of tenant invitation f =
    f.tenant == tenant && (is f.invitation invitation && not (is_some f.purged_at))

-- Days that a document photo is kept, and a file that comes from a pre-registration.
abbrev pub document_days : CountryPolicy → ℕ
document_days p = min p.document_photo_retention_days p.visit_retention_days

unfoldable pub keep_days : CountryPolicy → FileKind → ℕ
keep_days p kind =
    if is_document kind
    then (if document_photo_asked p then document_days p else 0)
    else p.visit_retention_days

-- `store`, if there is an image.
abbrev pub store_image :
    (List StoredFile → ℕ) → ℕ → ℕ → FileKind → ℕ → Option Image → List StoredFile → List StoredFile
store_image new_id tenant visit kind until none files = files
store_image new_id tenant visit kind until (some i) files =
    store_file new_id tenant visit kind until files

-- The files of a pre-registration become the visit's, with its retention.
abbrev pub move_files : CountryPolicy → ℕ → ℕ → ℕ → Option ℕ → List StoredFile → List StoredFile
move_files policy now tenant visit none files = files
move_files policy now tenant visit (some inv) files =
    update (file_of tenant inv)
      (λ f. record f {
        visit = some visit;
        invitation = none;
        purge_after = instant_add_days now (keep_days policy f.kind);
      })
      files

-- Whom the guest visits: name, identifier and address.
unfoldable pub host_of : List Host → NewVisit → Result Error (Text × Option ℕ × Option Text)
host_of [] v = do name ← or_throw (or_null v.host) host_required; ok (name, none, none)
host_of (h ∷ hs) v = elim v.host_id [
  | none ↦ err host_required
  | some id ↦ do
    host ← or_throw (find (λ x. x.id == id) (h ∷ hs)) host_not_found
    ok (host.first_name ++ codes " " ++ host.last_name, some host.id, host.email)
]

-- A code that no open visit of the site has.
abbrev pub taken : ℕ → ℕ → Text → Visit → Bool
taken tenant site code v =
    (v.tenant == tenant && v.site == site) && (same_text v.code code && is_open v.status)

-- The loop of `uniqueCode`: up to `tries` random codes.
unfoldable pub unique_code : (ℕ → Text) → ℕ → ℕ → ℕ → ℕ → Db → Result Error Text
unique_code draw zero attempt tenant site db = err no_code
unique_code draw (suc tries) attempt tenant site db =
    let rest = unique_code draw tries (attempt + 1) tenant site db in
    if any (taken tenant site (draw attempt)) db.visits then rest else ok (draw attempt)

-- A mail is queued if it is wanted, unless mail is off.
abbrev pub queued_mail : Bool → Bool → Mail
queued_mail wanted enabled = record {
  status = if wanted then (if enabled then waiting else skipped) else not_requested;
  attempts = 0;
}

module _ (env : Env) where
  abbrev pub blind_index : Option Text → Option Text
  blind_index s = elim (or_null s) [ none ↦ none | some t ↦ env.blind t ]

  -- The row of the visit.
  unfoldable pub visit_row :
      ℕ → Tablet → Site → CountryPolicy → NewVisit → Text × Option ℕ × Option Text → Text → Visit
  visit_row id t site policy v (name, host, address) code = record {
    id = id;
    tenant = t.on.tenant;
    site = site.id;
    status = opened;
    code = code;
    check_in_at = env.inv.now;
    check_out_at = none;
    check_in_device = some t.id;
    check_out_by = none;
    person = record {
      first_name = or_null (some v.first_name);
      last_name = or_null (some v.last_name);
      last_name_index = blind_index (some v.last_name);
      company = or_null v.company;
      email = or_null v.email;
      email_index = blind_index v.email;
      host_name = or_null (some name);
      host = host;
      document_type = if policy.document_data_enabled then v.document_type else none;
      document_number = if policy.document_data_enabled then or_null v.document_number else none;
    };
    travel_distance = some v.travel_distance;
    purpose = v.purpose;
    locale = v.locale;
    notice = v.notice;
    notice_version = v.notice_version;
    accepted_at = v.accepted_at;
    notice_email = queued_mail v.send_notice_email env.inv.mail_enabled;
    badge_email = queued_mail (given v.email) env.inv.mail_enabled;
    host_email = queued_mail (given address) env.inv.mail_enabled;
    anonymized_at = none;
  }

  -- The files after check-in: those taken on the tablet, and those of the pre-registration.
  unfoldable pub store_images :
      ℕ → Tablet → CountryPolicy → NewVisit → List StoredFile → List StoredFile
  store_images id t policy v files =
      let until = instant_add_days env.inv.now in
      let store = store_image env.file_id t.on.tenant id in
      let signed = store signature (until policy.visit_retention_days) v.signature files in
      let shown = store document (until (document_days policy)) v.document_photo signed in
      let moved = move_files policy env.inv.now t.on.tenant id v.preregistered_from shown in
      store asset_in (until (min policy.asset_photo_retention_days policy.visit_retention_days))
        v.asset_photo moved

  -- Whether a document photo came with the pre-registration and is kept.
  unfoldable pub moved_photo : Tablet → CountryPolicy → NewVisit → List StoredFile → Bool
  moved_photo t policy v files = elim v.preregistered_from [
    | none ↦ false
    | some inv ↦
        any
          (λ f.
            file_of t.on.tenant inv f && (is_document f.kind && ltb 0 (keep_days policy f.kind)))
          files
  ]

  -- `consume`, if the visit has an invitation.
  abbrev pub use_invitation : Tablet → Option Text → ℕ → Db → Result Error (Unit {0}) × Db
  use_invitation t none id db = (ok tt, db)
  use_invitation t (some code) id db =
      let (r, base) = consume env.inv (λ d. d) t.on code id db.base in
      (from_invitations (r >>= λ inv. ok tt), record db { base = base })

  -- What `persist` queues: the event for the webhooks, and the push notice for the host.
  unfoldable pub queue_arrival :
      Tablet → Site → CountryPolicy → NewVisit → Text × Option ℕ × Option Text → Db → Db
  queue_arrival t site policy v (name, host, address) db =
      let visitor = v.first_name ++ codes " " ++ v.last_name in
      let event : EventData = record {
        site = site.name;
        locale = policy.default_locale;
        visitor = some visitor;
        company = or_null v.company;
        host = some name;
        door = none;
        reason = none;
        employee = none;
        guests = none;
        employees = none;
      } in
      let hooks =
        enqueue env.hook_delivery_id t.on.tenant site.id visit_arrived event env.inv.now
          (record { webhooks = db.webhooks; deliveries = db.webhook_deliveries }) in
      let (pushed, push) =
        enqueue_arrival env.push_delivery_id t.on.tenant host site.name visitor (or_null v.company)
          env.inv.now
          (record {
            hosts = db.base.hosts;
            employees = db.employees;
            devices = db.devices;
            deliveries = db.push_deliveries;
          }) in
      record db { webhook_deliveries = hooks.deliveries; push_deliveries = push.deliveries }

  -- The new files of a check-in: those in front.
  abbrev pub put : List StoredFile → List StoredFile → List ℕ
  put after before = map (λ f. f.id) (take (length after - length before) after)

  -- The transaction of `persist`; an error rolls back its rows, but not the images that `store` has put
  -- in the storage.
  unfoldable pub save_visit :
      Tablet
      → Site
      → CountryPolicy
      → NewVisit
      → Text × Option ℕ × Option Text
      → Text
      → Db
      → Result Error Visit × Db
  save_visit t site policy v who code db =
      let id = env.visit_id db.visits in
      let row = visit_row id t site policy v who code in
      let files = store_images id t policy v db.base.files in
      let written : Db = record db {
        visits = row ∷ db.visits;
        base = record (db.base) { files = files };
        visit_documents =
            record_documents t.on.tenant id v.documents v.accepted_at ++ db.visit_documents;
        stored = put files db.base.files ++ db.stored;
      } in
      let (used, next) = use_invitation t v.invitation_code id written in
      elim used [
        | err e ↦ (err e, record db { stored = written.stored })
        | ok _ ↦ (ok row, queue_arrival t site policy v who next)
      ]

  -- What `persist` finds out before its transaction.
  unfoldable pub prepare :
      Tablet → Site → NewVisit → Db → Result Error ((Text × Option ℕ × Option Text) × Text)
  prepare t site v db = do
    who ← host_of (site_hosts env t db) v
    code ← unique_code env.code 10 0 t.on.tenant site.id db
    ok (who, code)

  -- `persist`, while other requests commit before its transaction.
  unfoldable pub persist :
      (Db → Db) → Tablet → Site → CountryPolicy → NewVisit → Db → Result Error Visit × Db
  persist others t site policy v db = elim (prepare t site v db) [
    | err e ↦ (err e, db)
    | ok (who, code) ↦
        let (saved, last) = save_visit t site policy v who code (others db) in
        elim saved [
          | err e ↦ (err e, last)
          | ok row ↦ (
            ok row,
            record last {
              audit =
                  visit_check_in row.id
                    (is_some v.document_photo || moved_photo t policy v (others db).base.files)
                    (is_some v.asset_photo)
                  ∷ last.audit;
            },
          )
        ]
  ]
