-- ===== src/Kiosk/Preregistered.antt =====
-- Check-in of a guest who filled everything in on the phone (api/src/kiosk/kiosk.service.ts):
-- `preregistration`, `checkInPreregistered` and `invitation`.
use digitalreception.Base.{
  ℕ, String, Bool, false, ◌&&◌, ◌||◌, not, [], Option, none, some, is_some, or_else, if◌then◌else◌,
  any, filter, Result, ok, err, or_throw, require, ◌>>=◌, ◌>>◌,
}
use digitalreception.Text.{Text}
use digitalreception.Invitations.Store.{
  PreregistrationData, Preregistration, Invitation, Site, CountryPolicy,
}
use digitalreception.Invitations.Writes.{usable}
use digitalreception.Visits.Store.{Visit, Db}
use digitalreception.Kiosk.Documents.{for_site, covers}
use digitalreception.Kiosk.Store.{
  Error, preregistration_incomplete, asset_photo_required, Tablet, Env, NewVisit,
  document_photo_asked, site_and_policy,
}
use digitalreception.Kiosk.Persist.{
  from_invitations, given, file_of, is_signature, is_document, persist,
}
use digitalreception.Kiosk.CheckIn.{optional_image}

-- The columns of a complete pre-registration: when, the data, the language and the notice. The
-- version of the notice is written together with it.
pub record Filled : Type 0 where
  pub at : ℕ
  pub data_of : PreregistrationData
  pub locale : String
  pub notice : ℕ

abbrev filled : Preregistration → Option Filled
filled p = elim p.at [
  | none ↦ none
  | some at ↦ elim p.data_of [
    | none ↦ none
    | some d ↦ elim p.locale [
      | none ↦ none
      | some locale ↦ elim p.notice [
        | none ↦ none
        | some notice ↦ some (record { at = at; data_of = d; locale = locale; notice = notice })
      ]
    ]
  ]
]

module _ (env : Env) where
  -- Whether a pre-registration covers what the site asks today.
  unfoldable pub still_covers : Tablet → Site → CountryPolicy → Invitation → Filled → Db → Bool
  still_covers t site policy inv pre db =
      let files = filter (file_of t.on.tenant inv.id) db.base.files in
      (not policy.document_data_enabled
        || (is_some pre.data_of.document_type && given pre.data_of.document_number))
      && (any (λ f. is_signature f.kind) files
          && ((not (document_photo_asked policy) || any (λ f. is_document f.kind) files)
              && covers
                  (for_site t.on.tenant site.id pre.locale policy.default_locale db.documents
                    db.versions)
                  inv.pre.documents))

  -- `preregistration`
  unfoldable pub preregistration :
      Tablet → Site → CountryPolicy → Text → Db → Result Error (Option (Invitation × Filled))
  preregistration t site policy code db = do
    inv ← from_invitations (usable env.inv t.on code db.base)
    ok (elim (filled inv.pre) [
      | none ↦ none
      | some pre ↦ if still_covers t site policy inv pre db then some (inv, pre) else none
    ])

  -- What `checkInPreregistered` hands to `persist`.
  unfoldable pub preregistered_visit :
      Tablet → Text → Option Text → Db → Result Error (Site × CountryPolicy × NewVisit)
  preregistered_visit t code photo db = do
    (site, policy) ← site_and_policy t db
    found ← preregistration t site policy code db
    (inv, pre) ← or_throw found preregistration_incomplete
    require (not policy.asset_photos_required || given photo) asset_photo_required
    asset ← optional_image env policy.asset_photos_required photo
    ok (
      site,
      policy,
      record {
        locale = pre.locale;
        first_name = pre.data_of.first_name;
        last_name = pre.data_of.last_name;
        company = pre.data_of.company;
        email = some inv.details.email;
        send_notice_email = false;
        host_id = some inv.details.host;
        host = none;
        purpose = inv.details.purpose;
        travel_distance = pre.data_of.travel_distance;
        document_type = if policy.document_data_enabled then pre.data_of.document_type else none;
        document_number =
            if policy.document_data_enabled then pre.data_of.document_number else none;
        notice = pre.notice;
        notice_version = or_else inv.pre.notice_version 0;
        accepted_at = pre.at;
        documents = or_else inv.pre.documents [];
        signature = none;
        document_photo = none;
        asset_photo = asset;
        invitation_code = some code;
        preregistered_from = some inv.id;
      },
    )

  -- `checkInPreregistered`
  unfoldable pub check_in_preregistered :
      (Db → Db) → Tablet → Text → Option Text → Db → Result Error Visit × Db
  check_in_preregistered others t code photo db = elim (preregistered_visit t code photo db) [
    | err e ↦ (err e, db)
    | ok (site, policy, v) ↦ persist env others t site policy v db
  ]

  -- `invitation`: what the tablet shows, and whether the guest already filled it in.
  unfoldable pub invitation : Tablet → Text → Db → Result Error (Invitation × Bool)
  invitation t code db = do
    (site, policy) ← site_and_policy t db
    inv ← from_invitations (usable env.inv t.on code db.base)
    pre ← preregistration t site policy code db
    ok (inv, is_some pre)
