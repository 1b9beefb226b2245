-- ===== src/Kiosk/Minimal.antt =====
-- What a visit that checks in keeps of the guest, and what the guest has accepted (kiosk.service.ts,
-- `checkIn`).
use digitalreception.Base.{◌≡◌, ◌⊎◌, true, false, List, ◌∷◌, none, some, is_some, any, ok}
use digitalreception.Text.{Text}
use digitalreception.Invitations.Store.{Site, CountryPolicy}
use digitalreception.Visits.Store.{Visit, PrivacyNotice, Db, is_open}
use digitalreception.Kiosk.Documents.{for_site, accepts}
use digitalreception.Kiosk.Store.{Tablet, CheckInDto, site_and_policy, latest_notice}
use digitalreception.Kiosk.Persist.{taken}

-- Neither type nor number of an identity document when the policy does not ask for it, and both when
-- it does.
abbrev pub Documents : CountryPolicy → Visit → Type 0
Documents policy row =
    ((policy.document_data_enabled ≡ false)
      × (row.person.document_type ≡ none)
      × (row.person.document_number ≡ none))
    ⊎ ((policy.document_data_enabled ≡ true)
        × (is_some row.person.document_type ≡ true)
        × (is_some row.person.document_number ≡ true))

-- The visit is saved, with what the site and its country ask for.
abbrev pub CheckedIn : Tablet → CheckInDto → Db → Visit → List Visit → List Visit → Type 0
CheckedIn t dto db row before after =
    (site : Site) × (policy : CountryPolicy) × (site_and_policy t db ≡ ok (site, policy))
    × (after ≡ row ∷ before)
    × (row.tenant ≡ t.on.tenant)
    × (row.site ≡ site.id)
    × (is_open row.status ≡ true)
    × ((n : PrivacyNotice) × (latest_notice t.on.tenant site.country dto.locale db ≡ some n)
        × (row.notice ≡ n.id)
        × (row.notice_version ≡ n.version))
    × (accepts
          (for_site t.on.tenant site.id dto.locale policy.default_locale db.documents db.versions)
          dto.accepted_documents
        ≡ true)
    × Documents policy row
    × (any (taken t.on.tenant site.id row.code) db.visits ≡ false)
