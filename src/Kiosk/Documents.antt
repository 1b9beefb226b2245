-- ===== src/Kiosk/Documents.antt =====
-- api/src/common/site-documents.service.ts
use digitalreception.Base.{
  ℕ, String, Bool, false, ◌&&◌, ◌||◌, not, List, [], ◌∷◌, Option, none, some, is, is_some, ◌==◌,
  ltb, any, all, find, filter, map, sort_by, contains, dedup, length,
}
use text.Mathlib.Text.{◌==◌ as str_eq}
use digitalreception.Visits.Store.{SiteDocument, SiteDocumentVersion, VisitDocument}

-- The text that a guest reads: the version, its document, and its number.
pub record GuestDocument : Type 0 where
  pub id : ℕ
  pub document : ℕ
  pub version : ℕ
  pub locale : String

abbrev first_row : List SiteDocumentVersion → Option SiteDocumentVersion
first_row [] = none
first_row (v ∷ vs) = some v

abbrev newest_first : SiteDocumentVersion → SiteDocumentVersion → Bool
newest_first a b = ltb b.version a.version

abbrev document_before : SiteDocument → SiteDocument → Bool
document_before a b =
    ltb a.position b.position || (a.position == b.position && ltb a.created_at b.created_at)

-- The documents that a site asks for.
abbrev pub asked_at : ℕ → ℕ → SiteDocument → Bool
asked_at tenant site d =
    d.tenant == tenant && (d.active && (is d.site site || not (is_some d.site)))

-- The versions of a document, latest first.
abbrev pub versions_of : ℕ → ℕ → List SiteDocumentVersion → List SiteDocumentVersion
versions_of tenant document versions =
    filter (λ v. v.document == document)
      (sort_by newest_first (filter (λ v. v.tenant == tenant) versions))

-- The latest text of a document: in the language, else in the default one, else in any.
unfoldable pub text_for : String → String → List SiteDocumentVersion → Option SiteDocumentVersion
text_for locale default_locale versions = elim (find (λ v. str_eq v.locale locale) versions) [
  | some v ↦ some v
  | none ↦ elim (find (λ v. str_eq v.locale default_locale) versions) [
    | some v ↦ some v
    | none ↦ first_row versions
  ]
]

abbrev guest_document : SiteDocument → SiteDocumentVersion → GuestDocument
guest_document d v = record { id = v.id; document = d.id; version = v.version; locale = v.locale }

-- The loop of `forSite`, for one language; a document without any text is left out.
abbrev pub texts_of :
    ℕ → String → String → List SiteDocumentVersion → List SiteDocument → List GuestDocument
texts_of tenant locale default_locale versions [] = []
texts_of tenant locale default_locale versions (d ∷ ds) =
    let rest = texts_of tenant locale default_locale versions ds in
    elim (text_for locale default_locale (versions_of tenant d.id versions)) [
      | none ↦ rest
      | some v ↦ guest_document d v ∷ rest
    ]

-- `forSite`, for one language.
unfoldable pub for_site :
    ℕ → ℕ → String → String → List SiteDocument → List SiteDocumentVersion → List GuestDocument
for_site tenant site locale default_locale documents versions =
    texts_of tenant locale default_locale versions
      (sort_by document_before (filter (asked_at tenant site) documents))

-- `assertAccepted`: the accepted versions are a set.
unfoldable pub accepts : List GuestDocument → List ℕ → Bool
accepts required accepted =
    all (λ d. contains d.id (dedup accepted)) required && length (dedup accepted) == length required

-- `covers`: the accepted documents are pairs of a document and its version.
unfoldable pub covers : List GuestDocument → Option (List (ℕ × ℕ)) → Bool
covers required none = all (λ d. false) required
covers required (some accepted) = all (λ d. any (λ a. a.0 == d.document) accepted) required

-- `record`: the rows of a visit.
unfoldable pub record_documents : ℕ → ℕ → List (ℕ × ℕ) → ℕ → List VisitDocument
record_documents tenant visit documents at =
    map
      (λ d. record {
        tenant = tenant;
        visit = visit;
        document = d.0;
        version_id = d.1;
        accepted_at = at;
      })
      documents
