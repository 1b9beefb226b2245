-- ===== src/Visits/Console.antt =====
-- Visits in the console (api/src/admin/visits.service.ts), who sees which sites
-- (api/src/common/guards.ts), and the cells of an export (api/src/admin/csv.ts).
use digitalreception.Base.{
  ℕ, zero, suc, ◌+◌, ◌*◌, ◌-◌, Bool, true, false, ◌&&◌, ◌||◌, not, List, [], ◌∷◌, ◌++◌, Option,
  none, some, or_else, max, ◌==◌, leb, ltb, if◌then◌else◌, all, find, filter, sort_by, take,
  contains, length, Result, ok, err, or_throw, require, ◌>>=◌, ◌>>◌,
}
use digitalreception.Calendar.{instant_add_days}
use digitalreception.Text.{Text, codes, same_text, trim, between, is_digit}
use digitalreception.Parcels.Desk.{Role, receptionist, AuthUser, all_sites, site_access}
use digitalreception.Visits.Store.{
  VisitStatus, opened, closed, auto_closed, erased, visit_check_out_manual, visit_erased, Visit, Db,
  is_erased,
}
use digitalreception.Visits.Lifecycle.{close_visit, anonymize}

abbrev pub receptionist_window_days : ℕ
receptionist_window_days = 7

abbrev pub page_size : ℕ
page_size = 50

abbrev pub max_export : ℕ
max_export = 10000

pub data Error : Type 0 where
  no_access not_found already_closed already_erased export_too_large : Error

-- What the console asks for; an absent filter is none.
pub record VisitQuery : Type 0 where
  pub site : Option ℕ
  pub from : Option ℕ
  pub until : Option ℕ
  pub status : Option VisitStatus
  pub term : Option Text
  pub page : Option ℕ

abbrev pub is_receptionist : Role → Bool
is_receptionist receptionist = true
is_receptionist _ = false

abbrev pub same_status : VisitStatus → VisitStatus → Bool
same_status opened opened = true
same_status closed closed = true
same_status auto_closed auto_closed = true
same_status erased erased = true
same_status _ _ = false

-- `visibleSiteIds`: none is all sites.
unfoldable pub visible_site_ids : AuthUser → Option (List ℕ)
visible_site_ids user = if all_sites user.role then none else some user.sites

-- A column that may be NULL compared with a value that may be.
abbrev pub same_column : Option Text → Option Text → Bool
same_column none h = false
same_column (some s) none = false
same_column (some s) (some h) = same_text s h

-- Before the window of a receptionist: `checkInAt < addDays(now, -7)`.
abbrev pub before_window : ℕ → Visit → Bool
before_window now v = ltb (instant_add_days v.check_in_at receptionist_window_days) now

-- `/^[A-Z0-9]{5}$/`
abbrev pub is_code : Text → Bool
is_code s = length s == 5 && all (λ c. between b'A' b'Z' c || is_digit c) s

-- The search: an address, a code or a surname. `email_index` and `name_index` are the keyed hashes.
unfoldable pub finds : (Text → Option Text) → (Text → Option Text) → Text → Visit → Bool
finds email_index name_index q v =
    let term = trim q in
    if contains b'@' term
    then same_column v.person.email_index (email_index term)
    else if is_code term
    then same_text v.code term || same_column v.person.last_name_index (name_index term)
    else same_column v.person.last_name_index (name_index term)

abbrev pub at_site : AuthUser → Option ℕ → Visit → Bool
at_site user (some site) v = v.site == site
at_site user none v = elim (visible_site_ids user) [ none ↦ true | some ids ↦ contains v.site ids ]

abbrev from_on : Option ℕ → Visit → Bool
from_on none v = true
from_on (some t) v = leb t v.check_in_at

abbrev until_before : Option ℕ → Visit → Bool
until_before none v = true
until_before (some t) v = ltb v.check_in_at t

abbrev with_status : Option VisitStatus → Visit → Bool
with_status none v = true
with_status (some s) v = same_status v.status s

abbrev with_term : (Text → Option Text) → (Text → Option Text) → Option Text → Visit → Bool
with_term email_index name_index none v = true
with_term email_index name_index (some []) v = true
with_term email_index name_index (some (c ∷ s)) v = finds email_index name_index (c ∷ s) v

-- The test of `scoped`.
abbrev pub in_scope :
    (Text → Option Text) → (Text → Option Text) → AuthUser → VisitQuery → ℕ → Visit → Bool
in_scope email_index name_index user q now v =
    v.tenant == user.tenant
    && (at_site user q.site v
        && (from_on q.from v
            && ((not (is_receptionist user.role) || not (before_window now v))
                && (until_before q.until v
                    && (with_status q.status v && with_term email_index name_index q.term v)))))

-- `scoped`
unfoldable pub scoped :
    (Text → Option Text)
    → (Text → Option Text)
    → AuthUser
    → VisitQuery
    → ℕ
    → Db
    → Result Error (List Visit)
scoped email_index name_index user q now db = do
  require (elim q.site [ none ↦ true | some site ↦ site_access user site ]) no_access
  ok (filter (in_scope email_index name_index user q now) db.visits)

-- `skip`
abbrev pub drop {ℓ} : {A : Type ℓ} → ℕ → List A → List A
drop zero xs = xs
drop (suc n) [] = []
drop (suc n) (x ∷ xs) = drop n xs

abbrev pub newest_first : Visit → Visit → Bool
newest_first a b = ltb b.check_in_at a.check_in_at

abbrev pub oldest_first : Visit → Visit → Bool
oldest_first a b = ltb a.check_in_at b.check_in_at

-- `list`: the visits of a page, and how many there are.
unfoldable pub list :
    (Text → Option Text)
    → (Text → Option Text)
    → AuthUser
    → VisitQuery
    → ℕ
    → Db
    → Result Error (List Visit × ℕ)
list email_index name_index user q now db = do
  vs ← scoped email_index name_index user q now db
  let page = max 1 (or_else q.page 1)
  ok (take page_size (drop ((page - 1) * page_size) (sort_by newest_first vs)), length vs)

-- The rows of `exportCsv`.
unfoldable pub export_rows :
    (Text → Option Text)
    → (Text → Option Text)
    → AuthUser
    → VisitQuery
    → ℕ
    → Db
    → Result Error (List Visit)
export_rows email_index name_index user q now db = do
  vs ← scoped email_index name_index user q now db
  let items = take (max_export + 1) (sort_by oldest_first vs)
  require (not (ltb max_export (length items))) export_too_large
  ok items

-- `load`
unfoldable pub load : AuthUser → ℕ → ℕ → Db → Result Error Visit
load user id now db = do
  v ← or_throw (find (λ v. v.id == id && v.tenant == user.tenant) db.visits) not_found
  require (site_access user v.site) no_access
  require (not (is_receptionist user.role && before_window now v)) no_access
  ok v

-- `manualCheckout`, with the address of the user, while other requests commit before its write.
unfoldable pub manual_checkout :
    (Db → Db) → AuthUser → Text → ℕ → ℕ → Db → Result Error (Unit {0}) × Db
manual_checkout others user email id now db = elim (load user id now db) [
  | err e ↦ (err e, db)
  | ok v ↦ elim (close_visit user.tenant v.id now (take 80 (codes "user:" ++ email)) (others db)) [
    | none ↦ (err already_closed, others db)
    | some saved ↦ (ok tt, record saved { audit = visit_check_out_manual v.id ∷ saved.audit })
  ]
]

-- `erase`, while other requests commit before its writes.
unfoldable pub erase : (Db → Db) → AuthUser → ℕ → ℕ → Db → Result Error (Unit {0}) × Db
erase others user id now db = elim (load user id now db) [
  | err e ↦ (err e, db)
  | ok v ↦
      if is_erased v.status
      then (err already_erased, db)
      else (let next = anonymize user.tenant v.id true now (others db) in
          (ok tt, record next { audit = visit_erased v.id ∷ next.audit }))
]

-- `•••` and the last three characters.
abbrev pub last_three : Text → Text
last_three s = drop (length s - 3) s

abbrev pub dots : Text
dots = codes "•••"

-- The document number that `detail` shows.
unfoldable pub shown_number : AuthUser → Visit → Option Text
shown_number user v = elim v.person.document_number [
  | none ↦ none
  | some [] ↦ none
  | some (c ∷ s) ↦ some (if is_receptionist user.role then dots ++ last_three (c ∷ s) else c ∷ s)
]

-- A doubled quotation mark for each.
abbrev pub quoted : Text → Text
quoted [] = []
quoted (c ∷ s) = let rest = quoted s in if c == b'"' then b'"' ∷ b'"' ∷ rest else c ∷ rest

-- `/^[=+\-@\t\r]/`
abbrev pub is_formula : Text → Bool
is_formula [] = false
is_formula (c ∷ s) = c == b'=' || (c == b'+' || (c == b'-' || (c == b'@' || (c == 9 || c == 13))))

-- The guard against formulas: an apostrophe in front.
abbrev pub guarded : Text → Text
guarded s = if is_formula s then b'\'' ∷ s else s

-- `csvCell`, of a text.
unfoldable pub csv_cell : Text → Text
csv_cell s = (b'"' ∷ quoted (guarded s)) ++ (b'"' ∷ [])
