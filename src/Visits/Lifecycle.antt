-- ===== src/Visits/Lifecycle.antt =====
-- The writes that end a visit: check-out, anonymisation (api/src/common/visit-lifecycle.service.ts)
-- and the close at the end of the day (api/src/retention/retention.service.ts).
use digitalreception.Base.{
  ℕ, Bool, ◌&&◌, not, Option, none, some, is, is_some, ◌==◌, ltb, if◌then◌else◌, any, update,
}
use digitalreception.Text.{Text, codes}
use digitalreception.Invitations.Store.{StoredFile}
use digitalreception.Visits.Store.{closed, auto_closed, erased, Visit, Person, Db, is_open}

abbrev pub open_with_id : ℕ → ℕ → Visit → Bool
open_with_id tenant id v = v.id == id && (v.tenant == tenant && is_open v.status)

-- The conditional UPDATE that closes a visit; none is no row affected.
unfoldable pub close_visit : ℕ → ℕ → ℕ → Text → Db → Option Db
close_visit tenant id now by db =
    if any (open_with_id tenant id) db.visits
    then some (record db {
      visits =
          update (open_with_id tenant id)
            (λ v. record v { status = closed; check_out_at = some now; check_out_by = some by })
            db.visits;
    })
    else none

-- Nothing is known of the visitor.
abbrev pub nobody : Person
nobody = record {
  first_name = none;
  last_name = none;
  last_name_index = none;
  company = none;
  email = none;
  email_index = none;
  host_name = none;
  host = none;
  document_type = none;
  document_number = none;
}

-- A file of the visit that is not purged yet.
abbrev pub kept_file : ℕ → ℕ → StoredFile → Bool
kept_file tenant visit f = f.tenant == tenant && (is f.visit visit && not (is_some f.purged_at))

abbrev pub visit_with_id : ℕ → ℕ → Visit → Bool
visit_with_id tenant id v = v.id == id && v.tenant == tenant

-- The columns that `anonymize` writes.
abbrev pub anonymised : Bool → ℕ → Visit → Visit
anonymised is_erasure now v = record v {
  person = nobody;
  anonymized_at = some now;
  status = if is_erasure then erased else v.status;
}

-- `anonymize`
unfoldable pub anonymize : ℕ → ℕ → Bool → ℕ → Db → Db
anonymize tenant id is_erasure now db = record db {
  base = record (db.base) {
    files = update (kept_file tenant id) (λ f. record f { purged_at = some now }) db.base.files;
  };
  visits = update (visit_with_id tenant id) (anonymised is_erasure now) db.visits;
}

-- An open visit of a site that began before its day.
abbrev pub left_open : ℕ → ℕ → ℕ → Visit → Bool
left_open tenant site day_start v =
    v.tenant == tenant && (v.site == site && (is_open v.status && ltb v.check_in_at day_start))

-- The close at the end of the day.
unfoldable pub auto_close : ℕ → ℕ → ℕ → Db → Db
auto_close tenant site day_start db = record db {
  visits =
      update (left_open tenant site day_start)
        (λ v. record v { status = auto_closed; check_out_by = some (codes "system:end-of-day") })
        db.visits;
}
