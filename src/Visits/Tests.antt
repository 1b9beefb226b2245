-- ===== src/Visits/Tests.antt =====
-- The visits on concrete rows.
use digitalreception.Base.{
  inl, inr, ◌*◌, ◌≤◌, ◌≡◌, refl, arith, true, false, List, [], ◌∷◌, none, some, if◌then◌else◌,
  length, In, ok,
}
use digitalreception.Text.{codes}
use digitalreception.Invitations.Store.{StoredFile}
use digitalreception.Parcels.Desk.{AuthUser, receptionist, site_access}
use digitalreception.Visits.Store.{Visit, is_erased}
use digitalreception.Visits.Lifecycle.{nobody, kept_file, visit_with_id}
use digitalreception.Visits.Sample.{desk, ona}
use digitalreception.Visits.Once.{Op, leaves, anonymizes, times_closed, closed_once}
use digitalreception.Visits.Console.{
  VisitQuery, scoped, list, load, erase, is_formula, csv_cell, visible_site_ids,
}
use digitalreception.Visits.Scope.{MaySee, list_sound, read_cell, read_cell-csv_cell}
use digitalreception.Visits.Erased.{erase_sound}
use digitalreception.Visits.Retention.{Tables, Env, execute}
use digitalreception.Visits.Expired.{Forgotten}
use digitalreception.Visits.Swept.{UpToDate, execute-UpToDate}

-- Two check-outs of the same visit, with an anonymisation between them.
abbrev leaves_twice : List Op
leaves_twice =
    leaves 1 7 2000 (codes "device:Hall")
    ∷ anonymizes 1 7 false 2500
    ∷ leaves 1 7 3000 (codes "user:a@b.c")
    ∷ []

closed_once_example : times_closed 1 7 leaves_twice desk ≤ 1
closed_once_example = closed_once leaves_twice 1 7 desk tt

abbrev clerk : AuthUser
clerk = record { id = 1; tenant = 1; role = receptionist; sites = 2 ∷ [] }

abbrev everything : VisitQuery
everything = record {
  site = none;
  from = none;
  until = none;
  status = none;
  term = none;
  page = none;
}

she_is_listed : list (λ s. some s) (λ s. some s) clerk everything 2000 desk ≡ ok (ona ∷ [], 1)
unfolding list scoped visible_site_ids
she_is_listed = refl

list_sound_example :
    (length (ona ∷ []) ≤ 50)
    × ((v : Visit) → In v (ona ∷ []) → In v desk.visits × MaySee clerk 2000 v)
list_sound_example =
    list_sound (λ s. some s) (λ s. some s) clerk everything 2000 desk (ona ∷ []) 1 she_is_listed

read_cell-csv_cell_example :
    (read_cell (csv_cell (codes "=1"))
      ≡ some (if is_formula (codes "=1") then b'\'' ∷ codes "=1" else codes "=1", []))
    × (is_formula (if is_formula (codes "=1") then b'\'' ∷ codes "=1" else codes "=1") ≡ false)
read_cell-csv_cell_example = read_cell-csv_cell (codes "=1")

she_is_erased : (erase (λ d. d) clerk 7 2000 desk).0 ≡ ok tt
unfolding erase load site_access
she_is_erased = refl

erase_sound_example :
    ((v : Visit) × In v desk.visits
      × (v.id ≡ 7)
      × (v.tenant ≡ clerk.tenant)
      × (site_access clerk v.site ≡ true))
    × ((v : Visit)
        → In v (erase (λ d. d) clerk 7 2000 desk).1.visits
        → visit_with_id 1 7 v ≡ true
        → (v.person ≡ nobody) × (is_erased v.status ≡ true))
    × ((f : StoredFile)
        → In f (erase (λ d. d) clerk 7 2000 desk).1.base.files
        → kept_file 1 7 f ≡ false)
erase_sound_example = erase_sound (λ d. d) clerk 7 2000 desk she_is_erased

-- Forty days later.
abbrev later : Env
later = record { wall = λ zone t. t; now = 40 * 86400000; log_days = 90; audit_days = 365 }

abbrev tables : Tables
tables = record { db = desk; parcels = []; access_events = []; audit_times = []; sso_expiries = [] }

-- Nobody is anonymised yet.
none_hidden : Forgotten desk.visits
none_hidden v (inl e) hidden = absurd (ground (arith, e, hidden))
none_hidden v (inr m) hidden = absurd m

execute-UpToDate_example :
    (t : Tables) × (execute later 2 tables ≡ some t) × UpToDate later desk.base.sites t
execute-UpToDate_example =
    execute-UpToDate later 2 tables (refl, tt) (refl, tt) (omega arith) (omega arith) none_hidden
