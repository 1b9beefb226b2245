-- ===== src/Access/Sync.antt =====
-- The synchronisation with the external system (api/src/access/access.service.ts: upsertDoor,
-- upsertProject, upsertEmployee, deleteEmployee) and its retries (api/src/common/db-retry.ts).
-- Identifiers of the external system and codes are numbers.
pub mod Again
pub mod Rows
pub mod Store
pub mod Cards
mod Tests
use digitalreception.Base.{
  ℕ, zero, suc, ◌+◌, ◌-◌, Bool, true, false, ◌&&◌, ◌||◌, not, List, [], ◌∷◌, ◌++◌, Option, none,
  some, is, is_some, or_else, ◌==◌, ltb, if◌then◌else◌, all, any, find, filter, update, map,
  sort_by, dedup, contains, length, Result, ok, err, or_throw, require, ◌>>=◌, ◌>>◌,
}
use digitalreception.Text.{Text, trim, between}
use digitalreception.Access.Verify.{truthy, normalise_badge_uid, has_badge}
use digitalreception.Access.Sync.Store.{
  EmployeeSource, Employee, Door, Site, Project, Rule, Host, Link, Db, Error, PermissionInput,
  EmployeeInput, from_api, from_console, unknown_site, unknown_door, time_window_incomplete,
  invalid_badge_uid, unknown_project, badge_in_use, duplicate_entry, employee_not_found, deadlock,
}

-- `upsertDoor`: whether it was created.
unfoldable pub upsert_door :
    (List Door → ℕ) → ℕ → ℕ → ℕ → Text → Option Bool → Db → Result Error Bool × Db
upsert_door new_id tenant external_id site_code name active db =
    elim (find (λ s. s.tenant == tenant && s.code == site_code) db.sites) [
      | none ↦ (err unknown_site, db)
      | some site ↦ elim (find (λ d. d.tenant == tenant && d.external_id == external_id) db.doors) [
        | none ↦ (
          ok true,
          record db {
            doors =
                record {
                  id = new_id db.doors;
                  tenant = tenant;
                  external_id = external_id;
                  site = site.id;
                  name = name;
                  active = or_else active true;
                }
                ∷ db.doors;
          },
        )
        | some door ↦ (
          ok false,
          record db {
            doors =
                update (λ d. d.id == door.id)
                  (λ d. record d { site = site.id; name = name; active = or_else active true })
                  db.doors;
          },
        )
      ]
    ]

-- `upsertProject`: whether it was created.
unfoldable pub upsert_project :
    (List Project → ℕ) → ℕ → ℕ → Text → Option Text → Option Bool → Db → Bool × Db
upsert_project new_id tenant code name client active db =
    elim (find (λ p. p.tenant == tenant && p.code == code) db.projects) [
      | none ↦ (
        true,
        record db {
          projects =
              record {
                id = new_id db.projects;
                tenant = tenant;
                code = code;
                name = name;
                client = truthy client;
                active = or_else active true;
              }
              ∷ db.projects;
        },
      )
      | some found ↦ (
        false,
        record db {
          projects =
              update (λ p. p.id == found.id)
                (λ p. record p {
                  name = name;
                  client = truthy client;
                  active = or_else active true;
                })
                db.projects;
        },
      )
    ]

-- A badge in the input is a text that is not empty.
abbrev pub badge_of : EmployeeInput → Option Text
badge_of dto = elim dto.badge_uid [
  | none ↦ none
  | some uid ↦ elim (truthy uid) [ none ↦ none | some raw ↦ some (normalise_badge_uid raw) ]
]

abbrev pub long_enough : Option Text → Bool
long_enough none = true
long_enough (some uid) = not (ltb (length uid) 4)

abbrev pub known_door : ℕ → Db → PermissionInput → Bool
known_door tenant db p = any (λ d. d.tenant == tenant && d.external_id == p.door) db.doors

-- Both ends of a time window, or neither.
abbrev pub whole_window : PermissionInput → Bool
whole_window p = elim (truthy p.from) [
  | none ↦ not (is_some (truthy p.until))
  | some a ↦ is_some (truthy p.until)
]

-- The project of the input, if it names one.
unfoldable pub project_of : ℕ → EmployeeInput → Db → Result Error (Option ℕ)
project_of tenant dto db = elim dto.project [
  | none ↦ ok none
  | some none ↦ ok none
  | some (some code) ↦ do
    p ← or_throw (find (λ p. p.tenant == tenant && p.code == code) db.projects) unknown_project
    ok (some p.id)
]

-- What `upsertEmployee` checks before its transaction: the badge and the project.
unfoldable pub upsert_checks : ℕ → EmployeeInput → Db → Result Error (Option Text × Option ℕ)
upsert_checks tenant dto db = do
  require (all (known_door tenant db) dto.permissions) unknown_door
  require (all whole_window dto.permissions) time_window_incomplete
  require (long_enough (badge_of dto)) invalid_badge_uid
  project ← project_of tenant dto db
  ok (badge_of dto, project)

abbrev lower : ℕ → ℕ
lower c = if between b'A' b'Z' c then c + 32 else c

-- `email?.trim().toLowerCase() || null`
abbrev pub address : Option Text → Option Text
address none = none
address (some s) = truthy (some (map lower (trim s)))

abbrev last_four : Text → Text
last_four s = drop_some (length s - 4) s
  where
    drop_some : ℕ → Text → Text
    drop_some zero t = t
    drop_some (suc n) [] = []
    drop_some (suc n) (c ∷ t) = drop_some n t

abbrev pub hint : Option Text → Option Text
hint none = none
hint (some uid) = some (last_four uid)

-- The columns of the employee, over those of the row that is there.
unfoldable pub filled_in :
    EmployeeInput → EmployeeSource → Option Text → Option ℕ → Employee → Employee
filled_in dto source badge project e = record e {
  first_name = truthy (some dto.first_name);
  last_name = truthy (some dto.last_name);
  email = address dto.email;
  department = truthy dto.department;
  job_title = truthy dto.job_title;
  active = or_else dto.active true;
  source = source;
  valid_from = dto.valid_from;
  valid_until = dto.valid_until;
  badge = elim dto.badge_uid [ none ↦ e.badge | some uid ↦ badge ];
  badge_hint = elim dto.badge_uid [ none ↦ e.badge_hint | some uid ↦ hint badge ];
  project = elim dto.project [ none ↦ e.project | some code ↦ project ];
}

-- A new row.
abbrev pub blank : ℕ → ℕ → ℕ → Employee
blank id tenant external_id = record {
  id = id;
  tenant = tenant;
  external_id = external_id;
  source = from_api;
  first_name = none;
  last_name = none;
  email = none;
  department = none;
  job_title = none;
  project = none;
  badge = none;
  badge_hint = none;
  active = true;
  valid_from = none;
  valid_until = none;
}

abbrev pub has_external_id : ℕ → ℕ → Employee → Bool
has_external_id tenant external_id e = e.tenant == tenant && e.external_id == external_id

-- Whether the card is another person's.
unfoldable pub taken_card : ℕ → ℕ → Option Text → List Employee → Bool
taken_card tenant external_id none es = false
taken_card tenant external_id (some uid) es =
    elim (find (λ e. e.tenant == tenant && has_badge uid e.badge) es) [
      | none ↦ false
      | some owner ↦ not (owner.external_id == external_id)
    ]

-- The row saved: a new one, or the one that was there in the rows that the transaction read. TypeORM
-- writes the columns that differ from those read.
unfoldable pub save_employee :
    (List Employee → ℕ)
    → ℕ
    → ℕ
    → (Employee → Employee)
    → List Employee
    → List Employee
    → Employee × List Employee
save_employee new_id tenant external_id fill seen es =
    elim (find (has_external_id tenant external_id) seen) [
      | none ↦ let e = fill (blank (new_id es) tenant external_id) in (e, e ∷ es)
      | some x ↦ (fill x, update (λ y. y.id == x.id) (λ y. fill x) es)
    ]

abbrev pub rule_of : ℕ → ℕ → List Door → PermissionInput → Rule
rule_of tenant employee doors p = record {
  tenant = tenant;
  employee = employee;
  door = elim (find (λ d. d.tenant == tenant && d.external_id == p.door) doors) [
    | none ↦ 0
    | some d ↦ d.id
  ];
  days = elim p.days [
    | none ↦ none
    | some [] ↦ none
    | some (d ∷ ds) ↦ some (sort_by ltb (dedup (d ∷ ds)))
  ];
  from = p.from;
  until = p.until;
}

abbrev linked : ℕ → ℕ → Link → Bool
linked tenant employee l = l.tenant == tenant && is l.employee employee

-- A host that is linked to the person.
abbrev pub follow : EmployeeInput → Host → Host
follow dto h = record h {
  first_name = dto.first_name;
  last_name = dto.last_name;
  email = address dto.email;
  department = elim (truthy dto.department) [ none ↦ h.department | some d ↦ some d ];
  job_title = elim (truthy dto.job_title) [ none ↦ h.job_title | some j ↦ some j ];
}

abbrev pub rule_for : ℕ → ℕ → Rule → Bool
rule_for tenant employee r = r.tenant == tenant && r.employee == employee

-- The rules of the person are those of the input; a new person had none to delete.
unfoldable pub rules_after : ℕ → ℕ → List Door → List PermissionInput → Bool → List Rule → List Rule
rules_after tenant employee doors permissions existing rules =
    map (rule_of tenant employee doors) permissions
    ++ (if existing then filter (λ r. not (rule_for tenant employee r)) rules else rules)

-- The transaction of `upsertEmployee`, with the doors that were read before it: the row, its host and
-- its rules. Its plain reads see the rows `seen`, its writes meet the database `db`, in which other
-- requests have committed since; only the index on the external identifier refuses a second row. The
-- answer holds whether it was created.
unfoldable pub upsert_writes :
    (List Employee → ℕ)
    → ℕ
    → ℕ
    → EmployeeInput
    → EmployeeSource
    → Option Text
    → Option ℕ
    → List Door
    → Db
    → Db
    → Result Error (Bool × Employee) × Db
upsert_writes new_id tenant external_id dto source badge project doors seen db =
    if taken_card tenant external_id badge seen.employees
    then (err badge_in_use, db)
    else (let existing = is_some (find (has_external_id tenant external_id) seen.employees) in
        let (e, es) =
          save_employee new_id tenant external_id (filled_in dto source badge project)
            seen.employees db.employees in
        if not existing && any (has_external_id tenant external_id) db.employees
        then (err duplicate_entry, db)
        else (
          ok (not existing, e),
          record db {
            employees = es;
            hosts = update (λ h. h.tenant == tenant && is h.employee e.id) (follow dto) db.hosts;
            rules = rules_after tenant e.id doors dto.permissions existing db.rules;
          },
        ))

-- `isRetryableLockError`
abbrev pub is_deadlock : Error → Bool
is_deadlock deadlock = true
is_deadlock _ = false

-- `retryOnDeadlock`: a transaction that the database cancels (`deadlock`) runs again, `left` times at
-- most; `run` is the transaction with what other requests commit before it.
unfoldable pub retry_on_deadlock {ℓ} :
    {A : Type ℓ} → ℕ → ℕ → (ℕ → Db → Result Error A × Db) → Db → Result Error A × Db
retry_on_deadlock zero i run db = run i db
retry_on_deadlock (suc left) i run db =
    let again = retry_on_deadlock left (i + 1) run (run i db).1 in
    elim (run i db).0 [ ok a ↦ run i db | err e ↦ if is_deadlock e then again else run i db ]

-- `upsertEmployee`; `cancelled i` is whether the database cancels the run `i`, `others i` what other
-- requests commit before it, and `meanwhile i` what they commit between its reads and its writes.
unfoldable pub upsert_employee :
    (ℕ → Bool)
    → (ℕ → Db → Db)
    → (ℕ → Db → Db)
    → (List Employee → ℕ)
    → ℕ
    → ℕ
    → EmployeeInput
    → EmployeeSource
    → Db
    → Result Error (Bool × Employee) × Db
upsert_employee cancelled others meanwhile new_id tenant external_id dto source db =
    elim (upsert_checks tenant dto db) [
      | err e ↦ (err e, db)
      | ok (badge, project) ↦
          retry_on_deadlock 2 0
            (λ i d.
              if cancelled i
              then (err deadlock, others i d)
              else upsert_writes new_id tenant external_id dto source badge project db.doors
                  (others i d) (meanwhile i (others i d)))
            db
    ]

-- `deleteEmployee`: in one transaction.
unfoldable pub delete_employee : ℕ → ℕ → Db → Result Error Employee × Db
delete_employee tenant external_id db =
    elim (find (has_external_id tenant external_id) db.employees) [
      | none ↦ (err employee_not_found, db)
      | some e ↦ (
        ok e,
        record db {
          rules = filter (λ r. not (r.tenant == tenant && r.employee == e.id)) db.rules;
          events = update (linked tenant e.id) (λ l. record l { employee = none }) db.events;
          hosts =
              update (λ h. h.tenant == tenant && is h.employee e.id)
                (λ h. record h { employee = none }) db.hosts;
          devices = filter (λ l. not (linked tenant e.id l)) db.devices;
          bookings = filter (λ l. not (linked tenant e.id l)) db.bookings;
          employees = filter (λ x. not (x.id == e.id)) db.employees;
        },
      )
    ]
