-- ===== src/Access/Sync/Cards.antt =====
-- One card, one person (access.service.ts, `upsertEmployee`).
use digitalreception.Base.{
  not, any, is_some, ℕ, zero, suc, ◌+◌, ◌≡◌, refl, inl, inr, ◌⊎◌, arith, Bool, true, false, ◌&&◌,
  List, [], ◌∷◌, Option, some, ◌==◌, if◌then◌else◌, find, update, Result, ok, err, Bool-cases,
  Option-cases, Result-cases, In, In-update, >>=-ok, require, all, find_sound, find-In, any-In,
  filter-find-none, sym, ◌∙◌, ap, subst,
}
use digitalreception.Text.{Text, same_text}
use digitalreception.Access.Verify.{has_badge}
use digitalreception.Access.Sync.Store.{
  Employee, EmployeeInput, EmployeeSource, Door, Db, Error, deadlock, unknown_door,
  time_window_incomplete, invalid_badge_uid,
}
use digitalreception.Access.Sync.{
  badge_of, upsert_checks, project_of, known_door, whole_window, long_enough, is_deadlock,
  filled_in, blank, has_external_id, taken_card, save_employee, upsert_writes, retry_on_deadlock,
  upsert_employee,
}

same_text-≡ : (a b : Text) → same_text a b ≡ true → a ≡ b
unfolding same_text
same_text-≡ [] [] h = refl
same_text-≡ [] (y ∷ ys) h = cc
same_text-≡ (x ∷ xs) [] h = cc
same_text-≡ (x ∷ xs) (y ∷ ys) h =
    let first : x ≡ y = ground (arith, h) in
    let rest = same_text-≡ xs ys (ground (arith, h)) in
    ap (λ z. z ∷ xs) first ∙ ap (λ zs. y ∷ zs) rest

-- Rows of an organisation with the same card are of the same person of the external system.
abbrev pub OneCard : List Employee → Type 0
OneCard es =
    (uid : Text) (e f : Employee)
    → In e es
    → In f es
    → e.tenant ≡ f.tenant
    → has_badge uid e.badge ≡ true
    → has_badge uid f.badge ≡ true
    → e.external_id ≡ f.external_id

-- A row that may join the table.
abbrev Fits : Employee → List Employee → Type 0
Fits r es =
    (uid : Text) (f : Employee)
    → In f es
    → f.tenant ≡ r.tenant
    → has_badge uid r.badge ≡ true
    → has_badge uid f.badge ≡ true
    → f.external_id ≡ r.external_id

Fits-OneCard :
    (r : Employee) (es rows : List Employee)
    → OneCard es
    → Fits r es
    → ((e : Employee) → In e rows → (e ≡ r) ⊎ In e es)
    → OneCard rows
Fits-OneCard r es rows one fits from uid e f m n same a b = elim (from e m) [
  | inl e_new ↦ elim (from f n) [
    | inl f_new ↦ ap (λ z. z.external_id) (e_new ∙ sym f_new)
    | inr f_old ↦
        ap (λ z. z.external_id) e_new
        ∙ sym (
            fits uid f f_old (sym same ∙ ap (λ z. z.tenant) e_new)
              (subst (λ z. has_badge uid z.badge ≡ true) e_new a) b)
  ]
  | inr e_old ↦ elim (from f n) [
    | inl f_new ↦
        fits uid e e_old (same ∙ ap (λ z. z.tenant) f_new)
          (subst (λ z. has_badge uid z.badge ≡ true) f_new b) a
        ∙ sym (ap (λ z. z.external_id) f_new)
    | inr f_old ↦ one uid e f e_old f_old same a b
  ]
]

-- A card that is not another person's is on no row of another person.
taken_card-free :
    (tenant external_id : ℕ) (b uid : Text) (es : List Employee) (f : Employee)
    → OneCard es
    → taken_card tenant external_id (some b) es ≡ false
    → In f es
    → f.tenant ≡ tenant
    → has_badge uid (some b) ≡ true
    → has_badge uid f.badge ≡ true
    → f.external_id ≡ external_id
unfolding taken_card
taken_card-free tenant external_id b uid es f one free m same ours theirs =
    let mine = λ (e : Employee). e.tenant == tenant && has_badge b e.badge in
    let at : b ≡ uid = same_text-≡ b uid ours in
    let has_b : has_badge b f.badge ≡ true =
      subst (λ t. has_badge t f.badge ≡ true) (sym at) theirs in
    elim (Option-cases (find mine es)) [
      | inl gone ↦ absurd (
          ground (
            arith,
            any-In mine es f m (ground (arith, has_b, same)),
            filter-find-none mine es gone,
          ))
      | inr (owner, found) ↦
          let row = find_sound mine es owner found in
          let is_ours : owner.external_id ≡ external_id = ground (arith, free, found) in
          one b f owner m (find-In mine es owner found) (ground (arith, same, row)) has_b
            (ground (arith, row))
          ∙ is_ours
    ]

filled_in-Fits :
    (tenant external_id : ℕ) (dto : EmployeeInput) (source : EmployeeSource) (project : Option ℕ)
    (x : Employee) (es : List Employee)
    → OneCard es
    → taken_card tenant external_id (badge_of dto) es ≡ false
    → x.tenant ≡ tenant
    → x.external_id ≡ external_id
    → Fits x es
    → Fits (filled_in dto source (badge_of dto) project x) es
unfolding filled_in
filled_in-Fits tenant external_id dto source project x es one free at_tenant at_id old uid f m same
      a b =
    elim (Option-cases dto.badge_uid) [
      | inl absent ↦ old uid f m same (ground (arith, a, absent)) b
      | inr (given, present) ↦ elim (Option-cases (badge_of dto)) [
        | inl no_card ↦ absurd (ground (arith, a, present, no_card))
        | inr (card, is_card) ↦
            taken_card-free tenant external_id card uid es f one
              (subst (λ o. taken_card tenant external_id o es ≡ false) is_card free) m
              (same ∙ at_tenant) (ground (arith, a, present, is_card)) b
            ∙ sym at_id
      ]
    ]

save_employee-OneCard :
    (new_id : List Employee → ℕ) (tenant external_id : ℕ) (dto : EmployeeInput)
    (source : EmployeeSource) (project : Option ℕ) (es : List Employee)
    → OneCard es
    → taken_card tenant external_id (badge_of dto) es ≡ false
    → OneCard
        (save_employee new_id tenant external_id
          (filled_in dto source (badge_of dto) project)
          es
          es).1
unfolding save_employee
save_employee-OneCard new_id tenant external_id dto source project es one free =
    let fill = filled_in dto source (badge_of dto) project in
    elim (Option-cases (find (has_external_id tenant external_id) es)) [
      | inl new ↦
          let row = blank (new_id es) tenant external_id in
          rw (save_employee, new)
            (Fits-OneCard (fill row) es (fill row ∷ es) one
              (filled_in-Fits tenant external_id dto source project row es one free refl refl
                (λ uid f m same a b. absurd (ground (arith, a))))
              (λ e m. m))
      | inr (x, found) ↦
          let row = find_sound (has_external_id tenant external_id) es x found in
          let there = find-In (has_external_id tenant external_id) es x found in
          rw (save_employee, found)
            (Fits-OneCard (fill x) es (update (λ y. y.id == x.id) (λ y. fill x) es) one
              (filled_in-Fits tenant external_id dto source project x es one free
                (ground (arith, row)) (ground (arith, row))
                (λ uid f m same a b. one uid f x m there same b a))
              (λ e m.
                let (y, n, at) = In-update (λ (z : Employee). z.id == x.id) (λ z. fill x) es e m in
                elim (Bool-cases (y.id == x.id)) [
                  | inl hits ↦ inl (ground (arith, at, hits))
                  | inr misses ↦
                      let same : e ≡ y = ground (arith, at, misses) in
                      inr (subst (λ z. In z es) (sym same) n)
                ]))
    ]

upsert_writes-OneCard :
    (new_id : List Employee → ℕ) (tenant external_id : ℕ) (dto : EmployeeInput)
    (source : EmployeeSource) (project : Option ℕ) (doors : List Door) (seen db : Db)
    → db.employees ≡ seen.employees
    → OneCard seen.employees
    → OneCard
        (upsert_writes new_id tenant external_id dto source
          (badge_of dto)
          project
          doors
          seen
          db).1.employees
unfolding upsert_writes
upsert_writes-OneCard new_id tenant external_id dto source project doors seen db same one =
    let stays : OneCard db.employees = subst OneCard (sym same) one in
    let fill = filled_in dto source (badge_of dto) project in
    elim (Bool-cases (taken_card tenant external_id (badge_of dto) seen.employees)) [
      | inl taken ↦ rw (upsert_writes, taken) stays
      | inr free ↦
          let next =
            subst (λ es. OneCard (save_employee new_id tenant external_id fill seen.employees es).1)
              (sym same)
              (save_employee-OneCard new_id tenant external_id dto source project seen.employees one
                free) in
          elim (Bool-cases (
            not (is_some (find (has_external_id tenant external_id) seen.employees))
            && any (has_external_id tenant external_id) db.employees)) [
              | inl twice ↦ rw (upsert_writes, free, twice) stays
              | inr once ↦ rw (upsert_writes, free, once) next
            ]
    ]

retry_on_deadlock-keeps :
    {A : Type 0} (P : Db → Type 0) (left i : ℕ) (run : ℕ → Db → Result Error A × Db) (db : Db)
    → ((k : ℕ) (d : Db) → P d → P (run k d).1)
    → P db
    → P (retry_on_deadlock left i run db).1
unfolding retry_on_deadlock
retry_on_deadlock-keeps P zero i run db h p = h i db p
retry_on_deadlock-keeps P (suc left) i run db h p =
    let next = retry_on_deadlock-keeps P left (i + 1) run (run i db).1 h (h i db p) in
    elim (Result-cases (run i db).0) [
      | inl (a, good) ↦ rw (retry_on_deadlock, good) (h i db p)
      | inr (e, bad) ↦ elim (Bool-cases (is_deadlock e)) [
        | inl again ↦ rw (retry_on_deadlock, bad, again) next
        | inr stop ↦ rw (retry_on_deadlock, bad, stop) (h i db p)
      ]
    ]

pub upsert_checks-badge :
    (tenant : ℕ) (dto : EmployeeInput) (db : Db) (badge : Option Text) (project : Option ℕ)
    → upsert_checks tenant dto db ≡ ok (badge, project)
    → badge_of dto ≡ badge
unfolding upsert_checks
upsert_checks-badge tenant dto db badge project h =
    let (u, doors, h₁) =
      >>=-ok (require (all (known_door tenant db) dto.permissions) unknown_door) _ (badge, project)
        h in
    let (v, windows, h₂) =
      >>=-ok (require (all whole_window dto.permissions) time_window_incomplete) _ (badge, project)
        h₁ in
    let (w, long, h₃) =
      >>=-ok (require (long_enough (badge_of dto)) invalid_badge_uid) _ (badge, project) h₂ in
    let (p, named, h₄) = >>=-ok (project_of tenant dto db) _ (badge, project) h₃ in
    ground (arith, h₄)

-- One card, one person: whatever the external system sends for a person, however often the database
-- cancels the transaction, the rows of an organisation with the same card are of the same person of the
-- external system afterwards, when they are so before, the requests that commit before each run keep
-- them so, and none commits a change to an employee between the reads and the writes of a run.
pub upsert_employee-OneCard :
    (cancelled : ℕ → Bool) (others meanwhile : ℕ → Db → Db) (new_id : List Employee → ℕ)
    (tenant external_id : ℕ) (dto : EmployeeInput) (source : EmployeeSource) (db : Db)
    → ((i : ℕ) (d : Db) → OneCard d.employees → OneCard (others i d).employees)
    → ((i : ℕ) (d : Db) → (meanwhile i d).employees ≡ d.employees)
    → OneCard db.employees
    → OneCard
        (upsert_employee cancelled others meanwhile new_id tenant external_id dto source
          db).1.employees
unfolding upsert_employee upsert_checks
upsert_employee-OneCard cancelled others meanwhile new_id tenant external_id dto source db keep
      quiet one =
    elim (Result-cases (upsert_checks tenant dto db)) [
      | inr (e, bad) ↦ rw (upsert_employee, bad) one
      | inl ((badge, project), good) ↦
          let same : badge_of dto ≡ badge = upsert_checks-badge tenant dto db badge project good in
          let write = λ (o : Option Text) (i : ℕ) (d : Db).
            upsert_writes new_id tenant external_id dto source o project db.doors (others i d)
              (meanwhile i (others i d)) in
          let run = λ (i : ℕ) (d : Db).
            if cancelled i then (err deadlock, others i d) else write badge i d in
          let turn : (i : ℕ) (d : Db) → OneCard d.employees → OneCard (run i d).1.employees =
            λ i d h. elim (Bool-cases (cancelled i)) [
              | inl yes_cancelled ↦ rw yes_cancelled (keep i d h)
              | inr runs ↦ rw runs (
                  subst (λ (o : Option Text). OneCard (write o i d).1.employees) same
                    (upsert_writes-OneCard new_id tenant external_id dto source project db.doors
                      (others i d) (meanwhile i (others i d)) (quiet i (others i d)) (keep i d h)))
            ] in
          rw (upsert_employee, good)
            (retry_on_deadlock-keeps (λ d. OneCard d.employees) 2 0 run db turn one)
    ]
