-- ===== src/Access/Sync/Again.antt =====
-- The synchronisation of a person sent twice (access.service.ts, `upsertEmployee`).
use digitalreception.Base.{
  filter-find-none, Bool, Option-cases, List, ℕ, suc, ◌≡◌, refl, inl, inr, arith, Bool, true, false,
  ◌&&◌, not, List, ◌++◌, map, any, Option, none, some, is, ◌==◌, find, update, filter, Result, ok,
  err, Bool-cases, Option-cases, Result-cases, sym, ◌∙◌, ap, subst, is_some,
}
use digitalreception.Text.{Text}
use digitalreception.Access.Verify.{truthy}
use digitalreception.Access.Sync.Store.{
  Employee, EmployeeInput, EmployeeSource, Door, Rule, Db, Host, Error, PermissionInput,
  badge_in_use,
}
use digitalreception.Access.Sync.{
  badge_of, filled_in, blank, has_external_id, taken_card, follow, rule_for, rule_of, rules_after,
  upsert_writes, retry_on_deadlock, upsert_employee, upsert_checks, project_of,
}
use digitalreception.Access.Sync.Cards.{upsert_checks-badge}
use digitalreception.Base.{update-twice, filter-all, filter-twice, any-none, filter-map-none}
use digitalreception.Access.Sync.Rows.{
  save_alone, ==-refl, save_employee-twice, save_employee-new, taken_card-again,
}

abbrev named : {A : Type 0} → Option A → Option A → Option A
named o a = elim o [ none ↦ a | some d ↦ some d ]

named-twice : {A : Type 0} (o a : Option A) → named o (named o a) ≡ named o a
named-twice none a = refl
named-twice (some d) a = refl

follow-twice : (dto : EmployeeInput) (h : Host) → follow dto (follow dto h) ≡ follow dto h
follow-twice dto h = λ i. record (follow dto h) {
  department = named-twice (truthy dto.department) h.department i;
  job_title = named-twice (truthy dto.job_title) h.job_title i;
}

rules_after-twice :
    (tenant employee : ℕ) (doors : List Door) (ps : List PermissionInput) (existing : Bool)
    (rules : List Rule)
    → (existing ≡ false → any (rule_for tenant employee) rules ≡ false)
    → let after = rules_after tenant employee doors ps existing rules in
      rules_after tenant employee doors ps true after ≡ after
unfolding rules_after
rules_after-twice tenant employee doors ps existing rules new =
    let keep = λ (r : Rule). not (rule_for tenant employee r) in
    let ours = map (rule_of tenant employee doors) ps in
    let gone = λ (xs : List Rule).
      filter-map-none keep (rule_of tenant employee doors) ps xs
        (λ p. ground (arith, ==-refl tenant, ==-refl employee)) in
    elim (Bool-cases existing) [
      | inl old ↦
          rw old (ap (λ rs. ours ++ rs) (gone (filter keep rules) ∙ filter-twice keep rules))
      | inr made ↦ rw made (
          ap (λ rs. ours ++ rs)
            (gone rules
              ∙ filter-all keep rules (
                  any-none (λ r. not (keep r)) (rule_for tenant employee) rules
                    (λ r h. ground (arith, h)) (new made))))
    ]

abbrev write_alone :
    (List Employee → ℕ)
    → ℕ
    → ℕ
    → EmployeeInput
    → EmployeeSource
    → Option Text
    → Option ℕ
    → List Door
    → Db
    → Result Error (Bool × Employee) × Db
write_alone new_id tenant external_id dto source badge project doors db =
    upsert_writes new_id tenant external_id dto source badge project doors db db

upsert_writes-free :
    (new_id : List Employee → ℕ) (tenant external_id : ℕ) (dto : EmployeeInput)
    (source : EmployeeSource) (b : Option Text) (project : Option ℕ) (doors : List Door) (db : Db)
    → taken_card tenant external_id b db.employees ≡ false
    → let existing = is_some (find (has_external_id tenant external_id) db.employees) in
      let s = save_alone new_id tenant external_id (filled_in dto source b project) db.employees in
      write_alone new_id tenant external_id dto source b project doors db ≡ (
        ok (not existing, s.0),
        record db {
          employees = s.1;
          hosts = update (λ h. h.tenant == tenant && is h.employee s.0.id) (follow dto) db.hosts;
          rules = rules_after tenant s.0.id doors dto.permissions existing db.rules;
        },
      )
unfolding upsert_writes
upsert_writes-free new_id tenant external_id dto source b project doors db free =
    let mine = has_external_id tenant external_id in
    elim (Option-cases (find mine db.employees)) [
      | inl new ↦ rw (upsert_writes, free, new, filter-find-none mine db.employees new) refl
      | inr (x, found) ↦ rw (upsert_writes, free, found) refl
    ]

-- A new person has no rules.
save_employee-unlinked :
    (new_id : List Employee → ℕ) (tenant external_id : ℕ) (fill : Employee → Employee)
    (es : List Employee) (rules : List Rule)
    → any (λ r. r.employee == new_id es) rules ≡ false
    → ((x : Employee) → (fill x).id ≡ x.id)
    → is_some (find (has_external_id tenant external_id) es) ≡ false
    → any (rule_for tenant (save_alone new_id tenant external_id fill es).0.id) rules ≡ false
save_employee-unlinked new_id tenant external_id fill es rules no_rules keeps missing =
    elim (Option-cases (find (has_external_id tenant external_id) es)) [
      | inl new ↦
          rw
            (
              save_employee-new new_id tenant external_id fill es new,
              keeps (blank (new_id es) tenant external_id),
            )
            (any-none (rule_for tenant (new_id es)) (λ r. r.employee == new_id es) rules
              (λ r h. ground (arith, h)) no_rules)
      | inr (x, found) ↦ absurd (ground (arith, found, missing))
    ]

upsert_writes-twice :
    (new_id : List Employee → ℕ) (tenant external_id : ℕ) (dto : EmployeeInput)
    (source : EmployeeSource) (project : Option ℕ) (doors : List Door) (db : Db)
    → any (λ e. e.id == new_id db.employees) db.employees ≡ false
    → any (λ r. r.employee == new_id db.employees) db.rules ≡ false
    → taken_card tenant external_id (badge_of dto) db.employees ≡ false
    → let run = write_alone new_id tenant external_id dto source (badge_of dto) project doors in
      let s =
        save_alone new_id tenant external_id
          (filled_in dto source (badge_of dto) project)
          db.employees in
      run (run db).1 ≡ (ok (false, s.0), (run db).1)
unfolding filled_in
upsert_writes-twice new_id tenant external_id dto source project doors db fresh no_rules free =
    let b = badge_of dto in
    let fill = filled_in dto source b project in
    let mine = has_external_id tenant external_id in
    let s = save_alone new_id tenant external_id fill db.employees in
    let there =
      save_employee-twice new_id tenant external_id dto source project b db.employees fresh in
    let existing = is_some (find mine db.employees) in
    let linked = λ (h : Host). h.tenant == tenant && is h.employee s.0.id in
    let first = upsert_writes-free new_id tenant external_id dto source b project doors db free in
    let hs = update-twice linked (follow dto) db.hosts (λ h m. follow-twice dto h) in
    let new : existing ≡ false → any (rule_for tenant s.0.id) db.rules ≡ false =
      save_employee-unlinked new_id tenant external_id fill db.employees db.rules no_rules
        (λ x. refl) in
    let rs = rules_after-twice tenant s.0.id doors dto.permissions existing db.rules new in
    let db₁ : Db = record db {
      employees = s.1;
      hosts = update linked (follow dto) db.hosts;
      rules = rules_after tenant s.0.id doors dto.permissions existing db.rules;
    } in
    let again =
      upsert_writes-free new_id tenant external_id dto source b project doors db₁
        (taken_card-again new_id tenant external_id dto source project db.employees free) in
    let is_there : is_some (find mine s.1) ≡ true = rw (there.0) refl in
    rw first (
      again
      ∙ (λ i. (
        ok (not (is_there i), (there.1 i).0),
        record db₁ {
          employees = (there.1 i).1;
          hosts =
              update (λ h. h.tenant == tenant && is h.employee (there.1 i).0.id) (follow dto)
                db₁.hosts;
          rules = rules_after tenant (there.1 i).0.id doors dto.permissions (is_there i) db₁.rules;
        },
      ))
      ∙ (λ i. (ok (false, s.0), record db₁ { hosts = hs i; rules = rs i })))

upsert_writes-taken :
    (new_id : List Employee → ℕ) (tenant external_id : ℕ) (dto : EmployeeInput)
    (source : EmployeeSource) (b : Option Text) (project : Option ℕ) (doors : List Door) (db : Db)
    → taken_card tenant external_id b db.employees ≡ true
    → write_alone new_id tenant external_id dto source b project doors db ≡ (err badge_in_use, db)
unfolding upsert_writes
upsert_writes-taken new_id tenant external_id dto source b project doors db taken =
    rw (upsert_writes, taken) refl

retry_on_deadlock-ok :
    {A : Type 0} (left i : ℕ) (run : ℕ → Db → Result Error A × Db) (db d : Db) (a : A)
    → run i db ≡ (ok a, d)
    → retry_on_deadlock (suc left) i run db ≡ (ok a, d)
unfolding retry_on_deadlock
retry_on_deadlock-ok left i run db d a h = rw (retry_on_deadlock, h) h

retry_on_deadlock-err :
    {A : Type 0} (left i : ℕ) (run : ℕ → Db → Result Error A × Db) (db d : Db)
    → run i db ≡ (err badge_in_use, d)
    → retry_on_deadlock (suc left) i run db ≡ (err badge_in_use, d)
unfolding retry_on_deadlock
retry_on_deadlock-err left i run db d h = rw (retry_on_deadlock, h) h

-- A request that no other meets and that the database does not cancel is one transaction.
upsert_employee-alone :
    (new_id : List Employee → ℕ) (tenant external_id : ℕ) (dto : EmployeeInput)
    (source : EmployeeSource) (project : Option ℕ) (db : Db)
    → upsert_checks tenant dto db ≡ ok (badge_of dto, project)
    → upsert_employee (λ i. false) (λ i d. d) (λ i d. d) new_id tenant external_id dto source db
      ≡ write_alone new_id tenant external_id dto source (badge_of dto) project db.doors db
unfolding upsert_employee
upsert_employee-alone new_id tenant external_id dto source project db good =
    let run = λ (i : ℕ) (d : Db).
      write_alone new_id tenant external_id dto source (badge_of dto) project db.doors d in
    elim (Bool-cases (taken_card tenant external_id (badge_of dto) db.employees)) [
      | inl taken ↦
          let w =
            upsert_writes-taken new_id tenant external_id dto source (badge_of dto) project db.doors
              db taken in
          rw (upsert_employee, good) (retry_on_deadlock-err 1 0 run db db w ∙ sym w)
      | inr free ↦
          let w =
            upsert_writes-free new_id tenant external_id dto source (badge_of dto) project db.doors
              db free in
          rw (upsert_employee, good) (retry_on_deadlock-ok 1 0 run db _ _ w ∙ sym w)
    ]

upsert_checks-again :
    (new_id : List Employee → ℕ) (tenant external_id : ℕ) (dto : EmployeeInput)
    (source : EmployeeSource) (project : Option ℕ) (db : Db)
    → taken_card tenant external_id (badge_of dto) db.employees ≡ false
    → let after =
        (write_alone new_id tenant external_id dto source (badge_of dto) project db.doors db).1 in
      (upsert_checks tenant dto after ≡ upsert_checks tenant dto db) × (after.doors ≡ db.doors)
unfolding upsert_checks project_of
upsert_checks-again new_id tenant external_id dto source project db free =
    rw
      (upsert_writes-free new_id tenant external_id dto source (badge_of dto) project db.doors db
        free)
      (refl, refl)

upsert_employee-refused :
    (new_id : List Employee → ℕ) (tenant external_id : ℕ) (dto : EmployeeInput)
    (source : EmployeeSource) (db : Db) (why : Error)
    → upsert_checks tenant dto db ≡ err why
    → upsert_employee (λ i. false) (λ i d. d) (λ i d. d) new_id tenant external_id dto source db
      ≡ (err why, db)
unfolding upsert_employee
upsert_employee-refused new_id tenant external_id dto source db why bad =
    rw (upsert_employee, bad) refl

abbrev failed : {A : Type 0} → Result Error A → Bool
failed (ok a) = false
failed (err e) = true

refused-accepted :
    {A : Type 0} (r : Result Error A × Db) (why : Error) (a : A) (d₁ d₂ : Db)
    → r ≡ (err why, d₁)
    → r ≡ (ok a, d₂)
    → true ≡ false
refused-accepted r why a d₁ d₂ bad good = sym (ap (λ x. failed x.0) bad) ∙ ap (λ x. failed x.0) good

abbrev row_or : Employee → Result Error (Bool × Employee) → Employee
row_or e (ok r) = r.1
row_or e (err why) = e

-- The second run of a request whose first run wrote.
upsert_employee-repeats :
    (new_id : List Employee → ℕ) (tenant external_id : ℕ) (dto : EmployeeInput)
    (source : EmployeeSource) (project : Option ℕ) (db after : Db) (created : Bool) (e : Employee)
    → any (λ x. x.id == new_id db.employees) db.employees ≡ false
    → any (λ r. r.employee == new_id db.employees) db.rules ≡ false
    → upsert_checks tenant dto db ≡ ok (badge_of dto, project)
    → write_alone new_id tenant external_id dto source (badge_of dto) project db.doors db
      ≡ (ok (created, e), after)
    → upsert_employee (λ i. false) (λ i d. d) (λ i d. d) new_id tenant external_id dto source after
      ≡ (ok (false, e), after)
upsert_employee-repeats new_id tenant external_id dto source project db after created e fresh
      no_rules checked written =
    let b = badge_of dto in
    let write = λ (ds : List Door) (d : Db).
      write_alone new_id tenant external_id dto source b project ds d in
    let first = write db.doors db in
    elim (Bool-cases (taken_card tenant external_id b db.employees)) [
      | inl taken ↦ absurd (
          ground (
            arith,
            refused-accepted _ badge_in_use (created, e) db after
                (upsert_writes-taken new_id tenant external_id dto source b project db.doors db
                  taken)
                written,
          ))
      | inr free ↦
          let row =
            (save_alone new_id tenant external_id (filled_in dto source b project)
              db.employees).0 in
          let saved : row ≡ e =
            sym (
              ap (λ r. row_or row r.0)
                (upsert_writes-free new_id tenant external_id dto source b project db.doors db
                  free))
            ∙ ap (λ r. row_or row r.0) written in
          let (checks, doors) =
            upsert_checks-again new_id tenant external_id dto source project db free in
          subst
            (λ d.
              upsert_employee (λ i. false) (λ i d. d) (λ i d. d) new_id tenant external_id dto
                source d
              ≡ (ok (false, e), d))
            (ap (λ r. r.1) written)
            (upsert_employee-alone new_id tenant external_id dto source project first.1
                (checks ∙ checked)
              ∙ ap (λ ds. write ds first.1) doors
              ∙ upsert_writes-twice new_id tenant external_id dto source project db.doors db fresh
                  no_rules free
              ∙ ap (λ x. (ok (false, x), first.1)) saved)
    ]

-- The synchronisation is idempotent: a request for a person that is accepted, alone and not
-- cancelled, and is sent again at once changes nothing the second time, which is accepted too, with
-- the same row and not as a creation, when no row of an employee or a rule has the identifier that
-- the first would give to a new row.
pub upsert_employee-twice :
    (new_id : List Employee → ℕ) (tenant external_id : ℕ) (dto : EmployeeInput)
    (source : EmployeeSource) (db after : Db) (created : Bool) (e : Employee)
    → any (λ x. x.id == new_id db.employees) db.employees ≡ false
    → any (λ r. r.employee == new_id db.employees) db.rules ≡ false
    → upsert_employee (λ i. false) (λ i d. d) (λ i d. d) new_id tenant external_id dto source db
      ≡ (ok (created, e), after)
    → upsert_employee (λ i. false) (λ i d. d) (λ i d. d) new_id tenant external_id dto source after
      ≡ (ok (false, e), after)
upsert_employee-twice new_id tenant external_id dto source db after created e fresh no_rules done =
    elim (Result-cases (upsert_checks tenant dto db)) [
      | inr (why, bad) ↦ absurd (
          ground (
            arith,
            refused-accepted _ why (created, e) db after
                (upsert_employee-refused new_id tenant external_id dto source db why bad) done,
          ))
      | inl ((badge, project), good) ↦
          let same = upsert_checks-badge tenant dto db badge project good in
          let checked : upsert_checks tenant dto db ≡ ok (badge_of dto, project) =
            subst (λ o. upsert_checks tenant dto db ≡ ok (o, project)) (sym same) good in
          upsert_employee-repeats new_id tenant external_id dto source project db after created e
            fresh no_rules checked
            (sym (upsert_employee-alone new_id tenant external_id dto source project db checked)
              ∙ done)
    ]
