-- ===== src/Access/Sync/Tests.antt =====
-- The synchronisation on concrete rows.
use digitalreception.Base.{
  map, refl, ok, true, false, ◌≡◌, ◌+◌, inl, inr, [], ◌∷◌, none, some, ltb, length, ap, sym, ◌∙◌,
}
use digitalreception.Text.{codes, same_text}
use digitalreception.Access.Verify.{normalise_badge_uid}
use digitalreception.Access.Sync.Store.{from_api, Employee, EmployeeInput, Db}
use digitalreception.Access.Sync.{
  blank, upsert_employee, upsert_checks, project_of, retry_on_deadlock, upsert_writes, taken_card,
  save_employee, rules_after, filled_in,
}
use digitalreception.Access.Sync.Cards.{OneCard, upsert_employee-OneCard}
use digitalreception.Access.Sync.Again.{upsert_employee-twice}

abbrev pere : Employee
pere = record (blank 1 1 501) { badge = some (codes "04A2") }

abbrev staff : Db
staff = record {
  employees = pere ∷ [];
  doors = [];
  sites = [];
  projects = [];
  rules = [];
  hosts = [];
  events = [];
  devices = [];
  bookings = [];
}

-- A new person with Pere's card.
abbrev same_card : EmployeeInput
same_card = record {
  first_name = codes "Nil";
  last_name = codes "Mas";
  email = none;
  department = none;
  job_title = none;
  badge_uid = some (some (codes "04:a2"));
  active = none;
  project = none;
  valid_from = none;
  valid_until = none;
  permissions = [];
}

one_row : OneCard staff.employees
one_row uid e f (inl a) (inl b) same x y =
    ap (λ z. z.external_id) a ∙ sym (ap (λ z. z.external_id) b)
one_row uid e f (inr a) m same x y = absurd a
one_row uid e f (inl a) (inr b) same x y = absurd b

upsert_employee-OneCard_example :
    OneCard
      (upsert_employee
        (λ i. ltb i 1)
        (λ i d. d)
        (λ i d. d)
        (λ es. length es + 1)
        1
        502
        same_card
        from_api
        staff).1.employees
upsert_employee-OneCard_example =
    upsert_employee-OneCard (λ i. ltb i 1) (λ i d. d) (λ i d. d) (λ es. length es + 1) 1 502
      same_card from_api staff (λ i d h. h) (λ i d. refl) one_row

-- A new person with a card of her own.
abbrev own_card : EmployeeInput
own_card = record same_card { badge_uid = some (some (codes "04:b3")) }

abbrev nil : Employee
nil = record (blank 2 1 502) {
  first_name = some (codes "Nil");
  last_name = some (codes "Mas");
  badge = some (codes "04B3");
  badge_hint = some (codes "04B3");
}

abbrev joined : Db
joined = record staff { employees = nil ∷ pere ∷ [] }

nil_joins :
    upsert_employee
      (λ i. false)
      (λ i d. d)
      (λ i d. d)
      (λ es. length es + 1)
      1
      502
      own_card
      from_api
      staff
    ≡ (ok (true, nil), joined)
unfolding upsert_employee upsert_checks normalise_badge_uid project_of retry_on_deadlock
    upsert_writes taken_card same_text save_employee rules_after filled_in
nil_joins = refl

upsert_employee-twice_example :
    upsert_employee
      (λ i. false)
      (λ i d. d)
      (λ i d. d)
      (λ es. length es + 1)
      1
      502
      own_card
      from_api
      joined
    ≡ (ok (false, nil), joined)
upsert_employee-twice_example =
    upsert_employee-twice (λ es. length es + 1) 1 502 own_card from_api staff joined true nil refl
      refl nil_joins

-- A request for another person with Pere's card commits between the reads and the writes of this one:
-- two persons have the card.
abbrev raced : Db
raced =
    (upsert_employee (λ i. false) (λ i d. d) (λ i d. staff) (λ es. length es + 1) 1 502 same_card
      from_api (record staff { employees = [] })).1

two_holders :
    (map (λ e. e.external_id) raced.employees ≡ 502 ∷ 501 ∷ [])
    × (map (λ e. e.badge) raced.employees ≡ some (codes "04A2") ∷ some (codes "04A2") ∷ [])
unfolding upsert_employee upsert_checks normalise_badge_uid project_of retry_on_deadlock
    upsert_writes taken_card same_text save_employee rules_after filled_in
two_holders = (refl, refl)
