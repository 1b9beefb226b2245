-- ===== src/Access/Sync/Rows.antt =====
-- The row of a person that is saved twice (access.service.ts, `upsertEmployee`).
use digitalreception.Base.{
  ℕ, ◌≡◌, refl, inl, inr, arith, true, false, ◌&&◌, List, ◌∷◌, any, Option, none, some, ◌==◌, find,
  update, Option-cases, find_sound, sym, ◌∙◌, ap, subst,
}
use digitalreception.Text.{Text}
use digitalreception.Access.Verify.{has_badge}
use digitalreception.Access.Verify.Phone.{same_text_refl}
use digitalreception.Access.Sync.Store.{Employee, EmployeeInput, EmployeeSource}
use digitalreception.Access.Sync.{
  badge_of, hint, filled_in, blank, has_external_id, taken_card, save_employee,
}
use digitalreception.Base.{update-idle, update-twice, find-update, found-update}

-- With no other request between the reads and the writes.
abbrev pub save_alone :
    (List Employee → ℕ) → ℕ → ℕ → (Employee → Employee) → List Employee → Employee × List Employee
save_alone new_id tenant external_id fill es = save_employee new_id tenant external_id fill es es

abbrev pick : {A B : Type 0} → Option B → A → A → A
pick o a b = elim o [ none ↦ a | some z ↦ b ]

pick-twice : {A B : Type 0} (o : Option B) (a b : A) → pick o (pick o a b) b ≡ pick o a b
pick-twice none a b = refl
pick-twice (some z) a b = refl

fill-twice :
    (dto : EmployeeInput) (source : EmployeeSource) (project : Option ℕ) (b : Option Text)
    (x : Employee)
    → filled_in dto source b project (filled_in dto source b project x)
      ≡ filled_in dto source b project x
unfolding filled_in
fill-twice dto source project b x = λ i. record (filled_in dto source b project x) {
  badge = pick-twice dto.badge_uid x.badge b i;
  badge_hint = pick-twice dto.badge_uid x.badge_hint (hint b) i;
  project = pick-twice dto.project x.project project i;
}

pub ==-refl : (n : ℕ) → (n == n) ≡ true
==-refl n = ground (arith)

pub save_employee-found :
    (new_id : List Employee → ℕ) (tenant external_id : ℕ) (fill : Employee → Employee)
    (es : List Employee) (x : Employee)
    → find (has_external_id tenant external_id) es ≡ some x
    → save_alone new_id tenant external_id fill es
      ≡ (fill x, update (λ y. y.id == x.id) (λ y. fill x) es)
unfolding save_employee
save_employee-found new_id tenant external_id fill es x found = rw (save_employee, found) refl

pub save_employee-new :
    (new_id : List Employee → ℕ) (tenant external_id : ℕ) (fill : Employee → Employee)
    (es : List Employee)
    → find (has_external_id tenant external_id) es ≡ none
    → let e = fill (blank (new_id es) tenant external_id) in
      save_alone new_id tenant external_id fill es ≡ (e, e ∷ es)
unfolding save_employee
save_employee-new new_id tenant external_id fill es new = rw (save_employee, new) refl

pub save_employee-twice :
    (new_id : List Employee → ℕ) (tenant external_id : ℕ) (dto : EmployeeInput)
    (source : EmployeeSource) (project : Option ℕ) (b : Option Text) (es : List Employee)
    → any (λ e. e.id == new_id es) es ≡ false
    → let fill = filled_in dto source b project in
      let (e, rows) = save_alone new_id tenant external_id fill es in
      (find (has_external_id tenant external_id) rows ≡ some e)
      × (save_alone new_id tenant external_id fill rows ≡ (e, rows))
unfolding filled_in
save_employee-twice new_id tenant external_id dto source project b es fresh =
    let fill = filled_in dto source b project in
    let mine = has_external_id tenant external_id in
    elim (Option-cases (find mine es)) [
      | inl new ↦
          let x = blank (new_id es) tenant external_id in
          let row : mine (fill x) ≡ true = ground (arith, ==-refl tenant, ==-refl external_id) in
          let first = save_employee-new new_id tenant external_id fill es new in
          let there : find mine (fill x ∷ es) ≡ some (fill x) = ground (arith, row) in
          let same : fill (fill x) ≡ fill x = fill-twice dto source project b x in
          let idle : update (λ y. y.id == (fill x).id) (λ y. fill (fill x)) es ≡ es =
            update-idle (λ y. y.id == new_id es) (λ y. fill (fill x)) es fresh in
          rw first (
            there,
            save_employee-found new_id tenant external_id fill (fill x ∷ es) (fill x) there
                ∙ rw (==-refl (new_id es)) (
                    ap (λ rs. (fill (fill x), fill (fill x) ∷ rs)) idle
                    ∙ ap (λ z. (z, z ∷ es)) same),
          )
      | inr (x, found) ↦
          let at = find_sound mine es x found in
          let row : mine (fill x) ≡ true = ground (arith, at) in
          let there : find mine (update (λ y. y.id == x.id) (λ y. fill x) es) ≡ some (fill x) =
            find-update mine (λ y. y.id == x.id) (fill x) x es row found (==-refl x.id) in
          let rows = update (λ y. y.id == x.id) (λ y. fill x) es in
          let same : fill (fill x) ≡ fill x = fill-twice dto source project b x in
          rw (save_employee-found new_id tenant external_id fill es x found) (
            there,
            save_employee-found new_id tenant external_id fill rows (fill x) there
                ∙ rw (same, update-twice (λ y. y.id == x.id) (λ y. fill x) es (λ y h. refl)) refl,
          )
    ]

filled_in-card :
    (dto : EmployeeInput) (source : EmployeeSource) (project : Option ℕ) (uid : Text) (x : Employee)
    → badge_of dto ≡ some uid
    → has_badge uid (filled_in dto source (badge_of dto) project x).badge ≡ true
unfolding filled_in
filled_in-card dto source project uid x h = elim (Option-cases dto.badge_uid) [
  | inl absent ↦ absurd (ground (arith, absent, h))
  | inr (given, present) ↦ rw (present, h) (same_text_refl uid)
]

taken_card-its :
    (tenant external_id : ℕ) (uid : Text) (es : List Employee) (z : Employee)
    → taken_card tenant external_id (some uid) es ≡ false
    → find (λ e. e.tenant == tenant && has_badge uid e.badge) es ≡ some z
    → (z.external_id == external_id) ≡ true
unfolding taken_card
taken_card-its tenant external_id uid es z free found = ground (arith, free, found)

-- Whose card it is decides whether it is taken.
taken_card-owner :
    (tenant external_id : ℕ) (uid : Text) (es : List Employee)
    → ((z : Employee)
        → find (λ e. e.tenant == tenant && has_badge uid e.badge) es ≡ some z
        → (z.external_id == external_id) ≡ true)
    → taken_card tenant external_id (some uid) es ≡ false
unfolding taken_card
taken_card-owner tenant external_id uid es h =
    elim (Option-cases (find (λ e. e.tenant == tenant && has_badge uid e.badge) es)) [
      | inl free ↦ rw (taken_card, free) refl
      | inr (z, found) ↦ rw (taken_card, found, h z found) refl
    ]

-- A card that is not another person's is not so after the row is saved.
pub taken_card-again :
    (new_id : List Employee → ℕ) (tenant external_id : ℕ) (dto : EmployeeInput)
    (source : EmployeeSource) (project : Option ℕ) (es : List Employee)
    → taken_card tenant external_id (badge_of dto) es ≡ false
    → let rows =
        (save_alone new_id tenant external_id (filled_in dto source (badge_of dto) project) es).1 in
      taken_card tenant external_id (badge_of dto) rows ≡ false
unfolding taken_card filled_in
taken_card-again new_id tenant external_id dto source project es free =
    let b = badge_of dto in
    let fill = filled_in dto source b project in
    let mine = has_external_id tenant external_id in
    elim (Option-cases b) [
      | inl no_card ↦ rw no_card refl
      | inr (uid, is_card) ↦
          let q = λ (e : Employee). e.tenant == tenant && has_badge uid e.badge in
          let own = λ (z : Employee) (found : find q es ≡ some z).
            taken_card-its tenant external_id uid es z
              (subst (λ o. taken_card tenant external_id o es ≡ false) is_card free) found in
          elim (Option-cases (find mine es)) [
            | inl new ↦
                let x = blank (new_id es) tenant external_id in
                let hit : q (fill x) ≡ true =
                  ground (arith, ==-refl tenant, filled_in-card dto source project uid x is_card) in
                subst
                  (λ o.
                    taken_card tenant external_id o (save_alone new_id tenant external_id fill es).1
                    ≡ false)
                  (sym is_card)
                  (rw (save_employee-new new_id tenant external_id fill es new) (
                    taken_card-owner tenant external_id uid (fill x ∷ es) (λ z found.
                      let at : z ≡ fill x = ground (arith, found, hit) in
                      rw at (==-refl external_id))))
            | inr (x, found) ↦
                let at = find_sound mine es x found in
                let hit : q (fill x) ≡ true =
                  ground (arith, at, filled_in-card dto source project uid x is_card) in
                let rows = update (λ y. y.id == x.id) (λ y. fill x) es in
                subst
                  (λ o.
                    taken_card tenant external_id o (save_alone new_id tenant external_id fill es).1
                    ≡ false)
                  (sym is_card)
                  (rw (save_employee-found new_id tenant external_id fill es x found) (
                    taken_card-owner tenant external_id uid rows (λ z there.
                      elim (found-update q (λ y. y.id == x.id) (fill x) z es hit there) [
                        | inl at_x ↦ rw at_x (ground (arith, at))
                        | inr old ↦ own z old
                      ])))
          ]
    ]
