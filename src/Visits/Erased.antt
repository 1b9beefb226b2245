-- ===== src/Visits/Erased.antt =====
-- The right to erasure (visits.service.ts, `erase`).
use digitalreception.Base.{
  ℕ, ◌≡◌, inl, inr, arith, true, false, ◌&&◌, List, some, ◌==◌, ok, Result-cases, Bool-cases, In,
  In-update, sym, ◌∙◌, ap, subst, refl, find, find_sound, find-In, Option-cases,
}
use digitalreception.Invitations.Store.{StoredFile}
use digitalreception.Parcels.Desk.{AuthUser, site_access}
use digitalreception.Visits.Store.{Visit, Db, is_erased}
use digitalreception.Visits.Lifecycle.{nobody, kept_file, visit_with_id, anonymised, anonymize}
use digitalreception.Visits.Console.{load, erase}

load-id :
    (user : AuthUser) (id now : ℕ) (db : Db) (v : Visit)
    → load user id now db ≡ ok v
    → In v db.visits × (v.id ≡ id) × (v.tenant ≡ user.tenant) × (site_access user v.site ≡ true)
unfolding load
load-id user id now db v h =
    let mine = λ (x : Visit). x.id == id && x.tenant == user.tenant in
    elim (Option-cases (find mine db.visits)) [
      | inl gone ↦ absurd (ground (arith, h, gone))
      | inr (x, found) ↦
          let row = find_sound mine db.visits x found in
          let at : x ≡ v = ground (arith, h, found) in
          subst
            (λ (z : Visit).
              In z db.visits
              × (z.id ≡ id)
              × (z.tenant ≡ user.tenant)
              × (site_access user z.site ≡ true))
            at
            (
              find-In mine db.visits x found,
              ground (arith, row),
              ground (arith, row),
              ground (arith, h, found),
            )
    ]

-- After `anonymize` no row of the visit says who came, and none of its files is kept.
anonymize_sound :
    (tenant id now : ℕ) (db : Db)
    → ((v : Visit)
        → In v (anonymize tenant id true now db).visits
        → visit_with_id tenant id v ≡ true
        → (v.person ≡ nobody) × (is_erased v.status ≡ true))
      × ((f : StoredFile)
          → In f (anonymize tenant id true now db).base.files
          → kept_file tenant id f ≡ false)
unfolding anonymize
anonymize_sound tenant id now db = (
  λ v m same.
      let (x, n, at) = In-update (visit_with_id tenant id) (anonymised true now) db.visits v m in
      elim (Bool-cases (visit_with_id tenant id x)) [
        | inl hits ↦
            let e : v ≡ anonymised true now x = ground (arith, at, hits) in
            (ap (λ z. z.person) e, ap (λ z. is_erased z.status) e)
        | inr misses ↦
            let e : v ≡ x = ground (arith, at, misses) in
            absurd (ground (arith, ap (visit_with_id tenant id) e, same, misses))
      ],
  λ f m.
      let g = λ (z : StoredFile). record z { purged_at = some now } in
      let (x, n, at) = In-update (kept_file tenant id) g db.base.files f m in
      elim (Bool-cases (kept_file tenant id x)) [
        | inl hits ↦
            let e : f ≡ g x = ground (arith, at, hits) in ap (kept_file tenant id) e ∙ ground arith
        | inr misses ↦
            let e : f ≡ x = ground (arith, at, misses) in ap (kept_file tenant id) e ∙ misses
      ],
)

-- An erasure that succeeds was of a row of the user's organisation at a site where they may act;
-- afterwards no row of the visit says who came, whom they visited or which document they showed, each
-- is marked as erased, and none of its images is kept.
pub erase_sound :
    (others : Db → Db) (user : AuthUser) (id now : ℕ) (db : Db)
    → (erase others user id now db).0 ≡ ok tt
    → ((v : Visit) × In v db.visits
        × (v.id ≡ id)
        × (v.tenant ≡ user.tenant)
        × (site_access user v.site ≡ true))
      × ((v : Visit)
          → In v (erase others user id now db).1.visits
          → visit_with_id user.tenant id v ≡ true
          → (v.person ≡ nobody) × (is_erased v.status ≡ true))
      × ((f : StoredFile)
          → In f (erase others user id now db).1.base.files
          → kept_file user.tenant id f ≡ false)
unfolding erase
erase_sound others user id now db h = elim (Result-cases (load user id now db)) [
  | inr (e, bad) ↦ absurd (ground (arith, h, bad))
  | inl (v, good) ↦ elim (Bool-cases (is_erased v.status)) [
    | inl over ↦ absurd (ground (arith, h, good, over))
    | inr there ↦
        let (row, same, tenant, access) = load-id user id now db v good in
        let (rows, files) = anonymize_sound user.tenant v.id now (others db) in
        let visits : (erase others user id now db).1.visits
            ≡ (anonymize user.tenant v.id true now (others db)).visits =
          rw (erase, good, there) refl in
        let kept : (erase others user id now db).1.base.files
            ≡ (anonymize user.tenant v.id true now (others db)).base.files =
          rw (erase, good, there) refl in
        (
          (v, row, same, tenant, access),
          λ w m is_it.
              rows w (subst (λ (vs : List Visit). In w vs) visits m)
                (subst (λ n. visit_with_id user.tenant n w ≡ true) (sym same) is_it),
          λ f m.
              subst (λ n. kept_file user.tenant n f ≡ false) same
                (files f (subst (λ (fs : List StoredFile). In f fs) kept m)),
        )
  ]
]
