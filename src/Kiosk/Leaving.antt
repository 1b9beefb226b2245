-- ===== src/Kiosk/Leaving.antt =====
-- A visit is closed once (kiosk.service.ts, `checkOut`).
use digitalreception.Base.{
  ℕ, ◌≡◌, inl, inr, arith, true, false, ◌&&◌, List, ◌++◌, Option, ◌==◌, any, find, take, ok,
  Option-cases, Result-cases, In, find_sound, find-In, subst,
}
use digitalreception.Text.{Text, codes}
use digitalreception.Visits.Store.{Visit, Db}
use digitalreception.Kiosk.Images.{Image}
use digitalreception.Kiosk.Store.{Tablet, Env}
use digitalreception.Kiosk.CheckOut.{leaving, check_out}
use digitalreception.Visits.Lifecycle.{open_with_id, close_visit}
use digitalreception.Visits.Once.{close_visit-closed}

-- What `leaving` has checked.
leaving_sound :
    (env : Env) (t : Tablet) (id : ℕ) (photo : Option Text) (db : Db) (v : Visit) (days : ℕ)
    (image : Option Image)
    → leaving env t id photo db ≡ ok (v, days, image)
    → In v db.visits × (v.id ≡ id) × (v.tenant ≡ t.on.tenant) × (v.site ≡ t.on.site)
unfolding leaving
leaving_sound env t id photo db v days image h =
    let mine = λ (x : Visit). x.id == id && (x.tenant == t.on.tenant && x.site == t.on.site) in
    elim (Option-cases (find mine db.visits)) [
      | inl gone ↦ absurd (ground (arith, h, gone))
      | inr (x, found) ↦
          let at : x ≡ v = ground (arith, h, found) in
          let row = find_sound mine db.visits x found in
          subst
            (λ (z : Visit).
              In z db.visits × (z.id ≡ id) × (z.tenant ≡ t.on.tenant) × (z.site ≡ t.on.site))
            at
            (
              find-In mine db.visits x found,
              ground (arith, row),
              ground (arith, row),
              ground (arith, row),
            )
    ]

-- A check-out that succeeds was of a visit of the tablet's site, which was still open when it was
-- written; afterwards no row of the visit is open, and the invitations are as the other requests left
-- them.
pub check_out_sound :
    (env : Env) (others : Db → Db) (t : Tablet) (id : ℕ) (photo : Option Text) (db : Db)
    (moment : ℕ)
    → (check_out env others t id photo db).0 ≡ ok moment
    → (moment ≡ env.inv.now)
      × ((v : Visit) × In v db.visits
          × (v.id ≡ id)
          × (v.tenant ≡ t.on.tenant)
          × (v.site ≡ t.on.site))
      × (any (open_with_id t.on.tenant id) (others db).visits ≡ true)
      × ((v : Visit)
          → In v (check_out env others t id photo db).1.visits
          → open_with_id t.on.tenant id v ≡ false)
      × ((check_out env others t id photo db).1.base.invitations ≡ (others db).base.invitations)
unfolding check_out close_visit
check_out_sound env others t id photo db moment h =
    elim (Result-cases (leaving env t id photo db)) [
      | inr (e, bad) ↦ absurd (ground (arith, h, bad))
      | inl ((v, days, image), good) ↦
          let by = take 80 (codes "device:" ++ t.name) in
          let (m, same, tenant, site) = leaving_sound env t id photo db v days image good in
          elim (Option-cases (close_visit t.on.tenant v.id env.inv.now by (others db))) [
            | inl gone ↦ absurd (ground (arith, h, good, gone))
            | inr (saved, done) ↦
                let rows : (check_out env others t id photo db).1.visits ≡ saved.visits =
                  ground (arith, good, done) in
                (
                  ground (arith, h, good, done),
                  (v, m, same, tenant, site),
                  ground (arith, done, same),
                  λ w n.
                      subst (λ (k : ℕ). open_with_id t.on.tenant k w ≡ false) same
                        (close_visit-closed t.on.tenant v.id env.inv.now by (others db) saved w done
                          (subst (λ (vs : List Visit). In w vs) rows n)),
                  ground (arith, good, done),
                )
          ]
    ]
