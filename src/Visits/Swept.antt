-- ===== src/Visits/Swept.antt =====
-- The retention job ends, and leaves nothing overdue (retention.service.ts, `execute`).
use digitalreception.Base.{
  ℕ, ◌<◌, ◌≡◌, refl, inl, inr, arith, Bool, false, not, List, [], ◌∷◌, some, any, filter, length,
  Unique, length-filter-le, batches-end, batches-invariant, Bool-cases, Option-cases, In, any-In,
  is_some, true, ◌&&◌, ◌==◌, sym, ◌∙◌, subst,
}
use digitalreception.Invitations.Store.{Site, CountryPolicy}
use digitalreception.Visits.Store.{Visit}
use digitalreception.Visits.Lifecycle.{nobody, anonymize, auto_close}
use digitalreception.Visits.Retention.{
  Tables, Env, batch_size, older, invitation_keep_days, file_due, purge, visit_due, forget,
  policy_for, table_files, table_visits, day_start, site_turn, sites_loop, delete_old, execute,
}
use digitalreception.Visits.Expired.{
  Forgotten, file_key, visit_key, purge-settles, forget-settles, Current, Steady, forget-Current,
  forget-Steady, auto_close-Current, auto_close-Steady, auto_close-closes, auto_close-due,
}

abbrev CurrentIn : Env → Site → Tables → Type 0
CurrentIn env site s = Current env site s.db.base.policies s.db.visits

-- A turn ends, brings its site up to date and no other out of date.
site_turn_sound :
    (env : Env) (fuel : ℕ) (policies : List CountryPolicy) (x : Site) (s : Tables)
    → Steady env fuel policies s
    → (t : Tables) × (site_turn env fuel x s ≡ some t)
      × Steady env fuel policies t
      × CurrentIn env x t
      × ((site : Site) → CurrentIn env site s → CurrentIn env site t)
unfolding site_turn anonymize auto_close
site_turn_sound env fuel policies x s steady =
    elim (Option-cases (policy_for x s.db.base.policies)) [
      | inl unknown ↦ (
        s,
        rw (site_turn, unknown) refl,
        steady,
        λ p e. absurd (ground (arith, e, unknown)),
        λ site h. h,
      )
      | inr (p, known) ↦
          let due = visit_due env.now x p in
          let handle = forget env.now x in
          let (t, ended, clean, u) =
            batches-end visit_key due table_visits handle (forget-settles env.now x p) batch_size
              fuel s steady.0 (omega (arith, length-filter-le due s.db.visits, steady.1))
              (omega arith) in
          let still =
            batches-invariant (Steady env fuel policies) due table_visits handle batch_size fuel s t
              (λ d y h. forget-Steady env fuel policies x d y h) steady ended in
          let at = day_start env x in
          let last : Tables = record t { db = auto_close x.tenant x.id at t.db } in
          let only : (q : CountryPolicy) → policy_for x t.db.base.policies ≡ some q → p ≡ q = λ q e.
            let same : policy_for x t.db.base.policies ≡ some p =
              subst (λ ps. policy_for x ps ≡ some p) (steady.3 ∙ sym still.3) known in
            ground (arith, same, e) in
          let kept : any due last.db.visits ≡ false =
            auto_close-due env.now x p x.tenant x.id at t.db clean in
          (
            last,
            rw (site_turn, known, ended) refl,
            auto_close-Steady env fuel policies x.tenant x.id at t still,
            λ q e. (
              subst (λ r. any (visit_due env.now x r) last.db.visits ≡ false) (only q e) kept,
              auto_close-closes x.tenant x.id at t.db,
            ),
            λ site h. auto_close-Current env site x at t (
                batches-invariant (CurrentIn env site) due table_visits handle batch_size fuel s t
                  (λ d y k. forget-Current env site x d y k) h ended),
          )
    ]

-- The loop ends, brings every site up to date, and no other out of date.
sites_loop_sound :
    (env : Env) (fuel : ℕ) (policies : List CountryPolicy) (sites : List Site) (s : Tables)
    → Steady env fuel policies s
    → (t : Tables) × (sites_loop env fuel sites s ≡ some t)
      × Steady env fuel policies t
      × ((site : Site) → In site sites → CurrentIn env site t)
      × ((site : Site) → CurrentIn env site s → CurrentIn env site t)
sites_loop_sound env fuel policies [] s steady = (s, refl, steady, λ site m. absurd m, λ site h. h)
sites_loop_sound env fuel policies (x ∷ xs) s steady =
    let (t, turned, next, here, others) = site_turn_sound env fuel policies x s steady in
    let (u, ended, last, done, keep) = sites_loop_sound env fuel policies xs t next in
    (
      u,
      rw (sites_loop, turned) ended,
      last,
      λ site m. elim m [
        | inl e ↦ subst (λ z. CurrentIn env z u) (sym e) (keep x here)
        | inr n ↦ done site n
      ],
      λ site h. keep site (others site h),
    )

any-filter-not {ℓ} :
    {A : Type ℓ} (p : A → Bool) (xs : List A) → any p (filter (λ x. not (p x)) xs) ≡ false
any-filter-not p [] = refl
any-filter-not p (x ∷ xs) = ground (arith, Bool-cases (p x), any-filter-not p xs)

-- What purging files does not touch.
abbrev Rest : Tables → Tables → Type 0
Rest s t =
    (t.db.visits ≡ s.db.visits)
    × (t.db.base.sites ≡ s.db.base.sites)
    × (t.db.base.policies ≡ s.db.base.policies)

-- A visit of the site whose days of the policy are over.
abbrev pub past_days : ℕ → Site → CountryPolicy → Visit → Bool
past_days now site p v =
    v.tenant == site.tenant && (v.site == site.id && older p.visit_retention_days now v.check_in_at)

-- Nothing that the job looks after is overdue.
abbrev pub UpToDate : Env → List Site → Tables → Type 0
UpToDate env sites t =
    (any (file_due env.now) t.db.base.files ≡ false)
    × ((site : Site) → In site sites → Current env site t.db.base.policies t.db.visits)
    × ((site : Site) (p : CountryPolicy) (v : Visit)
        → In site sites
        → policy_for site t.db.base.policies ≡ some p
        → In v t.db.visits
        → past_days env.now site p v ≡ true
        → v.person ≡ nobody)
    × (any (λ i. older invitation_keep_days env.now i.details.valid_until) t.db.base.invitations
        ≡ false)
    × (any (older env.log_days env.now) t.access_events ≡ false)
    × (any (older env.audit_days env.now) t.audit_times ≡ false)

Forgotten-past :
    (env : Env) (site : Site) (p : CountryPolicy) (visits : List Visit) (v : Visit)
    → Forgotten visits
    → any (visit_due env.now site p) visits ≡ false
    → In v visits
    → past_days env.now site p v ≡ true
    → v.person ≡ nobody
Forgotten-past env site p visits v hidden clean m over =
    let not_due = any-In (visit_due env.now site p) visits v m in
    hidden v m (ground (arith, not_due, clean, over, Bool-cases (is_some v.anonymized_at)))

-- With more fuel than there are files and visits the job ends, when their identifiers are distinct and
-- the visits that were anonymised before do not say who came, and then: no image past its time is
-- left; at every site whose country has a policy each visit past the days of the policy is
-- anonymised and says nothing of who came, and no visit is open that began before the site's day; no
-- invitation, access event or audit entry past its days is left.
pub execute-UpToDate :
    (env : Env) (fuel : ℕ) (s : Tables)
    → Unique file_key s.db.base.files
    → Unique visit_key s.db.visits
    → length s.db.base.files < fuel
    → length s.db.visits < fuel
    → Forgotten s.db.visits
    → (t : Tables) × (execute env fuel s ≡ some t) × UpToDate env s.db.base.sites t
unfolding execute delete_old
execute-UpToDate env fuel s uf uv few_files few_visits hidden =
    let due = file_due env.now in
    let (t, purged, clean, u) =
      batches-end file_key due table_files (purge env.now) (purge-settles env.now) batch_size fuel s
        uf (omega (arith, length-filter-le due s.db.base.files, few_files)) (omega arith) in
    let (visits, sites, policies) =
      batches-invariant (Rest s) due table_files (purge env.now) batch_size fuel s t (λ d x h. h)
        (refl, refl, refl) purged in
    let steady : Steady env fuel t.db.base.policies t = (
      subst (λ vs. Unique visit_key vs) (sym visits) uv,
      subst (λ (vs : List Visit). length vs < fuel) (sym visits) few_visits,
      clean,
      refl,
      subst Forgotten (sym visits) hidden,
    ) in
    let (v, looped, last, done, keep) =
      sites_loop_sound env fuel t.db.base.policies t.db.base.sites t steady in
    (
      delete_old env v,
      rw (execute, purged, looped) refl,
      (
        last.2,
        λ site m. done site (subst (λ xs. In site xs) (sym sites) m),
        λ site p w m known n over.
            Forgotten-past env site p v.db.visits w last.4
              (done site (subst (λ xs. In site xs) (sym sites) m) p known).0 n over,
        any-filter-not (λ i. older invitation_keep_days env.now i.details.valid_until)
            v.db.base.invitations,
        any-filter-not (older env.log_days env.now) v.access_events,
        any-filter-not (older env.audit_days env.now) v.audit_times,
      ),
    )
