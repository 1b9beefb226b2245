-- ===== src/Visits/Expired.antt =====
-- After the retention job nothing is overdue (retention.service.ts, `execute`).
use digitalreception.Base.{
  ℕ, ◌<◌, ◌≡◌, refl, arith, true, false, List, [], ◌∷◌, some, ◌==◌, if◌then◌else◌, any, update,
  length, has_key, Unique, Unique-update, any-update-false, length-update, update-both, Settles,
  Bool-cases, In, In-update, is_some, Bool, inl, inr, ap, sym, ◌∙◌,
}
use digitalreception.Invitations.Store.{StoredFile, Site, CountryPolicy}
use digitalreception.Visits.Store.{Visit, Db}
use digitalreception.Visits.Lifecycle.{
  nobody, kept_file, visit_with_id, anonymised, anonymize, left_open, auto_close,
}
use digitalreception.Visits.Retention.{
  Tables, Env, file_due, purge, visit_due, forget, policy_for, table_files, table_visits, day_start,
}

abbrev pub file_key : StoredFile → ℕ
file_key f = f.id

abbrev pub visit_key : Visit → ℕ
visit_key v = v.id

pub purge-settles : (now : ℕ) → Settles file_key (file_due now) table_files (purge now)
purge-settles now d s busy =
    (λ f. record f { purged_at = some now }, refl, λ f. refl, ground (arith, busy))

pub forget-settles :
    (now : ℕ) (site : Site) (p : CountryPolicy)
    → Settles visit_key (visit_due now site p) table_visits (forget now site)
unfolding anonymize
forget-settles now site p d s busy = (
  λ v. if v.tenant == site.tenant then anonymised false now v else v,
  update-both (has_key visit_key d.id) (λ v. v.tenant == site.tenant) (anonymised false now)
      s.db.visits,
  λ v. ground (arith, Bool-cases (v.tenant == site.tenant)),
  ground (arith, busy),
)

-- Nothing of a site is overdue: no visit past the days of its country still says who came, and none
-- is open that began before the site's day.
abbrev pub Current : Env → Site → List CountryPolicy → List Visit → Type 0
Current env site policies visits =
    (p : CountryPolicy)
    → policy_for site policies ≡ some p
    → (any (visit_due env.now site p) visits ≡ false)
      × (any (left_open site.tenant site.id (day_start env site)) visits ≡ false)

-- What the loop over the sites keeps.
abbrev Keeps : Env → Site → Tables → Type 0
Keeps env site s =
    Current env site s.db.base.policies s.db.visits
    × (any (file_due env.now) s.db.base.files ≡ false)

pub forget-Current :
    (env : Env) (site x : Site) (d : Visit) (s : Tables)
    → Current env site s.db.base.policies s.db.visits
    → Current env site s.db.base.policies (forget env.now x d s).db.visits
unfolding anonymize
forget-Current env site x d s h p e = (
  any-update-false (visit_due env.now site p) (visit_with_id x.tenant d.id)
      (anonymised false env.now) s.db.visits (λ v a b. ground (arith, a)) (h p e).0,
  any-update-false (left_open site.tenant site.id (day_start env site))
      (visit_with_id x.tenant d.id) (anonymised false env.now) s.db.visits
      (λ v a b. ground (arith, a)) (h p e).1,
)

forget-files :
    (env : Env) (x : Site) (d : Visit) (s : Tables)
    → any (file_due env.now) s.db.base.files ≡ false
    → any (file_due env.now) (forget env.now x d s).db.base.files ≡ false
unfolding anonymize
forget-files env x d s h =
    any-update-false (file_due env.now) (kept_file x.tenant d.id)
      (λ f. record f { purged_at = some env.now }) s.db.base.files (λ f a b. ground arith) h

pub auto_close-due :
    (now : ℕ) (site : Site) (p : CountryPolicy) (tenant id at : ℕ) (db : Db)
    → any (visit_due now site p) db.visits ≡ false
    → any (visit_due now site p) (auto_close tenant id at db).visits ≡ false
unfolding auto_close
auto_close-due now site p tenant id at db h =
    any-update-false (visit_due now site p) (left_open tenant id at) _ db.visits
      (λ v a b. ground (arith, a)) h

pub auto_close-Current :
    (env : Env) (site x : Site) (at : ℕ) (s : Tables)
    → Current env site s.db.base.policies s.db.visits
    → Current env site s.db.base.policies (auto_close x.tenant x.id at s.db).visits
unfolding auto_close
auto_close-Current env site x at s h p e = (
  auto_close-due env.now site p x.tenant x.id at s.db (h p e).0,
  any-update-false (left_open site.tenant site.id (day_start env site)) (left_open x.tenant x.id at)
      _ s.db.visits (λ v a b. ground (arith, a)) (h p e).1,
)

-- A row that is anonymised does not say who came.
abbrev pub Forgotten : List Visit → Type 0
Forgotten visits = (v : Visit) → In v visits → is_some v.anonymized_at ≡ true → v.person ≡ nobody

update-Forgotten :
    (q : Visit → Bool) (f : Visit → Visit) (visits : List Visit)
    → ((x : Visit)
        → q x ≡ true
        → (is_some x.anonymized_at ≡ true → x.person ≡ nobody)
        → is_some (f x).anonymized_at ≡ true
        → (f x).person ≡ nobody)
    → Forgotten visits
    → Forgotten (update q f visits)
update-Forgotten q f visits stays h v m hidden =
    let (x, n, at) = In-update q f visits v m in
    elim (Bool-cases (q x)) [
      | inl hits ↦
          let e : v ≡ f x = ground (arith, at, hits) in
          ap (λ (z : Visit). z.person) e
          ∙ stays x hits (h x n) (sym (ap (λ (z : Visit). is_some z.anonymized_at) e) ∙ hidden)
      | inr misses ↦
          let e : v ≡ x = ground (arith, at, misses) in
          ap (λ (z : Visit). z.person) e
          ∙ h x n (sym (ap (λ (z : Visit). is_some z.anonymized_at) e) ∙ hidden)
    ]

-- What holds all along the loop over the sites.
abbrev pub Steady : Env → ℕ → List CountryPolicy → Tables → Type 0
Steady env fuel policies s =
    Unique visit_key s.db.visits
    × (length s.db.visits < fuel)
    × (any (file_due env.now) s.db.base.files ≡ false)
    × (s.db.base.policies ≡ policies)
    × Forgotten s.db.visits

pub forget-Steady :
    (env : Env) (fuel : ℕ) (policies : List CountryPolicy) (x : Site) (d : Visit) (s : Tables)
    → Steady env fuel policies s
    → Steady env fuel policies (forget env.now x d s)
unfolding anonymize
forget-Steady env fuel policies x d s (u, few, files, same, hidden) = (
  Unique-update visit_key (visit_with_id x.tenant d.id) (anonymised false env.now) s.db.visits
      (λ v. refl) u,
  omega (
    arith,
    few,
    length-update (visit_with_id x.tenant d.id) (anonymised false env.now) s.db.visits,
  ),
  forget-files env x d s files,
  same,
  update-Forgotten (visit_with_id x.tenant d.id) (anonymised false env.now) s.db.visits
      (λ v hits old now_hidden. refl) hidden,
)

pub auto_close-Steady :
    (env : Env) (fuel : ℕ) (policies : List CountryPolicy) (tenant site at : ℕ) (s : Tables)
    → Steady env fuel policies s
    → Steady env fuel policies (record s { db = auto_close tenant site at s.db })
unfolding auto_close
auto_close-Steady env fuel policies tenant site at s (u, few, files, same, hidden) = (
  Unique-update visit_key (left_open tenant site at) _ s.db.visits (λ v. refl) u,
  omega (arith, few, length-update (left_open tenant site at) _ s.db.visits),
  files,
  same,
  update-Forgotten (left_open tenant site at) _ s.db.visits
      (λ v hits old now_hidden. old now_hidden) hidden,
)

-- After the UPDATE no visit of the site is left open.
pub auto_close-closes :
    (tenant site at : ℕ) (db : Db)
    → any (left_open tenant site at) (auto_close tenant site at db).visits ≡ false
unfolding auto_close
auto_close-closes tenant site at db =
    closes (λ v. record v { status = _; check_out_by = _ }) db.visits (λ v h. ground arith)
  where
    closes :
        (f : Visit → Visit) (vs : List Visit)
        → ((v : Visit) → left_open tenant site at v ≡ true → left_open tenant site at (f v) ≡ false)
        → any (left_open tenant site at) (update (left_open tenant site at) f vs) ≡ false
    closes f [] h = refl
    closes f (v ∷ vs) h =
        ground (arith, h v, Bool-cases (left_open tenant site at v), closes f vs h)
