-- ===== src/Visits/Retention.antt =====
-- The retention job (api/src/retention/retention.service.ts, `execute`).
use text.Mathlib.Text.{◌==◌ as str_eq}
use digitalreception.Base.{
  ℕ, String, Bool, false, ◌&&◌, not, List, [], ◌∷◌, Option, none, some, is_some, ◌==◌, ltb,
  if◌then◌else◌, filter, update, has_key, batches,
}
use digitalreception.Calendar.{instant_add_days}
use digitalreception.Midnight.{start_of_local_day}
use digitalreception.Invitations.Store.{StoredFile, Site, CountryPolicy}
use digitalreception.Parcels.Desk.{Parcel, is_waiting}
use digitalreception.Visits.Store.{Visit, Db}
use digitalreception.Visits.Lifecycle.{anonymize, auto_close}

abbrev pub batch_size : ℕ
batch_size = 500

abbrev pub invitation_keep_days : ℕ
invitation_keep_days = 7

abbrev pub delivery_keep_days : ℕ
delivery_keep_days = 7

abbrev pub parcel_keep_days : ℕ
parcel_keep_days = 180

-- The tables; of the access events, the audit trail and the attempts to sign in, the times.
pub record Tables : Type 0 where
  pub db : Db
  pub parcels : List Parcel
  pub access_events : List ℕ
  pub audit_times : List ℕ
  pub sso_expiries : List ℕ

-- `t + days < now`: before `addDays(now, -days)`.
abbrev pub older : ℕ → ℕ → ℕ → Bool
older days now t = ltb (instant_add_days t days) now

-- An image past its time.
abbrev pub file_due : ℕ → StoredFile → Bool
file_due now f = ltb f.purge_after now && not (is_some f.purged_at)

abbrev pub purge : ℕ → StoredFile → Tables → Tables
purge now d s = record s {
  db = record (s.db) {
    base = record (s.db.base) {
      files =
          update (has_key (λ (f : StoredFile). f.id) d.id) (λ f. record f { purged_at = some now })
            s.db.base.files;
    };
  };
}

-- A visit of the site past the days of its country.
abbrev pub visit_due : ℕ → Site → CountryPolicy → Visit → Bool
visit_due now site policy v =
    v.tenant == site.tenant
    && (v.site == site.id
        && (not (is_some v.anonymized_at) && older policy.visit_retention_days now v.check_in_at))

abbrev pub forget : ℕ → Site → Visit → Tables → Tables
forget now site d s = record s { db = anonymize site.tenant d.id false now s.db }

-- `policies.get`: the last one of the country.
abbrev pub policy_for : Site → List CountryPolicy → Option CountryPolicy
policy_for site [] = none
policy_for site (p ∷ ps) = elim (policy_for site ps) [
  | some q ↦ some q
  | none ↦ if p.tenant == site.tenant && str_eq p.country site.country then some p else none
]

abbrev pub table_files : Tables → List StoredFile
table_files s = s.db.base.files

abbrev pub table_visits : Tables → List Visit
table_visits s = s.db.visits

-- The wall clocks of the time zones, the time of the run, and the days that are configured.
pub record Env : Type 0 where
  pub wall : String → ℕ → ℕ
  pub now : ℕ
  pub log_days : ℕ
  pub audit_days : ℕ

module _ (env : Env) where
  -- When the local day of a site began.
  abbrev pub day_start : Site → ℕ
  day_start site = start_of_local_day (env.wall site.timezone) env.now

  -- One turn of the loop over the sites.
  unfoldable pub site_turn : ℕ → Site → Tables → Option Tables
  site_turn fuel site s = elim (policy_for site s.db.base.policies) [
    | none ↦ some s
    | some p ↦
        elim (batches (visit_due env.now site p) table_visits (forget env.now site) batch_size fuel
          s) [
            | none ↦ none
            | some t ↦ some (record t { db = auto_close site.tenant site.id (day_start site) t.db })
          ]
  ]

  abbrev pub sites_loop : ℕ → List Site → Tables → Option Tables
  sites_loop fuel [] s = some s
  sites_loop fuel (x ∷ xs) s = elim (site_turn fuel x s) [
    | none ↦ none
    | some t ↦ sites_loop fuel xs t
  ]

  -- The DELETEs at the end; those of the audit trail go in batches of 5000 until none is left.
  unfoldable pub delete_old : Tables → Tables
  delete_old s = record s {
    db = record (s.db) {
      base = record (s.db.base) {
        invitations =
            filter (λ i. not (older invitation_keep_days env.now i.details.valid_until))
              s.db.base.invitations;
      };
      webhook_deliveries =
          filter (λ d. not (older delivery_keep_days env.now d.created_at)) s.db.webhook_deliveries;
      push_deliveries =
          filter (λ d. not (older delivery_keep_days env.now d.created_at)) s.db.push_deliveries;
    };
    parcels =
        filter
          (λ p. not (
            not (is_waiting p.status)
            && elim p.collected_at [ none ↦ false | some t ↦ older parcel_keep_days env.now t ]))
          s.parcels;
    access_events = filter (λ t. not (older env.log_days env.now t)) s.access_events;
    audit_times = filter (λ t. not (older env.audit_days env.now t)) s.audit_times;
    sso_expiries = filter (λ t. not (ltb t env.now)) s.sso_expiries;
  }

  -- `execute`, each loop on fuel; none is that the fuel was spent.
  unfoldable pub execute : ℕ → Tables → Option Tables
  execute fuel s = elim (batches (file_due env.now) table_files (purge env.now) batch_size fuel s) [
    | none ↦ none
    | some t ↦ elim (sites_loop fuel t.db.base.sites t) [
      | none ↦ none
      | some u ↦ some (delete_old u)
    ]
  ]
