-- ===== src/Parking/Weekly/Once.antt =====
-- The weekly job runs once a week and site (parking.service.ts): a second run changes nothing.
use digitalreception.Base.{
  ℕ, ◌≡◌, refl, ◌∙◌, subst, inl, inr, arith, true, false, ◌&&◌, List, [], ◌∷◌, Option, none, ◌==◌,
  filter, any, update, Bool-cases, All, In, In-filter,
}
use digitalreception.Parking.Rules.{next_monday, monday_of, local_day, working_days}
use digitalreception.Parking.Store.{
  ParkingSpot, ParkingBooking, ParkingWeek, Employee, Site, Tenant, Db, Env, same_week,
  insert_booking, insert_week,
}
use digitalreception.Parking.Booking.{cancel}
use digitalreception.Parking.Weekly.{
  book_days_of, book_manager, book_each, book_managers, spots_of, sites_of, parking_tenants,
  managers_of, weekly_site, weekly_sites, weekly_tenants, weekly,
}

module _ (env : Env) where
  -- Booking days touches the bookings only.
  book_days_of-frame :
      (tenant site spot employee : ℕ) (days : List ℕ) (db : Db)
      → let r = book_days_of env tenant site spot employee days db in
        r.1 ≡ record db { bookings = r.1.bookings }
  unfolding book_days_of insert_booking
  book_days_of-frame tenant site spot employee [] db = refl
  book_days_of-frame tenant site spot employee (date ∷ days) db =
      grind (arith, book_days_of-frame tenant site spot employee days)

  book_manager-frame :
      (tenant site : ℕ) (days : List ℕ) (m : Employee) (db : Db)
      → let r = book_manager env tenant site days m db in
        r.1 ≡ record db { bookings = r.1.bookings }
  unfolding book_manager
  book_manager-frame tenant site days m db = grind (arith, book_days_of-frame)

  book_each-frame :
      (tenant site : ℕ) (days : List ℕ) (ms : List Employee) (db : Db)
      → let r = book_each env tenant site days ms db in r.1 ≡ record db { bookings = r.1.bookings }
  unfolding book_each
  book_each-frame tenant site days [] db = refl
  book_each-frame tenant site days (m ∷ ms) db = ground (
    arith,
    book_manager-frame tenant site days m db,
    book_each-frame tenant site days ms (book_manager env tenant site days m db).1,
  )

  -- The row that marks a week of a site as done.
  abbrev mark : ℕ → Site → ParkingWeek
  mark tenant site = record {
    tenant = tenant;
    site = site.id;
    monday = next_monday env.intl site.timezone env.now;
    booked = 0;
  }

  abbrev IsDone : ℕ → Site → List ParkingWeek → Type 0
  IsDone tenant site ws = any (same_week (mark tenant site)) ws ≡ true

  -- Writing the count of a week keeps every week.
  abbrev counted : ℕ → Site → ℕ → List ParkingWeek → List ParkingWeek
  counted tenant site n ws =
      update
        (λ w.
          w.tenant == tenant
          && (w.site == site.id && w.monday == next_monday env.intl site.timezone env.now))
        (λ w. record w { booked = n }) ws

  any-counted :
      (w : ParkingWeek) (tenant : ℕ) (site : Site) (n : ℕ) (ws : List ParkingWeek)
      → any (same_week w) (counted tenant site n ws) ≡ any (same_week w) ws
  any-counted w tenant site n [] = refl
  any-counted w tenant site n (x ∷ ws) = ground (arith, any-counted w tenant site n ws)

  -- A site that is done is left alone.
  weekly_site_done :
      (tenant : ℕ) (spots : List ParkingSpot) (site : Site) (db : Db)
      → IsDone tenant site db.weeks
      → weekly_site env tenant spots site db ≡ (0, db)
  unfolding weekly_site insert_week
  weekly_site_done tenant spots site db h = rw (weekly_site, insert_week, h)

  -- The database after the transaction of one site that was not done.
  weekly_site_new :
      (tenant : ℕ) (spots : List ParkingSpot) (site : Site) (db : Db)
      → any (same_week (mark tenant site)) db.weeks ≡ false
      → (bs : List ParkingBooking) × (n : ℕ) × ((weekly_site env tenant spots site db).1
          ≡ record db {
            bookings = bs;
            weeks = counted tenant site n (mark tenant site ∷ db.weeks);
          })
  unfolding weekly_site insert_week book_managers
  weekly_site_new tenant spots site db h =
      let started : Db = record db { weeks = mark tenant site ∷ db.weeks } in
      let at_site = filter (λ s. s.site == site.id) spots in
      let days = working_days (next_monday env.intl site.timezone env.now) in
      let ms = managers_of env tenant at_site none started in
      let r = book_each env tenant site.id days ms started in
      (r.1.bookings, r.0, ground (arith, h, book_each-frame tenant site.id days ms started))

  weekly_site-weeks :
      (tenant : ℕ) (spots : List ParkingSpot) (site : Site) (db : Db)
      → IsDone tenant site (weekly_site env tenant spots site db).1.weeks
        × ((t : ℕ) (s : Site)
            → IsDone t s db.weeks
            → IsDone t s (weekly_site env tenant spots site db).1.weeks)
  weekly_site-weeks tenant spots site db =
      elim (Bool-cases (any (same_week (mark tenant site)) db.weeks)) [
        | inl done ↦ rw (weekly_site_done tenant spots site db done) (done, λ t s h. h)
        | inr new ↦
            let (bs, n, e) = weekly_site_new tenant spots site db new in
            rw e (
              any-counted (mark tenant site) tenant site n (mark tenant site ∷ db.weeks)
                  ∙ (ground arith),
              λ t s h.
                  any-counted (mark t s) tenant site n (mark tenant site ∷ db.weeks)
                  ∙ (ground arith),
            )
      ]

  weekly_site-tables :
      (tenant : ℕ) (spots : List ParkingSpot) (site : Site) (db : Db)
      → let after = (weekly_site env tenant spots site db).1 in
        (after.spots ≡ db.spots) × (after.sites ≡ db.sites) × (after.tenants ≡ db.tenants)
  weekly_site-tables tenant spots site db =
      elim (Bool-cases (any (same_week (mark tenant site)) db.weeks)) [
        | inl done ↦ rw (weekly_site_done tenant spots site db done) (refl, refl, refl)
        | inr new ↦
            let (bs, n, e) = weekly_site_new tenant spots site db new in rw e (refl, refl, refl)
      ]

  -- What a run of the job keeps: the tables it reads, and the weeks that are done.
  record Kept (db after : Db) : Type 0 where
    spots : after.spots ≡ db.spots
    sites : after.sites ≡ db.sites
    tenants : after.tenants ≡ db.tenants
    weeks : (t : ℕ) (s : Site) → IsDone t s db.weeks → IsDone t s after.weeks

  Kept-refl : (db : Db) → Kept db db
  Kept-refl db = record { spots = refl; sites = refl; tenants = refl; weeks = λ t s h. h }

  sites_of-Kept : (t : Tenant) {a b : Db} → Kept a b → sites_of t a ≡ sites_of t b
  sites_of-Kept t k = rw (k.spots, k.sites)

  Kept-trans : {a b c : Db} → Kept a b → Kept b c → Kept a c
  Kept-trans p q = record {
    spots = q.spots ∙ p.spots;
    sites = q.sites ∙ p.sites;
    tenants = q.tenants ∙ p.tenants;
    weeks = λ t s h. q.weeks t s (p.weeks t s h);
  }

  weekly_site-Kept :
      (tenant : ℕ) (spots : List ParkingSpot) (site : Site) (db : Db)
      → Kept db (weekly_site env tenant spots site db).1
  weekly_site-Kept tenant spots site db =
      let (a, b, c) = weekly_site-tables tenant spots site db in
      record {
        spots = a;
        sites = b;
        tenants = c;
        weeks = (weekly_site-weeks tenant spots site db).1;
      }

  AllDone : ℕ → List Site → Db → Type 0
  AllDone tenant sites db = All (λ s. IsDone tenant s db.weeks) sites

  AllDone-Kept :
      (tenant : ℕ) (sites : List Site) {a b : Db}
      → Kept a b
      → AllDone tenant sites a
      → AllDone tenant sites b
  unfolding AllDone
  AllDone-Kept tenant [] k h = tt
  AllDone-Kept tenant (s ∷ sites) k h = (k.weeks tenant s h.0, AllDone-Kept tenant sites k h.1)

  weekly_sites-after :
      (tenant : ℕ) (spots : List ParkingSpot) (sites : List Site) (db : Db)
      → Kept db (weekly_sites env tenant spots sites db).1
        × AllDone tenant sites (weekly_sites env tenant spots sites db).1
  unfolding weekly_sites AllDone
  weekly_sites-after tenant spots [] db = (Kept-refl db, tt)
  weekly_sites-after tenant spots (site ∷ sites) db =
      let first = weekly_site-Kept tenant spots site db in
      let (kept, done) =
        weekly_sites-after tenant spots sites (weekly_site env tenant spots site db).1 in
      (
        Kept-trans first kept,
        (kept.weeks tenant site (weekly_site-weeks tenant spots site db).0, done),
      )

  weekly_sites_done :
      (tenant : ℕ) (spots : List ParkingSpot) (sites : List Site) (db : Db)
      → AllDone tenant sites db
      → weekly_sites env tenant spots sites db ≡ (0, db)
  unfolding weekly_sites AllDone
  weekly_sites_done tenant spots [] db h = refl
  weekly_sites_done tenant spots (site ∷ sites) db h =
      rw (weekly_sites, weekly_site_done tenant spots site db h.0)
        (rw (weekly_sites_done tenant spots sites db h.1) refl)

  TenantsDone : List Tenant → Db → Type 0
  TenantsDone ts db = All (λ t. AllDone t.id (sites_of t db) db) ts

  TenantsDone-Kept : (ts : List Tenant) {a b : Db} → Kept a b → TenantsDone ts a → TenantsDone ts b
  unfolding TenantsDone
  TenantsDone-Kept [] k h = tt
  TenantsDone-Kept (t ∷ ts) {a} {b} k h = (
    subst (λ l. AllDone t.id l b) (sites_of-Kept t k) (AllDone-Kept t.id (sites_of t a) k h.0),
    TenantsDone-Kept ts k h.1,
  )

  weekly_tenants-after :
      (ts : List Tenant) (db : Db)
      → Kept db (weekly_tenants env ts db).1 × TenantsDone ts (weekly_tenants env ts db).1
  unfolding weekly_tenants TenantsDone
  weekly_tenants-after [] db = (Kept-refl db, tt)
  weekly_tenants-after (t ∷ ts) db =
      let next = (weekly_sites env t.id (spots_of t db) (sites_of t db) db).1 in
      let (first, mine) = weekly_sites-after t.id (spots_of t db) (sites_of t db) db in
      let (kept, done) = weekly_tenants-after ts next in
      let all = Kept-trans first kept in
      (
        all,
        (
          subst (λ l. AllDone t.id l (weekly_tenants env ts next).1) (sites_of-Kept t all)
              (AllDone-Kept t.id (sites_of t db) kept mine),
          done,
        ),
      )

  weekly_tenants_done :
      (ts : List Tenant) (db : Db) → TenantsDone ts db → weekly_tenants env ts db ≡ (0, db)
  unfolding weekly_tenants TenantsDone
  weekly_tenants_done [] db h = refl
  weekly_tenants_done (t ∷ ts) db h =
      rw (weekly_tenants, weekly_sites_done t.id (spots_of t db) (sites_of t db) db h.0)
        (rw (weekly_tenants_done ts db h.1) refl)

  cancel-Kept :
      (at : Env) (tenant : ℕ) (employee : Option ℕ) (id : ℕ) (db : Db)
      → Kept db (cancel at tenant employee id db).1
  unfolding cancel
  cancel-Kept at tenant employee id db = ground arith

-- Both runs are in one week, by the local day of every site.
abbrev pub SameWeek : Env → Env → Db → Type 0
SameWeek env later db =
    (s : Site)
    → In s db.sites
    → monday_of (local_day later.intl s.timezone later.now).date
      ≡ monday_of (local_day env.intl s.timezone env.now).date

IsDone-later :
    (env later : Env) (tenant : ℕ) (site : Site) (ws : List ParkingWeek)
    → monday_of (local_day later.intl site.timezone later.now).date
      ≡ monday_of (local_day env.intl site.timezone env.now).date
    → IsDone env tenant site ws
    → IsDone later tenant site ws
unfolding next_monday
IsDone-later env later tenant site ws same h = rw same h

AllDone-later :
    (env later : Env) (tenant : ℕ) (sites : List Site) (db : Db)
    → ((s : Site)
        → In s sites
        → monday_of (local_day later.intl s.timezone later.now).date
          ≡ monday_of (local_day env.intl s.timezone env.now).date)
    → AllDone env tenant sites db
    → AllDone later tenant sites db
unfolding AllDone
AllDone-later env later tenant [] db same h = tt
AllDone-later env later tenant (s ∷ sites) db same h = (
  IsDone-later env later tenant s db.weeks (same s (inl refl)) h.0,
  AllDone-later env later tenant sites db (λ x m. same x (inr m)) h.1,
)

TenantsDone-later :
    (env later : Env) (ts : List Tenant) (db : Db)
    → SameWeek env later db
    → TenantsDone env ts db
    → TenantsDone later ts db
unfolding TenantsDone
TenantsDone-later env later [] db same h = tt
TenantsDone-later env later (t ∷ ts) db same h = (
  AllDone-later env later t.id (sites_of t db) db (λ s m. same s (In-filter _ db.sites s m).0) h.0,
  TenantsDone-later env later ts db same h.1,
)

-- Run again at any later moment of the same week of every site, the weekly job books nothing and
-- leaves the database as it is.
pub weekly_twice :
    (env later : Env) (only : Option ℕ) (db : Db)
    → SameWeek env later db
    → weekly later only (weekly env only db).1 ≡ (0, (weekly env only db).1)
unfolding weekly
weekly_twice env later only db same =
    let after = (weekly_tenants env (parking_tenants only db) db).1 in
    let (kept, done) = weekly_tenants-after env (parking_tenants only db) db in
    let still : SameWeek env later after = λ s m. same s (subst (λ ss. In s ss) kept.sites m) in
    rw (kept.tenants) (
      weekly_tenants_done later (parking_tenants only db) after
        (TenantsDone-later env later (parking_tenants only db) after still done))

-- A day that someone gives back after the weekly job ran stays free: the job, run again at any
-- later moment of the same week of every site, does not book it again.
pub weekly-cancel :
    (env later : Env) (only owner : Option ℕ) (at : Env) (tenant id : ℕ) (db : Db)
    → SameWeek env later db
    → let given_back = (cancel at tenant owner id (weekly env only db).1).1 in
      weekly later only given_back ≡ (0, given_back)
unfolding weekly
weekly-cancel env later only owner at tenant id db same =
    let first = (weekly_tenants env (parking_tenants only db) db).1 in
    let after = (cancel at tenant owner id first).1 in
    let (kept, done) = weekly_tenants-after env (parking_tenants only db) db in
    let gone = cancel-Kept env at tenant owner id first in
    let still : SameWeek env later after =
      λ s m. same s (subst (λ ss. In s ss) (gone.sites ∙ kept.sites) m) in
    rw (gone.tenants, kept.tenants)
      (weekly_tenants_done later (parking_tenants only db) after (
        TenantsDone-later env later (parking_tenants only db) after still
          (TenantsDone-Kept env (parking_tenants only db) gone done)))
