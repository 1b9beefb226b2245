-- ===== src/Parcels/Handover.antt =====
-- What handing a parcel over and removing it do (parcels.controller.ts).
use digitalreception.Base.{
  ℕ, ◌≡◌, inl, inr, arith, true, false, ◌&&◌, not, List, some, ◌==◌, any, find, update, filter, ok,
  err, Option-cases, Bool-cases, Result-cases, In, In-update, In-filter, find_sound, find-In, sym,
  ◌∙◌, ap, subst,
}
use digitalreception.Calendar.{instant_add_days}
use digitalreception.Parcels.Desk.{
  AuthUser, Parcel, Photo, Db, collected, is_waiting, parcel_photo_after_collect_days, site_access,
  waiting_with_id, kept_photo, already_collected, load, hand_over, collect, remove,
}

load_sound :
    (user : AuthUser) (id : ℕ) (db : Db) (p : Parcel)
    → load user id db ≡ ok p
    → In p db.parcels × (p.id ≡ id) × (p.tenant ≡ user.tenant) × (site_access user p.site ≡ true)
unfolding load
load_sound user id db p h =
    let mine = λ (x : Parcel). x.id == id && x.tenant == user.tenant in
    elim (Option-cases (find mine db.parcels)) [
      | inl gone ↦ absurd (ground (arith, gone))
      | inr (x, found) ↦
          let row = find_sound mine db.parcels x found in
          let at : x ≡ p = ground (arith, found) in
          subst
            (λ (z : Parcel).
              In z db.parcels
              × (z.id ≡ id)
              × (z.tenant ≡ user.tenant)
              × (site_access user z.site ≡ true))
            at
            (
              find-In mine db.parcels x found,
              ground (arith, row),
              ground (arith, row),
              ground (arith, found),
            )
    ]

-- After the UPDATE no row of the parcel waits.
handed_over-rows :
    (user id now : ℕ) (db saved : Db) (p : Parcel)
    → hand_over user id now db ≡ some saved
    → In p saved.parcels
    → p.id ≡ id
    → is_waiting p.status ≡ false
unfolding hand_over
handed_over-rows user id now db saved p h m same =
    let f = λ (x : Parcel). record x {
      status = collected;
      collected_at = some now;
      collected_by = some user;
    } in
    let rows : saved.parcels ≡ update (waiting_with_id id) f db.parcels = ground (arith, h) in
    let (x, n, at) =
      In-update (waiting_with_id id) f db.parcels p
        (subst (λ (ps : List Parcel). In p ps) rows m) in
    elim (Bool-cases (waiting_with_id id x)) [
      | inl hits ↦
          let e : p ≡ f x = ground (arith, at, hits) in ap (λ (z : Parcel). is_waiting z.status) e
      | inr misses ↦
          let e : p ≡ x = ground (arith, at, misses) in
          let same_id : x.id ≡ id = sym (ap (λ (z : Parcel). z.id) e) ∙ same in
          ap (λ (z : Parcel). is_waiting z.status) e ∙ ground (arith, same_id, misses)
    ]

kept_photos :
    (tenant id until : ℕ) (photos : List Photo) (f : Photo)
    → In f (update (kept_photo tenant id) (λ z. record z { purge_after = until }) photos)
    → kept_photo tenant id f ≡ true
    → f.purge_after ≡ until
kept_photos tenant id until photos f m kept =
    let g = λ (z : Photo). record z { purge_after = until } in
    let (x, n, at) = In-update (kept_photo tenant id) g photos f m in
    elim (Bool-cases (kept_photo tenant id x)) [
      | inl hits ↦ let e : f ≡ g x = ground (arith, at, hits) in ap (λ (z : Photo). z.purge_after) e
      | inr misses ↦
          let e : f ≡ x = ground (arith, at, misses) in
          absurd (ground (arith, ap (kept_photo tenant id) e, kept, misses))
    ]

-- A parcel that is handed over was a row of the user's tenant, at a site where the user may act, and
-- still waited when it was written; afterwards no row of it waits, and the photos that are kept of it
-- go a week later.
pub collect_sound :
    (others : Db → Db) (user : AuthUser) (id now moment : ℕ) (db : Db)
    → (collect others user id now db).0 ≡ ok moment
    → (p : Parcel) × In p db.parcels
      × (p.id ≡ id)
      × (p.tenant ≡ user.tenant)
      × (site_access user p.site ≡ true)
      × (moment ≡ now)
      × (any (waiting_with_id id) (others db).parcels ≡ true)
      × ((q : Parcel)
          → In q (collect others user id now db).1.parcels
          → q.id ≡ id
          → is_waiting q.status ≡ false)
      × ((f : Photo)
          → In f (collect others user id now db).1.photos
          → kept_photo user.tenant id f ≡ true
          → f.purge_after ≡ instant_add_days now parcel_photo_after_collect_days)
unfolding collect hand_over
collect_sound others user id now moment db h = elim (Result-cases (load user id db)) [
  | inr (x, bad) ↦ absurd (ground (arith, bad))
  | inl (p, good) ↦ elim (Option-cases (hand_over user.id p.id now (others db))) [
    | inl gone ↦ absurd (ground (arith, good, gone))
    | inr (saved, given) ↦
        let (there, same, tenant, access) = load_sound user id db p good in
        let until = instant_add_days now parcel_photo_after_collect_days in
        let rows : (collect others user id now db).1.parcels ≡ saved.parcels =
          ground (arith, good, given) in
        let photos : (collect others user id now db).1.photos
            ≡ update (kept_photo user.tenant p.id) (λ z. record z { purge_after = until })
                saved.photos =
          ground (arith, good, given) in
        (
          p,
          there,
          same,
          tenant,
          access,
          ground (arith, good, given),
          ground (arith, given, same),
          λ q m is_id.
              handed_over-rows user.id p.id now (others db) saved q given
                (subst (λ (ps : List Parcel). In q ps) rows m) (is_id ∙ sym same),
          λ f m kept.
              kept_photos user.tenant p.id until saved.photos f
                (subst (λ (fs : List Photo). In f fs) photos m)
                (subst (λ (n : ℕ). kept_photo user.tenant n f ≡ true) (sym same) kept),
        )
  ]
]

-- Who collects or removes a parcel of which no row waits is told that it was collected, and nothing
-- changes, when no other request runs beside.
pub collected_refused :
    (user : AuthUser) (id now : ℕ) (db : Db) (p : Parcel)
    → load user id db ≡ ok p
    → any (waiting_with_id p.id) db.parcels ≡ false
    → is_waiting p.status ≡ false
    → (collect (λ d. d) user id now db ≡ (err already_collected, db))
      × (remove (λ d. d) user id now db ≡ (err already_collected, db))
unfolding collect hand_over remove
collected_refused user id now db p loaded gone status =
    (ground (arith, loaded, gone), ground (arith, loaded, status))

purged_photos :
    (tenant id now : ℕ) (photos : List Photo) (f : Photo)
    → In f (update (kept_photo tenant id) (λ z. record z { purged_at = some now }) photos)
    → kept_photo tenant id f ≡ false
purged_photos tenant id now photos f m =
    let g = λ (z : Photo). record z { purged_at = some now } in
    let (x, n, at) = In-update (kept_photo tenant id) g photos f m in
    elim (Bool-cases (kept_photo tenant id x)) [
      | inl hits ↦
          let e : f ≡ g x = ground (arith, at, hits) in ap (kept_photo tenant id) e ∙ ground arith
      | inr misses ↦
          let e : f ≡ x = ground (arith, at, misses) in ap (kept_photo tenant id) e ∙ misses
    ]

-- A parcel that is removed was one of the user's tenant, at a site where the user may act, and
-- waited; afterwards no row of it waits and no photo of it is kept.
pub remove_sound :
    (others : Db → Db) (user : AuthUser) (id now : ℕ) (db : Db)
    → (remove others user id now db).0 ≡ ok tt
    → (p : Parcel) × In p db.parcels
      × (p.id ≡ id)
      × (p.tenant ≡ user.tenant)
      × (site_access user p.site ≡ true)
      × (is_waiting p.status ≡ true)
      × ((q : Parcel)
          → In q (remove others user id now db).1.parcels
          → waiting_with_id id q ≡ false)
      × ((f : Photo)
          → In f (remove others user id now db).1.photos
          → kept_photo user.tenant id f ≡ false)
unfolding remove
remove_sound others user id now db h = elim (Result-cases (load user id db)) [
  | inr (x, bad) ↦ absurd (ground (arith, bad))
  | inl (p, good) ↦
      let (there, same, tenant, access) = load_sound user id db p good in
      let waits : is_waiting p.status ≡ true = ground (arith, good) in
      let rows : (remove others user id now db).1.parcels
          ≡ filter (λ q. not (waiting_with_id p.id q)) (others db).parcels =
        ground (arith, good, waits) in
      let photos : (remove others user id now db).1.photos
          ≡ update (kept_photo user.tenant p.id) (λ z. record z { purged_at = some now })
              (others db).photos =
        ground (arith, good, waits) in
      (
        p,
        there,
        same,
        tenant,
        access,
        waits,
        λ q m.
            let left =
              In-filter (λ z. not (waiting_with_id p.id z)) (others db).parcels q
                (subst (λ (ps : List Parcel). In q ps) rows m) in
            subst (λ (n : ℕ). waiting_with_id n q ≡ false) same (ground (arith, left)),
        λ f m.
            subst (λ (n : ℕ). kept_photo user.tenant n f ≡ false) same
              (purged_photos user.tenant p.id now (others db).photos f
                (subst (λ (fs : List Photo). In f fs) photos m)),
      )
]
