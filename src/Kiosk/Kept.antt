-- ===== src/Kiosk/Kept.antt =====
-- How long the images of a visit are kept (kiosk.service.ts, `persist` and `checkInPreregistered`).
use digitalreception.Base.{
  ℕ, ◌≤◌, ◌≡◌, refl, inl, inr, ◌⊎◌, arith, Bool, false, List, Option, none, some, min, update, ok,
  ok-injective, Bool-cases, In, In-update, sym, ◌∙◌, ap, subst,
}
use digitalreception.Calendar.{instant_add_days}
use digitalreception.Invitations.Store.{
  FileKind, signature, document, asset_in, StoredFile, Site, CountryPolicy,
}
use digitalreception.Visits.Store.{Visit, Db}
use digitalreception.Kiosk.Images.{Image}
use digitalreception.Kiosk.Store.{Tablet, Env, NewVisit, document_photo_asked}
use digitalreception.Kiosk.Persist.{
  is_document, file_of, document_days, keep_days, store_file, store_image, move_files, store_images,
  visit_row, persist,
}
use digitalreception.Kiosk.Arrival.{persist_lem}

keep_days-le : (p : CountryPolicy) (kind : FileKind) → keep_days p kind ≤ p.visit_retention_days
unfolding keep_days
keep_days-le p kind =
    ground (arith, Bool-cases (is_document kind), Bool-cases (document_photo_asked p))

-- An image of the visit that is deleted in time.
abbrev pub InTime : ℕ → ℕ → StoredFile → Type 0
InTime visit limit f = (f.visit ≡ some visit) × (f.purge_after ≤ limit)

-- A file that was there before, or one of the visit that is deleted in time.
abbrev pub OldOrInTime : ℕ → ℕ → List StoredFile → StoredFile → Type 0
OldOrInTime visit limit files f = In f files ⊎ InTime visit limit f

-- After the files of a pre-registration have moved, none of them is kept for the invitation.
moved-OldOrInTime :
    (p : CountryPolicy) (now tenant visit inv : ℕ) (before files : List StoredFile)
    → ((f : StoredFile)
        → In f files
        → OldOrInTime visit (instant_add_days now p.visit_retention_days) before f)
    → (f : StoredFile)
    → In f (
        update
          (file_of tenant inv)
          (λ x. record x {
            visit = some visit;
            invitation = none;
            purge_after = instant_add_days now (keep_days p x.kind);
          })
          files)
    → OldOrInTime visit (instant_add_days now p.visit_retention_days) before f
      × (file_of tenant inv f ≡ false)
moved-OldOrInTime p now tenant visit inv before files h f m =
    let g = λ (x : StoredFile). record x {
      visit = some visit;
      invitation = none;
      purge_after = instant_add_days now (keep_days p x.kind);
    } in
    let (x, n, at) = In-update (file_of tenant inv) g files f m in
    elim (Bool-cases (file_of tenant inv x)) [
      | inl hits ↦
          let e : f ≡ g x = ground (arith, at, hits) in
          (
            inr (
              ap (λ z. z.visit) e,
              ground (arith, ap (λ (z : StoredFile). z.purge_after) e, keep_days-le p x.kind),
            ),
            ap (file_of tenant inv) e ∙ ground arith,
          )
      | inr misses ↦
          let e : f ≡ x = ground (arith, at, misses) in
          (
            subst (λ z. OldOrInTime visit (instant_add_days now p.visit_retention_days) before z)
                (sym e) (h x n),
            ap (file_of tenant inv) e ∙ misses,
          )
    ]

-- What `persist` leaves of the files: each is an old one or in time, and none stays behind.
abbrev Settled : ℕ → ℕ → ℕ → Option ℕ → List StoredFile → StoredFile → Type 0
Settled visit limit tenant none before f = OldOrInTime visit limit before f
Settled visit limit tenant (some inv) before f =
    OldOrInTime visit limit before f × (file_of tenant inv f ≡ false)

-- A file that is still kept for the pre-registration.
abbrev pub left_behind : ℕ → Option ℕ → StoredFile → Bool
left_behind tenant none f = false
left_behind tenant (some inv) f = file_of tenant inv f

Settled-parts :
    (visit seen limit tenant : ℕ) (from : Option ℕ) (before : List StoredFile) (f : StoredFile)
    → visit ≡ seen
    → Settled visit limit tenant from before f
    → OldOrInTime seen limit before f × (left_behind tenant from f ≡ false)
Settled-parts visit seen limit tenant none before f e h =
    (subst (λ n. OldOrInTime n limit before f) e h, refl)
Settled-parts visit seen limit tenant (some inv) before f e h =
    (subst (λ n. OldOrInTime n limit before f) e h.0, h.1)

stored-Settled :
    (new_id : List StoredFile → ℕ) (tenant visit : ℕ) (kind : FileKind) (until limit : ℕ)
    (from : Option ℕ) (image : Option Image) (before files : List StoredFile)
    → until ≤ limit
    → ((f : StoredFile) → In f files → Settled visit limit tenant from before f)
    → (f : StoredFile) → In f (store_image new_id tenant visit kind until image files)
    → Settled visit limit tenant from before f
unfolding store_file
stored-Settled new_id tenant visit kind until limit from none before files le h f m = h f m
stored-Settled new_id tenant visit kind until limit from (some i) before files le h f (inr m) =
    h f m
stored-Settled new_id tenant visit kind until limit none (some i) before files le h f (inl e) =
    inr (ap (λ x. x.visit) e, ground (arith, ap (λ (x : StoredFile). x.purge_after) e, le))
stored-Settled new_id tenant visit kind until limit (some inv) (some i) before files le h f
      (inl e) =
    (
      inr (ap (λ x. x.visit) e, ground (arith, ap (λ (x : StoredFile). x.purge_after) e, le)),
      ap (file_of tenant inv) e ∙ ground arith,
    )

moved-Settled :
    (p : CountryPolicy) (now tenant visit : ℕ) (from : Option ℕ) (before files : List StoredFile)
    → ((f : StoredFile)
        → In f files
        → OldOrInTime visit (instant_add_days now p.visit_retention_days) before f)
    → (f : StoredFile) → In f (move_files p now tenant visit from files)
    → Settled visit (instant_add_days now p.visit_retention_days) tenant from before f
moved-Settled p now tenant visit none before files h f m = h f m
moved-Settled p now tenant visit (some inv) before files h f m =
    moved-OldOrInTime p now tenant visit inv before files h f m

store_images_sound :
    (env : Env) (id : ℕ) (t : Tablet) (policy : CountryPolicy) (v : NewVisit)
    (files : List StoredFile) (f : StoredFile)
    → In f (store_images env id t policy v files)
    → Settled id
        (instant_add_days env.inv.now policy.visit_retention_days)
        t.on.tenant
        v.preregistered_from
        files
        f
unfolding store_images
store_images_sound env id t policy v files =
    let until = instant_add_days env.inv.now in
    let limit = until policy.visit_retention_days in
    let store = store_image env.file_id t.on.tenant id in
    let stored = stored-Settled env.file_id t.on.tenant id in
    let signed = store signature limit v.signature files in
    let shown = store document (until (document_days policy)) v.document_photo signed in
    let photo_in_time : until (document_days policy) ≤ limit = ground arith in
    let laptop = until (min policy.asset_photo_retention_days policy.visit_retention_days) in
    let laptop_in_time : laptop ≤ limit = ground arith in
    stored asset_in laptop limit v.preregistered_from v.asset_photo files
      (move_files policy env.inv.now t.on.tenant id v.preregistered_from shown) laptop_in_time
      (moved-Settled policy env.inv.now t.on.tenant id v.preregistered_from files shown (
        stored document (until (document_days policy)) limit none v.document_photo files signed
          photo_in_time
          (stored signature limit limit none v.signature files files (ground arith)
            (λ f m. inl m))))

-- When a check-in saves a visit, every file there is afterwards is one that the other requests left,
-- or belongs to the visit and is deleted within the days that the policy of the country keeps visits;
-- and if the guest had pre-registered, no file is kept for the invitation any more.
pub persist-files :
    (env : Env) (others : Db → Db) (t : Tablet) (site : Site) (policy : CountryPolicy)
    (v : NewVisit) (db : Db) (row : Visit)
    → (persist env others t site policy v db).0 ≡ ok row
    → (f : StoredFile) → In f (persist env others t site policy v db).1.base.files
    → (In f (others db).base.files
        ⊎ ((f.visit ≡ some row.id)
            × (f.purge_after ≤ instant_add_days env.inv.now policy.visit_retention_days)))
      × (left_behind t.on.tenant v.preregistered_from f ≡ false)
unfolding visit_row
persist-files env others t site policy v db row h f m =
    elim (persist_lem env others t site policy v db) [
      | inl (e, bad, left) ↦ absurd (ground (arith, h, bad))
      | inr (who, code, ready, saved, visits, files) ↦
          let id = env.visit_id (others db).visits in
          let limit = instant_add_days env.inv.now policy.visit_retention_days in
          let same : id ≡ row.id = ap (λ (r : Visit). r.id) (ok-injective (sym saved ∙ h)) in
          let here =
            store_images_sound env id t policy v (others db).base.files f
              (subst (λ (fs : List StoredFile). In f fs) files m) in
          Settled-parts id row.id limit t.on.tenant v.preregistered_from (others db).base.files f
            same here
    ]
