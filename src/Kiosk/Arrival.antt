-- ===== src/Kiosk/Arrival.antt =====
-- What a check-in saves (kiosk.service.ts, `persist` and `checkIn`), and what a refused one leaves.
use digitalreception.Base.{
  ℕ, zero, suc, ◌+◌, ◌≡◌, refl, inl, inr, ◌⊎◌, arith, false, List, ◌∷◌, ◌++◌, Option, none, some,
  any, ok, err, Bool-cases, Result-cases, ◌∙◌, subst, subst₂, >>=-ok, ◌-◌, ◌≤◌, min, take, length,
  length-take-le, length-update, length-map, or_throw,
}
use digitalreception.Calendar.{instant_add_days}
use digitalreception.Text.{Text}
use digitalreception.Invitations.Store.{
  Site, CountryPolicy, StoredFile, FileKind, signature, document, asset_in,
}
use digitalreception.Visits.Store.{PrivacyNotice, Db}
use digitalreception.Invitations.Store.{Db as InvitationDb}
use digitalreception.Invitations.Writes.{
  Env as InvitationEnv, Device, pending_with_id, usable, consume, consume_writes,
}
use digitalreception.Kiosk.Documents.{GuestDocument, record_documents}
use digitalreception.Kiosk.Images.{Image, parse_image}
use digitalreception.Kiosk.Store.{
  Error, of_invitation, bad_image, Tablet, Env, CheckInDto, NewVisit, document_photo_asked,
  site_and_policy,
}
use digitalreception.Kiosk.Persist.{
  taken, unique_code, visit_row, store_images, use_invitation, queue_arrival, save_visit, prepare,
  persist, put, store_image, store_file, move_files, document_days, file_of, keep_days,
}
use digitalreception.Kiosk.CheckIn.{
  optional_image, accepted_texts, require_fields, form_visit, new_visit, check_in,
}

-- A code that `uniqueCode` answers is on no open visit of the site.
pub unique_code-free :
    (draw : ℕ → Text) (tries attempt tenant site : ℕ) (db : Db) (code : Text)
    → unique_code draw tries attempt tenant site db ≡ ok code
    → any (taken tenant site code) db.visits ≡ false
unfolding unique_code
unique_code-free draw zero attempt tenant site db code h = cc
unique_code-free draw (suc tries) attempt tenant site db code h =
    elim (Bool-cases (any (taken tenant site (draw attempt)) db.visits)) [
      | inl used ↦
          unique_code-free draw tries (attempt + 1) tenant site db code (ground (arith, h, used))
      | inr free ↦
          let same : draw attempt ≡ code = ground (arith, h, free) in
          subst (λ (c : Text). any (taken tenant site c) db.visits ≡ false) same free
    ]

consume-files :
    (e : InvitationEnv) (d : Device) (code : Text) (visit : ℕ) (db : InvitationDb)
    → (consume e (λ x. x) d code visit db).1.files ≡ db.files
unfolding consume consume_writes
consume-files e d code visit db = elim (Result-cases (usable e d code db)) [
  | inr (x, bad) ↦ ground (arith, bad)
  | inl (inv, good) ↦ elim (Bool-cases (any (pending_with_id inv.id) db.invitations)) [
    | inl waits ↦ ground (arith, good, waits)
    | inr over ↦ ground (arith, good, over)
  ]
]

-- Using the invitation fails, or changes invitations only.
use_invitation_lem :
    (env : Env) (t : Tablet) (code : Option Text) (id : ℕ) (db : Db)
    → ((e : Error) × ((use_invitation env t code id db).0 ≡ err e))
      ⊎ (((use_invitation env t code id db).0 ≡ ok tt)
          × ((use_invitation env t code id db).1.visits ≡ db.visits)
          × ((use_invitation env t code id db).1.base.files ≡ db.base.files))
use_invitation_lem env t none id db = inr (refl, refl, refl)
use_invitation_lem env t (some code) id db =
    elim (Result-cases (consume env.inv (λ x. x) t.on code id db.base).0) [
      | inl (inv, good) ↦ inr (rw good refl, refl, consume-files env.inv t.on code id db.base)
      | inr (e, bad) ↦ inl (of_invitation e, rw bad refl)
    ]

store_image-length :
    (new_id : List StoredFile → ℕ) (tenant visit : ℕ) (kind : FileKind) (until : ℕ)
    (image : Option Image) (files : List StoredFile)
    → length (store_image new_id tenant visit kind until image files) ≤ length files + 1
unfolding store_file
store_image-length new_id tenant visit kind until none files = omega arith
store_image-length new_id tenant visit kind until (some i) files = omega arith

move_files-length :
    (policy : CountryPolicy) (now tenant visit : ℕ) (inv : Option ℕ) (files : List StoredFile)
    → length (move_files policy now tenant visit inv files) ≡ length files
move_files-length policy now tenant visit none files = refl
move_files-length policy now tenant visit (some inv) files =
    length-update (file_of tenant inv)
      (λ f. record f {
        visit = some visit;
        invitation = none;
        purge_after = instant_add_days now (keep_days policy f.kind);
      })
      files

-- A check-in puts three images in the storage at most.
store_images-put :
    (env : Env) (id : ℕ) (t : Tablet) (policy : CountryPolicy) (v : NewVisit)
    (files : List StoredFile)
    → length (put env (store_images env id t policy v files) files) ≤ 3
unfolding store_images
store_images-put env id t policy v files =
    let until = instant_add_days env.inv.now in
    let store = store_image env.file_id t.on.tenant id in
    let days = until policy.visit_retention_days in
    let days_shown = until (document_days policy) in
    let days_asset = until (min policy.asset_photo_retention_days policy.visit_retention_days) in
    let signed = store signature days v.signature files in
    let shown = store document days_shown v.document_photo signed in
    let moved = move_files policy env.inv.now t.on.tenant id v.preregistered_from shown in
    let last = store asset_in days_asset v.asset_photo moved in
    omega (
      arith,
      length-map (λ (f : StoredFile). f.id) (take (length last - length files) last),
      length-take-le (length last - length files) last,
      store_image-length env.file_id t.on.tenant id signature days v.signature files,
      store_image-length env.file_id t.on.tenant id document days_shown v.document_photo signed,
      move_files-length policy env.inv.now t.on.tenant id v.preregistered_from shown,
      store_image-length env.file_id t.on.tenant id asset_in days_asset v.asset_photo moved,
    )

-- What a transaction that was rolled back leaves: the tables as they were, and at most three images.
abbrev pub RolledBack : Db → Db → Type 0
RolledBack before after =
    (images : List ℕ) × (after ≡ record before { stored = images ++ before.stored })
    × (length images ≤ 3)

-- The transaction saves one row, or is rolled back.
save_visit_lem :
    (env : Env) (t : Tablet) (site : Site) (policy : CountryPolicy) (v : NewVisit)
    (who : Text × Option ℕ × Option Text) (code : Text) (db : Db)
    → ((e : Error) × ((save_visit env t site policy v who code db).0 ≡ err e)
        × RolledBack db (save_visit env t site policy v who code db).1)
      ⊎ (((save_visit env t site policy v who code db).0
            ≡ ok (visit_row env (env.visit_id db.visits) t site policy v who code))
          × ((save_visit env t site policy v who code db).1.visits
              ≡ visit_row env (env.visit_id db.visits) t site policy v who code ∷ db.visits)
          × ((save_visit env t site policy v who code db).1.base.files
              ≡ store_images env (env.visit_id db.visits) t policy v db.base.files))
unfolding save_visit queue_arrival
save_visit_lem env t site policy v who code db =
    let id = env.visit_id db.visits in
    let row = visit_row env id t site policy v who code in
    let written : Db = record db {
      visits = row ∷ db.visits;
      base = record (db.base) { files = store_images env id t policy v db.base.files };
      visit_documents =
          record_documents t.on.tenant id v.documents v.accepted_at ++ db.visit_documents;
      stored = put env (store_images env id t policy v db.base.files) db.base.files ++ db.stored;
    } in
    elim (use_invitation_lem env t v.invitation_code id written) [
      | inl (e, bad) ↦ inl (
        e,
        rw (save_visit, bad) refl,
        (
          put env (store_images env id t policy v db.base.files) db.base.files,
          rw (save_visit, bad) refl,
          store_images-put env id t policy v db.base.files,
        ),
      )
      | inr (good, visits, files) ↦
          inr
            (rw (save_visit, good) refl, rw (save_visit, good) visits, rw (save_visit, good) files)
    ]

-- What `persist` does: nothing but what the other requests did, or the one row.
pub persist_lem :
    (env : Env) (others : Db → Db) (t : Tablet) (site : Site) (policy : CountryPolicy)
    (v : NewVisit) (db : Db)
    → ((e : Error) × ((persist env others t site policy v db).0 ≡ err e)
        × (((persist env others t site policy v db).1 ≡ db)
            ⊎ RolledBack (others db) (persist env others t site policy v db).1))
      ⊎ ((who : Text × Option ℕ × Option Text) × (code : Text) × (prepare env t site v db
            ≡ ok (who, code))
          × ((persist env others t site policy v db).0
              ≡ ok (visit_row env (env.visit_id (others db).visits) t site policy v who code))
          × ((persist env others t site policy v db).1.visits
              ≡ visit_row env (env.visit_id (others db).visits) t site policy v who code
                ∷ (others db).visits)
          × ((persist env others t site policy v db).1.base.files
              ≡ store_images env
                  (env.visit_id (others db).visits)
                  t
                  policy
                  v
                  (others db).base.files))
unfolding persist
persist_lem env others t site policy v db = elim (Result-cases (prepare env t site v db)) [
  | inr (e, bad) ↦ inl (e, rw (persist, bad) refl, inl (rw (persist, bad) refl))
  | inl ((who, code), good) ↦ elim (save_visit_lem env t site policy v who code (others db)) [
    | inl (e, answer, (images, left, few)) ↦
        inl (e, rw (persist, good, answer) refl, inr (images, rw (persist, good, answer) left, few))
    | inr (saved, visits, files) ↦ inr (
      who,
      code,
      good,
      rw (persist, good, saved) refl,
      rw (persist, good, saved) visits,
      rw (persist, good, saved) files,
    )
  ]
]

-- A check-in that is refused leaves no row: the tables are as they were when the request came, or as
-- the other requests left them when its transaction was rolled back; in the storage it leaves at most
-- three images, those that its transaction had put there.
pub check_in_refused :
    (env : Env) (others : Db → Db) (t : Tablet) (dto : CheckInDto) (db : Db) (e : Error)
    → (check_in env others t dto db).0 ≡ err e
    → ((check_in env others t dto db).1 ≡ db)
      ⊎ RolledBack (others db) (check_in env others t dto db).1
unfolding check_in
check_in_refused env others t dto db e h = elim (Result-cases (new_visit env t dto db)) [
  | inr (x, bad) ↦ inl (rw (check_in, bad) refl)
  | inl ((site, policy, v), good) ↦ elim (persist_lem env others t site policy v db) [
    | inl (x, bad, where_from) ↦ rw (check_in, good) where_from
    | inr (who, code, ready, saved, visits, files) ↦ absurd (ground (arith, h, good, saved))
  ]
]

-- What `new_visit` has checked, and what it hands on.
pub new_visit_sound :
    (env : Env) (t : Tablet) (dto : CheckInDto) (db : Db) (site : Site) (policy : CountryPolicy)
    (v : NewVisit)
    → new_visit env t dto db ≡ ok (site, policy, v)
    → (site_and_policy t db ≡ ok (site, policy))
      × (require_fields policy dto ≡ ok tt)
      × ((notice : PrivacyNotice) × (documents : List GuestDocument) × (signed : Image)
          × (shown : Option Image) × (asset : Option Image) × (accepted_texts t site policy dto db
              ≡ ok (notice, documents))
          × (v ≡ form_visit env dto notice documents signed shown asset))
unfolding new_visit
new_visit_sound env t dto db site policy v h =
    let ((s, p), at, h₁) = >>=-ok (site_and_policy t db) _ (site, policy, v) h in
    let ((notice, documents), texts, h₂) =
      >>=-ok (accepted_texts t s p dto db) _ (site, policy, v) h₁ in
    let (u, fields, h₃) = >>=-ok (require_fields p dto) _ (site, policy, v) h₂ in
    let (signed, drawn, h₄) =
      >>=-ok (or_throw (parse_image env.decode dto.signature) bad_image) _ (site, policy, v) h₃ in
    let (shown, photo, h₅) =
      >>=-ok (optional_image env (document_photo_asked p) dto.document_photo) _ (site, policy, v)
        h₄ in
    let (asset, laptop, h₆) =
      >>=-ok (optional_image env p.asset_photos_required dto.asset_photo) _ (site, policy, v) h₅ in
    let same_site : s ≡ site = ground (arith, h₆) in
    let same_policy : p ≡ policy = ground (arith, h₆) in
    (
      ground (arith, at, h₆),
      subst (λ (q : CountryPolicy). require_fields q dto ≡ ok tt) same_policy
          (fields ∙ ground arith),
      (
        notice,
        documents,
        signed,
        shown,
        asset,
        subst₂
            (λ (a : Site) (b : CountryPolicy). accepted_texts t a b dto db ≡ ok (notice, documents))
            same_site same_policy texts,
        ground (arith, h₆),
      ),
    )
