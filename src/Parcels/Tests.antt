-- ===== src/Parcels/Tests.antt =====
-- The theorems on parcels at concrete inputs.
use digitalreception.Base.{ℕ, ◌≡◌, refl, true, false, [], ◌∷◌, none, some, any, In, ok}
use digitalreception.Calendar.{instant_add_days}
use digitalreception.Parcels.Desk.{
  AuthUser, receptionist, Parcel, Photo, CreateParcel, Db, waiting, collected, queued,
  not_requested, is_waiting, dhl, ups, parcel_photo_after_collect_days, site_access,
  waiting_with_id, kept_photo, load, create, create_checks, enqueue_parcel, hand_over, collect,
  remove,
}
use digitalreception.Parcels.Handover.{collect_sound}

abbrev clerk : AuthUser
clerk = record { id = 20; tenant = 1; role = receptionist; sites = 2 ∷ [] }

abbrev box : Parcel
box = record {
  id = 7;
  tenant = 1;
  site = 2;
  employee = 3;
  carrier = dhl;
  pieces = 1;
  tracking = none;
  note = none;
  status = waiting;
  received_at = 5;
  received_by = 20;
  collected_at = none;
  collected_by = none;
  email_status = queued;
  email_attempts = 0;
}

abbrev gone_box : Parcel
gone_box = record box { id = 8; status = collected; collected_at = some 6; collected_by = some 20 }

abbrev shelf : Db
shelf = record {
  parcels = box ∷ gone_box ∷ [];
  photos = record { tenant = 1; parcel = 7; purge_after = 900; purged_at = none } ∷ [];
  employees = record { id = 3; tenant = 1; active = true; apps_off = []; email = none } ∷ [];
  sites = record { id = 2; tenant = 1; name = "HQ"; active = true } ∷ [];
  devices = (1, 3) ∷ [];
  deliveries = [];
  audit = [];
}

abbrev clock : ℕ
clock = 1000

handed_over : (collect (λ d. d) clerk 7 1000 shelf).0 ≡ ok 1000
unfolding collect load site_access hand_over
handed_over = refl

collect_sound_example :
    (p : Parcel) × In p shelf.parcels
    × (p.id ≡ 7)
    × (p.tenant ≡ clerk.tenant)
    × (site_access clerk p.site ≡ true)
    × (clock ≡ clock)
    × (any (waiting_with_id 7) shelf.parcels ≡ true)
    × ((q : Parcel)
        → In q (collect (λ d. d) clerk 7 1000 shelf).1.parcels
        → q.id ≡ 7
        → is_waiting q.status ≡ false)
    × ((f : Photo)
        → In f (collect (λ d. d) clerk 7 1000 shelf).1.photos
        → kept_photo clerk.tenant 7 f ≡ true
        → f.purge_after ≡ instant_add_days 1000 parcel_photo_after_collect_days)
collect_sound_example = collect_sound (λ d. d) clerk 7 1000 1000 shelf handed_over

removed : (remove (λ d. d) clerk 7 1000 shelf).0 ≡ ok tt
unfolding remove load site_access
removed = refl

gone_loaded : load clerk 8 shelf ≡ ok gone_box
unfolding load site_access
gone_loaded = refl

abbrev letter : CreateParcel
letter = record {
  site = 2;
  employee = 3;
  carrier = ups;
  pieces = none;
  tracking = none;
  note = none;
  has_photo = false;
}

-- A parcel of an employee with a phone queues a notice.
letter_created :
    (create true 9 clerk letter 1000 shelf).0
    ≡ ok (record { id = 9; push_queued = true; email_status = not_requested })
unfolding create create_checks enqueue_parcel site_access
letter_created = refl
