-- ===== src/Kiosk/Tests.antt =====
-- The tablet on concrete rows.
use digitalreception.Base.{
  ℕ, ◌+◌, ◌*◌, ◌≤◌, ◌≡◌, ◌↔◌, ◌⊎◌, refl, inl, true, false, [], ◌∷◌, ◌++◌, none, some, or_else, any,
  contains, length, In, ok, err, ap,
}
use digitalreception.Calendar.{instant_add_days}
use digitalreception.Text.{codes, same_text, trim, is_space, strip_prefix}
use digitalreception.Invitations.Store.{not_requested, meeting, under_10_km, signature, StoredFile}
use digitalreception.Invitations.Writes.{invitation_not_found, consume, usable, assert_usable_at}
use digitalreception.Visits.Store.{Visit, Db}
use digitalreception.Visits.Lifecycle.{open_with_id, close_visit}
use digitalreception.Visits.Sample.{notice_in_spanish, desk, ona, head_office, spain}
use digitalreception.Kiosk.Documents.{for_site, accepts, text_for}
use digitalreception.Kiosk.Images.{png, data_url, parse_image}
use digitalreception.Kiosk.Store.{
  of_invitation, Tablet, Env, CheckInDto, NewVisit, site_and_policy, latest_notice, site_hosts,
  document_photo_asked,
}
use digitalreception.Kiosk.Persist.{
  host_of, unique_code, visit_row, store_file, store_images, queue_arrival, save_visit, prepare,
  persist,
}
use digitalreception.Kiosk.CheckIn.{accepted_texts, require_fields, form_visit, new_visit, check_in}
use digitalreception.Kiosk.CheckOut.{
  Match, leaving, check_out, find_open, open_matches, by_code, by_surname, initial,
}
use digitalreception.Kiosk.Accepted.{ids_of, accepts_iff}
use digitalreception.Kiosk.Search.{Found, find_open_sound}
use digitalreception.Kiosk.Leaving.{check_out_sound}
use digitalreception.Kiosk.Arrival.{RolledBack, check_in_refused}
use digitalreception.Kiosk.Kept.{left_behind, persist-files}

abbrev platform : Env
platform = record {
  inv = record {
    now = 2000;
    mail_enabled = true;
    wall = λ zone t. t;
    sha = λ code. code;
    new_id = λ rows. 1;
    code = λ n. codes "WXYZ2345";
  };
  decode = λ s. 137 ∷ 80 ∷ 78 ∷ 71 ∷ 13 ∷ 10 ∷ 26 ∷ 10 ∷ [];
  blind = λ s. some s;
  host_before = λ a b. false;
  code = λ n. codes "QRS45";
  visit_id = λ vs. length vs + 100;
  file_id = λ fs. length fs + 200;
  hook_delivery_id = λ ds. 1;
  push_delivery_id = λ ds. 1;
}

abbrev tablet : Tablet
tablet = record { id = 4; name = codes "Hall"; on = record { tenant = 1; site = 2 } }

abbrev form : CheckInDto
form = record {
  locale = "es";
  first_name = codes "Pau";
  last_name = codes "Vila";
  company = none;
  email = none;
  send_notice_email = false;
  host_id = none;
  host = some (codes "Marta");
  travel_distance = under_10_km;
  purpose = meeting;
  document_type = none;
  document_number = some (codes "X1");
  notice = 3;
  accepted_documents = 21 ∷ [];
  signature = codes "data:image/png;base64,AAAA";
  document_photo = none;
  asset_photo = none;
  invitation_code = none;
}

accepts_iff_example :
    (accepts (record { id = 21; document = 20; version = 1; locale = "es" } ∷ []) (21 ∷ 21 ∷ [])
      ≡ true)
    ↔ ((n : ℕ)
        → contains n (21 ∷ 21 ∷ [])
          ≡ contains n
              (ids_of (record { id = 21; document = 20; version = 1; locale = "es" } ∷ [])))
accepts_iff_example =
    accepts_iff (record { id = 21; document = 20; version = 1; locale = "es" } ∷ []) (21 ∷ 21 ∷ [])
      (refl, tt)

-- What the tablet shows for Ona's surname.
abbrev her_match : Match
her_match = record {
  id = 7;
  label = codes "roig O.";
  check_in_at = 1000;
  asset_photo_required = false;
}

her_surname_found : find_open (λ s. s) tablet (codes "roi") desk ≡ ok (her_match ∷ [])
unfolding find_open site_and_policy open_matches by_code by_surname same_text trim is_space
    strip_prefix
her_surname_found = refl

find_open_sound_example :
    (length (her_match ∷ []) ≤ 5)
    × ((m : Match)
        → In m (her_match ∷ [])
        → (v : Visit) × In v desk.visits
          × Found (λ s. s) tablet (trim (codes "roi")) v
          × (m.id ≡ v.id)
          × (m.label
              ≡ or_else v.person.last_name []
                ++ (codes " " ++ (initial (or_else v.person.first_name []) ++ codes "."))))
find_open_sound_example =
    find_open_sound (λ s. s) tablet (codes "roi") desk (her_match ∷ []) her_surname_found

she_leaves : (check_out platform (λ d. d) tablet 7 none desk).0 ≡ ok 2000
unfolding check_out leaving site_and_policy close_visit
she_leaves = refl

check_out_sound_example :
    (◌≡◌ {A = ℕ} 2000 platform.inv.now)
    × ((v : Visit) × In v desk.visits
        × (v.id ≡ 7)
        × (v.tenant ≡ tablet.on.tenant)
        × (v.site ≡ tablet.on.site))
    × (any (open_with_id tablet.on.tenant 7) desk.visits ≡ true)
    × ((v : Visit)
        → In v (check_out platform (λ d. d) tablet 7 none desk).1.visits
        → open_with_id tablet.on.tenant 7 v ≡ false)
    × ((check_out platform (λ d. d) tablet 7 none desk).1.base.invitations ≡ desk.base.invitations)
check_out_sound_example = check_out_sound platform (λ d. d) tablet 7 none desk 2000 she_leaves

-- The row of Pau Vila's visit.
abbrev pau : Visit
pau = record ona {
  id = 101;
  code = codes "QRS45";
  check_in_at = 2000;
  person = record (ona.person) {
    first_name = some (codes "Pau");
    last_name = some (codes "Vila");
    last_name_index = some (codes "Vila");
    email = none;
    host_name = some (codes "Marta");
  };
  accepted_at = 2000;
  notice_email = record { status = not_requested; attempts = 0 };
}

-- A form with the code of an invitation that is not there: the transaction is rolled back, but the
-- signature is in the storage already.
abbrev unknown_code : CheckInDto
unknown_code = record form { invitation_code = some (codes "QQQQQ") }

abbrev left_over : Db
left_over = record desk { stored = 201 ∷ [] }

unknown_refused :
    check_in platform (λ d. d) tablet unknown_code desk
    ≡ (err (of_invitation invitation_not_found), left_over)
unfolding check_in new_visit site_and_policy accepted_texts latest_notice for_site text_for accepts
    require_fields document_photo_asked parse_image data_url strip_prefix same_text persist prepare
    host_of site_hosts unique_code save_visit visit_row consume usable assert_usable_at store_images
    store_file
unknown_refused = refl

check_in_refused_example :
    ((check_in platform (λ d. d) tablet unknown_code desk).1 ≡ desk)
    ⊎ RolledBack desk (check_in platform (λ d. d) tablet unknown_code desk).1
check_in_refused_example =
    check_in_refused platform (λ d. d) tablet unknown_code desk (of_invitation invitation_not_found)
      (ap (λ r. r.0) unknown_refused)

abbrev his_visit : NewVisit
his_visit =
    form_visit platform form notice_in_spanish [] (record { mime = png; bytes = [] }) none none

he_is_saved : (persist platform (λ d. d) tablet head_office spain his_visit desk).0 ≡ ok pau
unfolding persist prepare host_of site_hosts unique_code same_text save_visit visit_row
he_is_saved = refl

-- His signature, as it is stored.
abbrev his_signature : StoredFile
his_signature = record {
  id = 201;
  tenant = 1;
  visit = some 101;
  invitation = none;
  kind = signature;
  purge_after = 2000 + 30 * 86400000;
  purged_at = none;
}

his_signature_kept :
    In his_signature
      (persist platform (λ d. d) tablet head_office spain his_visit desk).1.base.files
unfolding persist prepare host_of site_hosts unique_code same_text save_visit store_images
    store_file queue_arrival
his_signature_kept = inl refl

persist-files_example :
    (In his_signature desk.base.files
      ⊎ ((his_signature.visit ≡ some pau.id)
          × (his_signature.purge_after ≤ instant_add_days 2000 spain.visit_retention_days)))
    × (left_behind 1 none his_signature ≡ false)
persist-files_example =
    persist-files platform (λ d. d) tablet head_office spain his_visit desk pau he_is_saved
      his_signature his_signature_kept
