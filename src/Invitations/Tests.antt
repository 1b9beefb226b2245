-- ===== src/Invitations/Tests.antt =====
-- The theorems on invitations at concrete inputs.
use digitalreception.Base.{
  ◌+◌, ◌*◌, ◌≤◌, ◌<◌, ◌≡◌, ◌≢◌, ◌↔◌, ◌⊎◌, refl, true, false, ◌&&◌, [], ◌∷◌, none, some, ◌==◌, any,
  find, length, In, ok, err,
}
use digitalreception.Calendar.{day_ms, instant_add_days}
use digitalreception.Text.{Text, codes, same_text}
use digitalreception.Midnight.{local_date_to_utc, start_of_local_day, less_offset}
use digitalreception.Invitations.Store.{
  pending, used, waiting, meeting, signature, no_preregistration, Invitation, StoredFile, Db,
  is_pending, clashes, insert_invitation,
}
use digitalreception.Invitations.Writes.{
  Env, Actor, Device, InvitationInput, Error, max_days_ahead, pending_with_id,
  normalise_invite_code, day_window, create, create_checks, save_with_code, own, own_open,
  assert_open, cancel, usable, assert_usable_at, consume, consume_writes,
}
use digitalreception.Invitations.Once.{consumes, times_used, used_once}
use digitalreception.Invitations.Guards.{usable_iff, consume_sound, cancel_purges}
use digitalreception.Invitations.Created.{create_sound}

-- Noon of the day 20000 since 1970, a hash that is the code, and the clock of UTC.
abbrev noon : Env
noon = record {
  now = 20000 * day_ms + 43200000;
  mail_enabled = true;
  wall = λ zone t. t;
  sha = λ code. code;
  new_id = λ rows. length rows + 10;
  code = λ n. codes "WXYZ2345";
}

abbrev visit_at_four : Invitation
visit_at_four = record {
  id = 3;
  tenant = 1;
  site = 2;
  details = record {
    host = 5;
    expected_at = 20000 * day_ms + 57600000;
    valid_from = 20000 * day_ms;
    valid_until = 20001 * day_ms;
    first_name = codes "Pau";
    last_name = codes "Vila";
    company = none;
    email = codes "pau@example.org";
    purpose = meeting;
    locale = "es";
    code = codes "ABCD2345";
    by_user = some 1;
    by_employee = none;
  };
  code_hash = codes "ABCD2345";
  status = pending;
  visit = none;
  used_at = none;
  email_status = waiting;
  email_attempts = 0;
  pre = no_preregistration;
}

abbrev desk : Db
desk = record {
  invitations =
      visit_at_four
      ∷ record visit_at_four { id = 4; code_hash = codes "EFGH2345"; status = used; visit = some 9 }
      ∷ [];
  files =
      record {
        id = 1;
        tenant = 1;
        visit = none;
        invitation = some 3;
        kind = signature;
        purge_after = 0;
        purged_at = none;
      }
      ∷ [];
  sites =
      record { id = 2; tenant = 1; name = "HQ"; country = "ES"; timezone = "UTC"; active = true }
      ∷ [];
  hosts =
      record {
        id = 5;
        tenant = 1;
        first_name = codes "Ona";
        last_name = codes "Roig";
        email = none;
        sites = 2 ∷ [];
        active = true;
        employee = none;
      }
      ∷ [];
  policies =
      record {
        tenant = 1;
        country = "ES";
        locales = "es" ∷ "en" ∷ [];
        default_locale = "es";
        visit_retention_days = 30;
        document_data_enabled = false;
        document_photo_enabled = false;
        document_photo_retention_days = 7;
        asset_photos_required = false;
        asset_photo_retention_days = 30;
      }
      ∷ [];
}

abbrev tablet : Device
tablet = record { tenant = 1; site = 2 }

used_once_example :
    times_used 3 ((noon, consumes visit_at_four 70) ∷ (noon, consumes visit_at_four 71) ∷ []) desk
    ≤ 1
used_once_example =
    used_once ((noon, consumes visit_at_four 70) ∷ (noon, consumes visit_at_four 71) ∷ []) 3 desk

abbrev typed : Text
typed = codes "abcd-2345"

code_found :
    find
      (λ i. i.tenant == 1 && same_text i.code_hash (normalise_invite_code typed))
      desk.invitations
    ≡ some visit_at_four
unfolding normalise_invite_code same_text
code_found = refl

usable_iff_example : (usable noon tablet typed desk ≡ ok visit_at_four) ↔ (
    (visit_at_four.site ≡ tablet.site)
    × (visit_at_four.status ≡ pending)
    × (visit_at_four.details.valid_from ≤ noon.now)
    × (noon.now < visit_at_four.details.valid_until))
usable_iff_example = usable_iff noon tablet typed desk visit_at_four code_found

consumed : (consume noon (λ d. d) tablet typed 70 desk).0 ≡ ok visit_at_four
unfolding consume usable assert_usable_at consume_writes normalise_invite_code same_text
consumed = refl

consume_sound_example :
    In visit_at_four desk.invitations
    × (visit_at_four.tenant ≡ tablet.tenant)
    × (same_text visit_at_four.code_hash (normalise_invite_code typed) ≡ true)
    × (visit_at_four.site ≡ tablet.site)
    × (visit_at_four.details.valid_from ≤ noon.now)
    × (noon.now < visit_at_four.details.valid_until)
    × (any (pending_with_id 3) desk.invitations ≡ true)
consume_sound_example = consume_sound noon (λ d. d) tablet typed 70 desk visit_at_four consumed

abbrev visited : Invitation
visited = record visit_at_four {
  id = 4;
  code_hash = codes "EFGH2345";
  status = used;
  visit = some 9;
}

given_up : (cancel noon (λ d. d) 1 3 desk).0 ≡ ok visit_at_four
unfolding cancel own_open own assert_open
given_up = refl

cancel_purges_example :
    ((i : Invitation)
      → In i (cancel noon (λ d. d) 1 3 desk).1.invitations
      → i.id ≡ visit_at_four.id
      → is_pending i.status ≡ false)
    × ((f : StoredFile)
        → In f (cancel noon (λ d. d) 1 3 desk).1.files
        → f.tenant ≡ 1
        → f.invitation ≡ some visit_at_four.id
        → f.purged_at ≢ none)
cancel_purges_example = cancel_purges noon (λ d. d) 1 3 desk visit_at_four given_up

abbrev console : Actor
console = record { tenant = 1; user = some 1; employee = none }

abbrev tomorrow_at_ten : InvitationInput
tomorrow_at_ten = record {
  site = 2;
  host = 5;
  date = some 20001;
  hours = 10;
  minutes = 0;
  first_name = codes "Pau";
  last_name = codes "Vila";
  company = some [];
  email = codes "pau@example.org";
  purpose = meeting;
  locale = none;
}

create_sound_example :
    ((inv : Invitation) × (create noon console tomorrow_at_ten desk
        ≡ (ok inv, record desk { invitations = inv ∷ desk.invitations }))
      × (any (clashes inv) desk.invitations ≡ false)
      × (inv.status ≡ pending)
      × (inv.tenant ≡ console.tenant)
      × (noon.now < inv.details.valid_until)
      × (inv.details.expected_at ≤ instant_add_days noon.now max_days_ahead))
    ⊎ ((e : Error) × (create noon console tomorrow_at_ten desk ≡ (err e, desk)))
create_sound_example = create_sound noon console tomorrow_at_ten desk

-- It is saved.
tomorrow_saved : length (create noon console tomorrow_at_ten desk).1.invitations ≡ 3
unfolding create create_checks save_with_code insert_invitation day_window local_date_to_utc
    start_of_local_day less_offset same_text
tomorrow_saved = refl
