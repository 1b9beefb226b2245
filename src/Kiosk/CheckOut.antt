-- ===== src/Kiosk/CheckOut.antt =====
-- Check-out (api/src/kiosk/kiosk.service.ts): `findOpen` and `checkOut`, and the pairing of a tablet.
use digitalreception.Base.{
  ℕ, Bool, ◌&&◌, ◌||◌, not, List, [], ◌∷◌, ◌++◌, Option, none, some, is_some, or_else, ◌==◌, ltb,
  min, if◌then◌else◌, all, find, filter, map, sort_by, take, length, Result, ok, err, or_throw,
  require, ◌>>=◌, ◌>>◌,
}
use digitalreception.Calendar.{instant_add_days}
use digitalreception.Text.{Text, codes, same_text, trim, between, is_digit, strip_prefix}
use digitalreception.Invitations.Store.{asset_out}
use digitalreception.Invitations.Writes.{upper}
use digitalreception.Visits.Store.{visit_check_out, Visit, Db, is_open}
use digitalreception.Visits.Lifecycle.{close_visit}
use digitalreception.Kiosk.Images.{Image}
use digitalreception.Kiosk.Store.{
  Error, not_found, already_closed, asset_photo_required, Tablet, Env, site_and_policy,
}
use digitalreception.Kiosk.Persist.{given, store_file}
use digitalreception.Kiosk.CheckIn.{optional_image}

abbrev pub max_open_matches : ℕ
max_open_matches = 5

abbrev pub max_open_read : ℕ
max_open_read = 500

-- What the tablet shows of a visit.
pub record Match : Type 0 where
  pub id : ℕ
  pub label : Text
  pub check_in_at : ℕ
  pub asset_photo_required : Bool

-- The open visits of the tablet's site.
abbrev pub open_here : Tablet → Visit → Bool
open_here t v = v.tenant == t.on.tenant && (v.site == t.on.site && is_open v.status)

-- `/^[A-Za-z0-9]{5}$/`
abbrev pub is_exit_code : Text → Bool
is_exit_code s =
    length s == 5 && all (λ c. between b'A' b'Z' c || (between b'a' b'z' c || is_digit c)) s

abbrev pub newest_first : Visit → Visit → Bool
newest_first a b = ltb b.check_in_at a.check_in_at

-- `startsWith`
abbrev pub starts_with : Text → Text → Bool
starts_with prefix s = is_some (strip_prefix prefix s)

-- `charAt(0)`
abbrev pub initial : Text → Text
initial [] = []
initial (c ∷ s) = c ∷ []

-- Those with the exit code, if the query is one.
unfoldable pub by_code : Tablet → Text → Db → List Visit
by_code t query db =
    if is_exit_code query
    then filter (λ v. open_here t v && same_text v.code (map upper query)) db.visits
    else []

-- Those whose surname starts with the query, unless there are too many; `norm` takes case and accents
-- off a text.
unfoldable pub by_surname : (Text → Text) → Tablet → Text → Db → List Visit
by_surname norm t query db =
    let hits =
      filter (λ v. starts_with (norm query) (norm (or_else v.person.last_name [])))
        (take max_open_read (sort_by newest_first (filter (open_here t) db.visits))) in
    if ltb max_open_matches (length hits) then [] else hits

unfoldable pub open_matches : (Text → Text) → Tablet → Text → Db → List Visit
open_matches norm t query db =
    let coded = by_code t query db in
    if length coded == 0 then by_surname norm t query db else coded

-- `findOpen`
unfoldable pub find_open : (Text → Text) → Tablet → Text → Db → Result Error (List Match)
find_open norm t q db = do
  (site, policy) ← site_and_policy t db
  ok (
      map
        (λ v. record {
          id = v.id;
          label =
              or_else v.person.last_name []
              ++ (codes " " ++ (initial (or_else v.person.first_name []) ++ codes "."));
          check_in_at = v.check_in_at;
          asset_photo_required = policy.asset_photos_required;
        })
        (take max_open_matches (open_matches norm t (trim q) db)))

module _ (env : Env) where
  -- What `checkOut` reads and checks: the visit, the days that a photo is kept, and the photo.
  unfoldable pub leaving : Tablet → ℕ → Option Text → Db → Result Error (Visit × ℕ × Option Image)
  leaving t id photo db = do
    (site, policy) ← site_and_policy t db
    v ←
        or_throw
          (find (λ v. v.id == id && (v.tenant == t.on.tenant && v.site == t.on.site)) db.visits)
          not_found
    require (is_open v.status) already_closed
    require (not policy.asset_photos_required || given photo) asset_photo_required
    image ← optional_image env policy.asset_photos_required photo
    ok (v, min policy.asset_photo_retention_days policy.visit_retention_days, image)

  -- `checkOut`, while other requests commit before its transaction.
  unfoldable pub check_out : (Db → Db) → Tablet → ℕ → Option Text → Db → Result Error ℕ × Db
  check_out others t id photo db = elim (leaving t id photo db) [
    | err e ↦ (err e, db)
    | ok (v, days, image) ↦
        let next = others db in
        elim (close_visit t.on.tenant v.id env.inv.now (take 80 (codes "device:" ++ t.name)) next) [
          | none ↦ (err already_closed, next)
          | some saved ↦ (
            ok env.inv.now,
            record saved {
              base = record (saved.base) {
                files = elim image [
                  | none ↦ saved.base.files
                  | some i ↦
                      store_file env.file_id t.on.tenant v.id asset_out
                        (instant_add_days v.check_in_at days) saved.base.files
                ];
              };
              audit = visit_check_out v.id (is_some image) ∷ saved.audit;
            },
          )
        ]
  ]
