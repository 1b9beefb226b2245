-- ===== src/Kiosk/Search.antt =====
-- What the search at check-out reveals (kiosk.service.ts, `findOpen`).
use digitalreception.Base.{
  ℕ, ◌≤◌, ◌≡◌, refl, inl, inr, ◌⊎◌, arith, true, ◌&&◌, List, [], ◌∷◌, ◌++◌, or_else, ◌==◌, ltb,
  filter, map, sort_by, take, length, ok, Bool-cases, Result-cases, In, In-filter, take-In,
  sort_by-In, length-take-le, subst, sym, ap,
}
use digitalreception.Text.{Text, codes, same_text, trim}
use digitalreception.Invitations.Store.{CountryPolicy, Site}
use digitalreception.Invitations.Writes.{upper}
use digitalreception.Visits.Store.{Visit, Db}
use digitalreception.Kiosk.Store.{Tablet, site_and_policy}
use digitalreception.Kiosk.CheckOut.{
  Match, max_open_matches, max_open_read, open_here, is_exit_code, newest_first, starts_with,
  initial, by_code, by_surname, open_matches, find_open,
}

-- What the tablet is told of a visit.
abbrev shown : CountryPolicy → Visit → Match
shown policy v = record {
  id = v.id;
  label =
      or_else v.person.last_name []
      ++ (codes " " ++ (initial (or_else v.person.first_name []) ++ codes "."));
  check_in_at = v.check_in_at;
  asset_photo_required = policy.asset_photos_required;
}

-- Why a visit is found: it is open at the tablet's site, and the query is its code or begins its
-- surname.
abbrev pub Found : (Text → Text) → Tablet → Text → Visit → Type 0
Found norm t query v =
    (open_here t v ≡ true)
    × ((same_text v.code (map upper query) ≡ true)
        ⊎ (starts_with (norm query) (norm (or_else v.person.last_name [])) ≡ true))

by_code-Found :
    (norm : Text → Text) (t : Tablet) (query : Text) (db : Db) (v : Visit)
    → In v (by_code t query db)
    → In v db.visits × Found norm t query v
unfolding by_code
by_code-Found norm t query db v m =
    let q = λ (x : Visit). open_here t x && same_text x.code (map upper query) in
    elim (Bool-cases (is_exit_code query)) [
      | inl coded ↦
          let (n, h) = In-filter q db.visits v (ground (arith, m, coded)) in
          (n, (ground (arith, h), inl (ground (arith, h))))
      | inr no_code ↦ absurd (ground (arith, m, no_code))
    ]

by_surname-Found :
    (norm : Text → Text) (t : Tablet) (query : Text) (db : Db) (v : Visit)
    → In v (by_surname norm t query db)
    → In v db.visits × Found norm t query v
unfolding by_surname
by_surname-Found norm t query db v m =
    let q = λ (x : Visit). starts_with (norm query) (norm (or_else x.person.last_name [])) in
    let here = filter (open_here t) db.visits in
    let read = take max_open_read (sort_by newest_first here) in
    elim (Bool-cases (ltb max_open_matches (length (filter q read)))) [
      | inl many ↦ absurd (ground (arith, m, many))
      | inr few ↦
          let (n, h) = In-filter q read v (ground (arith, m, few)) in
          let (k, o) = In-filter (open_here t) db.visits v (
            sort_by-In newest_first here v
              (take-In max_open_read (sort_by newest_first here) v n)) in
          (k, (o, inr h))
    ]

open_matches-Found :
    (norm : Text → Text) (t : Tablet) (query : Text) (db : Db) (v : Visit)
    → In v (open_matches norm t query db)
    → In v db.visits × Found norm t query v
unfolding open_matches
open_matches-Found norm t query db v m = elim (Bool-cases (length (by_code t query db) == 0)) [
  | inl nobody ↦ by_surname-Found norm t query db v (ground (arith, m, nobody))
  | inr somebody ↦ by_code-Found norm t query db v (ground (arith, m, somebody))
]

length-map {ℓ κ} :
    {A : Type ℓ} {B : Type κ} (f : A → B) (xs : List A) → length (map f xs) ≡ length xs
length-map f [] = refl
length-map f (x ∷ xs) = omega (arith, length-map f xs)

map-In :
    {A : Type 0} {B : Type 0} (f : A → B) (xs : List A) (b : B)
    → In b (map f xs)
    → (a : A) × In a xs × (b ≡ f a)
map-In f [] b m = absurd m
map-In f (x ∷ xs) b (inl e) = (x, inl refl, e)
map-In f (x ∷ xs) b (inr m) = let (a, n, e) = map-In f xs b m in (a, inr n, e)

-- The search shows at most five people, each by the visit, the surname and the initial, and each of
-- them is in an open visit of the tablet's own site whose exit code is the query or whose surname
-- begins with it.
pub find_open_sound :
    (norm : Text → Text) (t : Tablet) (q : Text) (db : Db) (ms : List Match)
    → find_open norm t q db ≡ ok ms
    → (length ms ≤ 5)
      × ((m : Match)
          → In m ms
          → (v : Visit) × In v db.visits
            × Found norm t (trim q) v
            × (m.id ≡ v.id)
            × (m.label
                ≡ or_else v.person.last_name []
                  ++ (codes " " ++ (initial (or_else v.person.first_name []) ++ codes "."))))
unfolding find_open
find_open_sound norm t q db ms h = elim (Result-cases (site_and_policy t db)) [
  | inr (e, bad) ↦ absurd (ground (arith, h, bad))
  | inl ((site, policy), good) ↦
      let vs = open_matches norm t (trim q) db in
      let rows : ms ≡ map (shown policy) (take max_open_matches vs) = ground (arith, h, good) in
      (
        subst (λ (xs : List Match). length xs ≤ 5) (sym rows)
            (ground (
              arith,
              length-map (shown policy) (take max_open_matches vs),
              length-take-le max_open_matches vs,
            )),
        λ m there.
            let (v, n, e) =
              map-In (shown policy) (take max_open_matches vs) m
                (subst (λ (xs : List Match). In m xs) rows there) in
            let (k, f) =
              open_matches-Found norm t (trim q) db v (take-In max_open_matches vs v n) in
            (v, k, f, ap (λ (x : Match). x.id) e, ap (λ (x : Match). x.label) e),
      )
]

broad_lem : (n : ℕ) → 6 ≤ n → ltb max_open_matches n ≡ true
broad_lem n h = ground (arith, h)

-- A surname prefix that is no exit code of an open visit, and that more than five of the visits read
-- (the latest 500 open at the site) begin with, shows nobody.
pub find_open_broad :
    (norm : Text → Text) (t : Tablet) (q : Text) (db : Db) (site : Site) (policy : CountryPolicy)
    → site_and_policy t db ≡ ok (site, policy)
    → length (by_code t (trim q) db) ≡ 0
    → 6
      ≤ length (
          filter
            (λ v. starts_with (norm (trim q)) (norm (or_else v.person.last_name [])))
            (take max_open_read (sort_by newest_first (filter (open_here t) db.visits))))
    → find_open norm t q db ≡ ok []
unfolding find_open open_matches by_surname
find_open_broad norm t q db site policy good nobody many =
    let hits =
      filter (λ v. starts_with (norm (trim q)) (norm (or_else v.person.last_name [])))
        (take max_open_read (sort_by newest_first (filter (open_here t) db.visits))) in
    let coded : (length (by_code t (trim q) db) == 0) ≡ true = ground (arith, nobody) in
    let broad : ltb max_open_matches (length hits) ≡ true = broad_lem (length hits) many in
    let none_shown : open_matches norm t (trim q) db ≡ [] =
      rw (open_matches, coded, by_surname, broad) refl in
    rw (find_open, good, none_shown) refl
