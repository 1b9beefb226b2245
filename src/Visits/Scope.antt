-- ===== src/Visits/Scope.antt =====
-- Who sees which visits (visits.service.ts, `scoped` and `list`), and what the cells of an export mean
-- to a spreadsheet (csv.ts).
use digitalreception.Base.{
  ℕ, zero, suc, ◌*◌, ◌-◌, ◌≤◌, ◌≡◌, refl, inl, inr, arith, Bool, true, false, ◌&&◌, List, [], ◌∷◌,
  ◌++◌, Option, none, some, or_else, max, ◌==◌, if◌then◌else◌, filter, sort_by, take, length, ok,
  require, >>=-ok, Bool-cases, In, In-filter, take-In, sort_by-In, length-take-le, sym, subst,
  ==_iff,
}
use digitalreception.Text.{Text}
use digitalreception.Parcels.Desk.{AuthUser, all_sites, site_access}
use digitalreception.Visits.Store.{Visit, Db}
use digitalreception.Visits.Console.{
  no_access, VisitQuery, is_receptionist, before_window, visible_site_ids, at_site, in_scope,
  scoped, drop, newest_first, page_size, list, is_formula, quoted, guarded, csv_cell,
}

drop-In : {A : Type 0} (n : ℕ) (xs : List A) (a : A) → In a (drop n xs) → In a xs
drop-In zero xs a m = m
drop-In (suc n) [] a m = absurd m
drop-In (suc n) (x ∷ xs) a m = inr (drop-In n xs a m)

-- What the user may see: a visit of their organisation, at a site where they may act, and, for a
-- receptionist, not older than the window.
abbrev pub MaySee : AuthUser → ℕ → Visit → Type 0
MaySee user now v =
    (v.tenant ≡ user.tenant)
    × (site_access user v.site ≡ true)
    × ((is_receptionist user.role && before_window now v) ≡ false)

in_scope-MaySee :
    (email_index name_index : Text → Option Text) (user : AuthUser) (q : VisitQuery) (now : ℕ)
    (v : Visit)
    → (elim q.site [ none ↦ true | some site ↦ site_access user site ]) ≡ true
    → in_scope email_index name_index user q now v ≡ true
    → MaySee user now v
unfolding visible_site_ids site_access
in_scope-MaySee email_index name_index user q now v allowed h = (
  ground (arith, h),
  here q.site allowed (ground (arith, h)),
  ground (arith, h, Bool-cases (is_receptionist user.role)),
)
  where
    here :
        (site : Option ℕ)
        → (elim site [ none ↦ true | some s ↦ site_access user s ]) ≡ true
        → at_site user site v ≡ true
        → site_access user v.site ≡ true
    here (some s) may at =
        let same : v.site ≡ s = ground (arith, at) in
        subst (λ n. site_access user n ≡ true) (sym same) may
    here none may at = ground (arith, at, Bool-cases (all_sites user.role))

scoped-MaySee :
    (email_index name_index : Text → Option Text) (user : AuthUser) (q : VisitQuery) (now : ℕ)
    (db : Db) (vs : List Visit)
    → scoped email_index name_index user q now db ≡ ok vs
    → (v : Visit) → In v vs
    → In v db.visits × MaySee user now v
unfolding scoped
scoped-MaySee email_index name_index user q now db vs h v m =
    let allowed : Bool = elim q.site [ none ↦ true | some site ↦ site_access user site ] in
    let (u, may, h₁) = >>=-ok (require allowed no_access) _ vs h in
    let test = in_scope email_index name_index user q now in
    let rows : filter test db.visits ≡ vs = ground (arith, h₁) in
    let (n, passes) =
      In-filter test db.visits v (subst (λ (xs : List Visit). In v xs) (sym rows) m) in
    (n, in_scope-MaySee email_index name_index user q now v (ground (arith, may)) passes)

-- Whatever a user of the console asks for, a page lists at most fifty visits, and each is one of
-- their organisation, at a site where they may act, and, for a receptionist, of the last seven days.
pub list_sound :
    (email_index name_index : Text → Option Text) (user : AuthUser) (q : VisitQuery) (now : ℕ)
    (db : Db) (items : List Visit) (count : ℕ)
    → list email_index name_index user q now db ≡ ok (items, count)
    → (length items ≤ 50) × ((v : Visit) → In v items → In v db.visits × MaySee user now v)
unfolding list
list_sound email_index name_index user q now db items count h =
    let (vs, read, h₁) = >>=-ok (scoped email_index name_index user q now db) _ (items, count) h in
    let skip = (max 1 (or_else q.page 1) - 1) * page_size in
    let page = drop skip (sort_by newest_first vs) in
    let rows : take page_size page ≡ items = ground (arith, h₁) in
    (
      subst (λ (xs : List Visit). length xs ≤ 50) rows (length-take-le page_size page),
      λ v m.
          let n = take-In page_size page v (subst (λ (xs : List Visit). In v xs) (sym rows) m) in
          scoped-MaySee email_index name_index user q now db vs read v
            (sort_by-In newest_first vs v (drop-In skip (sort_by newest_first vs) v n)),
    )

-- One more character of a field that is read.
abbrev more : ℕ → Option (Text × Text) → Option (Text × Text)
more c none = none
more c (some (t, rest)) = some (c ∷ t, rest)

-- A quoted field as a spreadsheet reads it: the field and what follows it. The first argument says
-- whether a quotation mark has just been read, which ends the field unless another one follows.
unfoldable pub read_quoted : Bool → Text → Option (Text × Text)
read_quoted false [] = none
read_quoted true [] = some ([], [])
read_quoted false (c ∷ s) =
    let ended = read_quoted true s in
    let rest = read_quoted false s in if c == b'"' then ended else more c rest
read_quoted true (c ∷ s) =
    let rest = read_quoted false s in if c == b'"' then more b'"' rest else some ([], c ∷ s)

abbrev pub read_cell : Text → Option (Text × Text)
read_cell [] = none
read_cell (c ∷ s) = if c == b'"' then read_quoted false s else none

read_quoted-quoted : (s : Text) → read_quoted false (quoted s ++ (b'"' ∷ [])) ≡ some (s, [])
unfolding read_quoted
read_quoted-quoted [] = refl
read_quoted-quoted (c ∷ s) =
    ground (arith, Bool-cases (c == b'"'), read_quoted-quoted s, ==_iff c b'"')

guarded-safe : (s : Text) → is_formula (guarded s) ≡ false
guarded-safe s = elim (Bool-cases (is_formula s)) [
  | inl formula ↦ rw formula
  | inr plain ↦ rw plain plain
]

-- A spreadsheet that reads a cell of the export gets the text, with an apostrophe in front if it
-- would begin like a formula, and never the beginning of a formula; nothing of the text ends the cell.
pub read_cell-csv_cell :
    (s : Text)
    → (read_cell (csv_cell s) ≡ some (if is_formula s then b'\'' ∷ s else s, []))
      × (is_formula (if is_formula s then b'\'' ∷ s else s) ≡ false)
unfolding csv_cell
read_cell-csv_cell s = (read_quoted-quoted (guarded s), guarded-safe s)
