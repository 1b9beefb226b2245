-- ===== src/Parking/Rules/Window.antt =====
-- The window of bookable days, stated on the calendar alone (parking-rules.ts).
use digitalreception.Base.{
  ℕ, ◌+◌, ◌%◌, ◌≤◌, ◌<◌, ◌≡◌, ◌↔◌, ◌⊎◌, inl, inr, String, List, ◌++◌, none, some, arith, subst, ◌∙◌,
  leb, leb→le, le→leb, leb-false, Bool-cases, if◌then◌else◌, filter, In, In-filter, In-filter_of,
  In-append, In-append_left, In-append_right,
}
use digitalreception.Calendar.{Intl}
use digitalreception.Parking.Rules.{
  monday_of, weekday_of, working_days, local_day, bookable_days, opens_on,
}

pub weekday_of_lem : (d : ℕ) → weekday_of d ≡ d % 7 + 1
unfolding weekday_of
weekday_of_lem d = omega arith

pub monday_of_lem : (d : ℕ) → monday_of d + d % 7 ≡ d
unfolding monday_of
monday_of_lem d = omega (arith, weekday_of_lem d)

-- The Monday of a week is a Monday, at most six days back.
pub monday_of_facts : (d : ℕ) → (monday_of d % 7 ≡ 0) × (monday_of d ≤ d) × (d < monday_of d + 7)
monday_of_facts d =
    (omega (arith, monday_of_lem d), omega (arith, monday_of_lem d), omega (arith, monday_of_lem d))

pub In-working_days : (m d : ℕ) → In d (working_days m) ↔ ((m ≤ d) × (d < m + 5))
unfolding working_days
In-working_days m d = (λ h. (omega arith, omega arith), λ h. omega arith)

module _ (intl : Intl) (zone : String) (now : ℕ) where
  abbrev today : ℕ
  today = intl.local_date zone now

  -- What the rules say of a day: it is a working day, not past, in this week, or, from Thursday
  -- on, in the week after.
  abbrev pub IsOpen : ℕ → Type 0
  IsOpen d =
      (today ≤ d)
      × (d % 7 < 5)
      × ((d < monday_of today + 7) ⊎ ((3 ≤ today % 7) × (d < monday_of today + 14)))

  -- The days left of this week, and the working days of the week after.
  abbrev this_week : List ℕ
  this_week = filter (λ d. leb today d) (working_days (monday_of today))

  abbrev next_week : List ℕ
  next_week = working_days (monday_of today + 7)

  bookable_days_lem :
      bookable_days intl zone now
      ≡ (if leb 3 (today % 7) then this_week ++ next_week else this_week)
  unfolding bookable_days local_day
  bookable_days_lem = ground (arith, intl.weekday_law zone now)

  this_week-IsOpen : (d : ℕ) → In d this_week → IsOpen d
  this_week-IsOpen d h =
      let (m, p) = In-filter (λ d. leb today d) (working_days (monday_of today)) d h in
      let (lo, hi) = (In-working_days (monday_of today) d).0 m in
      let (monday, _, _) = monday_of_facts today in
      (leb→le today d p, omega arith, inl (omega arith))

  this_week_of : (d : ℕ) → today ≤ d → d % 7 < 5 → d < monday_of today + 7 → In d this_week
  this_week_of d h w u =
      let (monday, below, _) = monday_of_facts today in
      In-filter_of (λ d. leb today d) (working_days (monday_of today)) d
        ((In-working_days (monday_of today) d).1 (omega arith, omega arith)) (le→leb today d h)

  next_week-IsOpen : (d : ℕ) → 3 ≤ today % 7 → In d next_week → IsOpen d
  next_week-IsOpen d t h =
      let (lo, hi) = (In-working_days (monday_of today + 7) d).0 h in
      let (monday, _, above) = monday_of_facts today in
      (omega arith, omega arith, inr (t, omega arith))

  IsOpen-sound : (d : ℕ) → In d (bookable_days intl zone now) → IsOpen d
  IsOpen-sound d h = elim (Bool-cases (leb 3 (today % 7))) [
    | inl late ↦
        elim (In-append this_week next_week d (subst (In d) (bookable_days_lem ∙ (rw late)) h)) [
          | inl m ↦ this_week-IsOpen d m
          | inr m ↦ next_week-IsOpen d (leb→le _ _ late) m
        ]
    | inr early ↦ this_week-IsOpen d (subst (In d) (bookable_days_lem ∙ (rw early)) h)
  ]

  -- A day of the week after, from Thursday on.
  next_week_of : (d : ℕ) → IsOpen d → monday_of today + 7 ≤ d → In d next_week
  next_week_of d h from =
      let (monday, _, _) = monday_of_facts today in
      (In-working_days (monday_of today + 7) d).1 (from, omega arith)

  open_complete : (d : ℕ) → IsOpen d → In d (bookable_days intl zone now)
  open_complete d h = elim (Bool-cases (leb 3 (today % 7))) [
    | inl late ↦
        rw (bookable_days_lem, late)
          (elim (Bool-cases (leb (monday_of today + 7) d)) [
            | inl after ↦
                In-append_right this_week next_week d (next_week_of d h (leb→le _ _ after))
            | inr before ↦
                In-append_left this_week next_week d (this_week_of d h.0 h.1 (leb-false _ _ before))
          ])
    | inr early ↦
        rw (bookable_days_lem, early)
          (this_week_of d h.0 h.1 (omega (arith, leb-false 3 (today % 7) early)))
  ]

  -- The days that can be booked are exactly the working days from today to the end of the open
  -- window: this week, and from Thursday on the week after too.
  pub bookable_days_iff : (d : ℕ) → In d (bookable_days intl zone now) ↔ IsOpen d
  bookable_days_iff d = (IsOpen-sound d, open_complete d)

  opens_on_lem :
      opens_on intl zone now ≡ (if leb 3 (today % 7) then none else some (monday_of today + 3))
  unfolding opens_on local_day
  opens_on_lem = ground (arith, intl.weekday_law zone now)

  opens_on-some :
      (d : ℕ) → opens_on intl zone now ≡ some d → (d ≡ monday_of today + 3) × (today % 7 < 3)
  opens_on-some d h = ground (arith, opens_on_lem)

  early_window :
      (e : ℕ) → today % 7 < 3 → In e (bookable_days intl zone now) → e < monday_of today + 7
  early_window e early h = omega (arith, IsOpen-sound e h)

  -- When the app announces the day on which the week after opens, that day is the Thursday of
  -- this week and still to come, and no day of the week after can be booked yet.
  pub opens_on_closed :
      (d : ℕ)
      → opens_on intl zone now ≡ some d
      → (d % 7 ≡ 3)
        × (today < d)
        × (d < monday_of today + 7)
        × ((e : ℕ) → In e (bookable_days intl zone now) → e < monday_of today + 7)
  opens_on_closed d h =
      let (at, early) = opens_on-some d h in
      let (monday, _, _) = monday_of_facts today in
      (omega arith, omega (arith, monday_of_lem today), omega arith, λ e m. early_window e early m)
