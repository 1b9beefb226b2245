-- ===== src/Access/Rules.antt =====
-- api/src/access/access.service.ts: when a permission rule allows a moment. A rule's days column
-- ("1,3,5") is the list of its numbers, and a time ("HH:MM") its hours and minutes.
pub mod Window
use digitalreception.Base.{
  ℕ, ◌+◌, ◌*◌, String, Bool, true, false, ◌&&◌, ◌||◌, not, List, [], ◌∷◌, Option, none, some, leb,
  ltb, if◌then◌else◌, contains,
}
use digitalreception.Calendar.{Intl}

pub record ClockTime : Type 0 where
  pub hours : ℕ
  pub minutes : ℕ

pub record AccessRule : Type 0 where
  pub tenant : ℕ
  pub employee : List ℕ
  pub door : ℕ
  pub days : Option (List ℕ)
  pub from_time : Option ClockTime
  pub to_time : Option ClockTime

-- `toMinutes`
abbrev pub to_minutes : ClockTime → ℕ
to_minutes t = t.hours * 60 + t.minutes

-- The time window [from, to); it may cross midnight.
unfoldable pub in_window : ℕ → ℕ → ℕ → Bool
in_window from to minutes =
    if leb from to then leb from minutes && ltb minutes to else leb from minutes || ltb minutes to

-- An empty text of days is no restriction, as no text is.
abbrev pub day_allows : Option (List ℕ) → ℕ → Bool
day_allows none weekday = true
day_allows (some []) weekday = true
day_allows (some (d ∷ days)) weekday = contains weekday (d ∷ days)

abbrev pub time_allows : Option ClockTime → Option ClockTime → ℕ → Bool
time_allows none to minutes = true
time_allows (some from) none minutes = true
time_allows (some from) (some to) minutes = in_window (to_minutes from) (to_minutes to) minutes

-- `ruleAllows`
unfoldable pub rule_allows : Intl → AccessRule → ℕ → String → Bool
unfolding in_window
rule_allows intl rule at zone =
    if not (day_allows rule.days (intl.local_weekday zone at))
    then false
    else time_allows rule.from_time rule.to_time (intl.local_minutes zone at)
