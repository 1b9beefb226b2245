-- ===== src/Access/Rules/Window.antt =====
-- Time windows on the circle of a day's minutes (access.service.ts, `ruleAllows`).
use digitalreception.Base.{
  ℕ, ◌+◌, ◌-◌, ◌%◌, ◌<◌, ◌≡◌, ◌↔◌, String, true, List, ◌∷◌, In, contains-In, In-contains, some,
  arith,
}
use digitalreception.Calendar.{Intl}
use digitalreception.Access.Rules.{ClockTime, AccessRule, to_minutes, in_window, rule_allows}

-- A window holds a minute of the day exactly when, going forward from its start, the minute comes
-- before its end; so a window that crosses midnight covers the night and no more.
pub in_window_iff :
    (from to minutes : ℕ)
    → from < 1440
    → to < 1440
    → minutes < 1440
    → (in_window from to minutes ≡ true)
      ↔ ((minutes + 1440 - from) % 1440 < (to + 1440 - from) % 1440)
unfolding in_window
in_window_iff from to minutes hf ht hm = ground arith

-- A rule with days and a window allows a moment exactly when the local weekday is one of its days
-- and, going forward from the window's start, the local minute comes before its end; the three are
-- minutes of a day.
pub rule_allows_iff :
    (intl : Intl) (rule : AccessRule) (at : ℕ) (zone : String) (first : ℕ) (days : List ℕ)
    (from to : ClockTime)
    → rule.days ≡ some (first ∷ days)
    → rule.from_time ≡ some from
    → rule.to_time ≡ some to
    → to_minutes from < 1440
    → to_minutes to < 1440
    → intl.local_minutes zone at < 1440
    → (rule_allows intl rule at zone ≡ true) ↔ (
        In (intl.local_weekday zone at) (first ∷ days)
        × ((intl.local_minutes zone at + 1440 - to_minutes from) % 1440
            < (to_minutes to + 1440 - to_minutes from) % 1440))
unfolding rule_allows
rule_allows_iff intl rule at zone first days from to d f t hf ht hm = ground (
  arith,
  d,
  f,
  t,
  contains-In (intl.local_weekday zone at) (first ∷ days),
  In-contains (intl.local_weekday zone at) (first ∷ days),
  in_window_iff (to_minutes from) (to_minutes to) (intl.local_minutes zone at) hf ht hm,
)
