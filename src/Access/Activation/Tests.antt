-- ===== src/Access/Activation/Tests.antt =====
-- The theorems on the activation of a phone at concrete inputs.
use digitalreception.Base.{
  ℕ, ◌+◌, ◌≤◌, ◌≡◌, refl, inl, inr, arith, true, false, List, [], ◌∷◌, none, some, ◌==◌, In, ok,
}
use digitalreception.Text.{Text, codes, same_text, trim, trim_start, trim_end, is_space}
use digitalreception.Access.Activation.{
  Sha, Employee, PushDevice, Db, Env, Badge, is_after, has_email, normal_email, new_code,
  code_holder, take_attempt, guess, issue_badge, activate_badge, request_login_code,
  login_code_max_attempts,
}
use digitalreception.Access.Activation.Guesses.{
  Op, asks, guesses, Window, AllWrong, step, compared, guesses_bounded,
}
use digitalreception.Access.Activation.Issued.{activate_badge_sound}

-- A hash that is the code itself.
abbrev plain : Sha
plain = record { of_code = λ id code. code; of_token = λ token. token }

abbrev address : Text
address = codes "anna@example.org"

abbrev anna : Employee
anna = record {
  id = 1;
  tenant = 1;
  email = address;
  active = true;
  code_hash = some (codes "123456");
  code_expires = some 600000;
  code_attempts = 3;
  secret = none;
  issued_at = none;
  app_token = none;
}

abbrev people : Db
people = record {
  employees = anna ∷ [];
  devices = record { id = 6; tenant = 1; employee = 1 } ∷ [];
  mails = [];
}

abbrev at : ℕ → Env
at now = record {
  now = now;
  mail_enabled = true;
  mail_ok = true;
  code = codes "654321";
  secret = codes "new-secret";
  token = codes "new-token";
}

abbrev three_tries : List (Env × Op)
three_tries =
    (at 1000, guesses anna 1 (codes "000000"))
    ∷ (at 2000, asks 1 address)
    ∷ (at 3000, guesses anna 1 (codes "000001"))
    ∷ (at 4000, guesses anna 1 (codes "000002"))
    ∷ []

people-Window : Window 1 600000 3 people
people-Window e (inl here) same = ground (arith, here)
people-Window e (inr none_left) same = absurd none_left

three_tries-AllWrong : AllWrong plain 600000 three_tries people
unfolding step guess take_attempt request_login_code new_code normal_email same_text trim trim_start
    trim_end is_space
three_tries-AllWrong =
    (omega arith, refl, (omega arith, refl, (omega arith, refl, (omega arith, refl, tt))))

guesses_bounded_example : 3 + compared plain 1 three_tries people ≤ login_code_max_attempts
guesses_bounded_example =
    guesses_bounded 1 600000 plain three_tries 3 people people-Window (omega arith)
      three_tries-AllWrong

-- The third try is not compared.
two_compared : compared plain 1 three_tries people ≡ 2
unfolding compared step guess take_attempt request_login_code new_code normal_email same_text trim
    trim_start trim_end is_space
two_compared = refl

abbrev new_phone : Badge
new_phone = record { employee = 1; secret = codes "new-secret"; token = codes "new-token" }

activated :
    (activate_badge plain
      (at 1000)
      (λ d. d)
      1
      (codes " Anna@example.org")
      (codes "123456")
      people).0
    ≡ ok new_phone
unfolding activate_badge code_holder guess take_attempt issue_badge normal_email same_text trim
    trim_start trim_end is_space
activated = refl

activate_badge_sound_example :
    (e : Employee) × (hash : Text) × In e (anna ∷ [])
    × (has_email 1 (codes " Anna@example.org") e ≡ true)
    × (is_after e.code_expires 1000 ≡ true)
    × (e.code_hash ≡ some hash)
    × (same_text hash (codes "123456") ≡ true)
    × (new_phone
        ≡ record { employee = e.id; secret = codes "new-secret"; token = codes "new-token" })
    × ((row : Employee)
        → In row
            (activate_badge plain
              (at 1000)
              (λ d. d)
              1
              (codes " Anna@example.org")
              (codes "123456")
              people).1.employees
        → row.id ≡ e.id
        → (row.secret ≡ some (codes "new-secret"))
          × (row.code_hash ≡ none)
          × (row.code_attempts ≡ 0))
    × ((d : PushDevice)
        → In d
            (activate_badge plain
              (at 1000)
              (λ d. d)
              1
              (codes " Anna@example.org")
              (codes "123456")
              people).1.devices
        → d.tenant ≡ 1
        → (d.employee == e.id) ≡ false)
activate_badge_sound_example =
    activate_badge_sound plain (at 1000) (λ d. d) 1 (codes " Anna@example.org") (codes "123456")
      people new_phone activated
