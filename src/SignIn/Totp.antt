-- ===== src/SignIn/Totp.antt =====
-- api/src/common/totp.ts: checking a code of an authenticator app.
use digitalreception.Base.{
  ℕ, ◌+◌, ◌-◌, ◌/◌, ◌≤◌, ◌≡◌, inl, inr, arith, Bool, true, false, ◌&&◌, ◌||◌, not, List, [], ◌∷◌,
  Option, none, some, leb, ◌==◌, if◌then◌else◌, all, length, filter, map, Bool-cases, ==_iff, subst,
}
use digitalreception.Text.{Text, same_text, is_digit, between}

abbrev pub totp_step_s : ℕ
totp_step_s = 30

-- `totpStep`
abbrev pub totp_step : ℕ → ℕ
totp_step now = now / 1000 / totp_step_s

-- `/^\d{6}$/`
abbrev pub six_digits : Text → Bool
six_digits code = length code == 6 && all is_digit code

abbrev pub already_used : Option ℕ → ℕ → Bool
already_used none step = false
already_used (some last) step = leb step last

abbrev upper : ℕ → ℕ
upper c = if between b'a' b'z' c then c - 32 else c

-- `normaliseRecoveryCode`, on ASCII text.
unfoldable pub normalise_recovery_code : Text → Text
normalise_recovery_code code = filter (λ c. between b'A' b'Z' c || is_digit c) (map upper code)

-- `totpCode` of a secret and a step: base32 and HMAC-SHA1, a parameter here.
module _ (code_of : Text → ℕ → Text) where
  -- The loop over the steps that are tried.
  unfoldable pub first_match : Text → Text → Option ℕ → List ℕ → Option ℕ
  first_match secret code last [] = none
  first_match secret code last (step ∷ steps) =
      if already_used last step
      then first_match secret code last steps
      else if same_text (code_of secret step) code
      then some step
      else first_match secret code last steps

  -- `verifyTotp`
  unfoldable pub verify_totp : Text → Text → Option ℕ → ℕ → Option ℕ
  verify_totp secret code last at =
      if not (six_digits code)
      then none
      else first_match secret code last
          ((totp_step at - 1) ∷ totp_step at ∷ (totp_step at + 1) ∷ [])

  -- Whether a code fits a step that is still free.
  abbrev pub fits : Text → Text → Option ℕ → ℕ → Bool
  fits secret code last step = not (already_used last step) && same_text (code_of secret step) code

  -- A step that fits is after one that does not and that it is not before.
  later :
      (secret code : Text) (last : Option ℕ) (step n : ℕ)
      → fits secret code last step ≡ true
      → fits secret code last n ≡ false
      → n ≤ step
      → n + 1 ≤ step
  later secret code last step n fit no_fit le =
      let differs = λ (e : step ≡ n). subst (λ (k : ℕ). fits secret code last k ≡ true) e fit in
      elim (Bool-cases (step == n)) [
        | inl same ↦ absurd (ground (arith, differs ((==_iff step n).0 same), no_fit))
        | inr other ↦ ground (arith, other, le)
      ]

  -- A code that is accepted has six digits and is that of the step before, of the current step or
  -- of the next, later than the last one used; and a code like that is accepted, for the first such
  -- step.
  pub verify_totp_lem :
      (secret code : Text) (last : Option ℕ) (at : ℕ)
      → ((step : ℕ)
          → verify_totp secret code last at ≡ some step
          → (six_digits code ≡ true)
            × (fits secret code last step ≡ true)
            × (totp_step at ≤ step + 1)
            × (step ≤ totp_step at + 1))
        × ((step : ℕ)
            → six_digits code ≡ true
            → fits secret code last step ≡ true
            → totp_step at ≤ step + 1
            → step ≤ totp_step at + 1
            → (s : ℕ) × (verify_totp secret code last at ≡ some s) × (s ≤ step))
  unfolding verify_totp first_match
  verify_totp_lem secret code last at = (
    λ step h. (ground arith, ground arith, ground arith, ground arith),
    λ step six fit lo hi.
        let t = totp_step at in
        elim (Bool-cases (fits secret code last (t - 1))) [
          | inl a ↦ (t - 1, ground (arith, six, a), ground (arith, lo))
          | inr a ↦
              let after = later secret code last step (t - 1) fit a (ground (arith, lo)) in
              let late : t ≤ step = omega (arith, after) in
              elim (Bool-cases (fits secret code last t)) [
                | inl b ↦ (t, ground (arith, six, a, b), late)
                | inr b ↦
                    let last_one : t + 1 ≤ step = later secret code last step t fit b late in
                    let at_end : step ≡ t + 1 = omega (arith, hi) in
                    let c = subst (λ (n : ℕ). fits secret code last n ≡ true) at_end fit in
                    (t + 1, ground (arith, six, a, b, c), last_one)
              ]
        ],
  )
