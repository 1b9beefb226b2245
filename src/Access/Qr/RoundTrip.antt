-- ===== src/Access/Qr/RoundTrip.antt =====
-- What the phone writes, the API reads back (mobile/src/lib/badge.ts, access.service.ts).
use mathlib.Core.List.{append-nil}
use digitalreception.Base.{
  ℕ, ◌<◌, ◌^◌, ◌≡◌, refl, subst, arith, Bool, true, false, not, [], ◌∷◌, ◌++◌, some, all, length,
  le→leb,
}
use digitalreception.Text.{
  Text, trim, trim_start, trim_end, is_space, strip_prefix, take_class, span, is_digit,
  is_lower_hex,
}
use digitalreception.Text.Decimal.{show, read-show, show-digits, show-length}
use digitalreception.Access.Qr.{
  Hmac, qr_prefix, qr_sig_hex, dot, is_uuid_char, parse_signature, parse_step, parse_qr,
}
use digitalreception.Access.Badge.{sign_step, qr_payload}

-- A text whose characters are no spaces is trimmed to itself.
trim_start_lem : (s : Text) → all (λ c. not (is_space c)) s ≡ true → trim_start s ≡ s
unfolding trim_start
trim_start_lem [] h = refl
trim_start_lem (c ∷ s) h = ground arith

trim_end_lem : (s : Text) → all (λ c. not (is_space c)) s ≡ true → trim_end s ≡ s
unfolding trim_end
trim_end_lem [] h = refl
trim_end_lem (c ∷ s) h = ground (arith, trim_end_lem s)

trim_lem : (s : Text) → all (λ c. not (is_space c)) s ≡ true → trim s ≡ s
unfolding trim
trim_lem s h = rw (trim_start_lem s h) (trim_end_lem s h)

strip_prefix-append : (p s : Text) → strip_prefix p (p ++ s) ≡ some s
unfolding strip_prefix
strip_prefix-append [] s = refl
strip_prefix-append (c ∷ p) s = ground (arith, strip_prefix-append p s)

take_class-append :
    (cls : ℕ → Bool) (t s : Text)
    → all cls t ≡ true
    → take_class cls (length t) (t ++ s) ≡ some (t, s)
unfolding take_class
take_class-append cls [] s h = refl
take_class-append cls (c ∷ t) s h = ground (arith, take_class-append cls t s)

-- A run stops at the first character outside the class.
span-append :
    (cls : ℕ → Bool) (t : Text) (c : ℕ) (s : Text)
    → all cls t ≡ true
    → cls c ≡ false
    → span cls (t ++ c ∷ s) ≡ (t, c ∷ s)
unfolding span
span-append cls [] c s h n = rw (span, n)
span-append cls (x ∷ t) c s h n = ground (arith, span-append cls t c s)

all-append : (p : ℕ → Bool) (s t : Text) → all p s ≡ true → all p t ≡ true → all p (s ++ t) ≡ true
all-append p [] t hs ht = ht
all-append p (c ∷ s) t hs ht = ground (arith, all-append p s t)

all_mono :
    (p q : ℕ → Bool) (s : Text)
    → ((c : ℕ) → p c ≡ true → q c ≡ true)
    → all p s ≡ true
    → all q s ≡ true
all_mono p q [] h hs = refl
all_mono p q (c ∷ s) h hs = ground (arith, h c, all_mono p q s h)

uuid-no_space : (c : ℕ) → is_uuid_char c ≡ true → not (is_space c) ≡ true
unfolding is_space
uuid-no_space c h = ground arith

digit-no_space : (c : ℕ) → is_digit c ≡ true → not (is_space c) ≡ true
unfolding is_space
digit-no_space c h = ground arith

hex-no_space : (c : ℕ) → is_lower_hex c ≡ true → not (is_space c) ≡ true
unfolding is_space
hex-no_space c h = ground arith

prefix-no_space : all (λ c. not (is_space c)) qr_prefix ≡ true
unfolding is_space
prefix-no_space = refl

dot-no_space : all (λ c. not (is_space c)) (dot ∷ []) ≡ true
unfolding is_space
dot-no_space = refl

module _ (hmac : Hmac) (employee secret : Text) (step : ℕ) (form : all is_uuid_char employee ≡ true)
    (size : length employee ≡ 36)
    (hex : all is_lower_hex (sign_step hmac secret employee step) ≡ true)
    (full : length (sign_step hmac secret employee step) ≡ qr_sig_hex)
    (bounded : step < 10 ^ 12) where
  abbrev signature : Text
  signature = sign_step hmac secret employee step

  signature_taken : take_class is_lower_hex qr_sig_hex signature ≡ some (signature, [])
  signature_taken =
      subst (λ (n : ℕ). take_class is_lower_hex n signature ≡ some (signature, [])) full
        (subst (λ (t : Text). take_class is_lower_hex (length signature) t ≡ some (signature, []))
          (append-nil signature) (take_class-append is_lower_hex signature [] hex))

  signature-parse :
      parse_signature employee (show step) (dot ∷ signature)
      ≡ some (record { employee = employee; step = step; signature = signature })
  unfolding parse_signature
  signature-parse = rw (
    parse_signature,
    strip_prefix-append (dot ∷ []) signature,
    signature_taken,
    read-show step (omega arith),
  )

  step-parse :
      parse_step employee (dot ∷ (show step ++ dot ∷ signature))
      ≡ some (record { employee = employee; step = step; signature = signature })
  unfolding parse_step
  step-parse =
      let (some_digit, few) = show-length step bounded in
      rw
        (
          parse_step,
          strip_prefix-append (dot ∷ []) (show step ++ dot ∷ signature),
          span-append is_digit (show step) dot signature (show-digits step) refl,
          le→leb _ _ some_digit,
          le→leb _ _ few,
        )
        signature-parse

  -- No character of a badge's QR is white space.
  payload-no_space : all (λ c. not (is_space c)) (qr_payload hmac employee secret step) ≡ true
  unfolding qr_payload
  payload-no_space =
      let clean = λ (c : ℕ). not (is_space c) in
      let end = dot ∷ signature in
      let number = show step ++ end in
      all-append clean qr_prefix (employee ++ (dot ∷ number)) prefix-no_space (
        all-append clean employee (dot ∷ number)
          (all_mono is_uuid_char clean employee uuid-no_space form)
          (all-append clean (dot ∷ []) number dot-no_space (
            all-append clean (show step) end
              (all_mono is_digit clean (show step) digit-no_space (show-digits step))
              (all-append clean (dot ∷ []) signature dot-no_space
                (all_mono is_lower_hex clean signature hex-no_space hex)))))

  employee_taken :
      (after : Text) → take_class is_uuid_char 36 (employee ++ after) ≡ some (employee, after)
  employee_taken after =
      subst (λ (n : ℕ). take_class is_uuid_char n (employee ++ after) ≡ some (employee, after)) size
        (take_class-append is_uuid_char employee after form)

  -- The QR that the phone shows for an employee and a step is read by the API as that employee,
  -- that step and the phone's signature, for identifiers of 36 characters, signatures of 16
  -- hexadecimal characters and steps of at most 12 digits.
  pub parse_qr-qr_payload :
      parse_qr (qr_payload hmac employee secret step)
      ≡ some (record { employee = employee; step = step; signature = signature })
  unfolding parse_qr
  parse_qr-qr_payload =
      rw (parse_qr, trim_lem (qr_payload hmac employee secret step) payload-no_space)
        (unfold qr_payload in
          rw
            (
              strip_prefix-append qr_prefix (employee ++ (dot ∷ (show step ++ dot ∷ signature))),
              employee_taken (dot ∷ (show step ++ dot ∷ signature)),
            )
            step-parse)
