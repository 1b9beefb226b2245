-- ===== src/Kiosk/Accepted.antt =====
-- What accepting the documents means (site-documents.service.ts, `assertAccepted`).
use digitalreception.Base.{
  ℕ, ◌+◌, ◌≤◌, ◌≡◌, refl, sym, ◌∙◌, ◌↔◌, arith, inl, inr, true, false, List, [], ◌∷◌, ◌==◌,
  if◌then◌else◌, all, map, contains, dedup, dedup_from, length, Bool-cases,
}
use digitalreception.Kiosk.Documents.{GuestDocument, accepts}

-- Numbers without repetition.
abbrev pub NoRepeats : List ℕ → Type 0
NoRepeats [] = Unit
NoRepeats (x ∷ xs) = (contains x xs ≡ false) × NoRepeats xs

abbrev Within : List ℕ → List ℕ → Type 0
Within xs ys = (n : ℕ) → contains n xs ≡ true → contains n ys ≡ true

-- Without the first occurrence.
abbrev remove_one : ℕ → List ℕ → List ℕ
remove_one n [] = []
remove_one n (x ∷ xs) = let rest = x ∷ remove_one n xs in if n == x then xs else rest

length-remove_one :
    (n : ℕ) (xs : List ℕ) → contains n xs ≡ true → length (remove_one n xs) + 1 ≡ length xs
length-remove_one n [] h = cc
length-remove_one n (x ∷ xs) h = ground (arith, h, length-remove_one n xs)

contains-remove_one :
    (m n : ℕ) (xs : List ℕ) → (m == n) ≡ false → contains m (remove_one n xs) ≡ contains m xs
contains-remove_one m n [] h = refl
contains-remove_one m n (x ∷ xs) h = ground (arith, h, contains-remove_one m n xs h)

Within-remove_one :
    (x : ℕ) (xs ys : List ℕ)
    → contains x xs ≡ false
    → Within (x ∷ xs) ys
    → Within xs (remove_one x ys)
Within-remove_one x xs ys new h n m =
    let other : (n == x) ≡ false = elim (Bool-cases (n == x)) [
      | inl e ↦ absurd (ground (arith, e, m, new))
      | inr e ↦ e
    ] in
    contains-remove_one n x ys other ∙ h n (ground (arith, m))

length-Within : (xs ys : List ℕ) → NoRepeats xs → Within xs ys → length xs ≤ length ys
length-Within [] ys u h = omega arith
length-Within (x ∷ xs) ys u h = omega (
  arith,
  length-remove_one x ys (h x (ground arith)),
  length-Within xs (remove_one x ys) u.1 (Within-remove_one x xs ys u.0 h),
)

-- A list without repetition that lies within one that is not longer is all of it.
Within-full : (xs ys : List ℕ) → NoRepeats xs → Within xs ys → length ys ≤ length xs → Within ys xs
Within-full [] [] u h short n m = m
Within-full [] (y ∷ ys) u h short n m = absurd (omega (arith, short))
Within-full (x ∷ xs) ys u h short n m = elim (Bool-cases (n == x)) [
  | inl e ↦ ground (arith, e)
  | inr other ↦
      let rest =
        Within-full xs (remove_one x ys) u.1 (Within-remove_one x xs ys u.0 h)
          (omega (arith, short, length-remove_one x ys (h x (ground arith)))) n
          (contains-remove_one n x ys other ∙ m) in
      ground (arith, rest)
]

contains-dedup_from :
    (n : ℕ) (seen xs : List ℕ)
    → contains n seen ≡ false
    → contains n (dedup_from seen xs) ≡ contains n xs
contains-dedup_from n seen [] h = refl
contains-dedup_from n seen (x ∷ xs) h = ground (
  arith,
  h,
  Bool-cases (n == x),
  Bool-cases (contains x seen),
  contains-dedup_from n seen xs h,
  contains-dedup_from n (x ∷ seen) xs,
)

dedup_from-contains :
    (n : ℕ) (seen xs : List ℕ) → contains n seen ≡ true → contains n (dedup_from seen xs) ≡ false
dedup_from-contains n seen [] h = refl
dedup_from-contains n seen (x ∷ xs) h = ground (
  arith,
  h,
  Bool-cases (n == x),
  Bool-cases (contains x seen),
  dedup_from-contains n seen xs h,
  dedup_from-contains n (x ∷ seen) xs,
)

dedup_from-NoRepeats : (seen xs : List ℕ) → NoRepeats (dedup_from seen xs)
dedup_from-NoRepeats seen [] = tt
dedup_from-NoRepeats seen (x ∷ xs) = ground (
  arith,
  Bool-cases (contains x seen),
  dedup_from-NoRepeats seen xs,
  dedup_from-NoRepeats (x ∷ seen) xs,
  dedup_from-contains x (x ∷ seen) xs,
)

abbrev pub ids_of : List GuestDocument → List ℕ
ids_of = map (λ d. d.id)

length-ids_of : (ds : List GuestDocument) → length (ids_of ds) ≡ length ds
length-ids_of [] = refl
length-ids_of (d ∷ ds) = omega (arith, length-ids_of ds)

all-Within :
    (ds : List GuestDocument) (xs : List ℕ)
    → (all (λ d. contains d.id xs) ds ≡ true) ↔ Within (ids_of ds) xs
all-Within [] xs = (λ h n m. absurd (ground (arith, m)), λ h. refl)
all-Within (d ∷ ds) xs =
    let rest = all-Within ds xs in
    (
      λ h n m. elim (Bool-cases (n == d.id)) [
        | inl e ↦ ground (arith, e, h)
        | inr e ↦ rest.0 (ground (arith, h)) n (ground (arith, m, e))
      ],
      λ h.
          let first = h d.id (ground arith) in
          let others = rest.1 (λ n m. h n (ground (arith, m))) in ground (arith, first, others),
    )

-- When the required texts are distinct, the guest's answer is taken exactly if the versions accepted,
-- repeated or not and in any order, are the required ones: all of them, and no other.
pub accepts_iff :
    (required : List GuestDocument) (accepted : List ℕ)
    → NoRepeats (ids_of required)
    → (accepts required accepted ≡ true)
      ↔ ((n : ℕ) → contains n accepted ≡ contains n (ids_of required))
unfolding accepts
accepts_iff required accepted u =
    let ids = ids_of required in
    let same = λ (n : ℕ). contains-dedup_from n [] accepted refl in
    let inside = all-Within required (dedup accepted) in
    (
      λ h n.
          let ids_within : Within ids (dedup accepted) = inside.0 (ground (arith, h)) in
          let back : Within (dedup accepted) ids =
            Within-full ids (dedup accepted) u ids_within
              (ground (arith, h, length-ids_of required)) in
          ground (arith, same n, ids_within n, back n, Bool-cases (contains n ids)),
      λ h.
          let to : Within ids (dedup accepted) = λ n m. same n ∙ (h n ∙ m) in
          let back : Within (dedup accepted) ids = λ n m. sym (h n) ∙ (sym (same n) ∙ m) in
          let lengths : length (dedup accepted) ≡ length required = omega (
            arith,
            length-Within ids (dedup accepted) u to,
            length-Within (dedup accepted) ids (dedup_from-NoRepeats [] accepted) back,
            length-ids_of required,
          ) in
          ground (arith, inside.1 to, lengths),
    )
