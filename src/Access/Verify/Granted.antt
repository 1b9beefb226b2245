-- ===== src/Access/Verify/Granted.antt =====
-- Exactly when a door opens (access.service.ts, `verify`).
use digitalreception.Base.{
  ℕ, ◌+◌, ◌≤◌, ◌<◌, ◌≡◌, ◌≢◌, refl, inl, inr, ◌↔◌, arith, Bool, true, false, ◌&&◌, List, [], ◌∷◌,
  Option, none, some, ◌==◌, find, any, In, any-In, find_sound, Bool-cases, Option-cases,
}
use digitalreception.Calendar.{Intl}
use digitalreception.Text.{Text, same_text}
use digitalreception.Access.Rules.{AccessRule, rule_allows}
use digitalreception.Notices.Store.{WebhookDelivery}
use digitalreception.Access.Qr.{Hmac, QrClaim, fresh, freshness, qr_signature, parse_qr, step_at}
use digitalreception.Access.Verify.{
  Employee, Door, Site, Db, Reader, Input, Answer, Reason, granted, truthy, is_access, judge_qr,
  identify_qr, identify_nfc, identify, rules_of, refusal, decide, place, verify,
}

In-of_any :
    {A : Type 0} (p : A → Bool) (xs : List A) → any p xs ≡ true → (a : A) × In a xs × (p a ≡ true)
In-of_any p [] h = cc
In-of_any p (x ∷ xs) h = elim (Bool-cases (p x)) [
  | inl here ↦ (x, inl refl, here)
  | inr no_here ↦ let (a, m, pa) = In-of_any p xs (ground (arith, no_here)) in (a, inr m, pa)
]

-- From its start on, and before its end; a missing bound is no restriction.
abbrev pub Started : Option ℕ → ℕ → Type 0
Started none now = Unit {0}
Started (some from) now = from ≤ now

abbrev pub NotEnded : Option ℕ → ℕ → Type 0
NotEnded none now = Unit {0}
NotEnded (some until) now = now < until

module _ (intl : Intl) where
  -- An employee who may pass a door at a moment.
  pub record MayPass (tenant : ℕ) (e : Employee) (door : Door) (site : Site) (now : ℕ) (db : Db)
      : Type 0 where
    pub active : e.active ≡ true
    pub app : any is_access e.apps_off ≡ false
    pub started : Started e.valid_from now
    pub not_ended : NotEnded e.valid_until now
    pub door_active : door.active ≡ true
    pub rule : AccessRule
    pub has_rule : In rule (rules_of tenant e door db)
    pub allows : rule_allows intl rule now site.timezone ≡ true

  refusal_sound :
      (tenant : ℕ) (e : Employee) (door : Door) (site : Site) (now : ℕ) (db : Db)
      → refusal intl tenant e door site now db ≡ none
      → MayPass tenant e door site now db
  unfolding refusal
  refusal_sound tenant e door site now db h =
      let allows = λ (r : AccessRule). rule_allows intl r now site.timezone in
      let rules = rules_of tenant e door db in
      let (r, m, p) = In-of_any allows rules (ground arith) in
      record {
        active = ground arith;
        app = ground arith;
        started = ground arith;
        not_ended = ground arith;
        door_active = ground arith;
        rule = r;
        has_rule = m;
        allows = p;
      }

  refusal_complete :
      (tenant : ℕ) (e : Employee) (door : Door) (site : Site) (now : ℕ) (db : Db)
      → MayPass tenant e door site now db
      → refusal intl tenant e door site now db ≡ none
  unfolding refusal
  refusal_complete tenant e door site now db m =
      let allows = λ (r : AccessRule). rule_allows intl r now site.timezone in
      let rules = rules_of tenant e door db in
      ground (arith, any-In allows rules m.rule m.has_rule m.allows)

-- A step is accepted exactly when it is at most one away from that of the clock.
pub freshness-fresh :
    (step claimed : ℕ)
    → (freshness step claimed ≡ fresh) ↔ ((claimed ≤ step + 1) × (step ≤ claimed + 1))
unfolding freshness
freshness-fresh step claimed = ground arith

-- An attempt that identified nobody has a reason.
identify-reason :
    (hmac : Hmac) (tenant : ℕ) (input : Input) (now : ℕ) (db : Db)
    → identify hmac tenant input now db ≢ (none, none)
unfolding identify identify_qr identify_nfc judge_qr
identify-reason hmac tenant input now db h = ground arith

module _ (hmac : Hmac) (intl : Intl) (new_id : List WebhookDelivery → ℕ) where
  -- A reader whose door and site exist opens exactly when the credential identifies an employee
  -- without objection and that employee may pass: active, with the access app, within their
  -- validity, at an active door, with a rule for it that allows the local moment.
  pub verify_granted_iff :
      (reader : Reader) (input : Input) (now : ℕ) (db : Db) (door : Door) (site : Site) (a : Answer)
      → place reader db ≡ some (door, site)
      → (verify hmac intl new_id reader input now db).0 ≡ some a
      → (a.result ≡ granted) ↔ (
          (e : Employee) × (identify hmac reader.tenant input now db ≡ (some e, none))
          × MayPass intl reader.tenant e door site now db)
  unfolding verify decide
  verify_granted_iff reader input now db door site a at h = (
    λ g. opens (identify hmac reader.tenant input now db) refl (ground (arith, at)),
    λ (e, who, may).
        ground (arith, at, who, refusal_complete intl reader.tenant e door site now db may),
  )
    where
      opens :
          (who : Option Employee × Option Reason)
          → identify hmac reader.tenant input now db ≡ who
          → decide intl reader.tenant door site now db who ≡ none
          → (e : Employee) × (identify hmac reader.tenant input now db ≡ (some e, none))
            × MayPass intl reader.tenant e door site now db
      opens (some e, none) w d = (e, w, refusal_sound intl reader.tenant e door site now db d)
      opens (none, none) w d = absurd (identify-reason hmac reader.tenant input now db w)
      opens (who, some r) w d = cc

module _ (hmac : Hmac) where
  judge_qr_sound :
      (c : QrClaim) (x : Employee) (secret : Text) (now : ℕ) (e : Employee)
      → judge_qr hmac c x secret now ≡ (some e, none)
      → (e ≡ x)
        × (same_text (qr_signature hmac (hmac.from_base64 secret) x.id c.step) c.signature ≡ true)
        × (c.step ≤ step_at now + 1)
        × (step_at now ≤ c.step + 1)
  unfolding judge_qr
  judge_qr_sound c x secret now e h = (
    ground arith,
    ground arith,
    ground (arith, freshness-fresh (step_at now) c.step),
    ground (arith, freshness-fresh (step_at now) c.step),
  )

  -- A QR that identifies an employee without objection carries the employee's identifier and a
  -- signature under their secret, for a step at most one away from that of the clock.
  pub identify_qr_sound :
      (tenant : ℕ) (text : Text) (now : ℕ) (db : Db) (e : Employee)
      → identify_qr hmac tenant text now db ≡ (some e, none)
      → (c : QrClaim) × (secret : Text) × (parse_qr text ≡ some c)
        × (same_text e.id c.employee ≡ true)
        × (e.tenant ≡ tenant)
        × (truthy e.secret ≡ some secret)
        × (same_text (qr_signature hmac (hmac.from_base64 secret) e.id c.step) c.signature ≡ true)
        × (c.step ≤ step_at now + 1)
        × (step_at now ≤ c.step + 1)
  unfolding identify_qr
  identify_qr_sound tenant text now db e h = elim (Option-cases (parse_qr text)) [
    | inl bad ↦ absurd (ground (arith, bad))
    | inr (c, p) ↦
        let match = λ (x : Employee). same_text x.id c.employee && x.tenant == tenant in
        elim (Option-cases (find match db.employees)) [
          | inl gone ↦ absurd (ground (arith, p, gone))
          | inr (x, f) ↦ elim (Option-cases (truthy x.secret)) [
            | inl no_phone ↦ absurd (ground (arith, p, f, no_phone))
            | inr (secret, sec) ↦
                let (same, sig, lo, hi) =
                  judge_qr_sound c x secret now e (ground (arith, p, f, sec)) in
                let row = find_sound match db.employees x f in
                (
                  c,
                  secret,
                  p,
                  ground (arith, row, same),
                  ground (arith, row, same),
                  ground (arith, sec, same),
                  ground (arith, sig, same),
                  lo,
                  hi,
                )
          ]
        ]
  ]
