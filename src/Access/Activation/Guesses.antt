-- ===== src/Access/Activation/Guesses.antt =====
-- How many codes can be guessed in one window (access.service.ts, `requestLoginCode` and
-- `activateBadge`).
use digitalreception.Base.{
  ℕ, ◌+◌, ◌≤◌, ◌<◌, ◌≡◌, refl, inl, inr, arith, Bool, true, false, ◌&&◌, List, [], ◌∷◌, Option,
  some, ◌==◌, ltb, if◌then◌else◌, find, update, ok, err, Option-cases, Bool-cases, find_sound,
  find-In, In, In-update, ◌⊎◌, subst, ==_iff, sym, ◌∙◌, ap,
}
use digitalreception.Text.{Text, same_text}
use digitalreception.Access.Activation.{
  Sha, Employee, Db, Env, Badge, code_invalid, login_code_max_attempts, is_after, with_id, new_code,
  window_end, request_login_code, take_attempt, guess, issue_badge, has_email,
}

-- Requests as their writes interleave: a request for a code, or the writes of an activation, with a
-- row that the activation read at any earlier moment.
pub data Op : Type 0 where
  asks : ℕ → Text → Op
  guesses : Employee → ℕ → Text → Op

-- The row of an employee.
abbrev pub row : ℕ → Db → Option Employee
row id db = find (with_id id) db.employees

module _ (sha : Sha) where
  unfoldable pub step : Env → Op → Db → Db
  step env (asks tenant email) db = (request_login_code sha env tenant email db).1
  step env (guesses e tenant code) db = (guess sha env tenant e code db).2

  -- Whether an operation compares a code of this employee.
  abbrev pub compares : ℕ → Env → Op → Db → Bool
  compares id env (asks tenant email) db = false
  compares id env (guesses e tenant code) db = e.id == id && (guess sha env tenant e code db).0

  -- Whether it issues a badge.
  abbrev pub issues : Env → Op → Db → Bool
  issues env (asks tenant email) db = false
  issues env (guesses e tenant code) db = elim (guess sha env tenant e code db).1 [
    | ok b ↦ true
    | err x ↦ false
  ]

  -- Operations one after the other, and how many compared a code of this employee.
  unfoldable pub run : List (Env × Op) → Db → Db
  run [] db = db
  run ((env, op) ∷ ops) db = run ops (step env op db)

  unfoldable pub compared : ℕ → List (Env × Op) → Db → ℕ
  unfolding step
  compared id [] db = 0
  compared id ((env, op) ∷ ops) db =
      (if compares id env op db then 1 else 0) + compared id ops (step env op db)

  -- No operation issues a badge, and all come before a moment.
  abbrev pub AllWrong : ℕ → List (Env × Op) → Db → Type 0
  AllWrong end [] db = Unit {0}
  AllWrong end ((env, op) ∷ ops) db =
      (env.now < end) × (issues env op db ≡ false) × AllWrong end ops (step env op db)

-- The rows of an employee, with the end of the window and the attempts taken in it.
abbrev Counted : ℕ → ℕ → ℕ → List Employee → Type 0
Counted id end n rows =
    (e : Employee) → In e rows → e.id ≡ id → (e.code_expires ≡ some end) × (e.code_attempts ≡ n)

abbrev pub Window : ℕ → ℕ → ℕ → Db → Type 0
Window id end n db = Counted id end n db.employees

abbrev may_take : ℕ → Employee → Bool
may_take other e = e.id == other && ltb e.code_attempts login_code_max_attempts

abbrev one_more : Employee → Employee
one_more e = record e { code_attempts = e.code_attempts + 1 }

module _ (id end : ℕ) where
  update-Counted :
      (q : Employee → Bool) (f : Employee → Employee) (n k : ℕ) (rows : List Employee)
      → ((x : Employee) → (f x).id ≡ x.id)
      → ((x : Employee)
          → In x rows
          → x.id ≡ id
          → q x ≡ true
          → ((f x).code_expires ≡ some end) × ((f x).code_attempts ≡ k))
      → ((x : Employee)
          → In x rows
          → x.id ≡ id
          → q x ≡ false
          → (x.code_expires ≡ some end) × (x.code_attempts ≡ k))
      → Counted id end k (update q f rows)
  update-Counted q f n k rows same hit miss y m is_id =
      let (x, n, e) = In-update q f rows y m in
      elim (Bool-cases (q x)) [
        | inl hits ↦
            let at : y ≡ f x = ground (arith, e, hits) in
            let (a, b) = hit x n (sym (ap (λ (z : Employee). z.id) at ∙ same x) ∙ is_id) hits in
            (
              ap (λ (z : Employee). z.code_expires) at ∙ a,
              ap (λ (z : Employee). z.code_attempts) at ∙ b,
            )
        | inr misses ↦
            let at : y ≡ x = ground (arith, e, misses) in
            let (a, b) = miss x n (sym (ap (λ (z : Employee). z.id) at) ∙ is_id) misses in
            (
              ap (λ (z : Employee). z.code_expires) at ∙ a,
              ap (λ (z : Employee). z.code_attempts) at ∙ b,
            )
      ]

  module _ (sha : Sha) where
    new_code-Counted :
        (env : Env) (n : ℕ) (db : Db) (e : Employee)
        → env.now < end
        → In e db.employees
        → Window id end n db
        → Counted id end n (
            update
              (with_id e.id)
              (new_code sha env (is_after e.code_expires env.now) (window_end env e) e)
              db.employees)
    unfolding new_code
    new_code-Counted env n db e early m w =
        update-Counted (with_id e.id)
          (new_code sha env (is_after e.code_expires env.now) (window_end env e) e) n n db.employees
          (λ x. refl) (λ x mx is_id hits. ground (arith, w e m)) (λ x mx is_id misses. w x mx is_id)

    asks-Window :
        (env : Env) (tenant : ℕ) (email : Text) (n : ℕ) (db : Db)
        → env.now < end
        → Window id end n db
        → Window id end n (request_login_code sha env tenant email db).1
    unfolding request_login_code
    asks-Window env tenant email n db early w =
        elim (Option-cases (find (has_email tenant email) db.employees))
          as (λ _. Window id end n (request_login_code sha env tenant email db).1) [
            | inl no_one ↦ rw (request_login_code, no_one) w
            | inr (e, found) ↦
                let m = find-In (has_email tenant email) db.employees e found in
                let next = new_code-Counted env n db e early m w in
                rw (request_login_code, found) (ground (arith, next, w))
          ]

    -- An attempt that is taken counts, and there was one left.
    take_attempt-Window :
        (n : ℕ) (db taken : Db)
        → Window id end n db
        → take_attempt id db ≡ some taken
        → (n < login_code_max_attempts) × Window id end (n + 1) taken
    unfolding take_attempt
    take_attempt-Window n db taken w t = elim (Option-cases (find (may_take id) db.employees)) [
      | inl no_one ↦ absurd (ground (arith, no_one))
      | inr (x, found) ↦
          let left : n < login_code_max_attempts = ground (
            arith,
            find_sound (may_take id) db.employees x found,
            w x (find-In (may_take id) db.employees x found),
          ) in
          let counted =
            update-Counted (may_take id) one_more n (n + 1) db.employees (λ y. refl)
              (λ y my is_id hits. ground (arith, w y my is_id))
              (λ y my is_id misses. absurd (ground (arith, w y my is_id))) in
          (left, ground (arith, counted, found))
    ]

    -- An attempt at another employee's code does not count.
    take_attempt-other :
        (n other : ℕ) (db taken : Db)
        → (other == id) ≡ false
        → Window id end n db
        → take_attempt other db ≡ some taken
        → Window id end n taken
    unfolding take_attempt
    take_attempt-other n other db taken differs w t =
        elim (Option-cases (find (may_take other) db.employees)) [
          | inl no_one ↦ absurd (ground (arith, no_one))
          | inr (x, found) ↦
              let counted =
                update-Counted (may_take other) one_more n n db.employees (λ y. refl)
                  (λ y my is_id hits. absurd (ground arith)) (λ y my is_id misses. w y my is_id) in
              ground (arith, counted, found)
        ]

    guess-cases :
        (env : Env) (e : Employee) (tenant : ℕ) (code : Text) (db : Db)
        → (guess sha env tenant e code db ≡ (false, err code_invalid, db))
          ⊎ ((taken : Db) × (take_attempt e.id db ≡ some taken)
              × ((guess sha env tenant e code db ≡ (true, err code_invalid, taken))
                  ⊎ ((b : Badge) × ((guess sha env tenant e code db).1 ≡ ok b))))
    unfolding guess
    guess-cases env e tenant code db = elim (Option-cases e.code_hash) [
      | inl no_code ↦ inl (ground (arith, no_code))
      | inr (hash, has) ↦ elim (Option-cases (take_attempt e.id db)) [
        | inl full ↦ inl (ground (arith, has, full))
        | inr (taken, took) ↦ elim (Bool-cases (same_text hash (sha.of_code e.id code))) [
          | inl right ↦ inr (
            taken,
            took,
            inr ((issue_badge sha env tenant e taken).0, ground (arith, has, took, right)),
          )
          | inr bad ↦ inr (taken, took, inl (ground (arith, has, took, bad)))
        ]
      ]
    ]

    guess-Window :
        (env : Env) (e : Employee) (tenant : ℕ) (code : Text) (n : ℕ) (db : Db)
        → Window id end n db
        → issues sha env (guesses e tenant code) db ≡ false
        → ((compares sha id env (guesses e tenant code) db ≡ false)
            × Window id end n (step sha env (guesses e tenant code) db))
          ⊎ ((n < login_code_max_attempts)
              × (compares sha id env (guesses e tenant code) db ≡ true)
              × Window id end (n + 1) (step sha env (guesses e tenant code) db))
    unfolding step
    guess-Window env e tenant code n db w wrong = elim (guess-cases env e tenant code db) [
      | inl nothing ↦ inl (rw nothing (ground arith), rw (step, nothing) w)
      | inr (taken, took, inr (b, right)) ↦ absurd (ground (arith, right))
      | inr (taken, took, inl bad) ↦ elim (Bool-cases (e.id == id)) [
        | inl same ↦
            let mine =
              subst (λ (i : ℕ). take_attempt i db ≡ some taken) ((==_iff e.id id).0 same) took in
            let (left, next) = take_attempt-Window n db taken w mine in
            inr (left, rw bad (ground (arith, same)), rw (step, bad) next)
        | inr differs ↦ inl (
          ground (arith, differs),
          rw (step, bad) (take_attempt-other n e.id db taken differs w took),
        )
      ]
    ]

    -- In one window of an employee's code, however many codes are asked for in it and whichever
    -- rows parallel guesses read before, the attempts taken before and the guesses that are
    -- compared are at most five, while no badge is issued and requests for a code run one at a
    -- time.
    pub guesses_bounded :
        (ops : List (Env × Op)) (n : ℕ) (db : Db)
        → Window id end n db
        → n ≤ login_code_max_attempts
        → AllWrong sha end ops db
        → n + compared sha id ops db ≤ login_code_max_attempts
    unfolding compared
    guesses_bounded [] n db w few all = ground arith
    guesses_bounded ((env, asks tenant email) ∷ ops) n db w few (early, wrong, all) =
        let next = asks-Window env tenant email n db early w in
        ground (
          arith,
          guesses_bounded ops n (step sha env (asks tenant email) db) (unfold step in next) few all,
        )
    guesses_bounded ((env, guesses e tenant code) ∷ ops) n db w few (early, wrong, all) =
        elim (guess-Window env e tenant code n db w wrong) [
          | inl (none_more, same) ↦ ground (
            arith,
            none_more,
            guesses_bounded ops n (step sha env (guesses e tenant code) db) same few all,
          )
          | inr (left, counted, more) ↦ ground (
            arith,
            counted,
            guesses_bounded ops (n + 1) (step sha env (guesses e tenant code) db) more (omega arith)
                all,
          )
        ]
