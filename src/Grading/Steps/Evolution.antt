-- ===== src/Grading/Steps/Evolution.antt =====
-- The way of an attempt: leased while it is not finished, and finished once under a lease.
use cat_game_backend.Base.{
  ℕ, ◌≡◌, refl, ◌∙◌, sym, ap, Bool, true, false, Option, some, List, [], ◌∷◌, ◌==◌, ℤ, Bool-cases,
  inl, inr, arith,
}
use mathlib.Core.Option.{some-injective}
use mathlib.Core.Path.{subst}
use cat_game_backend.Store.Table.{get, Distinct, get-put, Distinct-put}
use cat_game_backend.Learning.{Tier, Concept}
use cat_game_backend.Grading.{
  AttemptStatus, is_running, is_finished, TaskAttempt, task_attempt_row, AttemptLease, GradeResult,
  GradingDb,
}
use cat_game_backend.Grading.Leases.{is_claimable_status, leased}
use cat_game_backend.Grading.Persisting.{is_leased, finished}
use cat_game_backend.Grading.Steps.{Step, run_steps}
use cat_game_backend.Grading.Steps.Change.{Change, polled, taken, stored, step-Changed, next}

pub data Evolves : TaskAttempt → TaskAttempt → Type 0 where
  unchanged : {a : TaskAttempt} → Evolves a a
  then_leased :
      {a b : TaskAttempt} (now token : ℕ)
      → is_finished a.status ≡ false
      → Evolves (leased now token a) b
      → Evolves a b
  then_finished :
      {a b : TaskAttempt} (result : GradeResult) (coins : ℕ)
      → is_running a.status ≡ true
      → Evolves (record (finished result a) { coins_awarded = coins }) b
      → Evolves a b

Evolves-trans : {a b c : TaskAttempt} → Evolves a b → Evolves b c → Evolves a c
Evolves-trans unchanged k = k
Evolves-trans (then_leased now token h e) k = then_leased now token h (Evolves-trans e k)
Evolves-trans (then_finished result coins h e) k = then_finished result coins h (Evolves-trans e k)

unfinished :
    (status : AttemptStatus) (expired : Bool)
    → is_claimable_status status expired ≡ true
    → is_finished status ≡ false
unfinished status expired h = ground arith

leased_running :
    (lease : AttemptLease) (a : TaskAttempt) → is_leased lease a ≡ true → is_running a.status ≡ true
leased_running lease a h = ground arith

Change-Evolves :
    {lease_seconds : ℕ} {s : Step} {a b : TaskAttempt} → Change lease_seconds s a b → Evolves a b
Change-Evolves (polled h) = then_leased _ _ (unfinished _ _ h) unchanged
Change-Evolves (taken h) = then_leased _ _ (unfinished _ _ h) unchanged
Change-Evolves (stored {a = a} lease result coins h) =
    then_finished result coins (leased_running lease a h) unchanged

-- A finished attempt goes nowhere.
Evolves-finished : {a b : TaskAttempt} → is_finished a.status ≡ true → Evolves a b → b ≡ a
Evolves-finished h unchanged = refl
Evolves-finished h (then_leased now token k e) = ground arith
Evolves-finished {a} h (then_finished result coins k e) = clash (_ ≡ a) a.status h k
  where
    clash : (A : Type 0) (s : AttemptStatus) → is_finished s ≡ true → is_running s ≡ true → A
    clash s h k = ground arith

module _ (lease_seconds : ℕ) (game_date : ℕ → ℕ) (by_name : List Concept → List Concept)
    (clock : Tier → ℕ) (now : ℕ) (correct_score : Option ℤ) where
  pub step-Distinct :
      (s : Step) (db : GradingDb)
      → Distinct db.attempts
      → Distinct (next lease_seconds game_date by_name clock now correct_score s db).attempts
  step-Distinct s db d =
      elim (step-Changed lease_seconds game_date by_name clock now correct_score s db d) [
        | inl same ↦ rw same d
        | inr c ↦ rw c.written (Distinct-put c.new db.attempts d)
      ]

  step-Evolves :
      (s : Step) (db : GradingDb) (i : ℕ) (a : TaskAttempt)
      → Distinct db.attempts
      → get i db.attempts ≡ some a
      → (b : TaskAttempt) × (get i
            (next lease_seconds game_date by_name clock now correct_score s db).attempts
          ≡ some b)
        × Evolves a b
  step-Evolves s db i a d found =
      elim (step-Changed lease_seconds game_date by_name clock now correct_score s db d) [
        | inl same ↦ (a, rw (same, found) refl, unchanged)
        | inr c ↦ elim (Bool-cases (i == c.new.id)) [
          | inr other ↦ (a, rw (c.written, get-put, other, found) refl, unchanged)
          | inl mine ↦
              let key : i ≡ c.old.id = ground (arith, c.same_id) in
              let held : c.old ≡ a =
                some-injective c.old a
                  (sym (c.found) ∙ ap (λ k. get k db.attempts) (sym key) ∙ found) in
              (
                c.new,
                rw (c.written, get-put, mine, found) refl,
                subst (λ x. Evolves x c.new) held (Change-Evolves c.change),
              )
        ]
      ]

  -- If the primary keys of the attempts are distinct, every attempt keeps its row through any
  -- steps of workers; the row changes only by leases taken while it is not finished, and by a
  -- result that finishes it while it is running.
  pub run_steps-Evolves :
      (steps : List Step) (db : GradingDb) (i : ℕ) (a : TaskAttempt)
      → Distinct db.attempts
      → get i db.attempts ≡ some a
      → (b : TaskAttempt) × (get i
            (run_steps lease_seconds game_date by_name clock now correct_score steps db).attempts
          ≡ some b)
        × Evolves a b
  unfolding run_steps
  run_steps-Evolves [] db i a d found = (a, found, unchanged)
  run_steps-Evolves (s ∷ steps) db i a d found =
      let (b, found', first) = step-Evolves s db i a d found in
      let (c, last, rest) =
        run_steps-Evolves steps (next lease_seconds game_date by_name clock now correct_score s db)
          i b (step-Distinct s db d) found' in
      (c, last, Evolves-trans first rest)

  -- If the primary keys of the attempts are distinct, an attempt that is completed or failed
  -- keeps its row as it is through any steps of workers.
  pub run_steps_final :
      (steps : List Step) (db : GradingDb) (i : ℕ) (a : TaskAttempt)
      → Distinct db.attempts
      → get i db.attempts ≡ some a
      → is_finished a.status ≡ true
      → get i (run_steps lease_seconds game_date by_name clock now correct_score steps db).attempts
        ≡ some a
  run_steps_final steps db i a d found done =
      let (b, last, way) = run_steps-Evolves steps db i a d found in
      last ∙ ap some (Evolves-finished done way)
