-- ===== src/Grading/Steps.antt =====
-- What workers do to the attempts: each step is a transaction of app/modules/grading/service.py.
pub mod Change
pub mod Evolution
pub mod Retirement
pub mod Exclusion
pub mod Completions
pub mod Accounting
use cat_game_backend.Base.{ℕ, Bool, true, false, Option, List, [], ◌∷◌, ℤ, ◌==◌, not, leb, ◌+◌}
use cat_game_backend.Learning.{Tier, Concept}
use cat_game_backend.Grading.{GradingDb, AttemptLease, GradeResult}
use cat_game_backend.Grading.Leases.{claim_next_attempt, claim_attempt}
use cat_game_backend.Grading.Persisting.{persist_result}
use cat_game_backend.Grading.Running.{or_deferred}

-- A worker polls; it takes one attempt; or it stores the result of a sandbox.
pub data Step : Type 0 where
  poll : (now token : ℕ) (locked : List ℕ) → Step
  take_one : (now token public_id : ℕ) → Step
  store : (lease : AttemptLease) (task_id : Option ℕ) (result : GradeResult) → Step

-- A claim of the step does not take this token.
abbrev pub is_fresh : ℕ → Step → Bool
is_fresh token (poll now t locked) = not (t == token)
is_fresh token (take_one now t public_id) = not (t == token)
is_fresh token (store lease task_id result) = true

-- The step stores no result under this token.
abbrev pub is_other : ℕ → Step → Bool
is_other token (poll now t locked) = true
is_other token (take_one now t public_id) = true
is_other token (store lease task_id result) = not (lease.token == token)

-- A claim of the step comes no later than this time.
abbrev pub is_by : ℕ → Step → Bool
is_by time (poll now token locked) = leb now time
is_by time (take_one now token public_id) = leb now time
is_by time (store lease task_id result) = true

module _ (lease_seconds : ℕ) (game_date : ℕ → ℕ) (by_name : List Concept → List Concept)
    (clock : Tier → ℕ) (now : ℕ) (correct_score : Option ℤ) where
  unfoldable pub step : Step → GradingDb → GradingDb
  unfolding claim_next_attempt claim_attempt persist_result
  step (poll time token locked) db = (claim_next_attempt lease_seconds time token locked db).1
  step (take_one time token public_id) db = (claim_attempt lease_seconds time token public_id db).1
  step (store lease task_id result) db =
      (or_deferred
        (persist_result game_date by_name clock now correct_score lease task_id result db) db).1

  unfoldable pub run_steps : List Step → GradingDb → GradingDb
  unfolding step
  run_steps [] db = db
  run_steps (s ∷ steps) db = run_steps steps (step s db)
