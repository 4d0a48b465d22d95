-- ===== src/Grading/Steps/Completions.antt =====
-- A task is completed once a day.
use cat_game_backend.Base.{
  ℕ, ◌≤◌, ◌≡◌, refl, ap, ◌&&◌, Option, none, some, List, [], ◌∷◌, ◌==◌, ℤ, Bool-cases, Option-cases,
  inl, inr, arith,
}
use cat_game_backend.Store.Rows.{user_row}
use cat_game_backend.Store.Table.{find, insert_row}
use cat_game_backend.Store.Counting.{count, count-insert_row, count-none}
use cat_game_backend.Learning.{Tier, Concept, LearningTask, learning_task_row}
use cat_game_backend.Grading.{AttemptLease, GradeResult, TaskCompletion, GradingDb}
use cat_game_backend.Grading.Leases.{
  oldest, is_free, is_claimable, claim_next_attempt, claim_attempt,
}
use cat_game_backend.Grading.Persisting.{Graded, is_completion_of, completion, persist_result}
use cat_game_backend.Grading.Persisting.Outcome.{
  earned, earned_first, Settles, graded, Persisted, persist_result-Persisted,
  persist_result_unstored,
}
use cat_game_backend.Grading.Steps.{Step, poll, take_one, store, step, run_steps}
use cat_game_backend.Grading.Steps.Change.{next, Stored-cases}

-- The step of a worker stores a result, or touches neither players nor completions.
pub data Touches (game_date : ℕ → ℕ) (db db' : GradingDb) : Type 0 where
  nothing : db'.users ≡ db.users → db'.completions ≡ db.completions → Touches game_date db db'
  persisted :
      (lease : AttemptLease) (task_id : Option ℕ) (result : GradeResult)
      → Persisted game_date lease task_id result db db'
      → Touches game_date db db'

module _ (lease_seconds : ℕ) (game_date : ℕ → ℕ) (by_name : List Concept → List Concept)
    (clock : Tier → ℕ) (now : ℕ) (correct_score : Option ℤ) where
  pub step-Touches :
      (s : Step) (db : GradingDb)
      → Touches game_date db (next lease_seconds game_date by_name clock now correct_score s db)
  unfolding step claim_next_attempt claim_attempt
  step-Touches (poll time token locked) db =
      elim (Option-cases (oldest (is_free lease_seconds time locked) db.attempts)) [
        | inl e ↦ rw (step, claim_next_attempt, e) (nothing refl refl)
        | inr (a, e) ↦ rw (step, claim_next_attempt, e) (nothing refl refl)
      ]
  step-Touches (take_one time token public_id) db =
      elim (Option-cases
        (find (λ a. a.public_id == public_id && is_claimable lease_seconds time a) db.attempts)) [
          | inl e ↦ rw (step, claim_attempt, e) (nothing refl refl)
          | inr (a, e) ↦ rw (step, claim_attempt, e) (nothing refl refl)
        ]
  step-Touches (store lease task_id result) db =
      elim (Stored-cases
        (persist_result game_date by_name clock now correct_score lease task_id result db)) [
          | inl (e, raised) ↦ rw (step, raised) (nothing refl refl)
          | inr (inl (db', unstored)) ↦
              let same =
                persist_result_unstored game_date by_name clock now correct_score lease task_id
                  result db db' unstored in
              rw (step, unstored) (nothing (ap (λ x. x.users) same) (ap (λ x. x.completions) same))
          | inr (inr (db', kept)) ↦
              rw (step, kept)
                (persisted lease task_id result (
                  persist_result-Persisted game_date by_name clock now correct_score lease task_id
                    result db db' kept))
        ]

-- No player has two completions of a task on one day.
abbrev pub OncePerDay : List TaskCompletion → Type 0
OncePerDay completions =
    (user_id task_id day : ℕ) → count (is_completion_of user_id task_id day) completions ≤ 1

OncePerDay-insert_row :
    (c : TaskCompletion) (completions : List TaskCompletion)
    → find (is_completion_of c.user_id c.task_id c.completion_date) completions ≡ none
    → OncePerDay completions
    → OncePerDay (insert_row c completions)
OncePerDay-insert_row c completions fresh h = λ user_id task_id day.
    let free =
      count-none (is_completion_of c.user_id c.task_id c.completion_date) completions fresh in
    let old = h user_id task_id day in
    rw (count-insert_row (is_completion_of user_id task_id day) c completions)
      (elim (Bool-cases (is_completion_of user_id task_id day c)) [
        | inr other ↦ rw other (omega arith)
        | inl same ↦
            let user : c.user_id ≡ user_id = ground arith in
            let task : c.task_id ≡ task_id = ground arith in
            let on : c.completion_date ≡ day = ground arith in
            let none_yet =
              keys c.user_id user_id c.task_id task_id c.completion_date day completions user task
                on free in
            rw same (omega (arith, none_yet))
      ])
  where
    keys :
        (u u' t t' d d' : ℕ) (completions : List TaskCompletion)
        → u ≡ u'
        → t ≡ t'
        → d ≡ d'
        → count (is_completion_of u t d) completions ≡ 0
        → count (is_completion_of u' t' d') completions ≡ 0
    keys u u' t t' d d' completions a b c h = rw (a, b, c) at h

-- A day's completions after a stored result.
Settles-OncePerDay :
    (day : ℕ) (task_id : Option ℕ) (task : Option LearningTask) (g : Graded) (db' : GradingDb)
    → earned day task_id g ≡ task
    → Settles day task g db'
    → OncePerDay g.db.completions
    → OncePerDay db'.completions
unfolding Settles
Settles-OncePerDay day task_id none g db' e h once = λ user_id t d. rw (h.2) (once user_id t d)
Settles-OncePerDay day task_id (some t) g db' e h once =
    let (id, completions) = h.2 in
    let first = earned_first day task_id g t e in
    λ user_id task_id d. rw completions (
      OncePerDay-insert_row (completion id day g.attempt.id g.attempt.user_id t) g.db.completions
        first once user_id task_id d)

module _ (lease_seconds : ℕ) (game_date : ℕ → ℕ) (by_name : List Concept → List Concept)
    (clock : Tier → ℕ) (now : ℕ) (correct_score : Option ℤ) where
  step-OncePerDay :
      (s : Step) (db : GradingDb)
      → OncePerDay db.completions
      → OncePerDay (next lease_seconds game_date by_name clock now correct_score s db).completions
  step-OncePerDay s db once =
      elim (step-Touches lease_seconds game_date by_name clock now correct_score s db) [
        | nothing users completions ↦ λ user_id task_id d. rw completions (once user_id task_id d)
        | persisted lease task_id result p ↦
            Settles-OncePerDay (game_date p.attempt.attempted_at) task_id _
              (graded result p.attempt p.user db)
              (next lease_seconds game_date by_name clock now correct_score s db) refl p.stored once
      ]

  -- If no player has two completions of a task on one day, then any sequence of steps of workers
  -- leaves it so.
  pub run_steps-OncePerDay :
      (steps : List Step) (db : GradingDb)
      → OncePerDay db.completions
      → OncePerDay
          (run_steps lease_seconds game_date by_name clock now correct_score steps db).completions
  unfolding run_steps
  run_steps-OncePerDay [] db once = once
  run_steps-OncePerDay (s ∷ steps) db once =
      run_steps-OncePerDay steps (next lease_seconds game_date by_name clock now correct_score s db)
        (step-OncePerDay s db once)
