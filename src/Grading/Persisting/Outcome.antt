-- ===== src/Grading/Persisting/Outcome.antt =====
-- What a grading stores.
use cat_game_backend.Base.{
  ℕ, ◌≡◌, refl, ◌∙◌, ap, true, false, ◌&&◌, Option, none, some, List, is_none, if◌then◌else◌, ℤ,
  pos, ◌+ℤ◌, Option-cases, inl, inr, arith,
}
use mathlib.Core.Path.{subst}
use cat_game_backend.Core.Error.{ok, runtime_error}
use cat_game_backend.Core.Outcome.{bind-ok, or_raise-ok}
use cat_game_backend.Store.Rows.{User, user_row, advance_state_version}
use cat_game_backend.Store.Table.{find, get, put, insert_row}
use cat_game_backend.Learning.{Tier, Concept, LearningTask, learning_task_row}
use cat_game_backend.Learning.Tiers.{since}
use cat_game_backend.Grading.{
  TaskAttempt, task_attempt_row, AttemptLease, GradeResult, GradingDb, is_true,
}
use cat_game_backend.Grading.Persisting.{
  Graded, finished, is_leased, is_completion_of, completion, counted_task, persist, settle,
  persist_result,
}
use cat_game_backend.Grading.Persisting.Money.{IsPaid, is_unpaid, Paying, persist-Paying}

-- The task that a grading pays for: the answer is right, no reset of the learning came after the
-- attempt, and no completion of the task by this player is stored on this day.
unfoldable pub earned : ℕ → Option ℕ → Graded → Option LearningTask
earned day none g = none
earned day (some task_id) g = elim (get task_id g.db.tasks) [
  | none ↦ none
  | some task ↦
      if is_true g.attempt.is_correct
        && since g.user.learning_reset_at g.attempt.attempted_at
        && is_none (find (is_completion_of g.attempt.user_id task.id day) g.db.completions)
      then some task
      else none
]

-- The rows after a grading that pays for this task, or for none.
unfoldable pub Settles : ℕ → Option LearningTask → Graded → GradingDb → Type 0
Settles day none g db' =
    (db'.attempts ≡ put g.attempt g.db.attempts)
    × (db'.users ≡ put (advance_state_version g.user) g.db.users)
    × (db'.completions ≡ g.db.completions)
Settles day (some task) g db' =
    (db'.attempts ≡ put (record g.attempt { coins_awarded = task.reward_coins }) g.db.attempts)
    × (db'.users
        ≡ put
            (advance_state_version
              (record g.user { balance = g.user.balance +ℤ pos task.reward_coins }))
            g.db.users)
    × ((id : ℕ) × (db'.completions
          ≡ insert_row (completion id day g.attempt.id g.attempt.user_id task) g.db.completions))

earned_unpaid :
    (day : ℕ) (task_id : Option ℕ) (task : Option LearningTask) (g : Graded)
    → counted_task task_id g ≡ ok task
    → is_unpaid day task g ≡ true
    → earned day task_id g ≡ none
unfolding counted_task earned
earned_unpaid day none task g counted unpaid = refl
earned_unpaid day (some i) none g counted unpaid = ground arith
earned_unpaid day (some i) (some t) g counted unpaid = ground arith

earned_paid :
    (day : ℕ) (task_id : Option ℕ) (t : LearningTask) (g g' : Graded)
    → counted_task task_id g ≡ ok (some t)
    → IsPaid day t g g'
    → earned day task_id g ≡ some t
unfolding counted_task earned
earned_paid day none t g g' counted p = ground arith
earned_paid day (some i) t g g' counted p = ground (arith, p.right, p.first)

-- The task that is paid for has no completion on the day.
pub earned_first :
    (day : ℕ) (task_id : Option ℕ) (g : Graded) (t : LearningTask)
    → earned day task_id g ≡ some t
    → find (is_completion_of g.attempt.user_id t.id day) g.db.completions ≡ none
unfolding earned
earned_first day none g t h = ground arith
earned_first day (some i) g t h = elim (Option-cases (get i g.db.tasks)) [
  | inl e ↦ ground arith
  | inr (x, e) ↦
      elim (Option-cases (find (is_completion_of g.attempt.user_id x.id day) g.db.completions)) [
        | inl absent ↦
            let same : x ≡ t = ground arith in
            subst (λ y. find (is_completion_of g.attempt.user_id y.id day) g.db.completions ≡ none)
              same absent
        | inr (c, present) ↦ ground arith
      ]
]

settle-Settles :
    (day : ℕ) (task_id : Option ℕ) (task : Option LearningTask) (g g' : Graded)
    → counted_task task_id g ≡ ok task
    → Paying day task g g'
    → Settles day (earned day task_id g) g (settle g')
unfolding Settles settle
settle-Settles day task_id task g g' counted (inl (k, unpaid)) =
    rw (earned_unpaid day task_id task g counted unpaid, k.attempt, k.user, k.users, k.attempts)
      (refl, refl, k.completions)
settle-Settles day task_id task g g' counted (inr (t, e, p)) =
    let found : earned day task_id g ≡ some t =
      earned_paid day task_id t g g' (counted ∙ ap ok e) p in
    rw (found, p.attempt, p.user, p.users, p.attempts) (refl, refl, (p.id, p.completions))

-- Before a grading: the attempt with the result, the player, and the tables.
abbrev pub graded : GradeResult → TaskAttempt → User → GradingDb → Graded
graded result attempt user db = record { attempt = finished result attempt; user = user; db = db }

-- The attempt that was leased, its player, and what was stored.
pub record Persisted (game_date : ℕ → ℕ) (lease : AttemptLease) (task_id : Option ℕ)
    (result : GradeResult) (db db' : GradingDb) : Type 0 where
  pub attempt : TaskAttempt
  pub user : User
  pub found : find (is_leased lease) db.attempts ≡ some attempt
  pub holder : get attempt.user_id db.users ≡ some user
  pub stored :
      Settles
        (game_date attempt.attempted_at)
        (earned (game_date attempt.attempted_at) task_id (graded result attempt user db))
        (graded result attempt user db)
        db'

module _ (game_date : ℕ → ℕ) (by_name : List Concept → List Concept) (clock : Tier → ℕ) (now : ℕ)
    (correct_score : Option ℤ) where
  -- A result that was stored.
  pub persist_result-Persisted :
      (lease : AttemptLease) (task_id : Option ℕ) (result : GradeResult) (db db' : GradingDb)
      → persist_result game_date by_name clock now correct_score lease task_id result db
        ≡ ok (true, db')
      → Persisted game_date lease task_id result db db'
  unfolding persist_result
  persist_result-Persisted lease task_id result db db' ran =
      elim (Option-cases (find (is_leased lease) db.attempts)) [
        | inl absent ↦ ground arith
        | inr (attempt, found) ↦
            let (user, holder, h1) =
              or_raise-ok (get attempt.user_id db.users) runtime_error _ _
                (rw (persist_result, found) at ran) in
            let g = graded result attempt user db in
            let (g', persisted, last) =
              bind-ok (persist game_date by_name clock now correct_score task_id g) _ _ h1 in
            let (task, counted, paying) =
              persist-Paying game_date by_name clock now correct_score task_id g g' persisted in
            let written : db' ≡ settle g' = ground arith in
            record {
              attempt = attempt;
              user = user;
              found = found;
              holder = holder;
              stored = rw written (
                  settle-Settles (game_date attempt.attempted_at) task_id task g g' counted paying);
            }
      ]

  -- Without a result stored, nothing changes.
  pub persist_result_unstored :
      (lease : AttemptLease) (task_id : Option ℕ) (result : GradeResult) (db db' : GradingDb)
      → persist_result game_date by_name clock now correct_score lease task_id result db
        ≡ ok (false, db')
      → db' ≡ db
  unfolding persist_result
  persist_result_unstored lease task_id result db db' ran =
      elim (Option-cases (find (is_leased lease) db.attempts)) [
        | inl absent ↦ ground arith
        | inr (attempt, found) ↦
            let (user, holder, h1) =
              or_raise-ok (get attempt.user_id db.users) runtime_error _ _
                (rw (persist_result, found) at ran) in
            let (g', persisted, last) =
              bind-ok
                (persist game_date by_name clock now correct_score task_id
                  (graded result attempt user db))
                _ _ h1 in
            ground arith
      ]

-- The row of the attempt after a grading.
pub Settles-row :
    (day : ℕ) (task : Option LearningTask) (g : Graded) (db' : GradingDb)
    → Settles day task g db'
    → (coins : ℕ) × (db'.attempts ≡ put (record g.attempt { coins_awarded = coins }) g.db.attempts)
unfolding Settles
Settles-row day none g db' h = (g.attempt.coins_awarded, h.0)
Settles-row day (some task) g db' h = (task.reward_coins, h.0)
