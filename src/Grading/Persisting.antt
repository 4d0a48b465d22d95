-- ===== src/Grading/Persisting.antt =====
-- `_persist_result` of app/modules/grading/service.py. Autoflush is off, so that the queries of a
-- grading see the attempt's row as it is stored until a flush writes it. The day of a time in the
-- game's time zone, the order of the names and the clocks are parameters.
pub mod Money
pub mod Outcome
use cat_game_backend.Base.{
  ℕ, ◌+◌, Bool, true, false, not, ◌&&◌, Option, none, some, List, [], ◌∷◌, ◌==◌, opt_eq, is_none,
  if◌then◌else◌, ℤ, pos, ◌+ℤ◌,
}
use cat_game_backend.Core.Error.{Result, ok, err, runtime_error, battle_error}
use cat_game_backend.Core.Outcome.{◌>>=◌, or_raise}
use cat_game_backend.Store.Rows.{Row, User, user_row, advance_state_version}
use cat_game_backend.Store.Table.{find, get, put, insert_row}
use cat_game_backend.Rewards.{AttendanceTask, attendance_task_row}
use cat_game_backend.Battle.{record_attempt_result}
use cat_game_backend.Learning.{
  Tier, Domain, Concept, concept_row, LearningTask, learning_task_row, TaskPresentation,
  presentation_row, same_context, daily, battle, Learner,
}
use cat_game_backend.Learning.Tiers.{since, is_tier_of, get_or_advance_tier}
use cat_game_backend.Learning.Proficiency.{update_proficiency}
use cat_game_backend.Grading.{
  AttemptStatus, completed, failed, is_running, TaskAttempt, task_attempt_row, TaskCompletion,
  AttemptLease, GradeResult, is_system_failure, is_correct, is_true, GradingDb, learning_view,
  with_learning, battle_attempt, battle_view,
}

-- The attempt is being graded under this lease.
abbrev pub is_leased : AttemptLease → TaskAttempt → Bool
is_leased lease a =
    a.public_id == lease.public_id
    && is_running a.status
    && opt_eq a.grading_lease_token (some lease.token)

abbrev pub verdict_of : GradeResult → Option Bool
verdict_of r = if is_system_failure r then none else some (is_correct r)

abbrev pub finished : GradeResult → TaskAttempt → TaskAttempt
finished r a = record a {
  status = if is_system_failure r then failed else completed;
  is_correct = verdict_of r;
  result_detail = some r;
  grading_started_at = none;
  grading_lease_token = none;
}

-- The objects of the session that the grading has changed, and the tables.
pub record Graded : Type 0 where
  pub attempt : TaskAttempt
  pub user : User
  pub db : GradingDb

abbrev pub fetch : {V : Type 0} → ⦃row : Row V⦄ → Option ℕ → List V → Option V
fetch none t = none
fetch (some i) t = get i t

-- The task, where the result counts for the learner: no reset came after the attempt. The rollback
-- at the start has expired the object, so that it is read again.
unfoldable pub counted_task : Option ℕ → Graded → Result (Option LearningTask)
counted_task none g = ok none
counted_task (some task_id) g =
    if not (is_none g.attempt.is_correct) && since g.user.learning_reset_at g.attempt.attempted_at
    then (do task ← or_raise (get task_id g.db.tasks) runtime_error; ok (some task))
    else ok none

unfoldable pub measure : Option LearningTask → Graded → Graded
unfolding update_proficiency
measure none g = g
measure (some task) g = record g {
  db =
      with_learning
        (update_proficiency (learning_view g.db) g.attempt.user_id task.concept_id
          g.user.learning_reset_at).1
        g.db;
}

abbrev pub is_completion_of : ℕ → ℕ → ℕ → TaskCompletion → Bool
is_completion_of user_id task_id day c =
    c.user_id == user_id && c.task_id == task_id && c.completion_date == day

abbrev pub completion : ℕ → ℕ → ℕ → ℕ → LearningTask → TaskCompletion
completion id day attempt_id user_id task = record {
  id = id;
  user_id = user_id;
  task_id = task.id;
  first_attempt_id = attempt_id;
  coins_awarded = task.reward_coins;
  completion_date = day;
}

-- The insertion does nothing where a completion of the task on this day is stored.
unfoldable pub reward : ℕ → Option LearningTask → Graded → Graded
unfolding find
reward day none g = g
reward day (some task) g =
    let stored = find (is_completion_of g.attempt.user_id task.id day) g.db.completions in
    if is_true g.attempt.is_correct && is_none stored
    then record {
      attempt = record g.attempt { coins_awarded = task.reward_coins };
      user = record g.user { balance = g.user.balance +ℤ pos task.reward_coins };
      db = record g.db {
        completions =
            insert_row (completion g.db.next_id day g.attempt.id g.attempt.user_id task)
              g.db.completions;
        next_id = g.db.next_id + 1;
      };
    }
    else g

-- A first tier row is flushed, and the attempt's row with it.
abbrev pub flushed_for : Domain → Graded → GradingDb
flushed_for domain g =
    if is_none (find (is_tier_of g.user.id domain) g.db.tiers)
    then record g.db { attempts = put g.attempt g.db.attempts }
    else g.db

abbrev pub learner_of : User → Learner
learner_of u = record { id = u.id; learning_reset_at = u.learning_reset_at }

unfoldable pub complete_presentation : Graded → Graded
unfolding get put
complete_presentation g = elim (fetch g.attempt.presentation_id g.db.presentations) [
  | none ↦ g
  | some p ↦
      if is_true g.attempt.is_correct
      then record g {
        db = record g.db {
          presentations = put (record p { is_active = false }) g.db.presentations;
        };
      }
      else g
]

unfoldable pub complete_daily : Graded → Result Graded
unfolding get put
complete_daily g =
    if is_true g.attempt.is_correct && same_context g.attempt.context_type daily
    then (do
      t ← or_raise (fetch g.attempt.attendance_task_id g.db.attendance_tasks) runtime_error
      ok (record g {
        db = record g.db {
          attendance_tasks = put (record t { is_completed = true }) g.db.attendance_tasks;
        };
      }))
    else ok g

-- The result of a battle's attempt.
unfoldable pub record_battle : Option ℤ → Graded → Result Graded
unfolding record_attempt_result
record_battle correct_score g =
    if same_context g.attempt.context_type battle && not (is_none g.attempt.is_correct)
    then (do
      i ← or_raise g.attempt.room_task_id battle_error
      b ← record_attempt_result correct_score (battle_attempt i g.attempt) (battle_view g.db)
      ok (record g { db = record g.db { rooms = b.rooms; participants = b.participants } }))
    else ok g

-- The commit.
unfoldable pub settle : Graded → GradingDb
unfolding put
settle g = record g.db {
  users = put (advance_state_version g.user) g.db.users;
  attempts = put g.attempt g.db.attempts;
}

module _ (game_date : ℕ → ℕ) (by_name : List Concept → List Concept) (clock : Tier → ℕ) (now : ℕ)
    (correct_score : Option ℤ) where
  unfoldable pub advance_tier : Option LearningTask → Graded → Result Graded
  unfolding get get_or_advance_tier
  advance_tier none g = ok g
  advance_tier (some task) g =
      if is_true g.attempt.is_correct
      then elim (get task.concept_id g.db.concepts) [
        | none ↦ ok g
        | some concept ↦
            or_raise
              (get_or_advance_tier by_name clock now 3 (learner_of g.user) concept.domain
                (learning_view (flushed_for concept.domain g)))
              runtime_error
            >>= λ r. ok (record g { db = with_learning r.1 g.db })
      ]
      else ok g

  -- What follows the lock on the user; `task_id` is that of the task which was graded.
  unfoldable pub persist : Option ℕ → Graded → Result Graded
  unfolding counted_task measure reward advance_tier complete_presentation complete_daily
      record_battle
  persist task_id g = do
    task ← counted_task task_id g
    advanced ← advance_tier task (reward (game_date g.attempt.attempted_at) task (measure task g))
    marked ← complete_daily (complete_presentation advanced)
    record_battle correct_score marked

  unfoldable pub persist_result :
      AttemptLease → Option ℕ → GradeResult → GradingDb → Result (Bool × GradingDb)
  unfolding find get persist settle
  persist_result lease task_id result db = elim (find (is_leased lease) db.attempts) [
    | none ↦ ok (false, db)
    | some attempt ↦ or_raise (get attempt.user_id db.users) runtime_error >>= λ user.
        persist task_id (record { attempt = finished result attempt; user = user; db = db })
        >>= λ g. ok (true, settle g)
  ]
