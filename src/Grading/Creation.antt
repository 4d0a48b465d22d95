-- ===== src/Grading/Creation.antt =====
-- `create_attempt` and `get_attempt` of app/modules/grading/service.py.
pub mod Links
pub mod Checked
pub mod Accepted
pub mod Requests
use cat_game_backend.Base.{
  ℕ, ◌+◌, String, Bool, true, false, not, ◌&&◌, Option, none, some, List, [], ◌∷◌, any, str_eq,
  if◌then◌else◌, is_none, ◌==◌,
}
use mathlib.Core.Option
use cat_game_backend.Core.Error.{Result, ok, submission_error, runtime_error, integrity_error}
use cat_game_backend.Core.Outcome.{◌>>=◌, ◌>>◌, raise_if, or_raise}
use cat_game_backend.Core.RequestHash.{Digest}
use cat_game_backend.Store.Rows.{User, user_row, advance_state_version}
use cat_game_backend.Store.Table.{find, get, put, insert_row}
use cat_game_backend.Learning.{
  ContextType, learning, daily, battle, same_context, Tier, same_tier, Concept, concept_row,
  LearningTask, TaskPresentation,
}
use cat_game_backend.Rewards.{AttendanceTask}
use cat_game_backend.Battle.{RoomTask}
use cat_game_backend.Learning.Tiers.{unlocked_difficulties, get_or_advance_tier}
use cat_game_backend.Grading.{
  pending, TaskAttempt, task_attempt_row, GradingDb, learning_view, with_learning,
}
use cat_game_backend.Grading.Persisting.{learner_of}
use cat_game_backend.Grading.Checks.{
  TaskAttemptCreate, attempt_hash, has_request, replay_attempt, has_options, chosen_presentation,
  presentation_type, presented_options, check_submission, own_daily_task, own_room_task,
}

-- `payload.submitted_code or payload.selected_option`
abbrev pub submission : TaskAttemptCreate → Option String
submission payload = elim payload.submitted_code [
  | none ↦ payload.selected_option
  | some c ↦ if str_eq c "" then payload.selected_option else some c
]

-- The daily task or the room task that the attempt belongs to.
unfoldable pub linked_tasks :
    ContextType
    → TaskAttemptCreate
    → User
    → ℕ
    → LearningTask
    → GradingDb
    → Result (Option AttendanceTask × Option RoomTask)
unfolding own_daily_task own_room_task
linked_tasks learning payload user today task db = ok (none, none)
linked_tasks daily payload user today task db = do
  t ← own_daily_task payload.attendance_task_public_id user today task db
  ok (some t, none)
linked_tasks battle payload user today task db = do
  t ← own_room_task payload.room_task_public_id user task db
  ok (none, some t)

-- The task of a new attempt, its presentation and its linked task.
abbrev pub Found : Type 0
Found = LearningTask × Option TaskPresentation × (Option AttendanceTask × Option RoomTask)

unfoldable pub active_task : TaskAttemptCreate → GradingDb → Result LearningTask
unfolding find
active_task payload db = do
  task ← or_raise (find (λ t. t.public_id == payload.task_public_id) db.tasks) submission_error
  raise_if (not task.is_active) submission_error >> ok task

-- The concept of the task, if the attempt asks for the tier in it.
unfoldable pub tier_concept : TaskAttemptCreate → LearningTask → GradingDb → Option Concept
unfolding get
tier_concept payload task db =
    if same_context payload.context_type learning then get task.concept_id db.concepts else none

abbrev pub get_attempt : GradingDb → ℕ → User → Option TaskAttempt
get_attempt db public_id user =
    find (λ a. a.public_id == public_id && a.user_id == user.id) db.attempts

module _ (d : Digest) (by_name : List Concept → List Concept) (clock : Tier → ℕ)
    (now today : ℕ) where
  -- The task's difficulty has to be unlocked in the learning; the tables with the tier's row.
  unfoldable pub unlock : User → LearningTask → Concept → GradingDb → Result GradingDb
  unfolding get_or_advance_tier
  unlock user task concept db = do
    r ←
        or_raise
          (get_or_advance_tier by_name clock now 3 (learner_of user) concept.domain
            (learning_view db))
          runtime_error
    raise_if (not (any (same_tier task.difficulty) (unlocked_difficulties r.0.0.current_tier)))
          submission_error
        >> ok (with_learning r.1 db)

  -- The row to store: its key, its user, its task and what the payload names.
  abbrev pub new_attempt :
      TaskAttemptCreate
      → ℕ
      → LearningTask
      → Option TaskPresentation
      → Option AttendanceTask × Option RoomTask
      → String
      → GradingDb
      → TaskAttempt
  new_attempt payload user_id task presentation links submitted db = record {
    id = db.next_id;
    public_id = db.generated db.next_id;
    request_id = payload.request_id;
    request_hash = attempt_hash d payload;
    user_id = user_id;
    task_id = task.id;
    presentation_id = Option.map (λ p. p.id) presentation;
    attendance_task_id = Option.map (λ t. t.id) (links.0);
    room_task_id = Option.map (λ t. t.id) (links.1);
    context_type = payload.context_type;
    submitted_code = submitted;
    used_hint = payload.used_hint;
    status = pending;
    is_correct = none;
    attempted_at = now;
    result_detail = none;
    coins_awarded = 0;
    grading_started_at = none;
    grading_lease_token = none;
  }

  -- The checks of the presentation, the answer and the linked task, with what they have found.
  unfoldable pub check_attempt : TaskAttemptCreate → User → LearningTask → GradingDb → Result Found
  unfolding chosen_presentation check_submission linked_tasks
  check_attempt payload user task db = do
    raise_if
        (same_context payload.context_type learning
          && has_options task.options
          && is_none payload.presentation_public_id)
        submission_error
    presentation ←
        chosen_presentation payload.presentation_public_id payload.context_type user task db
    check_submission payload (presentation_type task presentation)
          (presented_options task presentation)
        >> (do
          links ← linked_tasks payload.context_type payload user today task db
          ok (task, presentation, links))

  -- `meanwhile` is what other transactions commit while the call waits for the lock on the user: it
  -- waits before it reads the tier if it reads one, otherwise after the checks. The task and its
  -- concept are read before that.
  unfoldable pub check_under_lock :
      TaskAttemptCreate → User → (GradingDb → GradingDb) → GradingDb → Result (Found × GradingDb)
  unfolding active_task tier_concept unlock check_attempt
  check_under_lock payload user meanwhile db = do
    task ← active_task payload db
    elim (tier_concept payload task db) [
      | none ↦ check_attempt payload user task db >>= λ found. ok (found, meanwhile db)
      | some concept ↦ unlock user task concept (meanwhile db) >>= λ unlocked.
          check_attempt payload user task unlocked >>= λ found. ok (found, unlocked)
    ]

  -- Under the lock the row of the request is looked for again; the insertion then meets no conflict.
  -- `replayed` is what a replay leaves.
  unfoldable pub insert_attempt :
      TaskAttemptCreate → User → Found → GradingDb → GradingDb → Result (TaskAttempt × GradingDb)
  unfolding find get put
  insert_attempt payload user found replayed locked =
      or_raise (get user.id locked.users) submission_error >>= λ locked_user.
      elim (find (has_request payload.request_id) locked.attempts) [
        | some existing ↦ replay_attempt existing user.id (attempt_hash d payload) replayed
        | none ↦ or_raise (submission payload) integrity_error >>= λ submitted.
            let attempt =
              new_attempt payload user.id (found.0) (found.1) (found.2) submitted locked in
            ok (
              attempt,
              record locked {
                users = put (advance_state_version locked_user) locked.users;
                attempts = insert_row attempt locked.attempts;
                next_id = locked.next_id + 1;
              },
            )
      ]

  unfoldable pub create_attempt :
      TaskAttemptCreate
      → User
      → (GradingDb → GradingDb)
      → GradingDb
      → Result (TaskAttempt × GradingDb)
  unfolding find check_under_lock insert_attempt
  create_attempt payload user meanwhile db =
      elim (find (has_request payload.request_id) db.attempts) [
        | some existing ↦ replay_attempt existing user.id (attempt_hash d payload) db
        | none ↦ check_under_lock payload user meanwhile db >>= λ checked.
            insert_attempt payload user checked.0 (meanwhile db) checked.1
      ]
