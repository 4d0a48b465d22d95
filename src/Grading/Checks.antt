-- ===== src/Grading/Checks.antt =====
-- What `create_attempt` of app/modules/grading/service.py checks before it stores an attempt.
use cat_game_backend.Base.{
  ℕ, String, Bool, true, false, not, ◌&&◌, ◌||◌, Option, none, some, List, [], ◌∷◌, any, str_eq,
  is_none, ◌==◌,
}
use cat_game_backend.Core.Error.{Result, ok, submission_error, idempotency_conflict}
use cat_game_backend.Core.Outcome.{◌>>=◌, ◌>>◌, raise_if, or_raise}
use cat_game_backend.Core.RequestHash.{
  Value, uuid, str, other, Fields, end, field, Digest, build_request_hash,
}
use cat_game_backend.Store.Rows.{User, user_row}
use cat_game_backend.Store.Table.{find}
use cat_game_backend.Rewards.{TaskType, code, multiple_choice, AttendanceTask}
use cat_game_backend.Battle.{is_member, RoomTask, room_row}
use cat_game_backend.Battle
use cat_game_backend.Learning.{
  ContextType, learning, daily, battle, same_context, concept_row, LearningTask, TaskPresentation,
}
use cat_game_backend.Learning.Presentation.{labels_of}
use cat_game_backend.Grading.{TaskAttempt, task_attempt_row, GradingDb}

-- A payload that the schema has accepted.
pub record TaskAttemptCreate : Type 0 where
  pub request_id : ℕ
  pub task_public_id : ℕ
  pub presentation_public_id : Option ℕ
  pub submitted_code : Option String
  pub selected_option : Option String
  pub context_type : ContextType
  pub used_hint : Bool
  pub attendance_task_public_id : Option ℕ
  pub room_task_public_id : Option ℕ

abbrev pub uuid_value : Option ℕ → Value
uuid_value none = other 0
uuid_value (some u) = uuid u

abbrev pub text_value : Option String → Value
text_value none = other 0
text_value (some s) = str s

abbrev pub bool_value : Bool → Value
bool_value false = other 1
bool_value true = other 2

abbrev pub context_name : ContextType → String
context_name learning = "LEARNING"
context_name daily = "DAILY"
context_name battle = "BATTLE"

-- `payload.model_dump()`
abbrev pub dump : TaskAttemptCreate → Fields
dump payload = field "request_id" (uuid payload.request_id) (
    field "task_public_id" (uuid payload.task_public_id) (
      field "presentation_public_id" (uuid_value payload.presentation_public_id) (
        field "submitted_code" (text_value payload.submitted_code) (
          field "selected_option" (text_value payload.selected_option) (
            field "context_type" (str (context_name payload.context_type)) (
              field "used_hint" (bool_value payload.used_hint) (
                field "attendance_task_public_id" (uuid_value payload.attendance_task_public_id)
                  (field "room_task_public_id" (uuid_value payload.room_task_public_id) end))))))))

abbrev pub attempt_hash : Digest → TaskAttemptCreate → String
attempt_hash d payload = build_request_hash d "TASK_ATTEMPT" (dump payload)

abbrev pub has_request : ℕ → TaskAttempt → Bool
has_request request_id a = a.request_id == request_id

-- `_replay_attempt`
abbrev pub replay_attempt : TaskAttempt → ℕ → String → GradingDb → Result (TaskAttempt × GradingDb)
replay_attempt existing user_id request_hash db =
    raise_if (not (existing.user_id == user_id) || not (str_eq existing.request_hash request_hash))
      idempotency_conflict
    >> ok (existing, db)

abbrev pub has_options : Option (List (String × String)) → Bool
has_options none = false
has_options (some []) = false
has_options (some (o ∷ options)) = true

-- The presentation's own row, if the payload names one.
unfoldable pub chosen_presentation :
    Option ℕ → ContextType → User → LearningTask → GradingDb → Result (Option TaskPresentation)
unfolding find
chosen_presentation none context user task db = ok none
chosen_presentation (some public_id) context user task db = do
  p ← or_raise (find (λ p. p.public_id == public_id) db.presentations) submission_error
  raise_if
      (not (p.user_id == user.id)
        || not (p.task_id == task.id)
        || not (same_context p.context_type context)
        || not p.is_active)
      submission_error
  ok (some p)

abbrev pub presentation_type : LearningTask → Option TaskPresentation → TaskType
presentation_type task none = task.type
presentation_type task (some p) = p.presentation_type

abbrev pub presented_options :
    LearningTask → Option TaskPresentation → Option (List (String × String))
presented_options task none = task.options
presented_options task (some p) = p.options

abbrev pub is_option : String → Option (List (String × String)) → Bool
is_option selected none = false
is_option selected (some options) = any (λ l. str_eq l selected) (labels_of options)

unfoldable pub check_submission :
    TaskAttemptCreate → TaskType → Option (List (String × String)) → Result (Unit {0})
check_submission payload code options = raise_if (is_none payload.submitted_code) submission_error
check_submission payload multiple_choice options = do
  selected ← or_raise payload.selected_option submission_error
  raise_if (not (is_option selected options)) submission_error

-- The task of the player's own mission of today that is not completed.
unfoldable pub own_daily_task :
    Option ℕ → User → ℕ → LearningTask → GradingDb → Result AttendanceTask
unfolding find
own_daily_task none user today task db = Result.err submission_error
own_daily_task (some public_id) user today task db = do
  t ← or_raise (find (λ t. t.public_id == public_id) db.attendance_tasks) submission_error
  raise_if
      (not (
          any (λ a. a.id == t.attendance_id && a.user_id == user.id && a.check_in_date == today)
            db.attendances)
        || not (t.task_id == task.id)
        || t.is_completed)
      submission_error
  ok t

-- The task of a running battle that the player takes part in.
unfoldable pub own_room_task : Option ℕ → User → LearningTask → GradingDb → Result RoomTask
unfolding find
own_room_task none user task db = Result.err submission_error
own_room_task (some public_id) user task db = do
  t ← or_raise (find (λ t. t.public_id == public_id) db.room_tasks) submission_error
  raise_if
      (not (
          any (is_member t.room_id user.id) db.participants
          && any (λ r. r.id == t.room_id && Battle.is_running r.status) db.rooms)
        || not (t.task_id == task.id))
      submission_error
  ok t
