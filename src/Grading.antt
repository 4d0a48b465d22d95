-- ===== src/Grading.antt =====
-- Grading of the players' attempts: app/modules/grading. The tables, and what the learning and the
-- battles see of them.
pub mod Leases
pub mod Persisting
pub mod Running
pub mod Checks
pub mod Creation
pub mod Testing
pub mod Steps
use cat_game_backend.Base.{
  ℕ, ◌+◌, String, Bool, true, false, Option, none, some, List, [], ◌∷◌, map,
}
use cat_game_backend.Store.Rows.{Row, User}
use cat_game_backend.Rewards.{Attendance, AttendanceTask}
use cat_game_backend.Battle.{Room, RoomParticipant, RoomTask, BattleTask, BattleAttempt, BattleDb}
use cat_game_backend.Learning.{
  ContextType, Concept, LearningTask, LearningAttempt, UserLearningTier, UserProficiency,
  TaskPresentation, LearningDb,
}

pub data AttemptStatus : Type 0 where
  pending running completed failed : AttemptStatus

abbrev pub is_running : AttemptStatus → Bool
is_running running = true
is_running _ = false

abbrev pub is_completed : AttemptStatus → Bool
is_completed completed = true
is_completed _ = false

abbrev pub is_finished : AttemptStatus → Bool
is_finished completed = true
is_finished failed = true
is_finished _ = false

pub data Verdict : Type 0 where
  accepted wrong_answer syntax_error runtime_error timeout output_limit memory_limit system_error :
      Verdict

-- `detail` and `sample_actual` never reach an attempt.
pub record GradeResult : Type 0 where
  pub verdict : Verdict
  pub passed : ℕ
  pub total : ℕ

abbrev pub is_system_failure : GradeResult → Bool
is_system_failure r = elim r.verdict [ Verdict.system_error ↦ true | _ ↦ false ]

abbrev pub is_correct : GradeResult → Bool
is_correct r = elim r.verdict [ Verdict.accepted ↦ true | _ ↦ false ]

-- `result_detail` is the dictionary of `_public_result`, whose JSON text is stored.
pub record TaskAttempt : Type 0 where
  pub id : ℕ
  pub public_id : ℕ
  pub request_id : ℕ
  pub request_hash : String
  pub user_id : ℕ
  pub task_id : ℕ
  pub presentation_id : Option ℕ
  pub attendance_task_id : Option ℕ
  pub room_task_id : Option ℕ
  pub context_type : ContextType
  pub submitted_code : String
  pub used_hint : Bool
  pub status : AttemptStatus
  pub is_correct : Option Bool
  pub attempted_at : ℕ
  pub result_detail : Option GradeResult
  pub coins_awarded : ℕ
  pub grading_started_at : Option ℕ
  pub grading_lease_token : Option ℕ

pub record TaskCompletion : Type 0 where
  pub id : ℕ
  pub user_id : ℕ
  pub task_id : ℕ
  pub first_attempt_id : ℕ
  pub coins_awarded : ℕ
  pub completion_date : ℕ

pub record AttemptLease : Type 0 where
  pub public_id : ℕ
  pub token : ℕ

instance abbrev pub task_attempt_row : Row TaskAttempt
task_attempt_row = record { id_of = λ r. r.id }

pub record GradingDb : Type 0 where
  pub users : List User
  pub attempts : List TaskAttempt
  pub completions : List TaskCompletion
  pub attendances : List Attendance
  pub attendance_tasks : List AttendanceTask
  pub rooms : List Room
  pub participants : List RoomParticipant
  pub room_tasks : List RoomTask
  pub concepts : List Concept
  pub tasks : List LearningTask
  pub tiers : List UserLearningTier
  pub presentations : List TaskPresentation
  pub proficiencies : List UserProficiency
  pub next_id : ℕ
  pub generated : ℕ → ℕ

-- `TaskAttempt.is_correct.is_(True)`
abbrev pub is_true : Option Bool → Bool
is_true (some true) = true
is_true _ = false

abbrev pub learning_attempt : TaskAttempt → LearningAttempt
learning_attempt a = record {
  id = a.id;
  user_id = a.user_id;
  task_id = a.task_id;
  completed = is_completed a.status;
  is_correct = is_true a.is_correct;
  attempted_at = a.attempted_at;
}

abbrev pub learning_view : GradingDb → LearningDb
learning_view db = record {
  concepts = db.concepts;
  tasks = db.tasks;
  attempts = map learning_attempt db.attempts;
  tiers = db.tiers;
  presentations = db.presentations;
  proficiencies = db.proficiencies;
  next_id = db.next_id;
  generated = db.generated;
}

-- The tables that the learning has written.
abbrev pub with_learning : LearningDb → GradingDb → GradingDb
with_learning learned db = record db {
  tiers = learned.tiers;
  proficiencies = learned.proficiencies;
  next_id = learned.next_id;
}

abbrev pub battle_attempt : ℕ → TaskAttempt → BattleAttempt
battle_attempt room_task_id a = record {
  id = a.id;
  user_id = a.user_id;
  room_task_id = room_task_id;
  completed = is_completed a.status;
  is_correct = is_true a.is_correct;
}

abbrev pub battle_task : LearningTask → BattleTask
battle_task t = record { id = t.id; public_id = t.public_id; is_active = t.is_active }

-- The attempts that belong to a room.
unfoldable pub battle_attempts : List TaskAttempt → List BattleAttempt
battle_attempts [] = []
battle_attempts (a ∷ attempts) =
    let rest = battle_attempts attempts in
    elim a.room_task_id [ none ↦ rest | some i ↦ battle_attempt i a ∷ rest ]

abbrev pub battle_view : GradingDb → BattleDb
battle_view db = record {
  rooms = db.rooms;
  participants = db.participants;
  room_tasks = db.room_tasks;
  tasks = map battle_task db.tasks;
  attempts = battle_attempts db.attempts;
  next_id = db.next_id;
  generated = db.generated;
}
