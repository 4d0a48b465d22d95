-- ===== src/Learning/Reset.antt =====
-- The reset of a player's learning: `reset_learning_progress` in app/modules/game/commands.py.
use cat_game_backend.Base.{
  ℕ, Bool, false, not, ◌&&◌, some, List, map, any, length, ◌==◌, if◌then◌else◌,
}
use cat_game_backend.Core.Error.{Result, ok, Missing, resource_not_found}
use cat_game_backend.Core.Outcome.{◌>>=◌, or_raise}
use cat_game_backend.Store.Rows.{User, user_row, advance_state_version}
use cat_game_backend.Store.Table.{find, get, put, where_rows}
use cat_game_backend.Rewards.{Attendance, AttendanceTask}
use cat_game_backend.Learning.{UserLearningTier, UserProficiency}

pub record ResetDb : Type 0 where
  pub users : List User
  pub proficiencies : List UserProficiency
  pub tiers : List UserLearningTier
  pub attendances : List Attendance
  pub attendance_tasks : List AttendanceTask

pub record LearningReset : Type 0 where
  pub reset_at : ℕ
  pub removed_proficiencies : ℕ

-- `AttendanceTask.attendance_id.in_(attendance_ids)`
abbrev pub is_task_of : ℕ → List Attendance → AttendanceTask → Bool
is_task_of user_id attendances t =
    any (λ a. (a.user_id == user_id) && (a.id == t.attendance_id)) attendances

-- `.values(is_completed=False)`
abbrev pub reopened : ℕ → List Attendance → AttendanceTask → AttendanceTask
reopened user_id attendances t =
    if is_task_of user_id attendances t then record t { is_completed = false } else t

unfoldable pub reset_learning_progress : ℕ → ℕ → ResetDb → Result (LearningReset × ResetDb)
unfolding find get put where_rows
reset_learning_progress now user_id db = do
  locked_user ← or_raise (get user_id db.users) (resource_not_found Missing.user)
  let stamped = record locked_user { learning_reset_at = some now }
  let removed = where_rows (λ p. p.user_id == user_id) db.proficiencies
  let outcome : LearningReset = record { reset_at = now; removed_proficiencies = length removed }
  ok (
    outcome,
    record db {
      users = put (advance_state_version stamped) db.users;
      proficiencies = where_rows (λ p. not (p.user_id == user_id)) db.proficiencies;
      tiers = where_rows (λ t. not (t.user_id == user_id)) db.tiers;
      attendance_tasks = map (reopened user_id db.attendances) db.attendance_tasks;
    },
  )
