-- ===== src/Rewards.antt =====
-- Attendance and daily rewards: app/modules/game/commands.py. A day is a number, and a command
-- either raises, and its transaction is rolled back, or returns the tables that it commits.
pub mod Daily
pub mod Missions
pub mod Streak
pub mod Attending
pub mod Once
pub mod Coins
use cat_game_backend.Base.{
  ℕ, ◌+◌, ◌-◌, ◌%◌, String, Bool, true, false, ◌&&◌, Option, none, some, List, [], ◌∷◌, any, ◌==◌,
  ltb, if◌then◌else◌, ℤ, pos, ◌+ℤ◌,
}
use cat_game_backend.Core.Error.{
  Result, ok, Missing, already_claimed, integrity_error, resource_not_found,
}
use cat_game_backend.Core.Outcome.{◌>>=◌, ◌>>◌, raise_if, or_raise}
use cat_game_backend.Store.Rows.{Row, User, user_row, advance_state_version}
use cat_game_backend.Store.Table.{get, put, insert_row}

pub record Attendance : Type 0 where
  pub id : ℕ
  pub public_id : ℕ
  pub user_id : ℕ
  pub check_in_date : ℕ
  pub streak_count : ℕ
  pub daily_reward_claimed_at : Option ℕ

pub record AttendanceTask : Type 0 where
  pub id : ℕ
  pub public_id : ℕ
  pub attendance_id : ℕ
  pub task_id : ℕ
  pub task_order : ℕ
  pub is_completed : Bool

-- The keys of `DAILY_REWARDS`, and any other text.
pub data RewardKey : Type 0 where
  solve_one solve_three finish_code bonus : RewardKey
  other_key : String → RewardKey

pub record DailyRewardClaim : Type 0 where
  pub id : ℕ
  pub user_id : ℕ
  pub claim_date : ℕ
  pub reward_key : RewardKey
  pub coins_awarded : ℕ

pub data TaskType : Type 0 where
  code multiple_choice : TaskType

-- The columns of `Task`, `TaskPresentation` and `TaskAttempt` that the daily rewards read.
pub record SolvedTask : Type 0 where
  pub id : ℕ
  pub type : TaskType

pub record SolvedPresentation : Type 0 where
  pub id : ℕ
  pub presentation_type : TaskType

pub record SolvedAttempt : Type 0 where
  pub user_id : ℕ
  pub task_id : ℕ
  pub presentation_id : Option ℕ
  pub completed : Bool
  pub is_correct : Bool
  pub attempted_at : ℕ

instance abbrev pub attendance_row : Row Attendance
attendance_row = record { id_of = λ r. r.id }

instance abbrev pub attendance_task_row : Row AttendanceTask
attendance_task_row = record { id_of = λ r. r.id }

instance abbrev pub solved_task_row : Row SolvedTask
solved_task_row = record { id_of = λ r. r.id }

instance abbrev pub solved_presentation_row : Row SolvedPresentation
solved_presentation_row = record { id_of = λ r. r.id }

pub record RewardDb : Type 0 where
  pub users : List User
  pub attendances : List Attendance
  pub attendance_tasks : List AttendanceTask
  pub claims : List DailyRewardClaim
  pub tasks : List SolvedTask
  pub presentations : List SolvedPresentation
  pub attempts : List SolvedAttempt
  pub next_id : ℕ
  pub generated : ℕ → ℕ

abbrev pub is_attendance : ℕ → ℕ → Attendance → Bool
is_attendance user_id day a = a.user_id == user_id && a.check_in_date == day

abbrev pub later : Attendance → Option Attendance → Option Attendance
later a none = some a
later a (some b) = if ltb a.check_in_date b.check_in_date then some b else some a

-- `order_by(check_in_date.desc()).limit(1)`
unfoldable pub latest_attendance : ℕ → List Attendance → Option Attendance
latest_attendance user_id [] = none
latest_attendance user_id (a ∷ t) =
    let rest = latest_attendance user_id t in if a.user_id == user_id then later a rest else rest

abbrev pub is_on : ℕ → Option Attendance → Bool
is_on day none = false
is_on day (some a) = a.check_in_date == day

abbrev pub next_streak : ℕ → Option Attendance → ℕ
next_streak day none = 1
next_streak day (some a) = if a.check_in_date + 1 == day then a.streak_count + 1 else 1

-- `ATTENDANCE_BONUSES.get(cycle_day, 0)`
abbrev pub attendance_bonus : ℕ → ℕ
attendance_bonus cycle_day = if cycle_day == 3 then 150 else (if cycle_day == 7 then 500 else 0)

abbrev pub attendance_daily_coins : ℕ
attendance_daily_coins = 100

abbrev pub pay : ℕ → User → User
pay coins u = advance_state_version (record u { balance = u.balance +ℤ pos coins })

pub record AttendanceClaim : Type 0 where
  pub claimed_date : ℕ
  pub current_streak : ℕ
  pub daily_coins : ℕ
  pub streak_bonus : ℕ
  pub coins_awarded : ℕ

-- The commit raises an IntegrityError where the constraint `uq_attendances_user_date` is violated.
unfoldable pub claim_attendance : ℕ → ℕ → ℕ → RewardDb → Result (AttendanceClaim × RewardDb)
unfolding get put latest_attendance
claim_attendance user_id today now db = do
  locked_user ← or_raise (get user_id db.users) (resource_not_found Missing.user)
  let latest = latest_attendance user_id db.attendances
  raise_if (is_on today latest) already_claimed
  let streak = next_streak today latest
  let bonus = attendance_bonus ((streak - 1) % 7 + 1)
  let awarded = attendance_daily_coins + bonus
  raise_if (any (is_attendance user_id today) db.attendances) integrity_error
  let attendance : Attendance = record {
    id = db.next_id;
    public_id = db.generated db.next_id;
    user_id = user_id;
    check_in_date = today;
    streak_count = streak;
    daily_reward_claimed_at = some now;
  }
  ok (
    record {
      claimed_date = today;
      current_streak = streak;
      daily_coins = attendance_daily_coins;
      streak_bonus = bonus;
      coins_awarded = awarded;
    },
    record db {
      users = put (pay awarded locked_user) db.users;
      attendances = insert_row attendance db.attendances;
      next_id = db.next_id + 1;
    },
  )
