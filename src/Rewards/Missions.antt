-- ===== src/Rewards/Missions.antt =====
-- app/modules/daily_mission/service.py. The tasks that `recommended_tasks` chooses are an argument.
use cat_game_backend.Base.{
  ℕ, ◌+◌, false, not, ◌&&◌, Option, none, some, List, [], ◌∷◌, any, length, ◌==◌, ltb,
  if◌then◌else◌, ℤ, ◌+ℤ◌, is_none, ◌||◌,
}
use cat_game_backend.Core.Error.{Result, ok, daily_mission_error, runtime_error}
use cat_game_backend.Core.Outcome.{◌>>=◌, ◌>>◌, raise_if, or_raise}
use cat_game_backend.Store.Rows.{user_row}
use cat_game_backend.Store.Table.{get, find, put, insert_row, where_rows}
use cat_game_backend.Rewards.{Attendance, RewardDb, attendance_row, is_attendance}

abbrev pub streak_after : Option Attendance → ℕ
streak_after none = 1
streak_after (some previous) = previous.streak_count + 1

unfoldable pub add_attendance_tasks : ℕ → ℕ → List ℕ → RewardDb → RewardDb
add_attendance_tasks attendance_id order [] db = db
add_attendance_tasks attendance_id order (task_id ∷ task_ids) db =
    add_attendance_tasks attendance_id (order + 1) task_ids (record db {
      attendance_tasks =
          insert_row
            (record {
              id = db.next_id;
              public_id = db.generated db.next_id;
              attendance_id = attendance_id;
              task_id = task_id;
              task_order = order;
              is_completed = false;
            })
            db.attendance_tasks;
      next_id = db.next_id + 1;
    })

-- `settings.daily_task_count` comes first; yesterday is the day with `today` after it. The row of
-- the learning tier, which choosing the recommended tasks may write, is left out.
unfoldable pub get_or_create_daily : ℕ → List ℕ → ℕ → ℕ → RewardDb → Result (Attendance × RewardDb)
unfolding find
get_or_create_daily task_count recommended user_id today db =
    elim (find (is_attendance user_id today) db.attendances) [
      | some attendance ↦ ok (attendance, db)
      | none ↦
          let previous =
            find (λ a. a.user_id == user_id && a.check_in_date + 1 == today) db.attendances in
          let attendance : Attendance = record {
            id = db.next_id;
            public_id = db.generated db.next_id;
            user_id = user_id;
            check_in_date = today;
            streak_count = streak_after previous;
            daily_reward_claimed_at = none;
          } in
          let added = record db {
            attendances = insert_row attendance db.attendances;
            next_id = db.next_id + 1;
          } in
          raise_if (ltb (length recommended) task_count) daily_mission_error
          >> ok (attendance, add_attendance_tasks attendance.id 1 recommended added)
    ]

-- The player is the one of the session, so that the row is there.
unfoldable pub claim_reward : Option ℤ → ℕ → ℕ → ℕ → RewardDb → Result (Attendance × RewardDb)
unfolding find where_rows get put
claim_reward daily_reward_balance user_id attendance_public_id now db = do
  reward ← or_raise daily_reward_balance daily_mission_error
  attendance ←
      or_raise
        (find (λ a. a.public_id == attendance_public_id && a.user_id == user_id) db.attendances)
        daily_mission_error
  let tasks = where_rows (λ t. t.attendance_id == attendance.id) db.attendance_tasks
  if not (is_none attendance.daily_reward_claimed_at) then ok (attendance, db) else (do
    raise_if (length tasks == 0 || any (λ t. not t.is_completed) tasks) daily_mission_error
    locked_user ← or_raise (get user_id db.users) runtime_error
    let claimed = record attendance { daily_reward_claimed_at = some now }
    ok (
      claimed,
      record db {
        users = put (record locked_user { balance = locked_user.balance +ℤ reward }) db.users;
        attendances = put claimed db.attendances;
      },
    ))
