-- ===== src/Examples/Rewards.antt =====
-- Attendance and daily rewards of one player.
use cat_game_backend.Base.{
  Option, ℕ, ◌+◌, ◌*◌, ◌≤◌, ◌≡◌, refl, true, false, none, some, List, [], ◌∷◌, pos, arith, All,
}
use cat_game_backend.Base.Int.{◌+ℤ◌}
use cat_game_backend.Core.Error.{ok, err, already_claimed}
use cat_game_backend.Store.Rows.{advance_state_version}
use cat_game_backend.Store.Table.{get}
use cat_game_backend.Rewards.{
  multiple_choice, SolvedAttempt, Attendance, AttendanceClaim, RewardDb, RewardKey, solve_one,
  finish_code, bonus, code, claim_attendance, pay,
}
use cat_game_backend.Rewards.Daily.{daily_completion_progress}
use cat_game_backend.Rewards.Missions.{add_attendance_tasks, get_or_create_daily, claim_reward}
use cat_game_backend.Rewards.Streak.{IsCounted, days_in_a_row}
use cat_game_backend.Rewards.Attending.{Visit, attend, play, visits, visits-IsCounted}
use cat_game_backend.Rewards.Once.{
  claim_attendance_after_daily, get_or_create_daily_after_claim, claim_reward_again,
}
use cat_game_backend.Rewards.Coins.{coins_on, claim_daily_rewards, coins_on_bounded}
use cat_game_backend.Examples.{ada}

abbrev yesterday : Attendance
yesterday = record {
  id = 1;
  public_id = 1001;
  user_id = 1;
  check_in_date = 7;
  streak_count = 1;
  daily_reward_claimed_at = some 700;
}

abbrev attempt : Option ℕ → SolvedAttempt
attempt presentation_id = record {
  user_id = 1;
  task_id = 5;
  presentation_id = presentation_id;
  completed = true;
  is_correct = true;
  attempted_at = 850;
}

abbrev rewards : RewardDb
rewards = record {
  users = ada ∷ [];
  attendances = yesterday ∷ [];
  attendance_tasks = [];
  claims = [];
  tasks = record { id = 5; type = code } ∷ [];
  presentations = [];
  attempts = attempt none ∷ [];
  next_id = 10;
  generated = λ n. 1000 + n;
}

abbrev days : List Visit
days = attend 1 8 800 ∷ play 1 (5 ∷ []) 1 9 ∷ attend 1 9 901 ∷ attend 1 11 1100 ∷ []

visits-IsCounted_example :
    All (IsCounted (visits days rewards).attendances) (visits days rewards).attendances
unfolding days_in_a_row
visits-IsCounted_example =
    visits-IsCounted days 7 rewards (ground arith)
      (record { counted = (refl, tt); until = (omega arith, tt) })

abbrev opened : Attendance
opened = record {
  id = 10;
  public_id = 1010;
  user_id = 1;
  check_in_date = 8;
  streak_count = 2;
  daily_reward_claimed_at = none;
}

abbrev with_mission : RewardDb
with_mission = record rewards {
  attendances = yesterday ∷ opened ∷ [];
  attendance_tasks =
      record {
        id = 11;
        public_id = 1011;
        attendance_id = 10;
        task_id = 5;
        task_order = 1;
        is_completed = false;
      }
      ∷ [];
  next_id = 12;
}

mission_opens : get_or_create_daily 1 (5 ∷ []) 1 8 rewards ≡ ok (opened, with_mission)
unfolding get_or_create_daily add_attendance_tasks
mission_opens = refl

claim_attendance_after_daily_example :
    (claim_attendance 1 8 820 with_mission ≡ err already_claimed)
    × (with_mission.users ≡ rewards.users)
unfolding get
claim_attendance_after_daily_example =
    claim_attendance_after_daily 1 (5 ∷ []) 1 8 820 ada rewards opened with_mission refl
      (omega arith, tt) mission_opens

abbrev present : AttendanceClaim
present = record {
  claimed_date = 8;
  current_streak = 2;
  daily_coins = 100;
  streak_bonus = 0;
  coins_awarded = 100;
}

abbrev claimed : RewardDb
claimed = record rewards {
  users = pay 100 ada ∷ [];
  attendances = yesterday ∷ record opened { daily_reward_claimed_at = some 800 } ∷ [];
  next_id = 11;
}

attendance_runs : claim_attendance 1 8 800 rewards ≡ ok (present, claimed)
unfolding claim_attendance advance_state_version
attendance_runs = refl

get_or_create_daily_after_claim_example :
    (a : Attendance) × (get_or_create_daily 1 (5 ∷ []) 1 8 claimed ≡ ok (a, claimed))
    × (a.daily_reward_claimed_at ≡ some 800)
get_or_create_daily_after_claim_example =
    get_or_create_daily_after_claim 1 (5 ∷ []) 1 8 800 rewards present claimed attendance_runs

abbrev solved : RewardDb
solved = record with_mission {
  attendance_tasks =
      record {
        id = 11;
        public_id = 1011;
        attendance_id = 10;
        task_id = 5;
        task_order = 1;
        is_completed = true;
      }
      ∷ [];
}

abbrev rewarded : Attendance
rewarded = record opened { daily_reward_claimed_at = some 880 }

abbrev paid : RewardDb
paid = record solved {
  users = record ada { balance = pos 1070 } ∷ [];
  attendances = yesterday ∷ rewarded ∷ [];
}

reward_runs : claim_reward (some (pos 70)) 1 1010 880 solved ≡ ok (rewarded, paid)
unfolding claim_reward ◌+ℤ◌
reward_runs = refl

claim_reward_again_example : claim_reward (some (pos 70)) 1 1010 890 paid ≡ ok (rewarded, paid)
claim_reward_again_example =
    claim_reward_again (some (pos 70)) 1 1010 880 890 solved rewarded paid reward_runs

-- The days have 100 units.
abbrev bounds : ℕ → ℕ × ℕ
bounds day = (day * 100, day * 100 + 100)

abbrev calls : List (ℕ × RewardKey × ℕ)
calls = (1, solve_one, 8) ∷ (1, solve_one, 8) ∷ (1, finish_code, 8) ∷ (1, bonus, 8) ∷ []

coins_on_bounded_example : coins_on 1 8 (claim_daily_rewards bounds calls rewards).claims ≤ 610
unfolding coins_on
coins_on_bounded_example = coins_on_bounded bounds calls 1 8 rewards (λ user_id day. refl)

-- A task solved as code and as multiple choice counts twice.
abbrev solved_twice : RewardDb
solved_twice = record rewards {
  presentations = record { id = 6; presentation_type = multiple_choice } ∷ [];
  attempts = attempt none ∷ attempt (some 6) ∷ [];
}

counted_twice : daily_completion_progress (bounds 8) 1 none solved_twice ≡ (2, true)
unfolding daily_completion_progress
counted_twice = refl
