-- ===== src/Rewards/Daily.antt =====
-- `claim_daily_reward` of app/modules/game/commands.py. The bounds of a day, which the time zone
-- decides, are a parameter.
use cat_game_backend.Base.{
  ℕ, ◌+◌, Bool, true, false, not, ◌&&◌, Option, none, some, List, [], ◌∷◌, any, length, ◌==◌, leb,
  ltb, if◌then◌else◌,
}
use cat_game_backend.Core.Error.{
  Result, ok, Missing, already_claimed, resource_not_found, reward_not_ready,
}
use cat_game_backend.Core.Outcome.{◌>>=◌, ◌>>◌, raise_if, or_raise}
use cat_game_backend.Store.Rows.{user_row}
use cat_game_backend.Store.Table.{get, put, insert_row, where_rows}
use cat_game_backend.Rewards.{
  RewardKey, solve_one, solve_three, finish_code, bonus, other_key, DailyRewardClaim, TaskType,
  code, multiple_choice, SolvedTask, SolvedPresentation, SolvedAttempt, solved_task_row,
  solved_presentation_row, RewardDb, pay,
}

-- `DAILY_REWARDS.get(reward_key)`
abbrev pub daily_reward : RewardKey → Option ℕ
daily_reward solve_one = some 50
daily_reward solve_three = some 100
daily_reward finish_code = some 150
daily_reward bonus = some 310
daily_reward (other_key k) = none

-- Equality of two keys of `DAILY_REWARDS`; the rows hold no other key.
abbrev pub same_key : RewardKey → RewardKey → Bool
same_key solve_one solve_one = true
same_key solve_three solve_three = true
same_key finish_code finish_code = true
same_key bonus bonus = true
same_key _ _ = false

abbrev pub is_code : TaskType → Bool
is_code code = true
is_code multiple_choice = false

abbrev pub same_type : TaskType → TaskType → Bool
same_type code t = is_code t
same_type multiple_choice t = not (is_code t)

-- The type of the presentation, or that of the task.
abbrev pub effective_type : SolvedTask → Option SolvedPresentation → TaskType
effective_type t none = t.type
effective_type t (some p) = p.presentation_type

abbrev pub presentation_of : Option ℕ → List SolvedPresentation → Option SolvedPresentation
presentation_of none presentations = none
presentation_of (some i) presentations = get i presentations

abbrev pub is_counted : ℕ → ℕ → ℕ → SolvedAttempt → Bool
is_counted user_id day_start day_end a =
    a.user_id == user_id
    && a.completed
    && a.is_correct
    && leb day_start a.attempted_at
    && ltb a.attempted_at day_end

-- The rows of the join, before `distinct`.
unfoldable pub joined :
    List SolvedTask → List SolvedPresentation → List SolvedAttempt → List (ℕ × TaskType)
unfolding get
joined tasks presentations [] = []
joined tasks presentations (a ∷ attempts) =
    let rest = joined tasks presentations attempts in
    elim (get a.task_id tasks) [
      | none ↦ rest
      | some t ↦
          (a.task_id, effective_type t (presentation_of a.presentation_id presentations)) ∷ rest
    ]

unfoldable pub distinct_rows : List (ℕ × TaskType) → List (ℕ × TaskType)
distinct_rows [] = []
distinct_rows (r ∷ rows) =
    let rest = distinct_rows rows in
    if any (λ q. q.0 == r.0 && same_type q.1 r.1) rows then rest else r ∷ rest

-- The start of the day, or the reset of the learning progress after it.
abbrev pub start_after : Option ℕ → ℕ → ℕ
start_after none day_start = day_start
start_after (some reset_at) day_start = if ltb day_start reset_at then reset_at else day_start

unfoldable pub daily_completion_progress : ℕ × ℕ → ℕ → Option ℕ → RewardDb → ℕ × Bool
unfolding where_rows joined distinct_rows
daily_completion_progress bounds user_id learning_reset_at db =
    let day_start = start_after learning_reset_at bounds.0 in
    let counted = where_rows (is_counted user_id day_start bounds.1) db.attempts in
    let rows = distinct_rows (joined db.tasks db.presentations counted) in
    (length rows, any (λ r. is_code r.1) rows)

abbrev pub is_claim_of : ℕ → ℕ → RewardKey → DailyRewardClaim → Bool
is_claim_of user_id day key c =
    c.user_id == user_id && c.claim_date == day && same_key c.reward_key key

abbrev pub has_claimed : ℕ → ℕ → RewardKey → List DailyRewardClaim → Bool
has_claimed user_id day key claims = any (is_claim_of user_id day key) claims

-- Whether the conditions of the reward are met.
abbrev pub is_ready_for : RewardKey → ℕ × Bool → ℕ → ℕ → List DailyRewardClaim → Bool
is_ready_for solve_one progress user_id day claims = leb 1 progress.0
is_ready_for solve_three progress user_id day claims = leb 3 progress.0
is_ready_for finish_code progress user_id day claims = progress.1
is_ready_for bonus progress user_id day claims =
    has_claimed user_id day solve_one claims
    && has_claimed user_id day solve_three claims
    && has_claimed user_id day finish_code claims
is_ready_for (other_key k) progress user_id day claims = false

module _ (game_day_bounds : ℕ → ℕ × ℕ) where
  unfoldable pub claim_daily_reward :
      ℕ → RewardKey → ℕ → RewardDb → Result ((RewardKey × ℕ) × RewardDb)
  unfolding get put
  claim_daily_reward user_id reward_key today db = do
    awarded ← or_raise (daily_reward reward_key) (resource_not_found Missing.daily_reward)
    locked_user ← or_raise (get user_id db.users) (resource_not_found Missing.user)
    raise_if (has_claimed user_id today reward_key db.claims) already_claimed
    let progress =
        daily_completion_progress (game_day_bounds today) user_id locked_user.learning_reset_at db
    raise_if (not (is_ready_for reward_key progress user_id today db.claims)) reward_not_ready
    let claim : DailyRewardClaim = record {
      id = db.next_id;
      user_id = user_id;
      claim_date = today;
      reward_key = reward_key;
      coins_awarded = awarded;
    }
    ok (
      (reward_key, awarded),
      record db {
        users = put (pay awarded locked_user) db.users;
        claims = insert_row claim db.claims;
        next_id = db.next_id + 1;
      },
    )
