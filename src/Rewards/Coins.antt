-- ===== src/Rewards/Coins.antt =====
-- The coins of the daily rewards that a player can claim on one day.
use cat_game_backend.Base.{
  ℕ, ◌+◌, ◌≤◌, ◌≡◌, true, false, not, ◌&&◌, some, List, [], ◌∷◌, arith, ◌==◌, if◌then◌else◌,
}
use cat_game_backend.Core.Error.{Missing, already_claimed, resource_not_found, reward_not_ready}
use cat_game_backend.Core.Outcome.{or_unchanged, or_unchanged-outcome, or_raise-ok, raise_if-ok}
use cat_game_backend.Store.Rows.{user_row}
use cat_game_backend.Store.Table.{get, insert_row}
use cat_game_backend.Rewards.{
  RewardKey, solve_one, solve_three, finish_code, bonus, DailyRewardClaim, RewardDb,
}
use cat_game_backend.Rewards.Daily.{
  daily_reward, is_claim_of, has_claimed, is_ready_for, daily_completion_progress,
  claim_daily_reward,
}

-- The coins of a player's claims of a day.
unfoldable pub coins_on : ℕ → ℕ → List DailyRewardClaim → ℕ
coins_on user_id day [] = 0
coins_on user_id day (c ∷ claims) =
    (if c.user_id == user_id && c.claim_date == day then c.coins_awarded else 0)
    + coins_on user_id day claims

abbrev coins_of : ℕ → ℕ → RewardKey → ℕ → List DailyRewardClaim → ℕ
coins_of user_id day key coins claims = if has_claimed user_id day key claims then coins else 0

-- The coins are those of the rewards that were claimed, each once.
abbrev pub Accounted : List DailyRewardClaim → Type 0
Accounted claims =
    (user_id day : ℕ)
    → coins_on user_id day claims
      ≡ coins_of user_id day solve_one 50 claims
        + coins_of user_id day solve_three 100 claims
        + coins_of user_id day finish_code 150 claims
        + coins_of user_id day bonus 310 claims

coins_on-insert_row :
    (user_id day : ℕ) (c : DailyRewardClaim) (claims : List DailyRewardClaim)
    → coins_on user_id day (insert_row c claims)
      ≡ coins_on user_id day claims
        + (if c.user_id == user_id && c.claim_date == day then c.coins_awarded else 0)
unfolding coins_on
coins_on-insert_row user_id day c [] = ground arith
coins_on-insert_row user_id day c (x ∷ claims) =
    omega (arith, coins_on-insert_row user_id day c claims)

has_claimed-insert_row :
    (user_id day : ℕ) (key : RewardKey) (c : DailyRewardClaim) (claims : List DailyRewardClaim)
    → has_claimed user_id day key (insert_row c claims)
      ≡ (if is_claim_of user_id day key c then true else has_claimed user_id day key claims)
has_claimed-insert_row user_id day key c [] = ground arith
has_claimed-insert_row user_id day key c (x ∷ claims) =
    ground (arith, has_claimed-insert_row user_id day key c claims)

Accounted-insert_row :
    (c : DailyRewardClaim) (claims : List DailyRewardClaim)
    → daily_reward c.reward_key ≡ some c.coins_awarded
    → has_claimed c.user_id c.claim_date c.reward_key claims ≡ false
    → Accounted claims
    → Accounted (insert_row c claims)
Accounted-insert_row c claims priced fresh h = λ user_id day.
    let old = h user_id day in
    let step = coins_on-insert_row user_id day c claims in
    rw
      (
        has_claimed-insert_row user_id day solve_one c claims,
        has_claimed-insert_row user_id day solve_three c claims,
        has_claimed-insert_row user_id day finish_code c claims,
        has_claimed-insert_row user_id day bonus c claims,
        step,
        old,
      )
      (ground arith)

module _ (game_day_bounds : ℕ → ℕ × ℕ) where
  claim_daily_reward-Accounted :
      (user_id today : ℕ) (key : RewardKey) (db : RewardDb)
      → Accounted db.claims
      → Accounted (or_unchanged (claim_daily_reward game_day_bounds user_id key today db) db).claims
  unfolding claim_daily_reward
  claim_daily_reward-Accounted user_id today key db h =
      or_unchanged-outcome (λ db'. Accounted db'.claims)
        (claim_daily_reward game_day_bounds user_id key today db) db h
        (λ answer db' ran.
          let (coins, priced, h1) =
            or_raise-ok (daily_reward key) (resource_not_found Missing.daily_reward) _ _ ran in
          let (u, found, h2) =
            or_raise-ok (get user_id db.users) (resource_not_found Missing.user) _ _ h1 in
          let (fresh, h3) =
            raise_if-ok (has_claimed user_id today key db.claims) already_claimed _ _ h2 in
          let (ready, last) =
            raise_if-ok
              (not (
                is_ready_for key
                  (daily_completion_progress (game_day_bounds today) user_id u.learning_reset_at db)
                  user_id today db.claims))
              reward_not_ready _ _ h3 in
          let claim : DailyRewardClaim = record {
            id = db.next_id;
            user_id = user_id;
            claim_date = today;
            reward_key = key;
            coins_awarded = coins;
          } in
          let written : db'.claims ≡ insert_row claim db.claims = ground arith in
          rw written (Accounted-insert_row claim db.claims priced fresh h))

  -- The calls of one player or several, each with its day.
  unfoldable pub claim_daily_rewards : List (ℕ × RewardKey × ℕ) → RewardDb → RewardDb
  claim_daily_rewards [] db = db
  claim_daily_rewards ((user_id, key, today) ∷ calls) db =
      claim_daily_rewards calls
        (or_unchanged (claim_daily_reward game_day_bounds user_id key today db) db)

  claim_daily_rewards-Accounted :
      (calls : List (ℕ × RewardKey × ℕ)) (db : RewardDb)
      → Accounted db.claims
      → Accounted (claim_daily_rewards calls db).claims
  unfolding claim_daily_rewards
  claim_daily_rewards-Accounted [] db h = h
  claim_daily_rewards-Accounted ((user_id, key, today) ∷ calls) db h =
      claim_daily_rewards-Accounted calls
        (or_unchanged (claim_daily_reward game_day_bounds user_id key today db) db)
        (claim_daily_reward-Accounted user_id today key db h)

  -- If the coins of the claims on the table are accounted (of every player and day, the sum of
  -- the rewards claimed, each once), then after any sequence of calls of claim_daily_reward a
  -- player has at most 610 coins from the claims of one day.
  pub coins_on_bounded :
      (calls : List (ℕ × RewardKey × ℕ)) (user_id day : ℕ) (db : RewardDb)
      → Accounted db.claims
      → coins_on user_id day (claim_daily_rewards calls db).claims ≤ 610
  coins_on_bounded calls user_id day db h =
      let total = claim_daily_rewards-Accounted calls db h user_id day in ground arith
