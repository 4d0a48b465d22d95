-- ===== src/Gacha.antt =====
-- `draw_cats` of app/modules/gacha/service.py with the policy of app/modules/gacha/policy.py.
mod Owning
mod Outcome
mod Drawing
mod Claimed
pub mod Atomicity
pub mod Retry
pub mod Effect
use cat_game_backend.Base.{
  ℕ, String, Bool, true, false, not, ◌||◌, Option, none, some, List, [], ◌∷◌, any, length,
  if◌then◌else◌, ℤ, pos, ◌+ℤ◌, ◌-ℤ◌, ltb_ℤ, eqb_ℤ,
}
use cat_game_backend.Core.Error.{
  Missing, resource_not_found, invalid_quantity, insufficient_balance, runtime_error,
}
use cat_game_backend.Core.RequestHash.{Digest, field, end, int, build_request_hash}
use cat_game_backend.Store.Rows.{
  User, Cat, Asset, GachaExecution, CatDraw, ResultData, advance_state_version,
}
use cat_game_backend.Store.Session.{Tx, pure, or_raise, raise_if, ◌>>=◌, ◌>>◌, commit}
use cat_game_backend.Store.Users
use cat_game_backend.Store.Cats
use cat_game_backend.Store.Assets
use cat_game_backend.Store.Executions
use cat_game_backend.Store.Executions.{ExecutionClaim, replay_or}

pub record GachaReward : Type 0 where
  pub cat_public_id : ℕ
  pub duplicate_mileage : ℤ

-- The protocol that the command draws with. `draw` is what one call draws.
pub record GachaPolicy : Type 0 where
  pub calculate_balance_cost : ℤ → ℤ
  pub draw : ℤ → List GachaReward

-- `{1, _MULTI_DRAW_COUNT}`
abbrev pub is_draw_count : ℤ → Bool
is_draw_count n = eqb_ℤ n (pos 1) || eqb_ℤ n (pos 11)

abbrev pub bonus_draws : ℤ → ℤ
bonus_draws n = if eqb_ℤ n (pos 11) then pos 1 else pos 0

abbrev pub paid_draws : ℤ → ℤ
paid_draws n = if eqb_ℤ n (pos 11) then pos 10 else n

abbrev pub is_negative : GachaReward → Bool
is_negative reward = ltb_ℤ reward.duplicate_mileage (pos 0)

-- The loop that looks up the cats.
unfoldable pub select_cats : List GachaReward → Tx (List (Cat × ℤ))
unfolding ◌>>=◌ Cats.get_by_public_id
select_cats [] = pure []
select_cats (reward ∷ rewards) = do
  found ← Cats.get_by_public_id reward.cat_public_id
  cat ← or_raise found (resource_not_found Missing.cat)
  rest ← select_cats rewards
  pure ((cat, reward.duplicate_mileage) ∷ rest)

abbrev pub drawn : Cat → Bool → ℤ → CatDraw
drawn cat is_duplicate mileage_awarded = record {
  cat_public_id = cat.public_id;
  name = cat.name;
  rarity = cat.rarity;
  is_duplicate = is_duplicate;
  mileage_awarded = mileage_awarded;
}

-- One round of the second loop: a new cat is granted, one that the player has gives mileage. The
-- player's attributes wait in the object until the flush.
unfoldable pub award : User → Cat → ℤ → Option Asset → Tx (User × CatDraw)
unfolding ◌>>=◌ Assets.grant_cat
award user cat duplicate_mileage none = do
  granted ← Assets.grant_cat user.id cat.id
  pure (user, drawn cat false (pos 0))
award user cat duplicate_mileage (some asset) =
    pure (
      record user { mileage = user.mileage +ℤ duplicate_mileage },
      drawn cat true duplicate_mileage,
    )

unfoldable pub award_all : User → List (Cat × ℤ) → Tx (User × List CatDraw)
unfolding ◌>>=◌ Assets.get_cat_asset award
award_all user [] = pure (user, [])
award_all user ((cat, duplicate_mileage) ∷ selected) = do
  existing_asset ← Assets.get_cat_asset user.id cat.id
  (user', result) ← award user cat duplicate_mileage existing_asset
  (user'', results) ← award_all user' selected
  pure (user'', result ∷ results)

-- The end of the transaction: the result is stored, and everything is written.
unfoldable pub finish : User → List CatDraw → GachaExecution → ℕ → ℤ → ℤ → Tx ResultData
unfolding ◌>>=◌ Users.save Executions.complete commit
finish winner results execution request_id draw_count balance_cost = do
  let result_data =
      ResultData.cat_gacha execution.public_id request_id draw_count (bonus_draws draw_count)
        balance_cost winner.balance winner.mileage results
  Executions.complete (record execution { draw_count = some draw_count }) balance_cost result_data
  Users.save (advance_state_version winner)
  commit
  pure result_data

-- The part of the transaction that a newly acquired claim runs.
unfoldable pub draw_fresh : GachaPolicy → User → GachaExecution → ℕ → ℤ → Tx ResultData
unfolding ◌>>=◌ raise_if or_raise Users.get_for_update
draw_fresh policy user execution request_id draw_count = do
  let balance_cost = policy.calculate_balance_cost (paid_draws draw_count)
  raise_if (ltb_ℤ balance_cost (pos 0)) runtime_error
  locked ← Users.get_for_update user.id
  locked_user ← or_raise locked (resource_not_found Missing.user)
  raise_if (ltb_ℤ locked_user.balance balance_cost) insufficient_balance
  let rewards = policy.draw draw_count
  raise_if (any is_negative rewards) runtime_error
  raise_if (not (eqb_ℤ (pos (length rewards)) draw_count)) runtime_error
  selected ← select_cats rewards
  (winner, results) ←
      award_all (record locked_user { balance = locked_user.balance -ℤ balance_cost }) selected
  finish winner results execution request_id draw_count balance_cost

module _ (d : Digest) where
  unfoldable pub draw_hash : ℤ → String
  draw_hash draw_count = build_request_hash d "CAT_GACHA" (field "draw_count" (int draw_count) end)

  unfoldable pub draw_cats : GachaPolicy → ℕ → ℕ → ℤ → Tx ResultData
  unfolding ◌>>=◌ raise_if or_raise Users.get_by_public_id Users.get_for_update Executions.claim
      replay_or draw_fresh
  draw_cats policy user_public_id request_id draw_count = do
    raise_if (not (is_draw_count draw_count)) invalid_quantity
    found ← Users.get_by_public_id user_public_id
    user ← or_raise found (resource_not_found Missing.user)
    locked ← Users.get_for_update user.id
    locked_user ← or_raise locked (resource_not_found Missing.user)
    claim ← Executions.claim user.id request_id (draw_hash draw_count) "CAT_GACHA"
    replay_or claim (draw_fresh policy user claim.execution request_id draw_count)
