-- ===== src/GameGacha.antt =====
-- `draw_game_gacha` of app/modules/game/gacha.py. What `_draw_reward` makes of the random numbers,
-- one reward for each draw, is an argument of the call.
pub mod Atomicity
use cat_game_backend.Base.{
  ℕ, ◌+◌, String, Bool, true, false, not, ◌&&◌, ◌||◌, Option, none, some, List, [], ◌∷◌, map,
  if◌then◌else◌, ℤ, pos, ◌+ℤ◌, ◌-ℤ◌, ltb_ℤ, eqb_ℤ, is_none,
}
use cat_game_backend.Core.Error.{
  Missing, resource_not_found, invalid_quantity, insufficient_balance,
}
use cat_game_backend.Core.RequestHash.{Digest, field, end, int, build_request_hash}
use cat_game_backend.Store.Rows.{
  User, Cat, Item, Asset, GachaExecution, GameReward, ResultData, is_furniture,
  advance_state_version,
}
use cat_game_backend.Store.Session.{Tx, pure, or_raise, raise_if, ◌>>=◌, ◌>>◌, commit}
use cat_game_backend.Store.Table.{where_rows}
use cat_game_backend.Store.Users
use cat_game_backend.Store.Cats
use cat_game_backend.Store.Items
use cat_game_backend.Store.Items.{CatalogItemSeed}
use cat_game_backend.Store.Assets
use cat_game_backend.Store.Executions
use cat_game_backend.Store.Executions.{ExecutionClaim, replay_or}
use cat_game_backend.Catalog.Definitions.{ItemDefinition, item_definitions}

-- A reward without its weight.
pub record RewardDefinition : Type 0 where
  pub catalog_key : String
  pub is_cat : Bool

-- `_COSTS.get(draw_count)`
abbrev pub gacha_cost : ℤ → Option ℤ
gacha_cost n =
    if eqb_ℤ n (pos 1) then some (pos 30) else (if eqb_ℤ n (pos 11) then some (pos 300) else none)

abbrev pub duplicate_cat_coins : ℤ
duplicate_cat_coins = pos 15

abbrev pub cat_reward : String → Bool → ℤ → GameReward
cat_reward key duplicate coins = record {
  catalog_key = key;
  is_cat = true;
  duplicate = duplicate;
  exchange_coins = coins;
}

abbrev pub furniture_reward : String → GameReward
furniture_reward key = record {
  catalog_key = key;
  is_cat = false;
  duplicate = false;
  exchange_coins = pos 0;
}

-- A cat that the player has gives coins, another is granted.
unfoldable pub give_cat : User → Cat → String → Option Asset → Tx (User × GameReward)
unfolding ◌>>=◌ Assets.grant_cat
give_cat user cat key none = do
  granted ← Assets.grant_cat user.id cat.id
  pure (user, cat_reward key false (pos 0))
give_cat user cat key (some asset) = pure (
  record user { balance = user.balance +ℤ duplicate_cat_coins },
  cat_reward key true duplicate_cat_coins,
)

-- One round of the loop.
unfoldable pub give_reward : User → String → Bool → Tx (User × GameReward)
unfolding ◌>>=◌ or_raise Cats.get_by_catalog_key Assets.get_cat_asset give_cat
    Items.get_by_catalog_key Assets.add_item_quantity
give_reward user key true = do
  found ← Cats.get_by_catalog_key key
  cat ← or_raise found (resource_not_found Missing.gacha_cat)
  existing ← Assets.get_cat_asset user.id cat.id
  give_cat user cat key existing
give_reward user key false = do
  found ← Items.get_by_catalog_key key
  item ← or_raise found (resource_not_found Missing.gacha_item)
  added ← Assets.add_item_quantity user.id item.id (pos 1)
  pure (user, furniture_reward key)

unfoldable pub give_rewards : User → List RewardDefinition → Tx (User × List GameReward)
unfolding ◌>>=◌ give_reward
give_rewards user [] = pure (user, [])
give_rewards user (definition ∷ definitions) = do
  (user', reward) ← give_reward user definition.catalog_key definition.is_cat
  (user'', rewards) ← give_rewards user' definitions
  pure (user'', reward ∷ rewards)

unfoldable pub finish_gacha : User → List GameReward → GachaExecution → ℕ → ℤ → ℤ → Tx ResultData
unfolding ◌>>=◌ Users.save Executions.complete commit
finish_gacha winner rewards execution request_id draw_count cost = do
  let result = ResultData.game_gacha request_id rewards winner.balance
  Executions.complete (record execution { draw_count = some draw_count }) cost result
  Users.save (advance_state_version winner)
  commit
  pure result

-- The part of the transaction that a newly acquired claim runs.
unfoldable pub draw_new : List RewardDefinition → User → GachaExecution → ℕ → ℤ → ℤ → Tx ResultData
unfolding ◌>>=◌ raise_if or_raise Users.get_for_update give_rewards finish_gacha
draw_new definitions user execution request_id draw_count cost = do
  locked ← Users.get_for_update user.id
  locked_user ← or_raise locked (resource_not_found Missing.user)
  raise_if (ltb_ℤ locked_user.balance cost) insufficient_balance
  (winner, rewards) ←
      give_rewards (record locked_user { balance = locked_user.balance -ℤ cost }) definitions
  finish_gacha winner rewards execution request_id draw_count cost

-- `_GACHA_CATALOG_ITEMS`, with the UUID of a key as a parameter.
unfoldable pub gacha_catalog_items : (String → ℕ) → List CatalogItemSeed
unfolding item_definitions where_rows
gacha_catalog_items catalog_public_id =
    map
      (λ (i : ItemDefinition). record {
        public_id = catalog_public_id i.catalog_key;
        catalog_key = i.catalog_key;
        category = i.category;
        name = i.name;
        price = pos i.price;
      })
      (where_rows (λ i. is_furniture i.category) item_definitions)

module _ (d : Digest) (catalog_public_id : String → ℕ) where
  unfoldable pub gacha_hash : ℤ → String
  gacha_hash draw_count =
      build_request_hash d "GAME_GACHA" (field "draw_count" (int draw_count) end)

  unfoldable pub draw_game_gacha : (ℤ → List RewardDefinition) → ℕ → ℕ → ℤ → Tx ResultData
  unfolding ◌>>=◌ raise_if or_raise Items.ensure_catalog_items Users.get_by_public_id
      Executions.claim replay_or draw_new gacha_catalog_items
  draw_game_gacha draws user_public_id request_id draw_count = do
    cost ← or_raise (gacha_cost draw_count) invalid_quantity
    Items.ensure_catalog_items (gacha_catalog_items catalog_public_id)
    found ← Users.get_by_public_id user_public_id
    user ← or_raise found (resource_not_found Missing.user)
    claim ← Executions.claim user.id request_id (gacha_hash draw_count) "GAME_GACHA"
    replay_or claim (draw_new (draws draw_count) user claim.execution request_id draw_count cost)
