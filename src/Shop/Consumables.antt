-- ===== src/Shop/Consumables.antt =====
-- `use_consumable` of app/modules/shop/consumables.py.
mod Outcome
pub mod Care
use cat_game_backend.Base.{ℕ, String, Bool, Option, none, some, not, is_none, ℤ, pos}
use cat_game_backend.Core.Error.{Missing, resource_not_found, invalid_item_category}
use cat_game_backend.Core.RequestHash.{Digest, Fields, field, end, str, build_request_hash}
use cat_game_backend.Store.Rows.{
  User, GachaExecution, ResultData, advance_state_version, is_consumable,
}
use cat_game_backend.Store.Session.{Session, Tx, pure, or_raise, raise_if, ◌>>=◌, ◌>>◌, commit}
use cat_game_backend.Store.Users
use cat_game_backend.Store.Items
use cat_game_backend.Store.Cats
use cat_game_backend.Store.Assets
use cat_game_backend.Store.Executions
use cat_game_backend.Store.Executions.{replay_or}
use cat_game_backend.Catalog.{item_by_key}
use cat_game_backend.Catalog.Definitions.{ItemDefinition}

abbrev pub effect_of : Option ItemDefinition → Option String
effect_of none = none
effect_of (some definition) = definition.consumable_effect

unfoldable pub consume : User → GachaExecution → ℕ → ℕ → ℕ → Tx ResultData
unfolding ◌>>=◌ raise_if or_raise Items.get_by_public_id Cats.get_by_public_id Users.save
    Assets.get_cat_asset Assets.consume_item_quantity_for_update Executions.complete commit
consume locked_user execution request_id item_public_id cat_public_id = do
  found ← Items.get_by_public_id item_public_id
  item ← or_raise found (resource_not_found Missing.item)
  raise_if (not (is_consumable item.category)) invalid_item_category
  effect ← or_raise (effect_of (item_by_key item.catalog_key)) invalid_item_category
  found_cat ← Cats.get_by_public_id cat_public_id
  cat ← or_raise found_cat (resource_not_found Missing.owned_cat)
  cat_asset ← Assets.get_cat_asset locked_user.id cat.id
  raise_if (is_none cat_asset) (resource_not_found Missing.owned_cat)
  remaining ← Assets.consume_item_quantity_for_update locked_user.id item.id
  remaining_quantity ← or_raise remaining (resource_not_found Missing.owned_consumable)
  let result_data =
      ResultData.consumption execution.public_id request_id item.public_id cat.public_id effect
        remaining_quantity
  Executions.complete execution (pos 0) result_data
  Users.save (advance_state_version locked_user)
  commit
  pure result_data

module _ (d : Digest) where
  unfoldable pub consumption_hash : ℕ → ℕ → String
  consumption_hash item_public_id cat_public_id = build_request_hash d "ITEM_CONSUMPTION" (
      field "item_public_id" (str (d.uuid_text item_public_id))
        (field "cat_public_id" (str (d.uuid_text cat_public_id)) end))

  unfoldable pub use_consumable : ℕ → ℕ → ℕ → ℕ → Tx ResultData
  unfolding ◌>>=◌ or_raise Users.get_by_public_id Users.get_for_update Executions.claim replay_or
      consume
  use_consumable user_public_id request_id item_public_id cat_public_id = do
    found ← Users.get_by_public_id user_public_id
    user ← or_raise found (resource_not_found Missing.user)
    locked ← Users.get_for_update user.id
    locked_user ← or_raise locked (resource_not_found Missing.user)
    let request_hash = consumption_hash item_public_id cat_public_id
    claim ← Executions.claim user.id request_id request_hash "ITEM_CONSUMPTION"
    replay_or claim (consume locked_user claim.execution request_id item_public_id cat_public_id)
