-- ===== src/Shop/Purchase.antt =====
-- `purchase_item` of app/modules/shop/service.py.
use cat_game_backend.Base.{
  ℕ, String, Bool, false, Option, none, some, if◌then◌else◌, ℤ, pos, ◌-ℤ◌, ◌*ℤ◌, leb_ℤ, ltb_ℤ,
}
mod Outcome
pub mod Safety
pub mod Retry
pub mod Effect
use cat_game_backend.Core.Error.{
  Missing, resource_not_found, invalid_quantity, item_already_owned, insufficient_balance,
}
use cat_game_backend.Core.RequestHash.{Digest, Fields, field, end, int, str, build_request_hash}
use cat_game_backend.Store.Rows.{
  User, Item, Asset, GachaExecution, ResultData, advance_state_version, is_wallpaper,
}
use cat_game_backend.Store.Session.{Tx, pure, or_raise, raise_if, ◌>>=◌, ◌>>◌, commit}
use cat_game_backend.Store.Users
use cat_game_backend.Store.Items
use cat_game_backend.Store.Assets
use cat_game_backend.Store.Executions
use cat_game_backend.Store.Executions.{ExecutionClaim, replay_or}

-- `owned_asset is not None and owned_asset.quantity > 0`
abbrev pub is_owned : Option Asset → Bool
is_owned none = false
is_owned (some a) = ltb_ℤ (pos 0) a.quantity

-- A wallpaper is bought once.
unfoldable pub ensure_not_owned : User → Item → Tx (Unit {0})
unfolding ◌>>=◌ raise_if Assets.get_item_asset_for_update
ensure_not_owned user item =
    if is_wallpaper item.category
    then (do
      owned ← Assets.get_item_asset_for_update user.id item.id
      raise_if (is_owned owned) item_already_owned)
    else pure tt

-- The part of the transaction that a newly acquired claim runs.
unfoldable pub buy : User → GachaExecution → ℕ → ℕ → ℤ → Tx ResultData
unfolding ◌>>=◌ raise_if ensure_not_owned Items.get_by_public_id Users.save Assets.add_item_quantity
    Executions.complete commit advance_state_version
buy locked_user execution request_id item_public_id quantity = do
  found ← Items.get_by_public_id item_public_id
  item ← or_raise found (resource_not_found Missing.item)
  ensure_not_owned locked_user item
  let balance_cost = item.price *ℤ quantity
  raise_if (ltb_ℤ locked_user.balance balance_cost) insufficient_balance
  let user = record locked_user { balance = locked_user.balance -ℤ balance_cost }
  Users.save user
  asset ← Assets.add_item_quantity user.id item.id quantity
  let result_data =
      ResultData.purchase execution.public_id request_id item.public_id quantity asset.quantity
        user.balance
  Executions.complete execution balance_cost result_data
  Users.save (advance_state_version user)
  commit
  pure result_data

module _ (d : Digest) where
  abbrev pub purchase_payload : ℕ → ℤ → Fields
  purchase_payload item_public_id quantity =
      field "item_public_id" (str (d.uuid_text item_public_id))
        (field "quantity" (int quantity) end)

  unfoldable pub purchase_hash : ℕ → ℤ → String
  purchase_hash item_public_id quantity =
      build_request_hash d "ITEM_PURCHASE" (purchase_payload item_public_id quantity)

  unfoldable pub purchase_item : ℕ → ℕ → ℕ → ℤ → Tx ResultData
  unfolding ◌>>=◌ raise_if Users.get_by_public_id Users.get_for_update Executions.claim replay_or
      buy
  purchase_item user_public_id request_id item_public_id quantity = do
    raise_if (leb_ℤ quantity (pos 0)) invalid_quantity
    found ← Users.get_by_public_id user_public_id
    user ← or_raise found (resource_not_found Missing.user)
    locked ← Users.get_for_update user.id
    locked_user ← or_raise locked (resource_not_found Missing.user)
    let request_hash = purchase_hash item_public_id quantity
    claim ← Executions.claim user.id request_id request_hash "ITEM_PURCHASE"
    replay_or claim (buy locked_user claim.execution request_id item_public_id quantity)
