-- ===== src/Examples/Shop.antt =====
-- Purchases and consumables on a concrete database.
use cat_game_backend.Base.{◌==◌, ◌≡◌, refl, some, pos, arith}
use cat_game_backend.Base.Int.{◌+ℤ◌, ◌-ℤ◌, ◌*ℤ◌}
use cat_game_backend.Core.Error.{ok, err, insufficient_balance}
use cat_game_backend.Store.Rows.{User, Item, ResultData, user_row, asset_row}
use cat_game_backend.Store.Table.{Distinct, find, get}
use cat_game_backend.Store.Session.{Db, run_uow}
use cat_game_backend.Store.Consistent.{IsConsistent}
use cat_game_backend.Shop.Purchase.{purchase_item}
use cat_game_backend.Shop.Purchase.Safety.{purchase_item-IsConsistent}
use cat_game_backend.Shop.Purchase.Retry.{purchase_item_retry}
use cat_game_backend.Shop.Purchase.Effect.{Sale, purchase_item-Sale}
use cat_game_backend.Catalog.{item_by_key}
use cat_game_backend.Shop.Consumables.{use_consumable}
use cat_game_backend.Shop.Consumables.Care.{use_consumable-IsConsistent}
use cat_game_backend.Examples.{digest, db}

abbrev after_purchase : Db
after_purchase = (run_uow (purchase_item digest 101 7 111 (pos 3)) db).1

abbrev after_treat : Db
after_treat = (run_uow (use_consumable digest 101 8 113 121) db).1

keys : Distinct db.users
unfolding get find
keys = ground arith

db-IsConsistent : IsConsistent db
unfolding get find
db-IsConsistent = record {
  keys = keys;
  users = ground arith;
  asset_keys = ground arith;
  asset_ids = omega arith;
  assets = ground arith;
  executions = tt;
}

abbrev bought : ResultData
bought = ResultData.purchase 1050 7 111 (pos 3) (pos 5) (pos 700)

abbrev treated : ResultData
treated = ResultData.consumption 1050 8 113 121 "happy" (pos 1)

purchase_runs : run_uow (purchase_item digest 101 7 111 (pos 3)) db ≡ (ok bought, after_purchase)
unfolding run_uow purchase_item ◌*ℤ◌ ◌-ℤ◌ ◌+ℤ◌
purchase_runs = refl

treat_runs : run_uow (use_consumable digest 101 8 113 121) db ≡ (ok treated, after_treat)
unfolding run_uow use_consumable ◌-ℤ◌ item_by_key
treat_runs = refl

-- Bob cannot pay.
purchase_refused :
    run_uow (purchase_item digest 102 9 111 (pos 3)) db ≡ (err insufficient_balance, db)
unfolding run_uow purchase_item ◌*ℤ◌ ◌-ℤ◌ ◌+ℤ◌
purchase_refused = refl

purchase_item-Sale_example :
    (buyer : User) × (item : Item) × (find (λ u. u.public_id == 101) db.users ≡ some buyer)
    × (find (λ i. i.public_id == 111) db.items ≡ some item)
    × Sale buyer item (pos 3) db after_purchase
unfolding find
purchase_item-Sale_example =
    purchase_item-Sale digest 101 7 111 (pos 3) db after_purchase bought db-IsConsistent refl
      purchase_runs

purchase_item_retry_example :
    run_uow (purchase_item digest 101 7 111 (pos 3)) after_purchase ≡ (ok bought, after_purchase)
purchase_item_retry_example =
    purchase_item_retry digest 101 7 111 (pos 3) db after_purchase bought keys purchase_runs

purchase_item-IsConsistent_example : IsConsistent after_purchase
purchase_item-IsConsistent_example =
    purchase_item-IsConsistent digest 101 7 111 (pos 3) db db-IsConsistent

use_consumable-IsConsistent_example : IsConsistent after_treat
use_consumable-IsConsistent_example =
    use_consumable-IsConsistent digest 101 8 113 121 db db-IsConsistent
