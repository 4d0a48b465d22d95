-- ===== src/Shop/Purchase/Safety.antt =====
-- A purchase keeps the tables consistent, and an error leaves them alone.
use cat_game_backend.Base.{ℕ, ◌≡◌, false, inl, inr, arith, ℤ, ◌*ℤ◌, ltb_ℤ, int_laws, -ℤ_parts}
use cat_game_backend.Core.RequestHash.{Digest}
use cat_game_backend.Store.Rows.{User, Item, GachaExecution, ResultData, user_row, execution_row}
use cat_game_backend.Store.Table.{find, get, Distinct-put, All-put, All-find, has_id}
use cat_game_backend.Store.Session.{Db, run_uow}
use cat_game_backend.Store.Atomic.{IsUncommitted, IsAtomic}
use cat_game_backend.Store.Consistent.{
  IsConsistent, IsSoundUser, IsSoundExecution, claimed_db-IsConsistent, advance-IsSoundUser,
}
use cat_game_backend.Store.Stock.{stocked-IsSound, stocked-Distinct}
use cat_game_backend.Store.Uncommitted.{repository_rules}
use cat_game_backend.Store.Atomic.{run_uow-outcome}
use cat_game_backend.Shop.Purchase.{buy, ensure_not_owned, purchase_item, purchase_hash}
use cat_game_backend.Shop.Purchase.Outcome.{Bought, Purchased, purchase_item-Purchased, paid}

paid-IsSound :
    (u : User) (cost : ℤ) → ltb_ℤ u.balance cost ≡ false → IsSoundUser u → IsSoundUser (paid u cost)
paid-IsSound u cost affordable h = grind (int_laws, -ℤ_parts u.balance cost)

Bought-IsConsistent :
    (u : User) (e : GachaExecution) (request_id item_public_id : ℕ) (quantity : ℤ) (db db' : Db)
    (r : ResultData)
    → IsSoundUser u
    → IsConsistent db
    → Bought u e request_id item_public_id quantity db r db'
    → IsConsistent db'
Bought-IsConsistent u e request_id item_public_id quantity db db' r sound h b =
    let cost = b.item.price *ℤ quantity in
    let payer = paid-IsSound u cost b.affordable sound in
    record {
      keys = rw b.users (Distinct-put _ _ (Distinct-put _ _ h.keys));
      users = rw b.users (
          All-put IsSoundUser _ _ (advance-IsSoundUser (paid u cost) payer)
            (All-put IsSoundUser _ _ payer h.users));
      asset_keys =
          rw b.assets (stocked-Distinct u.id b.item.id quantity _ _ h.asset_keys h.asset_ids).0;
      asset_ids =
          rw (b.assets, b.next_id)
            (stocked-Distinct u.id b.item.id quantity _ _ h.asset_keys h.asset_ids).1;
      assets = rw b.assets (stocked-IsSound u.id b.item.id quantity _ _ b.positive h.assets);
      executions = rw b.executions (All-put IsSoundExecution _ _ (ground arith) h.executions);
    }

module _ (d : Digest) (user_public_id request_id item_public_id : ℕ) (quantity : ℤ) where
  Purchased-IsConsistent :
      (db db' : Db) (r : ResultData)
      → IsConsistent db
      → Purchased d user_public_id request_id item_public_id quantity db r db'
      → IsConsistent db'
  unfolding find get
  Purchased-IsConsistent db db' r h p = elim (p.outcome) [
    | inl (replayed, same) ↦ rw same h
    | inr (fresh, bought) ↦
        Bought-IsConsistent p.locked _ request_id item_public_id quantity _ db' r
          (All-find IsSoundUser (has_id p.user.id) p.locked db.users h.users p.row)
          (claimed_db-IsConsistent p.user.id request_id (purchase_hash d item_public_id quantity)
            "ITEM_PURCHASE" db h)
          bought
  ]

  ensure_not_owned-IsUncommitted : (u : User) (i : Item) → IsUncommitted (ensure_not_owned u i)
  unfolding ensure_not_owned
  ensure_not_owned-IsUncommitted u i = search repository_rules

  buy-IsAtomic :
      (u : User) (e : GachaExecution) → IsAtomic (buy u e request_id item_public_id quantity)
  unfolding buy
  buy-IsAtomic u e = search (repository_rules, ensure_not_owned-IsUncommitted) depth 20

  pub purchase_item-IsAtomic :
      IsAtomic (purchase_item d user_public_id request_id item_public_id quantity)
  unfolding purchase_item
  purchase_item-IsAtomic = search (repository_rules, buy-IsAtomic) depth 20

  -- A purchase keeps the tables consistent whether it returns or raises: distinct keys of users
  -- and assets, no negative balance or mileage, every state version at least 1, every asset
  -- quantity positive, and every completed execution with a nonnegative cost and a stored result.
  pub purchase_item-IsConsistent :
      (db : Db)
      → IsConsistent db
      → IsConsistent
          (run_uow (purchase_item d user_public_id request_id item_public_id quantity) db).1
  purchase_item-IsConsistent db h =
      run_uow-outcome IsConsistent
        (purchase_item d user_public_id request_id item_public_id quantity) db
        purchase_item-IsAtomic h
        (λ r db' ran. Purchased-IsConsistent db db' r h (
          purchase_item-Purchased d user_public_id request_id item_public_id quantity db db' r ran))
