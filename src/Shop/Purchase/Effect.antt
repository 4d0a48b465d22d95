-- ===== src/Shop/Purchase/Effect.antt =====
-- What a first purchase changes.
use cat_game_backend.Base.{
  Bool-cases, ℕ, ◌≡◌, sym, ◌∙◌, none, some, List, inl, inr, arith, ℤ, pos, ◌+ℤ◌, ◌*ℤ◌, ◌≤ℤ◌, ◌==◌,
  if◌then◌else◌, ◌&&◌,
}
use cat_game_backend.Core.Error.{ok}
use cat_game_backend.Core.RequestHash.{Digest}
use cat_game_backend.Store.Consistent.{IsConsistent}
use cat_game_backend.Store.Rows.{
  Asset, asset_row, User, Item, GachaExecution, ResultData, advance_state_version, user_row,
}
use cat_game_backend.Store.Table.{Distinct, find, get, put, get-put, get-find}
use cat_game_backend.Store.Session.{Db, run_uow}
use cat_game_backend.Store.Executions.{has_request}
use cat_game_backend.Store.Claims.{claimed_db_rest}
use cat_game_backend.Store.Stock.{stocked, owned, owned-stocked, owned-stocked_ne}
use cat_game_backend.Shop.Purchase.{purchase_item, purchase_hash}
use cat_game_backend.Shop.Purchase.Outcome.{Bought, purchase_item-Purchased, paid}

-- The changes of a purchase of `quantity` pieces of `item` by `buyer`.
pub record Sale (buyer : User) (item : Item) (quantity : ℤ) (db db' : Db) : Type 0 where
  pub positive : pos 1 ≤ℤ quantity
  pub affordable : item.price *ℤ quantity ≤ℤ buyer.balance
  -- The buyer pays price times quantity and the state version moves on; no other player's row
  -- changes.
  pub users :
      (j : ℕ)
      → get j db'.users ≡ (
          if j == buyer.id
          then some (advance_state_version (paid buyer (item.price *ℤ quantity)))
          else get j db.users)
  -- The buyer owns `quantity` more of the item; no other stock changes.
  pub stock :
      (j i : ℕ)
      → owned j i db'.assets ≡ (
          if (j == buyer.id) && (i == item.id)
          then owned j i db.assets +ℤ quantity
          else owned j i db.assets)

stock_law :
    (user_id item_id j i : ℕ) (quantity : ℤ) (id : ℕ) (assets : List Asset)
    → Distinct assets
    → owned j i (stocked user_id item_id quantity id assets) ≡ (
        if (j == user_id) && (i == item_id) then owned j i assets +ℤ quantity else owned j i assets)
stock_law user_id item_id j i quantity id assets keys =
    elim (Bool-cases ((j == user_id) && (i == item_id))) [
      | inl same ↦
          let eu : j ≡ user_id = ground arith in
          let ei : i ≡ item_id = ground arith in
          rw (same, eu, ei) (owned-stocked user_id item_id quantity id assets)
      | inr other ↦ rw other (owned-stocked_ne user_id item_id quantity id assets j i keys other)
    ]

-- The two writes of the buyer's row.
paid_rows :
    (buyer : User) (cost : ℤ) (t : List User) (j : ℕ)
    → get buyer.id t ≡ some buyer
    → get j (put (advance_state_version (paid buyer cost)) (put (paid buyer cost) t))
      ≡ (if j == buyer.id then some (advance_state_version (paid buyer cost)) else get j t)
unfolding advance_state_version
paid_rows buyer cost t j row = ground (
  arith,
  get-put j (advance_state_version (paid buyer cost)) (put (paid buyer cost) t),
  get-put j (paid buyer cost) t,
)

Bought-Sale :
    (db c db' : Db) (buyer : User) (e : GachaExecution) (request_id item_public_id : ℕ)
    (quantity : ℤ) (r : ResultData)
    → Distinct db.assets
    → get buyer.id db.users ≡ some buyer
    → c.users ≡ db.users
    → c.assets ≡ db.assets
    → (b : Bought buyer e request_id item_public_id quantity c r db')
    → Sale buyer b.item quantity db db'
Bought-Sale db c db' buyer e request_id item_public_id quantity r keys row users assets b = record {
  positive = ground (arith, b.positive);
  affordable = ground (arith, b.affordable);
  users = λ j. rw (b.users, users) (paid_rows buyer (b.item.price *ℤ quantity) db.users j row);
  stock = λ j i. rw (b.assets, assets) (stock_law buyer.id b.item.id j i quantity _ db.assets keys);
}

module _ (d : Digest) (user_public_id request_id item_public_id : ℕ) (quantity : ℤ) where
  -- If the tables are consistent and the request id is unused, a purchase that returns found its
  -- buyer and its item; the quantity is positive and the buyer could afford it; the buyer's row
  -- has paid price times quantity with the state version moved on, no other user row differs, the
  -- buyer owns quantity more of the item, and no other stock of an item differs.
  pub purchase_item-Sale :
      (db db' : Db) (r : ResultData)
      → IsConsistent db
      → find (has_request request_id) db.executions ≡ none
      → run_uow (purchase_item d user_public_id request_id item_public_id quantity) db ≡ (ok r, db')
      → (buyer : User) × (item : Item) × (find (λ u. u.public_id == user_public_id) db.users
          ≡ some buyer)
        × (find (λ i. i.public_id == item_public_id) db.items ≡ some item)
        × Sale buyer item quantity db db'
  purchase_item-Sale db db' r h unused ran =
      let p =
        purchase_item-Purchased d user_public_id request_id item_public_id quantity db db' r ran in
      let rest =
        claimed_db_rest p.user.id request_id (purchase_hash d item_public_id quantity)
          "ITEM_PURCHASE" db in
      let same : some p.user ≡ some p.locked =
        sym (get-find (λ (u : User). u.public_id == user_public_id) p.user db.users h.keys p.found)
        ∙ p.row in
      let row : get p.locked.id db.users ≡ some p.locked =
        get-find (λ (u : User). u.public_id == user_public_id) p.locked db.users h.keys
          (p.found ∙ same) in
      elim (p.outcome) [
        | inl (settles, unchanged) ↦ ground (arith, settles.found)
        | inr (fresh, b) ↦ (
          p.locked,
          b.item,
          p.found ∙ same,
          rw rest.1 at b.found,
          Bought-Sale db _ db' p.locked _ request_id item_public_id quantity r h.asset_keys row
              rest.0 rest.3 b,
        )
      ]
