-- ===== src/Shop/Purchase/Outcome.antt =====
-- What a purchase that returned has done.
use cat_game_backend.Base.{
  ℕ, ◌≡◌, sym, ◌∙◌, false, some, ◌⊎◌, inl, inr, arith, ℤ, pos, ◌-ℤ◌, ◌*ℤ◌, ltb_ℤ, leb_ℤ, Bool-cases,
  Option-cases, ◌==◌,
}
use cat_game_backend.Core.Error.{ok}
use cat_game_backend.Core.RequestHash.{Digest}
use cat_game_backend.Store.Rows.{
  User, Item, GachaExecution, ResultData, advance_state_version, user_row, execution_row, asset_row,
  acquired,
}
use cat_game_backend.Store.Table.{find, get, put}
use cat_game_backend.Store.Session.{Db, Session, begin, run_uow}
use cat_game_backend.Store.Assets
use cat_game_backend.Store.Assets.{is_item_asset}
use cat_game_backend.Store.Claims.{
  opened, settled, claimed_execution, claimed_status, claimed_db, claim_or_replay,
  claim_or_replay-ok, Settles,
}
use cat_game_backend.Store.Session.{run_uow-ok}
use cat_game_backend.Store.Stock.{stocked, stocked_next}
use cat_game_backend.Shop.Purchase.{buy, purchase_hash, purchase_item}

-- The buyer's row after the payment.
abbrev pub paid : User → ℤ → User
paid u cost = record u { balance = u.balance -ℤ cost }

-- What `buy` has done to the tables when it returned.
pub record Bought (u : User) (e : GachaExecution) (request_id item_public_id : ℕ) (quantity : ℤ)
    (db : Db) (r : ResultData) (db' : Db) : Type 0 where
  pub item : Item
  pub found : find (λ i. i.public_id == item_public_id) db.items ≡ some item
  pub positive : leb_ℤ quantity (pos 0) ≡ false
  pub affordable : ltb_ℤ u.balance (item.price *ℤ quantity) ≡ false
  pub charged : ltb_ℤ (item.price *ℤ quantity) (pos 0) ≡ false
  pub users :
      db'.users
      ≡ put
          (advance_state_version (paid u (item.price *ℤ quantity)))
          (put (paid u (item.price *ℤ quantity)) db.users)
  pub assets : db'.assets ≡ stocked u.id item.id quantity db.next_id db.assets
  pub next_id : db'.next_id ≡ stocked_next u.id item.id db.next_id db.assets
  pub executions : db'.executions ≡ put (settled e (item.price *ℤ quantity) r) db.executions

pub buy-Bought :
    (u : User) (e : GachaExecution) (request_id item_public_id : ℕ) (quantity : ℤ) (c db : Db)
    (s' : Session) (r : ResultData)
    → buy u e request_id item_public_id quantity (opened c db) ≡ (ok r, s')
    → Bought u e request_id item_public_id quantity db r s'.committed
unfolding buy stocked stocked_next Assets.new_item_asset
buy-Bought u e request_id item_public_id quantity c db s' r h =
    elim (Option-cases (find (λ i. i.public_id == item_public_id) db.items)) [
      | inl no_item ↦ ground arith
      | inr (item, found) ↦ elim (Option-cases (find (is_item_asset u.id item.id) db.assets)) [
        | inl no_asset ↦ record {
          item = item;
          found = found;
          positive = ground arith;
          affordable = ground arith;
          charged = ground arith;
          users = ground arith;
          assets = ground arith;
          next_id = ground arith;
          executions = ground arith;
        }
        | inr (a, owned) ↦ record {
          item = item;
          found = found;
          positive = ground arith;
          affordable = ground arith;
          charged = ground arith;
          users = ground arith;
          assets = ground arith;
          next_id = ground arith;
          executions = ground arith;
        }
      ]
    ]

module _ (d : Digest) (user_public_id request_id item_public_id : ℕ) (quantity : ℤ) where
  -- Past the guards a purchase is its claim and what follows.
  pub purchase_item-claim :
      (db : Db) (user locked : User)
      → leb_ℤ quantity (pos 0) ≡ false
      → find (λ u. u.public_id == user_public_id) db.users ≡ some user
      → get user.id db.users ≡ some locked
      → purchase_item d user_public_id request_id item_public_id quantity (begin db)
        ≡ claim_or_replay user.id request_id
            (purchase_hash d item_public_id quantity)
            "ITEM_PURCHASE"
            (λ e. buy locked e request_id item_public_id quantity)
            (begin db)
  unfolding purchase_item
  purchase_item-claim db user locked positive found row = rw (positive, found, row)

  -- What a purchase that returned `r` found, and what it left.
  pub record Purchased (db : Db) (r : ResultData) (db' : Db) : Type 0 where
    pub user : User
    pub locked : User
    pub found : find (λ u. u.public_id == user_public_id) db.users ≡ some user
    pub row : get user.id db.users ≡ some locked
    pub positive : leb_ℤ quantity (pos 0) ≡ false
    pub outcome :
        (Settles user.id request_id (purchase_hash d item_public_id quantity) "ITEM_PURCHASE" r db
          × (db' ≡ db))
        ⊎ ((claimed_status user.id request_id
                (purchase_hash d item_public_id quantity)
                "ITEM_PURCHASE"
                db
              ≡ acquired)
            × Bought locked
                (claimed_execution user.id request_id
                  (purchase_hash d item_public_id quantity)
                  "ITEM_PURCHASE"
                  db)
                request_id
                item_public_id
                quantity
                (claimed_db user.id request_id
                  (purchase_hash d item_public_id quantity)
                  "ITEM_PURCHASE"
                  db)
                r
                db')

  claimed-outcome :
      (db : Db) (user locked : User) (s' : Session) (r : ResultData)
      → claim_or_replay user.id request_id
          (purchase_hash d item_public_id quantity)
          "ITEM_PURCHASE"
          (λ e. buy locked e request_id item_public_id quantity)
          (begin db)
        ≡ (ok r, s')
      → (Settles user.id request_id (purchase_hash d item_public_id quantity) "ITEM_PURCHASE" r db
          × (s'.committed ≡ db))
        ⊎ ((claimed_status user.id request_id
                (purchase_hash d item_public_id quantity)
                "ITEM_PURCHASE"
                db
              ≡ acquired)
            × Bought locked
                (claimed_execution user.id request_id
                  (purchase_hash d item_public_id quantity)
                  "ITEM_PURCHASE"
                  db)
                request_id
                item_public_id
                quantity
                (claimed_db user.id request_id
                  (purchase_hash d item_public_id quantity)
                  "ITEM_PURCHASE"
                  db)
                r
                s'.committed)
  claimed-outcome db user locked s' r h =
      elim (claim_or_replay-ok user.id request_id (purchase_hash d item_public_id quantity)
        "ITEM_PURCHASE" (λ e. buy locked e request_id item_public_id quantity) db r s' h) [
          | inl replayed ↦ inl replayed
          | inr (fresh, ran) ↦
              inr (fresh, buy-Bought locked _ request_id item_public_id quantity db _ s' r ran)
        ]

  pub purchase_item-Purchased :
      (db db' : Db) (r : ResultData)
      → run_uow (purchase_item d user_public_id request_id item_public_id quantity) db ≡ (ok r, db')
      → Purchased db r db'
  unfolding purchase_item
  purchase_item-Purchased db db' r h =
      let (s', ran, same) =
        run_uow-ok (purchase_item d user_public_id request_id item_public_id quantity) db db' r h in
      elim (Bool-cases (leb_ℤ quantity (pos 0))) [
        | inl bad ↦ ground arith
        | inr good ↦ elim (Option-cases (find (λ u. u.public_id == user_public_id) db.users)) [
          | inl unknown ↦ ground arith
          | inr (user, found) ↦ elim (Option-cases (get user.id db.users)) [
            | inl unlocked ↦ ground arith
            | inr (locked, row) ↦ record {
              user = user;
              locked = locked;
              found = found;
              row = row;
              positive = good;
              outcome = rw (← same) (
                  claimed-outcome db user locked s' r
                    (sym (purchase_item-claim db user locked good found row) ∙ ran));
            }
          ]
        ]
      ]
