-- ===== src/Shop/Consumables/Outcome.antt =====
-- What a use of a consumable that returned has done.
use cat_game_backend.Base.{
  ℕ, ◌≡◌, sym, ◌∙◌, true, some, List, ◌⊎◌, inl, inr, arith, pos, ◌-ℤ◌, Option-cases, ◌==◌,
  if◌then◌else◌,
}
use cat_game_backend.Core.Error.{ok}
use cat_game_backend.Core.RequestHash.{Digest}
use cat_game_backend.Store.Rows.{
  acquired, User, Item, Cat, Asset, GachaExecution, ResultData, advance_state_version, user_row,
  execution_row, asset_row, is_consumable,
}
use cat_game_backend.Store.Table.{find, get, put, delete_row}
use cat_game_backend.Store.Session.{Db, Session, begin, run_uow, run_uow-ok}
use cat_game_backend.Store.Assets.{is_item_asset, is_one}
use cat_game_backend.Store.Claims.{
  opened, settled, claimed_execution, claimed_status, claimed_db, claim_or_replay,
  claim_or_replay-ok, Settles,
}
use cat_game_backend.Shop.Consumables.{consume, use_consumable, consumption_hash}

-- The assets with one piece less in the row `a`.
unfoldable pub used : Asset → List Asset → List Asset
used a assets =
    if is_one a.quantity
    then delete_row a.id assets
    else put (record a { quantity = a.quantity -ℤ pos 1 }) assets

pub record Consumed (u : User) (e : GachaExecution) (item_public_id cat_public_id : ℕ) (db : Db)
    (r : ResultData) (db' : Db) : Type 0 where
  pub item : Item
  pub cat : Cat
  pub stock : Asset
  pub found : find (λ i. i.public_id == item_public_id) db.items ≡ some item
  pub found_cat : find (λ c. c.public_id == cat_public_id) db.cats ≡ some cat
  pub category : is_consumable item.category ≡ true
  pub owned : find (is_item_asset u.id item.id) db.assets ≡ some stock
  pub users : db'.users ≡ put (advance_state_version u) db.users
  pub assets : db'.assets ≡ used stock db.assets
  pub next_id : db'.next_id ≡ db.next_id
  pub executions : db'.executions ≡ put (settled e (pos 0) r) db.executions

pub consume-Consumed :
    (u : User) (e : GachaExecution) (request_id item_public_id cat_public_id : ℕ) (c db : Db)
    (s' : Session) (r : ResultData)
    → consume u e request_id item_public_id cat_public_id (opened c db) ≡ (ok r, s')
    → Consumed u e item_public_id cat_public_id db r s'.committed
unfolding consume used
consume-Consumed u e request_id item_public_id cat_public_id c db s' r h =
    elim (Option-cases (find (λ i. i.public_id == item_public_id) db.items)) [
      | inl no_item ↦ ground arith
      | inr (item, found) ↦ elim (Option-cases (find (λ c. c.public_id == cat_public_id) db.cats)) [
        | inl no_cat ↦ ground arith
        | inr (cat, found_cat) ↦ elim (Option-cases (find (is_item_asset u.id item.id) db.assets)) [
          | inl no_asset ↦ ground arith
          | inr (a, owned) ↦ record {
            item = item;
            cat = cat;
            stock = a;
            found = found;
            found_cat = found_cat;
            category = ground arith;
            owned = owned;
            users = ground arith;
            assets = ground arith;
            next_id = ground arith;
            executions = ground arith;
          }
        ]
      ]
    ]

module _ (d : Digest) (user_public_id request_id item_public_id cat_public_id : ℕ) where
  pub use_consumable-claim :
      (db : Db) (user locked : User)
      → find (λ u. u.public_id == user_public_id) db.users ≡ some user
      → get user.id db.users ≡ some locked
      → use_consumable d user_public_id request_id item_public_id cat_public_id (begin db)
        ≡ claim_or_replay user.id request_id
            (consumption_hash d item_public_id cat_public_id)
            "ITEM_CONSUMPTION"
            (λ e. consume locked e request_id item_public_id cat_public_id)
            (begin db)
  unfolding use_consumable
  use_consumable-claim db user locked found row = rw (found, row)

  -- What a use that returned `r` found, and what it left.
  pub record Used (db : Db) (r : ResultData) (db' : Db) : Type 0 where
    pub user : User
    pub locked : User
    pub found : find (λ u. u.public_id == user_public_id) db.users ≡ some user
    pub row : get user.id db.users ≡ some locked
    pub outcome :
        (Settles user.id request_id
            (consumption_hash d item_public_id cat_public_id)
            "ITEM_CONSUMPTION"
            r
            db
          × (db' ≡ db))
        ⊎ ((claimed_status user.id request_id
                (consumption_hash d item_public_id cat_public_id)
                "ITEM_CONSUMPTION"
                db
              ≡ acquired)
            × Consumed locked
                (claimed_execution user.id request_id
                  (consumption_hash d item_public_id cat_public_id)
                  "ITEM_CONSUMPTION"
                  db)
                item_public_id
                cat_public_id
                (claimed_db user.id request_id
                  (consumption_hash d item_public_id cat_public_id)
                  "ITEM_CONSUMPTION"
                  db)
                r
                db')

  claimed_use :
      (db : Db) (user locked : User) (s' : Session) (r : ResultData)
      → claim_or_replay user.id request_id
          (consumption_hash d item_public_id cat_public_id)
          "ITEM_CONSUMPTION"
          (λ e. consume locked e request_id item_public_id cat_public_id)
          (begin db)
        ≡ (ok r, s')
      → find (λ u. u.public_id == user_public_id) db.users ≡ some user
      → get user.id db.users ≡ some locked
      → Used db r s'.committed
  claimed_use db user locked s' r h found row = record {
    user = user;
    locked = locked;
    found = found;
    row = row;
    outcome =
        elim (claim_or_replay-ok user.id request_id
          (consumption_hash d item_public_id cat_public_id) "ITEM_CONSUMPTION"
          (λ e. consume locked e request_id item_public_id cat_public_id) db r s' h) [
            | inl replayed ↦ inl replayed
            | inr (fresh, ran) ↦ inr (
              fresh,
              consume-Consumed locked _ request_id item_public_id cat_public_id db _ s' r ran,
            )
          ];
  }

  pub use_consumable-Used :
      (db db' : Db) (r : ResultData)
      → run_uow (use_consumable d user_public_id request_id item_public_id cat_public_id) db
        ≡ (ok r, db')
      → Used db r db'
  unfolding use_consumable
  use_consumable-Used db db' r h =
      let (s', ran, same) =
        run_uow-ok (use_consumable d user_public_id request_id item_public_id cat_public_id) db db'
          r h in
      elim (Option-cases (find (λ u. u.public_id == user_public_id) db.users)) [
        | inl unknown ↦ ground arith
        | inr (user, found) ↦ elim (Option-cases (get user.id db.users)) [
          | inl unlocked ↦ ground arith
          | inr (locked, row) ↦ rw (← same) (
              claimed_use db user locked s' r
                (sym (use_consumable-claim db user locked found row) ∙ ran) found row)
        ]
      ]
