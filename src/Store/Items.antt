-- ===== src/Store/Items.antt =====
-- `SqlAlchemyItemRepository` of app/db/repositories.py.
use cat_game_backend.Base.{ℕ, ◌+◌, String, Option, none, some, List, [], ◌∷◌, ◌==◌, str_eq, ℤ}
use cat_game_backend.Store.Rows.{Item, Category, item_row}
use cat_game_backend.Store.Table.{find, get, insert_row}
use cat_game_backend.Store.Session.{Db, Tx, gets, modify_db}

-- `CatalogItemSeed` of app/core/repository_contracts.py.
pub record CatalogItemSeed : Type 0 where
  pub public_id : ℕ
  pub catalog_key : String
  pub category : Category
  pub name : String
  pub price : ℤ

unfoldable pub insert_missing : List CatalogItemSeed → Db → Db
unfolding find
insert_missing [] db = db
insert_missing (seed ∷ seeds) db =
    insert_missing seeds (elim (find (λ i. str_eq i.catalog_key seed.catalog_key) db.items) [
      | some i ↦ db
      | none ↦ record db {
        items =
            insert_row
              (record {
                id = db.next_id;
                public_id = seed.public_id;
                catalog_key = seed.catalog_key;
                category = seed.category;
                name = seed.name;
                price = seed.price;
              })
              db.items;
        next_id = db.next_id + 1;
      }
    ])

-- `INSERT ... ON CONFLICT (catalog_key) DO NOTHING`, row by row.
unfoldable pub ensure_catalog_items : List CatalogItemSeed → Tx (Unit {0})
unfolding insert_missing modify_db
ensure_catalog_items seeds = modify_db (insert_missing seeds)

unfoldable pub get_by_public_id : ℕ → Tx (Option Item)
unfolding gets find
get_by_public_id public_id = gets (λ s. find (λ i. i.public_id == public_id) s.db.items)

unfoldable pub get_by_catalog_key : String → Tx (Option Item)
unfolding gets find
get_by_catalog_key key = gets (λ s. find (λ i. str_eq i.catalog_key key) s.db.items)

unfoldable pub get_by_id : ℕ → Tx (Option Item)
unfolding gets get
get_by_id item_id = gets (λ s. get item_id s.db.items)
