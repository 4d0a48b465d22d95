-- ===== src/Store/Cats.antt =====
-- `SqlAlchemyCatRepository` of app/db/repositories.py.
use cat_game_backend.Base.{ℕ, String, Option, List, ◌==◌, str_eq}
use cat_game_backend.Store.Rows.{Cat, cat_row}
use cat_game_backend.Store.Table.{find, get}
use cat_game_backend.Store.Session.{Tx, gets}

unfoldable pub get_by_public_id : ℕ → Tx (Option Cat)
unfolding gets find
get_by_public_id public_id = gets (λ s. find (λ c. c.public_id == public_id) s.db.cats)

unfoldable pub get_by_id : ℕ → Tx (Option Cat)
unfolding gets get
get_by_id cat_id = gets (λ s. get cat_id s.db.cats)

unfoldable pub get_by_catalog_key : String → Tx (Option Cat)
unfolding gets find
get_by_catalog_key key = gets (λ s. find (λ c. str_eq c.catalog_key key) s.db.cats)

-- `ORDER BY id`: the rows stand in that order.
unfoldable pub list_all : Tx (List Cat)
unfolding gets
list_all = gets (λ s. s.db.cats)
