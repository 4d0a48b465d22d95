-- ===== src/Store/Users.antt =====
-- `SqlAlchemyUserRepository` of app/db/repositories.py.
use cat_game_backend.Base.{ℕ, Option, ◌==◌}
use cat_game_backend.Store.Rows.{User, user_row}
use cat_game_backend.Store.Table.{find, get, put}
use cat_game_backend.Store.Session.{Tx, gets, modify_db}

unfoldable pub get_by_public_id : ℕ → Tx (Option User)
unfolding gets find
get_by_public_id public_id = gets (λ s. find (λ u. u.public_id == public_id) s.db.users)

-- With `populate_existing` the object is read anew under the row's lock.
unfoldable pub get_for_update : ℕ → Tx (Option User)
unfolding gets get
get_for_update user_id = gets (λ s. get user_id s.db.users)

-- The attributes that were assigned to the object of the session.
unfoldable pub save : User → Tx (Unit {0})
unfolding modify_db put
save user = modify_db (λ db. record db { users = put user db.users })
