-- ===== src/Store/Placements.antt =====
-- `SqlAlchemyPlacedObjectRepository` of app/db/repositories.py.
use cat_game_backend.Base.{ℕ, ◌&&◌, Option, none, some, List, ◌∷◌, ◌==◌, length}
use cat_game_backend.Core.Error.{ok}
use cat_game_backend.Store.Rows.{PlacedObject, Position, placed_object_row}
use cat_game_backend.Store.Table.{find, where_rows, insert_row, put}
use cat_game_backend.Store.Session.{Session, Tx, gets, modify, modify_db}

unfoldable pub get_by_public_id_for_update : ℕ → Tx (Option PlacedObject)
unfolding gets find
get_by_public_id_for_update public_id =
    gets (λ s. find (λ p. p.public_id == public_id) s.db.placed_objects)

unfoldable pub count_for_update : ℕ → ℕ → Tx ℕ
unfolding gets where_rows
count_for_update user_id item_id = gets (λ s.
    length (where_rows (λ p. p.user_id == user_id && p.item_id == item_id) s.db.placed_objects))

-- `ORDER BY id`: the rows stand in that order.
unfoldable pub list_for_update : ℕ → Tx (List PlacedObject)
unfolding gets where_rows
list_for_update user_id = gets (λ s. where_rows (λ p. p.user_id == user_id) s.db.placed_objects)

abbrev pub or_generated : Option ℕ → Session → ℕ
or_generated (some p) s = p
or_generated none s = s.db.generated s.db.next_id

-- A session adds one placed object at most, so its primary key is the next one.
unfoldable pub new_placement : ℕ → ℕ → Position → Option ℕ → Session → PlacedObject
new_placement user_id item_id position_data public_id s = record {
  id = s.db.next_id;
  public_id = or_generated public_id s;
  user_id = user_id;
  item_id = item_id;
  position_data = position_data;
}

unfoldable pub add : ℕ → ℕ → Position → Option ℕ → Tx PlacedObject
unfolding new_placement
add user_id item_id position_data public_id s =
    let p = new_placement user_id item_id position_data public_id s in
    (ok p, record s { new_placements = insert_row p s.new_placements })

-- `placed_object.position_data = ...` on the object of the session.
unfoldable pub save : PlacedObject → Tx (Unit {0})
unfolding modify_db put
save p = modify_db (λ db. record db { placed_objects = put p db.placed_objects })

unfoldable pub remove : PlacedObject → Tx (Unit {0})
unfolding modify
remove p = modify (λ s. record s { deleted_placements = p.id ∷ s.deleted_placements })
