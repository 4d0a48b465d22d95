-- ===== src/Examples/Housing.antt =====
-- Furniture and surfaces on a concrete database.
use cat_game_backend.Base.{◌==◌, ◌≡◌, refl, some, pos, arith, List, [], ◌∷◌}
use cat_game_backend.Base.Int.{◌+ℤ◌}
use cat_game_backend.Catalog.{item_by_key}
use cat_game_backend.Store.Rows.{
  User, Item, Position, wallpaper, user_row, item_row, placed_object_row,
}
use cat_game_backend.Store.Table.{find, get, where_rows}
use cat_game_backend.Store.Session.{Db, run_uow}
use cat_game_backend.Housing.{apply_surface_item, place_furniture}
use cat_game_backend.Housing.Geometry.{
  ensure_error, overlaps, is_turned, footprint, rect, is_outside,
}
use cat_game_backend.Housing.Layout.{rect_of}
use cat_game_backend.Housing.Placing.{IsLaidOut}
use cat_game_backend.Housing.Stock.{IsStocked, placed_count}
use cat_game_backend.Store.Stock.{owned}
use cat_game_backend.Housing.Sequences.{
  Furnishing, placing, moving, removing, furnish_all, furnish_all-IsLaidOut, furnish_all-IsStocked,
}
use cat_game_backend.Housing.Surfaces.{Decorated, apply_surface_item-Decorated}
use cat_game_backend.Examples.{db, corner, middle}

db-IsLaidOut : IsLaidOut 1 db
unfolding get find rect_of footprint item_by_key rect is_outside is_turned ◌+ℤ◌
db-IsLaidOut = record {
  item_keys = ground arith;
  keys = ground arith;
  ids = omega arith;
  layout = (refl, tt, tt);
}

abbrev after_placing : Db
after_placing = (run_uow (place_furniture 1 101 111 middle (some 7)) db).1

-- A turned table in the middle of the room is free.
place_runs : after_placing.next_id ≡ 51
unfolding run_uow place_furniture ◌+ℤ◌ item_by_key ensure_error overlaps is_turned
place_runs = refl

abbrev beyond : Position
beyond = record { x = pos 9; y = pos 0; z = pos 0 }

abbrev papered : Db
papered = (run_uow (apply_surface_item 101 112) db).1

apply_surface_item-Decorated_example :
    (player : User) × (item : Item) × (find (λ u. u.public_id == 101) db.users ≡ some player)
    × (find (λ i. i.public_id == 112) db.items ≡ some item)
    × Decorated player item db papered
unfolding run_uow apply_surface_item find get
apply_surface_item-Decorated_example =
    apply_surface_item-Decorated 101 112 db papered
      (record { user_public_id = 101; item_public_id = 112; category = wallpaper }) (ground arith)
      refl

db-IsStocked : IsStocked db
unfolding placed_count where_rows owned find
db-IsStocked = record { at = λ j i. ground arith }

-- A second table, which is then moved onto the first one and refused, and the first one removed.
abbrev moves : List Furnishing
moves = placing 101 111 middle (some 7) ∷ moving 101 7 corner ∷ removing 101 141 ∷ []

furnish_all-IsLaidOut_example : IsLaidOut 1 (furnish_all 1 moves db)
furnish_all-IsLaidOut_example = furnish_all-IsLaidOut 1 moves db (omega arith) db-IsLaidOut

furnish_all-IsStocked_example : IsStocked (furnish_all 1 moves db)
furnish_all-IsStocked_example =
    furnish_all-IsStocked 1 moves db (omega arith) db-IsLaidOut db-IsStocked
