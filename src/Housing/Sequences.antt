-- ===== src/Housing/Sequences.antt =====
-- Any sequence of the commands that place, move and remove furniture.
use cat_game_backend.Base.{ℕ, ◌<◌, Option, List, [], ◌∷◌}
use cat_game_backend.Store.Rows.{Position}
use cat_game_backend.Store.Session.{Db, run_uow}
use cat_game_backend.Housing.{
  place_furniture, update_furniture_placement, remove_furniture_placement,
}
use cat_game_backend.Housing.Placing.{IsLaidOut}
use cat_game_backend.Housing.Room.{place_furniture-IsLaidOut, update_furniture_placement-IsLaidOut}
use cat_game_backend.Housing.Removal.{remove_furniture_placement-IsLaidOut}
use cat_game_backend.Housing.Stock.{
  IsStocked, place_furniture-IsStocked, update_furniture_placement-IsStocked,
  remove_furniture_placement-IsStocked,
}

pub data Furnishing : Type 0 where
  placing : (user item : ℕ) → Position → Option ℕ → Furnishing
  moving : (user object : ℕ) → Position → Furnishing
  removing : (user object : ℕ) → Furnishing

module _ (grid_unit : ℕ) where
  -- A call that raises leaves the database as it was.
  unfoldable pub furnish : Furnishing → Db → Db
  furnish (placing user item position public_id) db =
      (run_uow (place_furniture grid_unit user item position public_id) db).1
  furnish (moving user object position) db =
      (run_uow (update_furniture_placement grid_unit user object position) db).1
  furnish (removing user object) db =
      (run_uow (remove_furniture_placement grid_unit user object) db).1

  unfoldable pub furnish_all : List Furnishing → Db → Db
  unfolding furnish
  furnish_all [] db = db
  furnish_all (c ∷ commands) db = furnish_all commands (furnish c db)

  furnish-IsLaidOut :
      (c : Furnishing) (db : Db)
      → 0 < grid_unit
      → IsLaidOut grid_unit db
      → IsLaidOut grid_unit (furnish c db)
  unfolding furnish
  furnish-IsLaidOut (placing u i p o) db unit h =
      place_furniture-IsLaidOut grid_unit u i p o db unit h
  furnish-IsLaidOut (moving u o p) db unit h =
      update_furniture_placement-IsLaidOut grid_unit u o p db unit h
  furnish-IsLaidOut (removing u o) db unit h =
      remove_furniture_placement-IsLaidOut grid_unit u o db h

  furnish-IsStocked :
      (c : Furnishing) (db : Db) → IsLaidOut grid_unit db → IsStocked db → IsStocked (furnish c db)
  unfolding furnish
  furnish-IsStocked (placing u i p o) db laid h = place_furniture-IsStocked grid_unit u i p o db h
  furnish-IsStocked (moving u o p) db laid h =
      update_furniture_placement-IsStocked grid_unit u o p db laid.keys h
  furnish-IsStocked (removing u o) db laid h =
      remove_furniture_placement-IsStocked grid_unit u o db h

  -- For a positive grid unit, any sequence of calls that place, move and remove furniture, each
  -- of which may raise, keeps the room laid out; in IsLaidOut, the keys of the items and placed
  -- objects are distinct and below the next number, every object that has a footprint lies inside
  -- the room, and no two objects of the same player overlap.
  pub furnish_all-IsLaidOut :
      (commands : List Furnishing) (db : Db)
      → 0 < grid_unit
      → IsLaidOut grid_unit db
      → IsLaidOut grid_unit (furnish_all commands db)
  unfolding furnish_all
  furnish_all-IsLaidOut [] db unit h = h
  furnish_all-IsLaidOut (c ∷ commands) db unit h =
      furnish_all-IsLaidOut commands (furnish c db) unit (furnish-IsLaidOut c db unit h)

  -- For a positive grid unit and a room laid out (IsLaidOut), any sequence of calls that place,
  -- move and remove furniture keeps the placements within the stock (IsStocked: of every item, a
  -- player has placed at most as many pieces as the player owns).
  pub furnish_all-IsStocked :
      (commands : List Furnishing) (db : Db)
      → 0 < grid_unit
      → IsLaidOut grid_unit db
      → IsStocked db
      → IsStocked (furnish_all commands db)
  unfolding furnish_all
  furnish_all-IsStocked [] db unit laid h = h
  furnish_all-IsStocked (c ∷ commands) db unit laid h =
      furnish_all-IsStocked commands (furnish c db) unit (furnish-IsLaidOut c db unit laid)
        (furnish-IsStocked c db laid h)
