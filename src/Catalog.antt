-- ===== src/Catalog.antt =====
-- The catalog's lookups, the starter pack's placements and the room's grid
-- (app/modules/game/catalog.py).
pub mod Definitions
use cat_game_backend.Base.{ℕ, String, Option, List, [], ◌∷◌, str_eq}
use cat_game_backend.Store.Table.{find}
use cat_game_backend.Catalog.Definitions.{ItemDefinition, item_definitions}

-- `ITEM_BY_KEY.get(key)`: no key occurs twice in the catalog.
unfoldable pub item_by_key : String → Option ItemDefinition
unfolding find item_definitions
item_by_key key = find (λ definition. str_eq definition.catalog_key key) item_definitions

-- `STARTER_PLACEMENTS`: the key, x, y and the rotation.
pub record StarterPlacement : Type 0 where
  pub catalog_key : String
  pub x : ℕ
  pub y : ℕ
  pub rotation : ℕ

abbrev pub starter_placements : List StarterPlacement
starter_placements =
    record { catalog_key = "furniture.table"; x = 1; y = 1; rotation = 0 }
    ∷ record { catalog_key = "furniture.sofa"; x = 5; y = 1; rotation = 0 }
    ∷ record { catalog_key = "decor.plant"; x = 8; y = 2; rotation = 0 }
    ∷ record { catalog_key = "furniture.catTower"; x = 0; y = 5; rotation = 0 }
    ∷ record { catalog_key = "furniture.bed"; x = 6; y = 5; rotation = 0 }
    ∷ []

abbrev pub room_grid_width : ℕ
room_grid_width = 10

abbrev pub room_grid_height : ℕ
room_grid_height = 8
