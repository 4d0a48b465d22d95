-- ===== src/Store/Rows.antt =====
-- The rows of the tables (app/models), with the columns that the modelled code reads or writes.
use cat_game_backend.Base.{ℕ, ◌+◌, String, Bool, true, false, Option, List, ℤ, ◌==◌, if◌then◌else◌}

-- A table's primary key.
pub record Row (V : Type 0) : Type 0 where
  pub id_of : V → ℕ

-- app/models/user.py
pub record User : Type 0 where
  pub id : ℕ
  pub public_id : ℕ
  pub balance : ℤ
  pub mileage : ℤ
  pub starter_pack_version : ℕ
  pub state_version : ℕ
  pub wallpaper_item_id : Option ℕ
  pub floor_item_id : Option ℕ
  pub active_cat_id : Option ℕ
  pub learning_reset_at : Option ℕ

-- `self.state_version = (self.state_version or 1) + 1`
unfoldable pub advance_state_version : User → User
advance_state_version u = record u {
  state_version = (if u.state_version == 0 then 1 else u.state_version) + 1;
}

-- `items.category`: the four categories of the catalog, and any other text.
pub data Category : Type 0 where
  furniture wallpaper floor consumable : Category
  other_category : String → Category

abbrev pub is_wallpaper : Category → Bool
is_wallpaper wallpaper = true
is_wallpaper _ = false

abbrev pub is_surface : Category → Bool
is_surface wallpaper = true
is_surface floor = true
is_surface _ = false

abbrev pub is_furniture : Category → Bool
is_furniture furniture = true
is_furniture _ = false

abbrev pub is_consumable : Category → Bool
is_consumable consumable = true
is_consumable _ = false

-- app/models/item.py
pub record Item : Type 0 where
  pub id : ℕ
  pub public_id : ℕ
  pub catalog_key : String
  pub category : Category
  pub name : String
  pub price : ℤ

-- app/models/cat.py
pub record Cat : Type 0 where
  pub id : ℕ
  pub public_id : ℕ
  pub catalog_key : String
  pub name : String
  pub rarity : String

-- app/models/asset.py
pub record Asset : Type 0 where
  pub id : ℕ
  pub user_id : ℕ
  pub cat_id : Option ℕ
  pub item_id : Option ℕ
  pub quantity : ℤ
  pub is_home : Bool

-- One entry of a gacha result.
pub record CatDraw : Type 0 where
  pub cat_public_id : ℕ
  pub name : String
  pub rarity : String
  pub is_duplicate : Bool
  pub mileage_awarded : ℤ

pub record GameReward : Type 0 where
  pub catalog_key : String
  pub is_cat : Bool
  pub duplicate : Bool
  pub exchange_coins : ℤ

-- The dictionaries that the commands store as `result_data` and return.
pub data ResultData : Type 0 where
  purchase : (execution request item : ℕ) (purchased total balance : ℤ) → ResultData
  consumption : (execution request item cat : ℕ) (effect : String) (remaining : ℤ) → ResultData
  cat_gacha :
      (execution request : ℕ) (draw_count bonus_draw_count balance_cost balance mileage : ℤ)
      (results : List CatDraw)
      → ResultData
  game_gacha : (request : ℕ) (rewards : List GameReward) (remaining_balance : ℤ) → ResultData

-- `ClaimStatus` of app/core/repository_contracts.py.
pub data ClaimStatus : Type 0 where
  acquired completed hash_conflict : ClaimStatus

abbrev pub is_completed : ClaimStatus → Bool
is_completed completed = true
is_completed _ = false

-- app/models/gacha_execution.py
pub record GachaExecution : Type 0 where
  pub id : ℕ
  pub public_id : ℕ
  pub user_id : ℕ
  pub request_id : ℕ
  pub request_hash : String
  pub operation_type : String
  pub status : ClaimStatus
  pub draw_count : Option ℤ
  pub balance_cost : ℤ
  pub result_data : Option ResultData

-- A position on the room's grid, in the units of `PositionData`: see Housing.
pub record Position : Type 0 where
  pub x : ℤ
  pub y : ℤ
  pub z : ℤ

-- app/models/placed_object.py
pub record PlacedObject : Type 0 where
  pub id : ℕ
  pub public_id : ℕ
  pub user_id : ℕ
  pub item_id : ℕ
  pub position_data : Position

instance abbrev pub user_row : Row User
user_row = record { id_of = λ r. r.id }

instance abbrev pub item_row : Row Item
item_row = record { id_of = λ r. r.id }

instance abbrev pub cat_row : Row Cat
cat_row = record { id_of = λ r. r.id }

instance abbrev pub asset_row : Row Asset
asset_row = record { id_of = λ r. r.id }

instance abbrev pub execution_row : Row GachaExecution
execution_row = record { id_of = λ r. r.id }

instance abbrev pub placed_object_row : Row PlacedObject
placed_object_row = record { id_of = λ r. r.id }
