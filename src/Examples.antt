-- ===== src/Examples.antt =====
-- A small database for tests: two players, a table, a wallpaper, a treat and a cat.
pub mod Shop
pub mod Gacha
pub mod Housing
pub mod Battle
pub mod Identity
pub mod Rewards
pub mod Learning
pub mod Commands
pub mod Grading
pub mod Cats
pub mod Home
use cat_game_backend.Base.{ℕ, ◌+◌, String, true, false, Option, none, some, List, [], ◌∷◌, ℤ, pos}
use cat_game_backend.Core.RequestHash.{Digest}
use cat_game_backend.Store.Rows.{
  User, Item, Cat, Asset, GachaExecution, PlacedObject, Position, furniture, wallpaper, consumable,
}
use cat_game_backend.Store.Session.{Db}

abbrev pub digest : Digest
digest = record { uuid_text = λ n. "uuid"; digest = λ fields. "hash" }

abbrev pub ada : User
ada = record {
  id = 1;
  public_id = 101;
  balance = pos 1000;
  mileage = pos 0;
  starter_pack_version = 1;
  state_version = 1;
  wallpaper_item_id = none;
  floor_item_id = none;
  active_cat_id = none;
  learning_reset_at = none;
}

abbrev pub bob : User
bob = record ada { id = 2; public_id = 102; balance = pos 5 }

abbrev pub table : Item
table = record {
  id = 11;
  public_id = 111;
  catalog_key = "furniture.table";
  category = furniture;
  name = "table";
  price = pos 100;
}

abbrev pub paper : Item
paper = record {
  id = 12;
  public_id = 112;
  catalog_key = "wallpaper.cream";
  category = wallpaper;
  name = "paper";
  price = pos 200;
}

abbrev pub treat : Item
treat = record {
  id = 13;
  public_id = 113;
  catalog_key = "consumable.salmon-cubes";
  category = consumable;
  name = "treat";
  price = pos 30;
}

abbrev pub cat : Cat
cat = record {
  id = 21;
  public_id = 121;
  catalog_key = "cat.luna";
  name = "Luna";
  rarity = "COMMON";
}

abbrev pub asset : ℕ → Option ℕ → Option ℕ → ℤ → Asset
asset id cat_id item_id quantity = record {
  id = id;
  user_id = 1;
  cat_id = cat_id;
  item_id = item_id;
  quantity = quantity;
  is_home = false;
}

abbrev pub corner : Position
corner = record { x = pos 0; y = pos 0; z = pos 0 }

abbrev pub middle : Position
middle = record { x = pos 5; y = pos 4; z = pos 1 }

abbrev pub placed_table : PlacedObject
placed_table = record {
  id = 41;
  public_id = 141;
  user_id = 1;
  item_id = 11;
  position_data = corner;
}

abbrev pub db : Db
db = record {
  users = ada ∷ bob ∷ [];
  items = table ∷ paper ∷ treat ∷ [];
  cats = cat ∷ [];
  assets =
      asset 31 none (some 11) (pos 2)
      ∷ asset 32 none (some 12) (pos 1)
      ∷ asset 33 none (some 13) (pos 2)
      ∷ asset 34 (some 21) none (pos 1)
      ∷ [];
  executions = [];
  placed_objects = placed_table ∷ [];
  next_id = 50;
  generated = λ n. 1000 + n;
}
