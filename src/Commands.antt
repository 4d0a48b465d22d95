-- ===== src/Commands.antt =====
-- The commands on the economy that run in one unit of work each: what a command that raises leaves
-- behind.
use cat_game_backend.Base.{ℕ, ◌≡◌, refl, String, Option, none, some, List, ℤ, arith}
use cat_game_backend.Core.Error.{Error, Result, ok, err}
use cat_game_backend.Core.RequestHash.{Digest}
use cat_game_backend.Store.Rows.{Position}
use cat_game_backend.Store.Session.{Db, Tx, run_uow}
use cat_game_backend.Store.Atomic.{IsAtomic, run_uow_atomic}
use cat_game_backend.Shop.Purchase.{purchase_item}
use cat_game_backend.Shop.Purchase.Safety.{purchase_item-IsAtomic}
use cat_game_backend.Shop.Consumables.{use_consumable}
use cat_game_backend.Shop.Consumables.Care.{use_consumable-IsAtomic}
use cat_game_backend.Housing.{
  apply_surface_item, clear_wallpaper, place_furniture, update_furniture_placement,
  remove_furniture_placement,
}
use cat_game_backend.Housing.Atomicity.{place_furniture-IsAtomic, update-IsAtomic, remove-IsAtomic}
use cat_game_backend.Housing.Surfaces.{apply_surface_item-IsAtomic, clear_wallpaper-IsAtomic}
use cat_game_backend.Gacha.{GachaPolicy, draw_cats}
use cat_game_backend.Gacha.Atomicity.{draw_cats-IsAtomic}
use cat_game_backend.GameGacha.{RewardDefinition, draw_game_gacha}
use cat_game_backend.GameGacha.Atomicity.{draw_game_gacha-IsAtomic}

-- The public ids of the player and of what the command is about, and the request id where there is
-- one.
pub data EconomyCommand : Type 0 where
  buy_item : (user request item : ℕ) (quantity : ℤ) → EconomyCommand
  give_consumable : (user request item cat : ℕ) → EconomyCommand
  draw_of_cats : GachaPolicy → (user request : ℕ) (draw_count : ℤ) → EconomyCommand
  draw_of_game : (ℤ → List RewardDefinition) → (user request : ℕ) (draw_count : ℤ) → EconomyCommand
  apply_surface : (user item : ℕ) → EconomyCommand
  clear_wall : (user : ℕ) → EconomyCommand
  place_piece : (user item : ℕ) → Position → Option ℕ → EconomyCommand
  move_piece : (user object : ℕ) → Position → EconomyCommand
  remove_piece : (user object : ℕ) → EconomyCommand

-- The error that a command raised, if it did, and the database after it.
abbrev pub outcome : {A : Type 0} → Result A × Db → Option Error × Db
outcome (ok a, db) = (none, db)
outcome (err e, db) = (some e, db)

outcome_atomic :
    {A : Type 0} (m : Tx A) (db : Db) (e : Error)
    → IsAtomic m
    → (outcome (run_uow m db)).0 ≡ some e
    → (outcome (run_uow m db)).1 ≡ db
outcome_atomic {A} m db e atomic h = at (run_uow m db) (λ x. run_uow_atomic m db x atomic) h
  where
    at :
        (r : Result A × Db)
        → ((x : Error) → r.0 ≡ err x → r.1 ≡ db)
        → (outcome r).0 ≡ some e
        → (outcome r).1 ≡ db
    at (ok a, db') k h = ground arith
    at (err x, db') k h = k x refl

module _ (d : Digest) (grid_unit : ℕ) (catalog_public_id : String → ℕ) where
  unfoldable pub execute : EconomyCommand → Db → Option Error × Db
  execute (buy_item user request item quantity) db =
      outcome (run_uow (purchase_item d user request item quantity) db)
  execute (give_consumable user request item cat) db =
      outcome (run_uow (use_consumable d user request item cat) db)
  execute (draw_of_cats policy user request draw_count) db =
      outcome (run_uow (draw_cats d policy user request draw_count) db)
  execute (draw_of_game draws user request draw_count) db =
      outcome (run_uow (draw_game_gacha d catalog_public_id draws user request draw_count) db)
  execute (apply_surface user item) db = outcome (run_uow (apply_surface_item user item) db)
  execute (clear_wall user) db = outcome (run_uow (clear_wallpaper user) db)
  execute (place_piece user item position public_id) db =
      outcome (run_uow (place_furniture grid_unit user item position public_id) db)
  execute (move_piece user object position) db =
      outcome (run_uow (update_furniture_placement grid_unit user object position) db)
  execute (remove_piece user object) db =
      outcome (run_uow (remove_furniture_placement grid_unit user object) db)

  -- A purchase, a use of a consumable, a draw of cats, a draw of the game, a surface applied, a
  -- wallpaper cleared, or furniture placed, moved or removed that raises, whatever the error,
  -- leaves the database as it was.
  pub execute_atomic :
      (c : EconomyCommand) (db : Db) (e : Error) → (execute c db).0 ≡ some e → (execute c db).1 ≡ db
  unfolding execute
  execute_atomic (buy_item u q i n) db e = outcome_atomic _ db e (purchase_item-IsAtomic d u q i n)
  execute_atomic (give_consumable u q i c) db e =
      outcome_atomic _ db e (use_consumable-IsAtomic d u q i c)
  execute_atomic (draw_of_cats p u q n) db e = outcome_atomic _ db e (draw_cats-IsAtomic d u q n p)
  execute_atomic (draw_of_game r u q n) db e =
      outcome_atomic _ db e (draw_game_gacha-IsAtomic d catalog_public_id r u q n)
  execute_atomic (apply_surface u i) db e = outcome_atomic _ db e (apply_surface_item-IsAtomic u i)
  execute_atomic (clear_wall u) db e = outcome_atomic _ db e (clear_wallpaper-IsAtomic u)
  execute_atomic (place_piece u i p o) db e =
      outcome_atomic _ db e (place_furniture-IsAtomic grid_unit u i p o)
  execute_atomic (move_piece u o p) db e = outcome_atomic _ db e (update-IsAtomic grid_unit u o p)
  execute_atomic (remove_piece u o) db e = outcome_atomic _ db e (remove-IsAtomic grid_unit u o)
