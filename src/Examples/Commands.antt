-- ===== src/Examples/Commands.antt =====
-- A draw of the game that Bob cannot pay.
use cat_game_backend.Base.{◌≡◌, refl, [], pos, ◌∷◌, true}
use cat_game_backend.Core.Error.{insufficient_balance}
use cat_game_backend.Store.Session.{run_uow}
use cat_game_backend.GameGacha.{draw_game_gacha}
use cat_game_backend.Commands.{draw_of_game, execute, execute_atomic}
use cat_game_backend.Examples.{digest, db}

execute_atomic_example :
    (execute digest 1
      (λ k. 7)
      (draw_of_game (λ n. record { catalog_key = "ink"; is_cat = true } ∷ []) 102 9 (pos 1))
      db).1
    ≡ db
unfolding execute run_uow draw_game_gacha
execute_atomic_example =
    execute_atomic digest 1 (λ k. 7)
      (draw_of_game (λ n. record { catalog_key = "ink"; is_cat = true } ∷ []) 102 9 (pos 1)) db
      insufficient_balance refl
