-- ===== src/Examples/Gacha.antt =====
-- Draws on a concrete database.
use cat_game_backend.Base.{◌==◌, ◌≡◌, refl, true, some, [], ◌∷◌, pos, arith}
use cat_game_backend.Base.Int.{◌+ℤ◌, ◌-ℤ◌}
use cat_game_backend.Core.Error.{ok}
use cat_game_backend.Store.Rows.{User, CatDraw, ResultData, user_row}
use cat_game_backend.Store.Table.{find, get}
use cat_game_backend.Store.Session.{Db, run_uow}
use cat_game_backend.Gacha.{GachaPolicy, draw_cats, select_cats, award_all, finish}
use cat_game_backend.Gacha.Effect.{Draw, draw_cats-Draw}
use cat_game_backend.Gacha.Retry.{draw_cats_retry}
use cat_game_backend.Gacha.Atomicity.{}
use cat_game_backend.Examples.{digest, db}

-- Luna, whom Ada has, for 100 coins a draw.
abbrev policy : GachaPolicy
policy = record {
  calculate_balance_cost = λ n. pos 100;
  draw = λ n. record { cat_public_id = 121; duplicate_mileage = pos 7 } ∷ [];
}

abbrev luna_again : CatDraw
luna_again = record {
  cat_public_id = 121;
  name = "Luna";
  rarity = "COMMON";
  is_duplicate = true;
  mileage_awarded = pos 7;
}

abbrev after_draw : Db
after_draw = (run_uow (draw_cats digest policy 101 9 (pos 1)) db).1

abbrev reward : ResultData
reward = ResultData.cat_gacha 1050 9 (pos 1) (pos 0) (pos 100) (pos 900) (pos 7) (luna_again ∷ [])

draw_runs : run_uow (draw_cats digest policy 101 9 (pos 1)) db ≡ (ok reward, after_draw)
unfolding run_uow draw_cats select_cats award_all finish ◌+ℤ◌ ◌-ℤ◌
draw_runs = refl

draw_cats-Draw_example :
    (player : User) × (find (λ u. u.public_id == 101) db.users ≡ some player)
    × Draw policy 9 (pos 1) player db reward after_draw
unfolding find get
draw_cats-Draw_example =
    draw_cats-Draw digest 101 9 (pos 1) policy db after_draw reward (ground arith) refl draw_runs

-- The policy of the second call draws nothing.
abbrev empty_policy : GachaPolicy
empty_policy = record { calculate_balance_cost = λ n. pos 1; draw = λ n. [] }

draw_cats_retry_example :
    run_uow (draw_cats digest empty_policy 101 9 (pos 1)) after_draw ≡ (ok reward, after_draw)
unfolding find get
draw_cats_retry_example =
    draw_cats_retry digest 101 9 (pos 1) policy empty_policy db after_draw reward (ground arith)
      draw_runs
