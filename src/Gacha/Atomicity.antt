-- ===== src/Gacha/Atomicity.antt =====
-- A draw that raises changes nothing.
use cat_game_backend.Base.{ℕ, List, [], ◌∷◌, ℤ}
use cat_game_backend.Core.Error.{Missing, resource_not_found}
use cat_game_backend.Core.RequestHash.{Digest}
use cat_game_backend.Store.Rows.{User, CatDraw, GachaExecution, user_row}
use cat_game_backend.Store.Atomic.{
  bind-IsUncommitted, or_raise-IsUncommitted, pure-IsUncommitted, IsUncommitted, IsAtomic,
}
use cat_game_backend.Store.Uncommitted.{repository_rules, cats_by_public_id-IsUncommitted}
use cat_game_backend.Gacha.{
  GachaPolicy, GachaReward, draw_cats, draw_fresh, finish, select_cats, award_all,
}
use cat_game_backend.Gacha.Owning.{found_in, Finds-found}
use cat_game_backend.Gacha.Outcome.{award_all-Awarded}

select_cats-IsUncommitted : (rewards : List GachaReward) → IsUncommitted (select_cats rewards)
unfolding select_cats
select_cats-IsUncommitted [] = search repository_rules
select_cats-IsUncommitted (r ∷ rewards) =
    bind-IsUncommitted _ _ (cats_by_public_id-IsUncommitted r.cat_public_id) (λ found.
      bind-IsUncommitted _ _ (or_raise-IsUncommitted found (resource_not_found Missing.cat)) (λ cat.
        bind-IsUncommitted _ _ (select_cats-IsUncommitted rewards)
          (λ rest. pure-IsUncommitted ((cat, r.duplicate_mileage) ∷ rest))))

award_all-IsUncommitted : (u : User) (selected : _) → IsUncommitted (award_all u selected)
award_all-IsUncommitted u selected = record {
  at = λ s i.
      ((award_all-Awarded u selected s (found_in u.id s) (Finds-found u.id s)).returns
        i).1.committed;
}

finish-IsAtomic :
    (u : User) (rs : List CatDraw) (e : GachaExecution) (q : ℕ) (n c : ℤ)
    → IsAtomic (finish u rs e q n c)
unfolding finish
finish-IsAtomic u rs e q n c = search repository_rules depth 20

draw_fresh-IsAtomic :
    (p : GachaPolicy) (u : User) (e : GachaExecution) (q : ℕ) (n : ℤ)
    → IsAtomic (draw_fresh p u e q n)
unfolding draw_fresh
draw_fresh-IsAtomic p u e q n =
    search (repository_rules, select_cats-IsUncommitted, award_all-IsUncommitted, finish-IsAtomic)
      depth 30

module _ (d : Digest) (user_public_id request_id : ℕ) (n : ℤ) where
  pub draw_cats-IsAtomic :
      (policy : GachaPolicy) → IsAtomic (draw_cats d policy user_public_id request_id n)
  unfolding draw_cats
  draw_cats-IsAtomic policy = search (repository_rules, draw_fresh-IsAtomic) depth 20
