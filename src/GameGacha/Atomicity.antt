-- ===== src/GameGacha/Atomicity.antt =====
-- A draw of the game that raises changes nothing.
use cat_game_backend.Base.{ℕ, String, Bool, true, false, Option, none, some, List, [], ◌∷◌, ℤ}
use cat_game_backend.Core.RequestHash.{Digest}
use cat_game_backend.Store.Rows.{User, Cat, Asset, GameReward, GachaExecution}
use cat_game_backend.Store.Atomic.{IsUncommitted, IsAtomic, bind-IsUncommitted, pure-IsUncommitted}
use cat_game_backend.Store.Uncommitted.{repository_rules}
use cat_game_backend.GameGacha.{
  RewardDefinition, give_cat, give_reward, give_rewards, finish_gacha, draw_new, draw_game_gacha,
}

give_cat-IsUncommitted :
    (u : User) (c : Cat) (k : String) (a : Option Asset) → IsUncommitted (give_cat u c k a)
unfolding give_cat
give_cat-IsUncommitted u c k none = search repository_rules depth 20
give_cat-IsUncommitted u c k (some a) = search repository_rules depth 20

give_reward-IsUncommitted : (u : User) (k : String) (b : Bool) → IsUncommitted (give_reward u k b)
unfolding give_reward
give_reward-IsUncommitted u k true = search (repository_rules, give_cat-IsUncommitted) depth 20
give_reward-IsUncommitted u k false = search repository_rules depth 20

give_rewards-IsUncommitted :
    (u : User) (ds : List RewardDefinition) → IsUncommitted (give_rewards u ds)
unfolding give_rewards
give_rewards-IsUncommitted u [] = search repository_rules
give_rewards-IsUncommitted u (r ∷ ds) =
    bind-IsUncommitted _ _ (give_reward-IsUncommitted u r.catalog_key r.is_cat) (λ first.
      bind-IsUncommitted _ _ (give_rewards-IsUncommitted first.0 ds)
        (λ rest. pure-IsUncommitted (rest.0, first.1 ∷ rest.1)))

finish_gacha-IsAtomic :
    (u : User) (rs : List GameReward) (e : GachaExecution) (q : ℕ) (n c : ℤ)
    → IsAtomic (finish_gacha u rs e q n c)
unfolding finish_gacha
finish_gacha-IsAtomic u rs e q n c = search repository_rules depth 20

draw_new-IsAtomic :
    (ds : List RewardDefinition) (u : User) (e : GachaExecution) (q : ℕ) (n c : ℤ)
    → IsAtomic (draw_new ds u e q n c)
unfolding draw_new
draw_new-IsAtomic ds u e q n c =
    search (repository_rules, give_rewards-IsUncommitted, finish_gacha-IsAtomic) depth 30

module _ (d : Digest) (catalog_public_id : String → ℕ) where
  pub draw_game_gacha-IsAtomic :
      (draws : ℤ → List RewardDefinition) (p q : ℕ) (n : ℤ)
      → IsAtomic (draw_game_gacha d catalog_public_id draws p q n)
  unfolding draw_game_gacha
  draw_game_gacha-IsAtomic draws p q n = search (repository_rules, draw_new-IsAtomic) depth 30
