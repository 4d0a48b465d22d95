-- ===== src/Housing/Atomicity.antt =====
-- A housing command that raises leaves the database alone.
use cat_game_backend.Base.{ℕ, Option, none, some}
use cat_game_backend.Store.Rows.{
  User, Item, PlacedObject, Position, item_row, user_row, placed_object_row,
}
use cat_game_backend.Store.Atomic.{IsUncommitted, IsAtomic, IsUncommitted-IsAtomic}
use cat_game_backend.Store.Uncommitted.{repository_rules}
use cat_game_backend.Housing.{
  lock_user, ensure_placement_free, place_furniture, place_new, place_existing,
  update_furniture_placement, remove_furniture_placement, find_existing,
}

pub lock_user-IsUncommitted : (u : ℕ) → IsUncommitted (lock_user u)
unfolding lock_user
lock_user-IsUncommitted u = search repository_rules depth 20

find_existing-IsUncommitted : (o : Option ℕ) → IsUncommitted (find_existing o)
unfolding find_existing
find_existing-IsUncommitted none = search repository_rules
find_existing-IsUncommitted (some p) = search repository_rules

module _ (grid_unit : ℕ) where
  ensure_placement_free-IsUncommitted :
      (u : ℕ) (i : Item) (p : Position) (o : Option ℕ)
      → IsUncommitted (ensure_placement_free grid_unit u i p o)
  unfolding ensure_placement_free
  ensure_placement_free-IsUncommitted u i p o = search repository_rules depth 20

  place_new-IsAtomic :
      (u : User) (i : Item) (p : Position) (o : Option ℕ) → IsAtomic (place_new grid_unit u i p o)
  unfolding place_new
  place_new-IsAtomic u i p o =
      search (repository_rules, ensure_placement_free-IsUncommitted) depth 20

  place_existing-IsUncommitted :
      (u : User) (i : Item) (p : Position) (o : PlacedObject)
      → IsUncommitted (place_existing grid_unit u i p o)
  unfolding place_existing
  place_existing-IsUncommitted u i p o = search repository_rules depth 20

  place_or_replay-IsAtomic :
      (u : User) (i : Item) (p : Position) (id : Option ℕ) (o : Option PlacedObject)
      → IsAtomic (elim o [
        | none ↦ place_new grid_unit u i p id
        | some q ↦ place_existing grid_unit u i p q
      ])
  place_or_replay-IsAtomic u i p id none = place_new-IsAtomic u i p id
  place_or_replay-IsAtomic u i p id (some q) =
      IsUncommitted-IsAtomic (place_existing-IsUncommitted u i p q)

  pub place_furniture-IsAtomic :
      (u i : ℕ) (p : Position) (id : Option ℕ) → IsAtomic (place_furniture grid_unit u i p id)
  unfolding place_furniture
  place_furniture-IsAtomic u i p id =
      search
        (
          repository_rules, lock_user-IsUncommitted, find_existing-IsUncommitted,
          place_or_replay-IsAtomic,
        )
        depth 20

  pub update-IsAtomic :
      (u o : ℕ) (p : Position) → IsAtomic (update_furniture_placement grid_unit u o p)
  unfolding update_furniture_placement
  update-IsAtomic u o p =
      search (repository_rules, lock_user-IsUncommitted, ensure_placement_free-IsUncommitted) depth
        20

  pub remove-IsAtomic : (u o : ℕ) → IsAtomic (remove_furniture_placement grid_unit u o)
  unfolding remove_furniture_placement
  remove-IsAtomic u o = search (repository_rules, lock_user-IsUncommitted) depth 20
