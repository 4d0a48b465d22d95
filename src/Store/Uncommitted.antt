-- ===== src/Store/Uncommitted.antt =====
-- No repository commits: the commit is the unit of work's alone.
use cat_game_backend.Base.{ℕ, refl, Option, String, List, ℤ, inl, inr, Option-cases, arith}
use cat_game_backend.Store.Rows.{User, Asset, GachaExecution, PlacedObject, Position, ResultData}
use cat_game_backend.Store.Table.{find}
use cat_game_backend.Store.Session.{Tx, modify}
use cat_game_backend.Store.Atomic.{
  IsUncommitted, IsAtomic, uncommitted_rules, atomic_rules, or_raise-IsUncommitted,
  raise-IsUncommitted, IsUncommitted-IsAtomic,
}
use cat_game_backend.Store.Users
use cat_game_backend.Store.Items
use cat_game_backend.Store.Cats
use cat_game_backend.Store.Assets
use cat_game_backend.Store.Assets.{Held, pending, persistent, absent, add_to, consume_from}
use cat_game_backend.Store.Executions
use cat_game_backend.Store.Executions.{ExecutionClaim, replay_or, has_request}
use cat_game_backend.Store.Placements

pub users_by_public_id-IsUncommitted : (p : ℕ) → IsUncommitted (Users.get_by_public_id p)
unfolding Users.get_by_public_id
users_by_public_id-IsUncommitted p = record { at = λ s. refl }

pub users_for_update-IsUncommitted : (i : ℕ) → IsUncommitted (Users.get_for_update i)
unfolding Users.get_for_update
users_for_update-IsUncommitted i = record { at = λ s. refl }

pub save_user-IsUncommitted : (u : User) → IsUncommitted (Users.save u)
unfolding Users.save
save_user-IsUncommitted u = record { at = λ s. refl }

pub items_by_public_id-IsUncommitted : (p : ℕ) → IsUncommitted (Items.get_by_public_id p)
unfolding Items.get_by_public_id
items_by_public_id-IsUncommitted p = record { at = λ s. refl }

pub items_by_id-IsUncommitted : (i : ℕ) → IsUncommitted (Items.get_by_id i)
unfolding Items.get_by_id
items_by_id-IsUncommitted i = record { at = λ s. refl }

pub items_by_key-IsUncommitted : (k : String) → IsUncommitted (Items.get_by_catalog_key k)
unfolding Items.get_by_catalog_key
items_by_key-IsUncommitted k = record { at = λ s. refl }

pub ensure_items-IsUncommitted :
    (seeds : List Items.CatalogItemSeed) → IsUncommitted (Items.ensure_catalog_items seeds)
unfolding Items.ensure_catalog_items
ensure_items-IsUncommitted seeds = record { at = λ s. refl }

pub cats_by_public_id-IsUncommitted : (p : ℕ) → IsUncommitted (Cats.get_by_public_id p)
unfolding Cats.get_by_public_id
cats_by_public_id-IsUncommitted p = record { at = λ s. refl }

pub cats_by_key-IsUncommitted : (k : String) → IsUncommitted (Cats.get_by_catalog_key k)
unfolding Cats.get_by_catalog_key
cats_by_key-IsUncommitted k = record { at = λ s. refl }

pub cat_asset-IsUncommitted : (u c : ℕ) → IsUncommitted (Assets.get_cat_asset u c)
unfolding Assets.get_cat_asset
cat_asset-IsUncommitted u c = record { at = λ s. refl }

pub item_asset-IsUncommitted : (u i : ℕ) → IsUncommitted (Assets.get_item_asset_for_update u i)
unfolding Assets.get_item_asset_for_update
item_asset-IsUncommitted u i = record { at = λ s. refl }

pub modify_add-IsUncommitted : (a : Asset) → IsUncommitted (modify (Assets.add_asset a))
unfolding modify Assets.add_asset
modify_add-IsUncommitted a = record { at = λ s. refl }

pub add_to-IsUncommitted : (h : Held) (u i : ℕ) (q : ℤ) → IsUncommitted (add_to h u i q)
unfolding add_to
add_to-IsUncommitted (pending a) u i q = record { at = λ s. refl }
add_to-IsUncommitted (persistent a) u i q = record { at = λ s. refl }
add_to-IsUncommitted absent u i q = record { at = λ s. refl }

pub add_quantity-IsUncommitted : (u i : ℕ) (q : ℤ) → IsUncommitted (Assets.add_item_quantity u i q)
unfolding Assets.add_item_quantity
add_quantity-IsUncommitted u i q = search (uncommitted_rules, add_to-IsUncommitted)

pub consume_from-IsUncommitted : (h : Held) → IsUncommitted (consume_from h)
unfolding consume_from
consume_from-IsUncommitted absent = record { at = λ s. refl }
consume_from-IsUncommitted (pending a) = record { at = λ s. ground arith }
consume_from-IsUncommitted (persistent a) = record { at = λ s. ground arith }

pub consume-IsUncommitted : (u i : ℕ) → IsUncommitted (Assets.consume_item_quantity_for_update u i)
unfolding Assets.consume_item_quantity_for_update
consume-IsUncommitted u i = search (uncommitted_rules, consume_from-IsUncommitted)

pub grant_cat-IsUncommitted : (u c : ℕ) → IsUncommitted (Assets.grant_cat u c)
unfolding Assets.grant_cat
grant_cat-IsUncommitted u c = record { at = λ s. ground arith }

pub claim-IsUncommitted : (u q : ℕ) (h o : String) → IsUncommitted (Executions.claim u q h o)
unfolding Executions.claim
claim-IsUncommitted u q h o = record {
  at = λ s. elim (Option-cases (find (has_request q) s.db.executions)) [
    | inl e ↦ rw (e, Executions.claim)
    | inr (x, e) ↦ rw (e, Executions.claim)
  ];
}

pub complete-IsUncommitted :
    (e : GachaExecution) (c : ℤ) (r : ResultData) → IsUncommitted (Executions.complete e c r)
unfolding Executions.complete
complete-IsUncommitted e c r = search uncommitted_rules

pub replay_or-IsAtomic :
    (c : ExecutionClaim) (m : Tx ResultData) → IsAtomic m → IsAtomic (replay_or c m)
unfolding replay_or
replay_or-IsAtomic c m h = record { at = λ s e p. ground (arith, h.at s e) }

pub placed_by_public_id-IsUncommitted :
    (p : ℕ) → IsUncommitted (Placements.get_by_public_id_for_update p)
unfolding Placements.get_by_public_id_for_update
placed_by_public_id-IsUncommitted p = record { at = λ s. refl }

pub count-IsUncommitted : (u i : ℕ) → IsUncommitted (Placements.count_for_update u i)
unfolding Placements.count_for_update
count-IsUncommitted u i = record { at = λ s. refl }

pub list-IsUncommitted : (u : ℕ) → IsUncommitted (Placements.list_for_update u)
unfolding Placements.list_for_update
list-IsUncommitted u = record { at = λ s. refl }

pub add_placed-IsUncommitted :
    (u i : ℕ) (x : Position) (p : Option ℕ) → IsUncommitted (Placements.add u i x p)
unfolding Placements.add
add_placed-IsUncommitted u i x p = record { at = λ s. refl }

pub save_placed-IsUncommitted : (p : PlacedObject) → IsUncommitted (Placements.save p)
unfolding Placements.save
save_placed-IsUncommitted p = record { at = λ s. refl }

pub remove_placed-IsUncommitted : (p : PlacedObject) → IsUncommitted (Placements.remove p)
unfolding Placements.remove
remove_placed-IsUncommitted p = record { at = λ s. refl }

pub ruleset repository_rules = (
  atomic_rules, replay_or-IsAtomic, users_by_public_id-IsUncommitted,
  users_for_update-IsUncommitted, save_user-IsUncommitted, items_by_public_id-IsUncommitted,
  items_by_id-IsUncommitted, items_by_key-IsUncommitted, ensure_items-IsUncommitted,
  cats_by_public_id-IsUncommitted, cats_by_key-IsUncommitted, cat_asset-IsUncommitted,
  item_asset-IsUncommitted, add_quantity-IsUncommitted, consume-IsUncommitted,
  grant_cat-IsUncommitted, claim-IsUncommitted, complete-IsUncommitted,
  placed_by_public_id-IsUncommitted, count-IsUncommitted, list-IsUncommitted,
  add_placed-IsUncommitted, save_placed-IsUncommitted, remove_placed-IsUncommitted,
)
