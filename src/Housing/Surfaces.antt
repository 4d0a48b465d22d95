-- ===== src/Housing/Surfaces.antt =====
-- What applying a wallpaper or a floor changes.
use cat_game_backend.Base.{
  ℕ, ◌≡◌, sym, true, some, List, inl, inr, arith, Option-cases, ◌==◌, if◌then◌else◌,
}
use cat_game_backend.Core.Error.{ok}
use cat_game_backend.Store.Rows.{
  User, Item, Asset, is_surface, is_wallpaper, advance_state_version, user_row, item_row,
}
use cat_game_backend.Store.Table.{Distinct, get, get-put, get-find, find, put}
use cat_game_backend.Store.Session.{Db, Session, begin, run_uow, run_uow-ok}
use cat_game_backend.Store.Atomic.{IsAtomic}
use cat_game_backend.Store.Uncommitted.{repository_rules}
use cat_game_backend.Store.Assets.{is_item_asset}
use cat_game_backend.Housing.{
  apply_surface_item, clear_wallpaper, with_surface, SurfaceApplicationRead,
}
use cat_game_backend.Housing.Atomicity.{lock_user-IsUncommitted}

-- The database after `player` has put `item` on the wall or the floor.
pub record Decorated (player : User) (item : Item) (db db' : Db) : Type 0 where
  pub surface : is_surface item.category ≡ true
  pub stock : Asset
  pub owned : find (is_item_asset player.id item.id) db.assets ≡ some stock
  pub users :
      (j : ℕ)
      → get j db'.users ≡ (
          if j == player.id
          then some (
              advance_state_version (
                if is_wallpaper item.category
                then record player { wallpaper_item_id = some item.id }
                else record player { floor_item_id = some item.id }))
          else get j db.users)
  pub assets : db'.assets ≡ db.assets
  pub placed_objects : db'.placed_objects ≡ db.placed_objects

surface_id : (u : User) (i : Item) → (with_surface u i).id ≡ u.id
unfolding with_surface
surface_id u i = ground arith

decorated_row :
    (u : User) (i : Item) (t : List User) (j : ℕ)
    → get u.id t ≡ some u
    → get j (put (advance_state_version (with_surface u i)) t) ≡ (
        if j == u.id
        then some (
            advance_state_version (
              if is_wallpaper i.category
              then record u { wallpaper_item_id = some i.id }
              else record u { floor_item_id = some i.id }))
        else get j t)
unfolding advance_state_version with_surface
decorated_row u i t j row =
    ground (arith, surface_id u i, get-put j (advance_state_version (with_surface u i)) t)

apply_steps :
    (user_public_id item_public_id : ℕ) (db : Db) (s' : Session) (r : SurfaceApplicationRead)
    → Distinct db.users
    → apply_surface_item user_public_id item_public_id (begin db) ≡ (ok r, s')
    → (player : User) × (item : Item) × (find (λ u. u.public_id == user_public_id) db.users
        ≡ some player)
      × (find (λ i. i.public_id == item_public_id) db.items ≡ some item)
      × Decorated player item db s'.committed
unfolding apply_surface_item
apply_steps user_public_id item_public_id db s' r keys h =
    elim (Option-cases (find (λ u. u.public_id == user_public_id) db.users)) [
      | inl unknown ↦ ground arith
      | inr (player, found) ↦
          elim (Option-cases (find (λ i. i.public_id == item_public_id) db.items)) [
            | inl no_item ↦ ground arith
            | inr (item, found_item) ↦
                let row : get player.id db.users ≡ some player =
                  get-find (λ (u : User). u.public_id == user_public_id) player db.users keys
                    found in
                elim (Option-cases (find (is_item_asset player.id item.id) db.assets)) [
                  | inl no_asset ↦ ground (arith, row)
                  | inr (a, owned) ↦ (
                    player,
                    item,
                    found,
                    found_item,
                    record {
                      surface = ground (arith, row);
                      stock = a;
                      owned = owned;
                      users = λ j.
                          let written : s'.committed.users
                              ≡ put (advance_state_version (with_surface player item)) db.users =
                            ground (arith, row) in
                          rw written (decorated_row player item db.users j row);
                      assets = ground (arith, row);
                      placed_objects = ground (arith, row);
                    },
                  )
                ]
          ]
    ]

pub apply_surface_item-IsAtomic : (u i : ℕ) → IsAtomic (apply_surface_item u i)
unfolding apply_surface_item
apply_surface_item-IsAtomic u i = search repository_rules depth 30

pub clear_wallpaper-IsAtomic : (u : ℕ) → IsAtomic (clear_wallpaper u)
unfolding clear_wallpaper
clear_wallpaper-IsAtomic u = search (repository_rules, lock_user-IsUncommitted) depth 30

-- If the primary keys of the users are distinct, a call that applies a surface and returns found
-- its player and its item, which is a wallpaper or a floor that the player owns; the player's row
-- has the item as wallpaper or as floor, by its category, with the state version moved on; no
-- other user row, no asset and no placed object differs.
pub apply_surface_item-Decorated :
    (user_public_id item_public_id : ℕ) (db db' : Db) (r : SurfaceApplicationRead)
    → Distinct db.users
    → run_uow (apply_surface_item user_public_id item_public_id) db ≡ (ok r, db')
    → (player : User) × (item : Item) × (find (λ u. u.public_id == user_public_id) db.users
        ≡ some player)
      × (find (λ i. i.public_id == item_public_id) db.items ≡ some item)
      × Decorated player item db db'
apply_surface_item-Decorated user_public_id item_public_id db db' r keys h =
    let (s', ran, same) =
      run_uow-ok (apply_surface_item user_public_id item_public_id) db db' r h in
    rw (sym same) (apply_steps user_public_id item_public_id db s' r keys ran)
