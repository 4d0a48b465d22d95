-- ===== src/Housing.antt =====
-- Wallpapers, floors and furniture: app/modules/housing/service.py.
pub mod Geometry
pub mod Layout
pub mod Placing
pub mod Atomicity
pub mod Surfaces
pub mod Room
pub mod Removal
pub mod Stock
pub mod Sequences
use cat_game_backend.Base.{
  eqb_ℤ, ℕ, Bool, true, false, not, ◌||◌, ◌&&◌, Option, none, some, ◌==◌, if◌then◌else◌, pos, leb_ℤ,
}
use cat_game_backend.Core.Error.{
  Error, Missing, resource_not_found, invalid_item_category, idempotency_conflict,
  placement_limit_exceeded, ok, err,
}
use cat_game_backend.Store.Rows.{
  User, Item, Asset, Category, PlacedObject, Position, advance_state_version, is_surface,
  is_wallpaper, is_furniture,
}
use cat_game_backend.Store.Session.{
  Session, Tx, pure, or_raise, raise_if, raise_option, gets, ◌>>=◌, ◌>>◌, commit,
}
use cat_game_backend.Store.Users
use cat_game_backend.Store.Items
use cat_game_backend.Store.Assets
use cat_game_backend.Store.Placements
use cat_game_backend.Housing.Geometry.{ensure_error}

-- `SurfaceApplicationRead` of app/schemas/housing.py.
pub record SurfaceApplicationRead : Type 0 where
  pub user_public_id : ℕ
  pub item_public_id : ℕ
  pub category : Category

-- The assignment to `wallpaper_item_id` or `floor_item_id`.
unfoldable pub with_surface : User → Item → User
with_surface user item =
    if is_wallpaper item.category
    then record user { wallpaper_item_id = some item.id }
    else record user { floor_item_id = some item.id }

-- The lines with which the commands on placements begin.
unfoldable pub lock_user : ℕ → Tx User
unfolding ◌>>=◌ or_raise Users.get_by_public_id Users.get_for_update
lock_user user_public_id = do
  found ← Users.get_by_public_id user_public_id
  user ← or_raise found (resource_not_found Missing.user)
  locked ← Users.get_for_update user.id
  or_raise locked (resource_not_found Missing.user)

unfoldable pub apply_surface_item : ℕ → ℕ → Tx SurfaceApplicationRead
unfolding ◌>>=◌ raise_if or_raise Users.get_by_public_id Users.get_for_update Users.save
    Items.get_by_public_id Assets.get_item_asset_for_update commit with_surface
apply_surface_item user_public_id item_public_id = do
  found ← Users.get_by_public_id user_public_id
  user ← or_raise found (resource_not_found Missing.user)
  found_item ← Items.get_by_public_id item_public_id
  item ← or_raise found_item (resource_not_found Missing.item)
  locked ← Users.get_for_update user.id
  locked_user ← or_raise locked (resource_not_found Missing.user)
  raise_if (not (is_surface item.category)) invalid_item_category
  owned ← Assets.get_item_asset_for_update locked_user.id item.id
  asset ← or_raise owned (resource_not_found Missing.item_asset)
  Users.save (advance_state_version (with_surface locked_user item))
  commit
  pure (record {
    user_public_id = locked_user.public_id;
    item_public_id = item.public_id;
    category = item.category;
  })

unfoldable pub clear_wallpaper : ℕ → Tx (Unit {0})
unfolding ◌>>=◌ lock_user Users.save commit
clear_wallpaper user_public_id = do
  locked_user ← lock_user user_public_id
  Users.save (advance_state_version (record locked_user { wallpaper_item_id = none }))
  commit
  pure tt

-- `PlacedObjectRead` of app/schemas/placed_object.py.
pub record PlacedObjectRead : Type 0 where
  pub public_id : ℕ
  pub item_public_id : ℕ
  pub position_data : Position

unfoldable pub to_placed_object_read : PlacedObject → ℕ → PlacedObjectRead
to_placed_object_read p item_public_id = record {
  public_id = p.public_id;
  item_public_id = item_public_id;
  position_data = p.position_data;
}

unfoldable pub same_position : Position → Position → Bool
same_position p q = eqb_ℤ p.x q.x && eqb_ℤ p.y q.y && eqb_ℤ p.z q.z

-- The lookup by the id that the client chose, if it chose one.
unfoldable pub find_existing : Option ℕ → Tx (Option PlacedObject)
unfolding Placements.get_by_public_id_for_update
find_existing none = pure none
find_existing (some p) = Placements.get_by_public_id_for_update p

module _ (grid_unit : ℕ) where
  -- `_ensure_placement_free`
  unfoldable pub ensure_placement_free : ℕ → Item → Position → Option ℕ → Tx (Unit {0})
  unfolding ◌>>=◌ raise_option gets Placements.list_for_update
  ensure_placement_free user_id item position_data excluded = do
    placed ← Placements.list_for_update user_id
    conflict ← gets (λ s. ensure_error grid_unit s.db.items item position_data excluded placed)
    raise_option conflict

  -- The part of `place_furniture` that adds a new object.
  unfoldable pub place_new : User → Item → Position → Option ℕ → Tx PlacedObjectRead
  unfolding ◌>>=◌ raise_if or_raise Assets.get_item_asset_for_update Placements.count_for_update
      Placements.add Users.save commit ensure_placement_free to_placed_object_read
  place_new locked_user item position_data placement_public_id = do
    owned ← Assets.get_item_asset_for_update locked_user.id item.id
    asset ← or_raise owned (resource_not_found Missing.item_asset)
    placed_count ← Placements.count_for_update locked_user.id item.id
    raise_if (leb_ℤ asset.quantity (pos placed_count)) placement_limit_exceeded
    ensure_placement_free locked_user.id item position_data none
    placed_object ← Placements.add locked_user.id item.id position_data placement_public_id
    Users.save (advance_state_version locked_user)
    commit
    pure (to_placed_object_read placed_object item.public_id)

  -- A placement that exists already is returned if it is the same, and a conflict otherwise.
  unfoldable pub place_existing : User → Item → Position → PlacedObject → Tx PlacedObjectRead
  unfolding ◌>>=◌ raise_if to_placed_object_read same_position
  place_existing user item position_data existing = do
    raise_if
        (not (existing.user_id == user.id)
          || not (existing.item_id == item.id)
          || not (same_position existing.position_data position_data))
        idempotency_conflict
    pure (to_placed_object_read existing item.public_id)

  unfoldable pub place_furniture : ℕ → ℕ → Position → Option ℕ → Tx PlacedObjectRead
  unfolding ◌>>=◌ raise_if or_raise lock_user Items.get_by_public_id find_existing place_new
      place_existing
  place_furniture user_public_id item_public_id position_data placement_public_id = do
    locked_user ← lock_user user_public_id
    found_item ← Items.get_by_public_id item_public_id
    item ← or_raise found_item (resource_not_found Missing.item)
    raise_if (not (is_furniture item.category)) invalid_item_category
    existing ← find_existing placement_public_id
    elim existing [
      | none ↦ place_new locked_user item position_data placement_public_id
      | some p ↦ place_existing locked_user item position_data p
    ]

  -- `placed_object is None or placed_object.user_id != user.id`
  abbrev pub own_object : ℕ → Option PlacedObject → Option PlacedObject
  own_object user_id none = none
  own_object user_id (some p) = if p.user_id == user_id then some p else none

  unfoldable pub update_furniture_placement : ℕ → ℕ → Position → Tx PlacedObjectRead
  unfolding ◌>>=◌ or_raise lock_user Placements.get_by_public_id_for_update Items.get_by_id
      ensure_placement_free Placements.save Users.save commit to_placed_object_read
  update_furniture_placement user_public_id placed_object_public_id position_data = do
    locked_user ← lock_user user_public_id
    found ← Placements.get_by_public_id_for_update placed_object_public_id
    placed_object ←
        or_raise (own_object locked_user.id found) (resource_not_found Missing.placed_object)
    found_item ← Items.get_by_id placed_object.item_id
    item ← or_raise found_item (resource_not_found Missing.item)
    ensure_placement_free locked_user.id item position_data (some placed_object.id)
    let moved = record placed_object { position_data = position_data }
    Placements.save moved
    Users.save (advance_state_version locked_user)
    commit
    pure (to_placed_object_read moved item.public_id)

  unfoldable pub remove_furniture_placement : ℕ → ℕ → Tx (Unit {0})
  unfolding ◌>>=◌ or_raise lock_user Placements.get_by_public_id_for_update Placements.remove
      Users.save commit
  remove_furniture_placement user_public_id placed_object_public_id = do
    locked_user ← lock_user user_public_id
    found ← Placements.get_by_public_id_for_update placed_object_public_id
    placed_object ←
        or_raise (own_object locked_user.id found) (resource_not_found Missing.placed_object)
    Placements.remove placed_object
    Users.save (advance_state_version locked_user)
    commit
    pure tt
