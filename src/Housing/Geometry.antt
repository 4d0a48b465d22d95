-- ===== src/Housing/Geometry.antt =====
-- The geometry of app/modules/housing/service.py. A coordinate is a finite float, which the model
-- counts in a unit so small that every coordinate is a whole number of units: `grid_unit` units
-- make one cell of the grid.
use cat_game_backend.Base.{
  eqb_ℤ, ℕ, ◌*◌, ◌/◌, ◌%◌, Bool, not, ◌&&◌, ◌||◌, Option, none, some, List, [], ◌∷◌, ◌==◌, opt_eq,
  if◌then◌else◌, ℤ, pos, pos_part, neg_part, ◌+ℤ◌, ltb_ℤ,
}
use cat_game_backend.Core.Error.{
  Error, Missing, resource_not_found, placement_outside_room, placement_occupied,
}
use cat_game_backend.Store.Rows.{Item, PlacedObject, Position, item_row}
use cat_game_backend.Store.Table.{get}
use cat_game_backend.Catalog.{item_by_key, room_grid_width, room_grid_height}
use cat_game_backend.Catalog.Definitions.{ItemDefinition}

-- The width and the height of a definition that has both.
abbrev pub both : Option ℕ → Option ℕ → Option (ℕ × ℕ)
both (some w) (some h) = some (w, h)
both _ _ = none

abbrev pub footprint_of : Option ItemDefinition → Option (ℕ × ℕ)
footprint_of none = none
footprint_of (some definition) = both definition.width definition.height

unfoldable pub footprint : Item → Option (ℕ × ℕ)
footprint item = footprint_of (item_by_key item.catalog_key)

pub record Rect : Type 0 where
  pub left : ℤ
  pub right : ℤ
  pub top : ℤ
  pub bottom : ℤ

-- The four comparisons of the overlap test.
unfoldable pub overlaps : Rect → Rect → Bool
overlaps a b =
    ltb_ℤ a.left b.right && ltb_ℤ b.left a.right && ltb_ℤ a.top b.bottom && ltb_ℤ b.top a.bottom

module _ (grid_unit : ℕ) where
  -- `float.is_integer`
  unfoldable pub is_integer : ℤ → Bool
  is_integer x = pos_part x % grid_unit == 0 && neg_part x % grid_unit == 0

  -- `rotation not in {0, 1}` is the negation.
  unfoldable pub is_rotation : ℤ → Bool
  is_rotation z = eqb_ℤ z (pos 0) || eqb_ℤ z (pos grid_unit)

  -- `int(z) == 1`: Python's `int` truncates.
  unfoldable pub is_turned : ℤ → Bool
  is_turned z = pos_part z / grid_unit == 1

  unfoldable pub rect : Bool → ℕ × ℕ → Position → Rect
  rect turned (width, height) p = record {
    left = p.x;
    right = p.x +ℤ pos ((if turned then height else width) * grid_unit);
    top = p.y;
    bottom = p.y +ℤ pos ((if turned then width else height) * grid_unit);
  }

  -- `x < 0 or y < 0 or x + width > ROOM_GRID_WIDTH or y + height > ROOM_GRID_HEIGHT`
  unfoldable pub is_outside : Rect → Bool
  is_outside r =
      ltb_ℤ r.left (pos 0)
      || ltb_ℤ r.top (pos 0)
      || ltb_ℤ (pos (room_grid_width * grid_unit)) r.right
      || ltb_ℤ (pos (room_grid_height * grid_unit)) r.bottom

  -- The loop over the player's placed objects: the error that it raises, if any.
  unfoldable pub placement_error : List Item → Rect → Option ℕ → List PlacedObject → Option Error
  unfolding get
  placement_error items new excluded [] = none
  placement_error items new excluded (p ∷ placed) =
      let rest = placement_error items new excluded placed in
      if opt_eq excluded (some p.id) then rest else elim (get p.item_id items) [
        | none ↦ some (resource_not_found Missing.placed_item)
        | some other_item ↦ elim (footprint other_item) [
          | none ↦ rest
          | some size ↦
              (if overlaps new (rect (is_turned p.position_data.z) size p.position_data)
                then some placement_occupied
                else rest)
        ]
      ]

  -- `_ensure_placement_free` of an item with a width and a height.
  unfoldable pub free_error :
      List Item → ℕ × ℕ → Position → Option ℕ → List PlacedObject → Option Error
  unfolding is_integer is_rotation is_outside rect placement_error
  free_error items size p excluded placed =
      let new = rect (eqb_ℤ p.z (pos grid_unit)) size p in
      let conflict = placement_error items new excluded placed in
      if not (is_integer p.x) || not (is_integer p.y) || not (is_rotation p.z)
      then some placement_outside_room
      else (if is_outside new then some placement_outside_room else conflict)

  unfoldable pub ensure_error :
      List Item → Item → Position → Option ℕ → List PlacedObject → Option Error
  unfolding free_error footprint
  ensure_error items item p excluded placed = elim (footprint item) [
    | none ↦ none
    | some size ↦ free_error items size p excluded placed
  ]
