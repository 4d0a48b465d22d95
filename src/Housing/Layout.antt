-- ===== src/Housing/Layout.antt =====
-- The room: every object with a footprint lies inside, and no two objects of a player overlap.
use cat_game_backend.Base.{
  leb_ℤ, ◌&&◌, ◌*◌, eqb_ℤ, ℕ, ◌/◌, ◌<◌, ◌≡◌, refl, Bool, true, false, not, ◌||◌, Option, none, some,
  List, [], ◌∷◌, inl, inr, arith, All, All-append, All-of, Bool-cases, Option-cases, ◌==◌, opt_eq,
  ℤ, pos, pos_part,
}
use cat_game_backend.Catalog.{room_grid_width, room_grid_height}
use cat_game_backend.Store.Rows.{Item, PlacedObject, Position, item_row, placed_object_row}
use cat_game_backend.Store.Table.{
  Distinct, get, put, insert_row, delete_row, All-put, All-delete_row, put_absent, absent-All,
}
use cat_game_backend.Housing.Geometry.{
  overlaps, Rect, rect, is_outside, is_turned, is_rotation, footprint, placement_error, free_error,
  ensure_error,
}

-- Two rectangles share no point of their interiors.
abbrev pub is_apart : Rect → Rect → Bool
is_apart a b =
    leb_ℤ a.right b.left || leb_ℤ b.right a.left || leb_ℤ a.bottom b.top || leb_ℤ b.bottom a.top

is_apart_comm : (a b : Rect) → is_apart a b ≡ is_apart b a
is_apart_comm a b = ground arith

abbrev pub disjoint : Option Rect → Option Rect → Bool
disjoint none _ = true
disjoint (some a) none = true
disjoint (some a) (some b) = is_apart a b

disjoint_comm : (a b : Option Rect) → disjoint a b ≡ disjoint b a
disjoint_comm none none = refl
disjoint_comm none (some b) = refl
disjoint_comm (some a) none = refl
disjoint_comm (some a) (some b) = is_apart_comm a b

module _ (grid_unit : ℕ) (items : List Item) where
  abbrev pub rect_of_item : Option Item → Position → Option Rect
  rect_of_item none p = none
  rect_of_item (some item) p = elim (footprint item) [
    | none ↦ none
    | some size ↦ some (rect grid_unit (is_turned grid_unit p.z) size p)
  ]

  -- The cells that a placed object covers, if its item has a footprint.
  unfoldable pub rect_of : PlacedObject → Option Rect
  rect_of p = rect_of_item (get p.item_id items) p.position_data

  abbrev pub is_inside : Option Rect → Bool
  is_inside none = true
  is_inside (some r) =
      leb_ℤ (pos 0) r.left
      && leb_ℤ (pos 0) r.top
      && leb_ℤ r.right (pos (room_grid_width * grid_unit))
      && leb_ℤ r.bottom (pos (room_grid_height * grid_unit))

  unfoldable pub compatible : PlacedObject → PlacedObject → Bool
  compatible p q = not (p.user_id == q.user_id) || disjoint (rect_of p) (rect_of q)

  abbrev pub Layout : List PlacedObject → Type 0
  Layout [] = Unit
  Layout (p ∷ t) = (is_inside (rect_of p) ≡ true) × All (λ q. compatible p q ≡ true) t × Layout t

  compatible_comm : (p q : PlacedObject) → compatible p q ≡ compatible q p
  unfolding compatible
  compatible_comm p q = ground (arith, disjoint_comm (rect_of p) (rect_of q))

  pub Layout-insert_row :
      (r : PlacedObject) (t : List PlacedObject)
      → is_inside (rect_of r) ≡ true
      → All (λ q. compatible r q ≡ true) t
      → Layout t
      → Layout (insert_row r t)
  Layout-insert_row r [] k c h = (k, tt, tt)
  Layout-insert_row r (x ∷ t) k c h = (
    h.0,
    All-append (λ q. compatible x q ≡ true) t _ h.1 (rw compatible_comm c.0, tt),
    Layout-insert_row r t k c.1 h.2,
  )

  pub Layout-delete_row : (i : ℕ) (t : List PlacedObject) → Layout t → Layout (delete_row i t)
  unfolding delete_row
  Layout-delete_row i [] h = tt
  Layout-delete_row i (x ∷ t) h = elim (Bool-cases (x.id == i)) [
    | inl same ↦ rw same (Layout-delete_row i t h.2)
    | inr differs ↦
        rw differs
          (h.0, All-delete_row (λ q. compatible x q ≡ true) i t h.1, Layout-delete_row i t h.2)
  ]

  others :
      (v : PlacedObject) (t : List PlacedObject)
      → All (λ q. (q.id == v.id) ≡ false) t
      → All (λ q. ((q.id == v.id) || compatible v q) ≡ true) t
      → All (λ q. compatible v q ≡ true) t
  others v [] n c = tt
  others v (x ∷ t) n c = (rw n.0 at (c.0), others v t n.1 c.1)

  pub Layout-put :
      (v : PlacedObject) (t : List PlacedObject)
      → Distinct t
      → is_inside (rect_of v) ≡ true
      → All (λ q. ((q.id == v.id) || compatible v q) ≡ true) t
      → Layout t
      → Layout (put v t)
  unfolding put
  Layout-put v [] d k c h = tt
  Layout-put v (x ∷ t) d k c h = elim (Bool-cases (x.id == v.id)) [
    | inl same ↦
        let e : x.id ≡ v.id = ground arith in
        let absent : get v.id t ≡ none = rw e at (d.0) in
        rw (same, put_absent v t absent) (k, others v t (absent-All v.id t absent) c.1, h.2)
    | inr differs ↦ rw differs (
      h.0,
      All-put (λ q. compatible x q ≡ true) v t (rw compatible_comm (rw differs at (c.0))) h.1,
      Layout-put v t d.1 k c.1 h.2,
    )
  ]

  -- The loop found nothing: every object but the excluded one is apart from the new rectangle.
  placement_error-none :
      (new : Rect) (excluded : Option ℕ) (placed : List PlacedObject)
      → placement_error grid_unit items new excluded placed ≡ none
      → All (λ q. (opt_eq excluded (some q.id) || disjoint (some new) (rect_of q)) ≡ true) placed
  unfolding placement_error rect_of overlaps
  placement_error-none new excluded [] h = tt
  placement_error-none new excluded (p ∷ placed) h =
      (ground arith, placement_error-none new excluded placed (ground arith))

  rect_of_flat :
      (p : PlacedObject) (item : Item)
      → get p.item_id items ≡ some item
      → footprint item ≡ none
      → rect_of p ≡ none
  unfolding rect_of
  rect_of_flat p item found flat = rw (found, rect_of_item) (rw (flat, rect_of_item))

  rect_of_sized :
      (p : PlacedObject) (item : Item) (size : ℕ × ℕ)
      → get p.item_id items ≡ some item
      → footprint item ≡ some size
      → rect_of p
        ≡ some (rect grid_unit (is_turned grid_unit p.position_data.z) size p.position_data)
  unfolding rect_of
  rect_of_sized p item size found sized = rw (found, rect_of_item) (rw (sized, rect_of_item))

  or_true : (b : Bool) → (b || true) ≡ true
  or_true true = refl
  or_true false = refl

  -- The two tests of a rotation, by the value and after truncation, agree where it is allowed.
  turned_rotation :
      (z : ℤ)
      → 0 < grid_unit
      → is_rotation grid_unit z ≡ true
      → eqb_ℤ z (pos grid_unit) ≡ is_turned grid_unit z
  unfolding is_rotation is_turned
  turned_rotation z u h = elim (Bool-cases (eqb_ℤ z (pos 0))) [
    | inl upright ↦
        let e : pos_part z ≡ 0 = ground arith in
        let q : pos_part z / grid_unit ≡ 0 = rw e (grind arith) in ground (arith, q)
    | inr other ↦
        let e : pos_part z ≡ grid_unit = ground arith in
        let q : pos_part z / grid_unit ≡ 1 = rw e (grind arith) in ground (arith, q)
  ]

  -- A position that passed `_ensure_placement_free` is inside the room, and apart from every
  -- object of the list but the excluded one.
  pub ensure_error-none :
      (item : Item) (p : PlacedObject) (excluded : Option ℕ) (placed : List PlacedObject)
      → 0 < grid_unit
      → get p.item_id items ≡ some item
      → ensure_error grid_unit items item p.position_data excluded placed ≡ none
      → (is_inside (rect_of p) ≡ true)
        × All (λ q. (opt_eq excluded (some q.id) || disjoint (rect_of p) (rect_of q)) ≡ true) placed
  unfolding ensure_error free_error is_outside
  ensure_error-none item p excluded placed u found h = elim (Option-cases (footprint item)) [
    | inl flat ↦
        rw (rect_of_flat p item found flat)
          (refl, All-of _ placed (λ q. or_true (opt_eq excluded (some q.id))))
    | inr (size, sized) ↦
        let turned : eqb_ℤ p.position_data.z (pos grid_unit)
            ≡ is_turned grid_unit p.position_data.z =
          turned_rotation p.position_data.z u (ground arith) in
        rw (rect_of_sized p item size found sized) (
          ground (arith, turned),
          placement_error-none
              (rect grid_unit (is_turned grid_unit p.position_data.z) size p.position_data) excluded
              placed (ground (arith, turned)),
        )
  ]
