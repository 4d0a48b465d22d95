-- ===== src/Housing/Stock.antt =====
-- Never more pieces of an item are placed than the player owns.
use cat_game_backend.Base.{
  ℕ, ◌+◌, ◌≤◌, ◌≡◌, refl, sym, ◌∙◌, ◌&&◌, Option, some, none, List, [], ◌∷◌, inl, inr, arith,
  Bool-cases, ◌==◌, length, pos, ◌≤ℤ◌, if◌then◌else◌,
}
use cat_game_backend.Store.Rows.{
  User, Item, PlacedObject, Position, placed_object_row, item_row, user_row,
}
use cat_game_backend.Store.Table.{
  Distinct, put, put_absent, get-find, where_rows, insert_row, delete_row, find, get,
}
use cat_game_backend.Store.Session.{Db, run_uow, run_uow-ok}
use cat_game_backend.Store.Atomic.{run_uow-outcome}
use cat_game_backend.Store.Stock.{owned}
use cat_game_backend.Housing.{
  place_furniture, update_furniture_placement, remove_furniture_placement,
}
use cat_game_backend.Housing.Placing.{Placed, place_furniture-Placed}
use cat_game_backend.Housing.Atomicity.{place_furniture-IsAtomic, update-IsAtomic, remove-IsAtomic}
use cat_game_backend.Housing.Room.{Moved, update-Moved}
use cat_game_backend.Housing.Removal.{Removed, remove-Removed}

-- How many pieces of an item a player has placed.
unfoldable pub placed_count : ℕ → ℕ → List PlacedObject → ℕ
placed_count user_id item_id t =
    length (where_rows (λ p. p.user_id == user_id && p.item_id == item_id) t)

pub record IsStocked (db : Db) : Type 0 where
  pub at :
      (user_id item_id : ℕ)
      → pos (placed_count user_id item_id db.placed_objects) ≤ℤ owned user_id item_id db.assets

count_insert :
    (user_id item_id : ℕ) (r : PlacedObject) (t : List PlacedObject)
    → placed_count user_id item_id (insert_row r t)
      ≡ placed_count user_id item_id t
        + (if r.user_id == user_id && r.item_id == item_id then 1 else 0)
unfolding placed_count where_rows
count_insert user_id item_id r [] = ground arith
count_insert user_id item_id r (x ∷ t) = ground (arith, count_insert user_id item_id r t)

count_delete :
    (user_id item_id i : ℕ) (t : List PlacedObject)
    → placed_count user_id item_id (delete_row i t) ≤ placed_count user_id item_id t
unfolding placed_count where_rows delete_row
count_delete user_id item_id i [] = omega arith
count_delete user_id item_id i (x ∷ t) = ground (arith, count_delete user_id item_id i t)

count_put :
    (user_id item_id : ℕ) (u v : PlacedObject) (t : List PlacedObject)
    → Distinct t
    → get v.id t ≡ some u
    → v.user_id ≡ u.user_id
    → v.item_id ≡ u.item_id
    → placed_count user_id item_id (put v t) ≡ placed_count user_id item_id t
unfolding placed_count where_rows put get find
count_put user_id item_id u v [] d found eu ei = refl
count_put user_id item_id u v (x ∷ t) d found eu ei = elim (Bool-cases (x.id == v.id)) [
  | inl same ↦
      let e : x.id ≡ v.id = ground arith in
      let absent : get v.id t ≡ none = rw e at (d.0) in
      let hit : x ≡ u = ground arith in
      let owner : v.user_id ≡ x.user_id = eu ∙ λ i. (sym hit i).user_id in
      let item : v.item_id ≡ x.item_id = ei ∙ λ i. (sym hit i).item_id in
      rw (same, put_absent v t absent) (ground (arith, owner, item))
  | inr differs ↦ ground (arith, count_put user_id item_id u v t d.1)
]

module _ (grid_unit : ℕ) where
  -- The limit that the placement has tested.
  Placed-room :
      (user : User) (item : Item) (db db' : Db)
      → Placed grid_unit user item db db'
      → pos (placed_count user.id item.id db.placed_objects + 1) ≤ℤ owned user.id item.id db.assets
  unfolding placed_count owned
  Placed-room user item db db' p = ground (arith, p.within, p.owned)

  Placed-IsStocked :
      (user : User) (item : Item) (db db' : Db)
      → IsStocked db
      → Placed grid_unit user item db db'
      → IsStocked db'
  Placed-IsStocked user item db db' h p = record {
    at = λ j i. elim (Bool-cases (p.object.user_id == j && p.object.item_id == i)) [
      | inl same ↦
          let eu : j ≡ user.id = ground (arith, p.owner) in
          let ei : i ≡ item.id = ground (arith, p.item_id) in
          rw (p.placed, p.assets, count_insert j i p.object db.placed_objects, same, eu, ei)
            (Placed-room user item db db' p)
      | inr other ↦
          rw (p.placed, p.assets, count_insert j i p.object db.placed_objects, other)
            (omega (arith, h.at j i))
    ];
  }

  -- Placing furniture keeps the placements within the stock (IsStocked: of every item, a player
  -- has placed at most as many pieces as the player owns), whether the call returns or raises.
  pub place_furniture-IsStocked :
      (user_public_id item_public_id : ℕ) (p : Position) (id : Option ℕ) (db : Db)
      → IsStocked db
      → IsStocked (run_uow (place_furniture grid_unit user_public_id item_public_id p id) db).1
  place_furniture-IsStocked user_public_id item_public_id p id db h =
      run_uow-outcome IsStocked (place_furniture grid_unit user_public_id item_public_id p id) db
        (place_furniture-IsAtomic grid_unit user_public_id item_public_id p id) h
        (λ r db' ran.
          let (s', steps, same) =
            run_uow-ok (place_furniture grid_unit user_public_id item_public_id p id) db db' r
              ran in
          elim (place_furniture-Placed grid_unit user_public_id item_public_id p id db s' r steps) [
            | inl unchanged ↦ rw (sym same, unchanged) h
            | inr (user, item, found, placed) ↦
                rw (sym same) (Placed-IsStocked user item db s'.committed h placed)
          ])

  Moved-IsStocked :
      (user : User) (object_public_id : ℕ) (position : Position) (db db' : Db)
      → Distinct db.placed_objects
      → IsStocked db
      → Moved grid_unit user object_public_id position db db'
      → IsStocked db'
  Moved-IsStocked user object_public_id position db db' keys h m =
      let v = record m.object { position_data = position } in
      let row =
        get-find (λ (p : PlacedObject). p.public_id == object_public_id) m.object db.placed_objects
          keys m.found in
      record {
        at = λ j i.
            rw (m.moved, m.assets, count_put j i m.object v db.placed_objects keys row refl refl)
              (h.at j i);
      }

  -- If the primary keys of the placed objects are distinct, moving a placed object keeps the
  -- placements within the stock (IsStocked), whether the call returns or raises.
  pub update_furniture_placement-IsStocked :
      (user_public_id object_public_id : ℕ) (position : Position) (db : Db)
      → Distinct db.placed_objects
      → IsStocked db
      → IsStocked
          (run_uow
            (update_furniture_placement grid_unit user_public_id object_public_id position)
            db).1
  update_furniture_placement-IsStocked user_public_id object_public_id position db keys h =
      run_uow-outcome IsStocked
        (update_furniture_placement grid_unit user_public_id object_public_id position) db
        (update-IsAtomic grid_unit user_public_id object_public_id position) h
        (λ r db' ran.
          let (s', steps, same) =
            run_uow-ok
              (update_furniture_placement grid_unit user_public_id object_public_id position) db db'
              r ran in
          let (user, moved) =
            update-Moved grid_unit user_public_id object_public_id position db s' r steps in
          rw (sym same)
            (Moved-IsStocked user object_public_id position db s'.committed keys h moved))

  Removed-IsStocked :
      (user : User) (object_public_id : ℕ) (db db' : Db)
      → IsStocked db
      → Removed grid_unit user object_public_id db db'
      → IsStocked db'
  Removed-IsStocked user object_public_id db db' h m = record {
    at = λ j i.
        rw (m.removed, m.assets)
          (omega (arith, h.at j i, count_delete j i m.object.id db.placed_objects));
  }

  -- Removing a placed object keeps the placements within the stock (IsStocked), whether the call
  -- returns or raises.
  pub remove_furniture_placement-IsStocked :
      (user_public_id object_public_id : ℕ) (db : Db)
      → IsStocked db
      → IsStocked
          (run_uow (remove_furniture_placement grid_unit user_public_id object_public_id) db).1
  remove_furniture_placement-IsStocked user_public_id object_public_id db h =
      run_uow-outcome IsStocked
        (remove_furniture_placement grid_unit user_public_id object_public_id) db
        (remove-IsAtomic grid_unit user_public_id object_public_id) h
        (λ r db' ran.
          let (s', steps, same) =
            run_uow-ok (remove_furniture_placement grid_unit user_public_id object_public_id) db db'
              r ran in
          let (user, removed) =
            remove-Removed grid_unit user_public_id object_public_id db s' steps in
          rw (sym same) (Removed-IsStocked user object_public_id db s'.committed h removed))
