-- ===== src/Housing/Room.antt =====
-- Placing and moving furniture keep the room laid out.
use cat_game_backend.Base.{
  ℕ, ◌<◌, ◌≡◌, refl, sym, true, ◌||◌, Option, none, some, List, inl, inr, arith, All, All-map_imp,
  Bool-cases, Option-cases, ◌==◌, opt_eq,
}
use cat_game_backend.Core.Error.{ok}
use cat_game_backend.Store.Rows.{
  User, Item, PlacedObject, Position, item_row, user_row, placed_object_row,
}
use cat_game_backend.Store.Table.{
  IsBelow, get, get-find, find, put, where_rows, Distinct-put, All-put, All-find,
}
use cat_game_backend.Store.Session.{Db, Session, begin, run_uow, run_uow-ok}
use cat_game_backend.Store.Atomic.{run_uow-outcome}
use cat_game_backend.Housing.{
  lock_user, ensure_placement_free, place_furniture, update_furniture_placement, PlacedObjectRead,
}
use cat_game_backend.Housing.Geometry.{ensure_error}
use cat_game_backend.Housing.Layout.{compatible, ensure_error-none, Layout-put}
use cat_game_backend.Housing.Placing.{
  IsLaidOut, place_furniture-Placed, Placed-IsLaidOut, compatible-All,
}
use cat_game_backend.Housing.Atomicity.{place_furniture-IsAtomic, update-IsAtomic}

module _ (grid_unit : ℕ) where
  -- For a positive grid unit, placing furniture keeps the room laid out, whether the call returns
  -- or raises; in IsLaidOut, the keys of the items and placed objects are distinct and below the
  -- next number, every object that has a footprint lies inside the room, and no two objects of
  -- the same player overlap.
  pub place_furniture-IsLaidOut :
      (user_public_id item_public_id : ℕ) (p : Position) (id : Option ℕ) (db : Db)
      → 0 < grid_unit
      → IsLaidOut grid_unit db
      → IsLaidOut grid_unit
          (run_uow (place_furniture grid_unit user_public_id item_public_id p id) db).1
  place_furniture-IsLaidOut user_public_id item_public_id p id db u h =
      run_uow-outcome (IsLaidOut grid_unit)
        (place_furniture grid_unit user_public_id item_public_id p id) db
        (place_furniture-IsAtomic grid_unit user_public_id item_public_id p id) h
        (λ r db' ran.
          let (s', steps, same) =
            run_uow-ok (place_furniture grid_unit user_public_id item_public_id p id) db db' r
              ran in
          elim (place_furniture-Placed grid_unit user_public_id item_public_id p id db s' r steps) [
            | inl unchanged ↦ rw (sym same, unchanged) h
            | inr (user, item, found, placed) ↦ rw (sym same) (
                Placed-IsLaidOut grid_unit user item db s'.committed u
                  (get-find (λ (i : Item). i.public_id == item_public_id) item db.items h.item_keys
                    found)
                  h placed)
          ])

  -- What a move of `user`'s object to `position` has done.
  pub record Moved (user : User) (object_public_id : ℕ) (position : Position) (db db' : Db)
      : Type 0 where
    pub object : PlacedObject
    pub item : Item
    pub found : find (λ p. p.public_id == object_public_id) db.placed_objects ≡ some object
    pub owner : object.user_id ≡ user.id
    pub item_found : get object.item_id db.items ≡ some item
    pub free :
        ensure_error grid_unit db.items item position
          (some object.id)
          (where_rows (λ q. q.user_id == user.id) db.placed_objects)
        ≡ none
    pub moved :
        db'.placed_objects ≡ put (record object { position_data = position }) db.placed_objects
    pub items : db'.items ≡ db.items
    pub next_id : db'.next_id ≡ db.next_id
    pub assets : db'.assets ≡ db.assets

  pub update-Moved :
      (user_public_id object_public_id : ℕ) (position : Position) (db : Db) (s' : Session)
      (r : PlacedObjectRead)
      → update_furniture_placement grid_unit user_public_id object_public_id position (begin db)
        ≡ (ok r, s')
      → (user : User) × Moved user object_public_id position db s'.committed
  unfolding update_furniture_placement lock_user ensure_placement_free
  update-Moved user_public_id object_public_id position db s' r h =
      elim (Option-cases (find (λ u. u.public_id == user_public_id) db.users)) [
        | inl unknown ↦ ground arith
        | inr (user, found) ↦ elim (Option-cases (get user.id db.users)) [
          | inl unlocked ↦ ground arith
          | inr (locked, row) ↦
              elim (Option-cases
                (find (λ (p : PlacedObject). p.public_id == object_public_id) db.placed_objects)) [
                  | inl no_object ↦ ground arith
                  | inr (p, found_object) ↦ elim (Bool-cases (p.user_id == locked.id)) [
                    | inl own ↦ elim (Option-cases (get p.item_id db.items)) [
                      | inl no_item ↦ ground arith
                      | inr (item, item_found) ↦ (
                        locked,
                        record {
                          object = p;
                          item = item;
                          found = found_object;
                          owner = ground arith;
                          item_found = item_found;
                          free = ground arith;
                          moved = ground arith;
                          items = ground arith;
                          next_id = ground arith;
                          assets = ground arith;
                        },
                      )
                    ]
                    | inr foreign ↦ ground arith
                  ]
                ]
        ]
      ]

  own_rows :
      (v p : PlacedObject) (t : List PlacedObject) (items : List Item)
      → v.id ≡ p.id
      → All (λ q. (opt_eq (some p.id) (some q.id) || compatible grid_unit items v q) ≡ true) t
      → All (λ q. ((q.id == v.id) || compatible grid_unit items v q) ≡ true) t
  own_rows v p t items same h = All-map_imp _ _ t (λ q k. ground arith) h

  Moved-IsLaidOut :
      (user : User) (object_public_id : ℕ) (position : Position) (db db' : Db)
      → 0 < grid_unit
      → IsLaidOut grid_unit db
      → Moved user object_public_id position db db'
      → IsLaidOut grid_unit db'
  Moved-IsLaidOut user object_public_id position db db' u h m =
      let v = record m.object { position_data = position } in
      let free =
        ensure_error-none grid_unit db.items m.item v (some m.object.id)
          (where_rows (λ q. q.user_id == user.id) db.placed_objects) u m.item_found m.free in
      record {
        item_keys = rw m.items h.item_keys;
        keys = rw m.moved (Distinct-put v db.placed_objects h.keys);
        ids =
            rw (m.moved, m.next_id)
              (All-put (IsBelow db.next_id) v db.placed_objects
                (All-find (IsBelow db.next_id) _ m.object db.placed_objects h.ids m.found) h.ids);
        layout =
            rw (m.moved, m.items)
              (Layout-put grid_unit db.items v db.placed_objects h.keys free.0
                (own_rows v m.object db.placed_objects db.items refl (
                  compatible-All grid_unit db.items v user.id (some m.object.id) db.placed_objects
                    m.owner free.1))
                h.layout);
      }

  -- For a positive grid unit, moving a placed object keeps the room laid out, whether the call
  -- returns or raises; in IsLaidOut, the keys of the items and placed objects are distinct and
  -- below the next number, every object that has a footprint lies inside the room, and no two
  -- objects of the same player overlap.
  pub update_furniture_placement-IsLaidOut :
      (user_public_id object_public_id : ℕ) (position : Position) (db : Db)
      → 0 < grid_unit
      → IsLaidOut grid_unit db
      → IsLaidOut grid_unit
          (run_uow
            (update_furniture_placement grid_unit user_public_id object_public_id position)
            db).1
  update_furniture_placement-IsLaidOut user_public_id object_public_id position db u h =
      run_uow-outcome (IsLaidOut grid_unit)
        (update_furniture_placement grid_unit user_public_id object_public_id position) db
        (update-IsAtomic grid_unit user_public_id object_public_id position) h
        (λ r db' ran.
          let (s', steps, same) =
            run_uow-ok
              (update_furniture_placement grid_unit user_public_id object_public_id position) db db'
              r ran in
          let (user, moved) = update-Moved user_public_id object_public_id position db s' r steps in
          rw (sym same) (Moved-IsLaidOut user object_public_id position db s'.committed u h moved))
