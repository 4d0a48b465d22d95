-- ===== src/Housing/Removal.antt =====
-- Removing furniture keeps the room laid out.
use cat_game_backend.Base.{ℕ, ◌≡◌, sym, some, inl, inr, arith, Bool-cases, Option-cases, ◌==◌}
use cat_game_backend.Core.Error.{ok}
use cat_game_backend.Store.Rows.{User, PlacedObject, item_row, user_row, placed_object_row}
use cat_game_backend.Store.Table.{
  IsBelow, get, find, delete_row, Distinct-delete_row, All-delete_row,
}
use cat_game_backend.Store.Session.{Db, Session, begin, run_uow, run_uow-ok}
use cat_game_backend.Store.Atomic.{run_uow-outcome}
use cat_game_backend.Housing.{lock_user, remove_furniture_placement}
use cat_game_backend.Housing.Layout.{Layout-delete_row}
use cat_game_backend.Housing.Placing.{IsLaidOut}
use cat_game_backend.Housing.Atomicity.{remove-IsAtomic}

module _ (grid_unit : ℕ) where
  pub record Removed (user : User) (object_public_id : ℕ) (db db' : Db) : Type 0 where
    pub object : PlacedObject
    pub found : find (λ p. p.public_id == object_public_id) db.placed_objects ≡ some object
    pub owner : object.user_id ≡ user.id
    pub removed : db'.placed_objects ≡ delete_row object.id db.placed_objects
    pub items : db'.items ≡ db.items
    pub next_id : db'.next_id ≡ db.next_id
    pub assets : db'.assets ≡ db.assets

  pub remove-Removed :
      (user_public_id object_public_id : ℕ) (db : Db) (s' : Session)
      → remove_furniture_placement grid_unit user_public_id object_public_id (begin db)
        ≡ (ok tt, s')
      → (user : User) × Removed user object_public_id db s'.committed
  unfolding remove_furniture_placement lock_user
  remove-Removed user_public_id object_public_id db s' h =
      elim (Option-cases (find (λ u. u.public_id == user_public_id) db.users)) [
        | inl unknown ↦ ground arith
        | inr (user, found) ↦ elim (Option-cases (get user.id db.users)) [
          | inl unlocked ↦ ground arith
          | inr (locked, row) ↦
              elim (Option-cases
                (find (λ (p : PlacedObject). p.public_id == object_public_id) db.placed_objects)) [
                  | inl no_object ↦ ground arith
                  | inr (p, found_object) ↦ elim (Bool-cases (p.user_id == locked.id)) [
                    | inl own ↦ (
                      locked,
                      record {
                        object = p;
                        found = found_object;
                        owner = ground arith;
                        removed = ground arith;
                        items = ground arith;
                        next_id = ground arith;
                        assets = ground arith;
                      },
                    )
                    | inr foreign ↦ ground arith
                  ]
                ]
        ]
      ]

  Removed-IsLaidOut :
      (user : User) (object_public_id : ℕ) (db db' : Db)
      → IsLaidOut grid_unit db
      → Removed user object_public_id db db'
      → IsLaidOut grid_unit db'
  Removed-IsLaidOut user object_public_id db db' h m = record {
    item_keys = rw m.items h.item_keys;
    keys = rw m.removed (Distinct-delete_row m.object.id db.placed_objects h.keys);
    ids =
        rw (m.removed, m.next_id)
          (All-delete_row (IsBelow db.next_id) m.object.id db.placed_objects h.ids);
    layout =
        rw (m.removed, m.items)
          (Layout-delete_row grid_unit db.items m.object.id db.placed_objects h.layout);
  }

  -- Removing a placed object keeps the room laid out, whether the call returns or raises.
  pub remove_furniture_placement-IsLaidOut :
      (user_public_id object_public_id : ℕ) (db : Db)
      → IsLaidOut grid_unit db
      → IsLaidOut grid_unit
          (run_uow (remove_furniture_placement grid_unit user_public_id object_public_id) db).1
  remove_furniture_placement-IsLaidOut user_public_id object_public_id db h =
      run_uow-outcome (IsLaidOut grid_unit)
        (remove_furniture_placement grid_unit user_public_id object_public_id) db
        (remove-IsAtomic grid_unit user_public_id object_public_id) h
        (λ r db' ran.
          let (s', steps, same) =
            run_uow-ok (remove_furniture_placement grid_unit user_public_id object_public_id) db db'
              r ran in
          let (user, removed) = remove-Removed user_public_id object_public_id db s' steps in
          rw (sym same) (Removed-IsLaidOut user object_public_id db s'.committed h removed))
