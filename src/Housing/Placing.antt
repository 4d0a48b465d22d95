-- ===== src/Housing/Placing.antt =====
-- What placing furniture changes, and that it keeps the room laid out.
use cat_game_backend.Base.{
  ℕ, ◌+◌, ◌<◌, ◌≡◌, refl, sym, ◌∙◌, true, false, ◌&&◌, ◌||◌, Option, none, some, List, ◌⊎◌, inl,
  inr, arith, All, All-append, All-map_imp, Bool-cases, Option-cases, ◌==◌, opt_eq, pos, leb_ℤ,
  length,
}
use cat_game_backend.Core.Error.{Result, ok}
use cat_game_backend.Store.Rows.{
  is_furniture, User, Item, Asset, PlacedObject, Position, item_row, user_row, placed_object_row,
}
use cat_game_backend.Store.Table.{
  Distinct, IsBelow, IsBelow-suc, get, find, insert_row, where_rows, where_rows-All,
  Distinct-insert_row,
}
use cat_game_backend.Store.Session.{Db, Session, begin}
use cat_game_backend.Store.Assets.{is_item_asset}
use cat_game_backend.Store.Placements
use cat_game_backend.Housing.{
  lock_user, place_furniture, place_new, place_existing, PlacedObjectRead, find_existing,
}
use cat_game_backend.Housing.Geometry.{ensure_error}
use cat_game_backend.Housing.Layout.{
  Layout, compatible, rect_of, disjoint, ensure_error-none, Layout-insert_row,
}

module _ (grid_unit : ℕ) where
  pub record IsLaidOut (db : Db) : Type 0 where
    pub item_keys : Distinct db.items
    pub keys : Distinct db.placed_objects
    pub ids : All (IsBelow db.next_id) db.placed_objects
    pub layout : Layout grid_unit db.items db.placed_objects

  -- What a placement of a new object has done.
  pub record Placed (user : User) (item : Item) (db db' : Db) : Type 0 where
    pub object : PlacedObject
    pub stock : Asset
    pub id : object.id ≡ db.next_id
    pub owner : object.user_id ≡ user.id
    pub item_id : object.item_id ≡ item.id
    pub owned : find (is_item_asset user.id item.id) db.assets ≡ some stock
    pub within :
        leb_ℤ stock.quantity (
          pos (
            length
              (where_rows (λ p. p.user_id == user.id && p.item_id == item.id) db.placed_objects)))
        ≡ false
    pub free :
        ensure_error grid_unit db.items item object.position_data none
          (where_rows (λ p. p.user_id == user.id) db.placed_objects)
        ≡ none
    pub placed : db'.placed_objects ≡ insert_row object db.placed_objects
    pub next_id : db'.next_id ≡ db.next_id + 1
    pub items : db'.items ≡ db.items
    pub assets : db'.assets ≡ db.assets

  place_new-Placed :
      (user : User) (item : Item) (p : Position) (id : Option ℕ) (db : Db) (s' : Session)
      (r : PlacedObjectRead)
      → place_new grid_unit user item p id (begin db) ≡ (ok r, s')
      → Placed user item db s'.committed
  unfolding place_new Placements.new_placement
  place_new-Placed user item p id db s' r h =
      elim (Option-cases (find (is_item_asset user.id item.id) db.assets)) [
        | inl no_asset ↦ ground arith
        | inr (a, owned) ↦
            elim (Option-cases (
              ensure_error grid_unit db.items item p none
                (where_rows (λ q. q.user_id == user.id) db.placed_objects))) [
                  | inl free ↦ record {
                    object = record (Placements.new_placement user.id item.id p id (begin db)) {
                      id = db.next_id;
                    };
                    stock = a;
                    id = refl;
                    owner = refl;
                    item_id = refl;
                    owned = owned;
                    within = ground arith;
                    free = free;
                    placed = ground arith;
                    next_id = ground arith;
                    items = ground arith;
                    assets = ground arith;
                  }
                  | inr (e, conflict) ↦ ground arith
                ]
      ]

  -- Apart from all, if apart from the objects of the same player.
  pub compatible-All :
      (items : List Item) (v : PlacedObject) (user_id : ℕ) (excluded : Option ℕ)
      (t : List PlacedObject)
      → v.user_id ≡ user_id
      → All
          (λ q.
            (opt_eq excluded (some q.id)
              || disjoint (rect_of grid_unit items v) (rect_of grid_unit items q))
            ≡ true)
          (where_rows (λ q. q.user_id == user_id) t)
      → All (λ q. (opt_eq excluded (some q.id) || compatible grid_unit items v q) ≡ true) t
  unfolding compatible
  compatible-All items v user_id excluded t owner h =
      All-map_imp _ _ t (λ q k. ground arith)
        (where_rows-All (λ q. q.user_id == user_id)
          (λ q.
            opt_eq excluded (some q.id)
            || disjoint (rect_of grid_unit items v) (rect_of grid_unit items q))
          t h)

  pub Placed-IsLaidOut :
      (user : User) (item : Item) (db db' : Db)
      → 0 < grid_unit
      → get item.id db.items ≡ some item
      → IsLaidOut db
      → Placed user item db db'
      → IsLaidOut db'
  Placed-IsLaidOut user item db db' u row h p =
      let free =
        ensure_error-none grid_unit db.items item p.object none
          (where_rows (λ q. q.user_id == user.id) db.placed_objects) u (rw p.item_id row) p.free in
      record {
        item_keys = rw p.items h.item_keys;
        keys = rw p.placed (Distinct-insert_row p.object db.placed_objects (rw p.id h.ids) h.keys);
        ids =
            rw (p.placed, p.next_id)
              (All-append (IsBelow (db.next_id + 1)) db.placed_objects _
                (IsBelow-suc db.next_id db.placed_objects h.ids) (omega (arith, p.id), tt));
        layout =
            rw (p.placed, p.items)
              (Layout-insert_row grid_unit db.items p.object db.placed_objects free.0
                (compatible-All db.items p.object user.id none db.placed_objects p.owner free.1)
                h.layout);
      }

  -- The object with the id that the client chose.
  abbrev existing_of : Option ℕ → Db → Option PlacedObject
  existing_of none db = none
  existing_of (some q) db = find (λ p. p.public_id == q) db.placed_objects

  abbrev place_or_replay :
      User
      → Item
      → Position
      → Option ℕ
      → Option PlacedObject
      → Session
      → Result PlacedObjectRead × Session
  place_or_replay user item p id none = place_new grid_unit user item p id
  place_or_replay user item p id (some q) = place_existing grid_unit user item p q

  -- Past the guards.
  place_furniture-find :
      (user_public_id item_public_id : ℕ) (p : Position) (id : Option ℕ) (db : Db)
      (user locked : User) (item : Item)
      → find (λ u. u.public_id == user_public_id) db.users ≡ some user
      → get user.id db.users ≡ some locked
      → find (λ i. i.public_id == item_public_id) db.items ≡ some item
      → is_furniture item.category ≡ true
      → place_furniture grid_unit user_public_id item_public_id p id (begin db)
        ≡ place_or_replay locked item p id (existing_of id db) (begin db)
  unfolding place_furniture lock_user find_existing
  place_furniture-find user_public_id item_public_id p none db user locked item found row found_item
        furniture =
      rw (found, row, found_item, furniture)
  place_furniture-find user_public_id item_public_id p (some q) db user locked item found row
        found_item furniture =
      elim (Option-cases (find (λ (p : PlacedObject). p.public_id == q) db.placed_objects)) [
        | inl new ↦ rw (found, row, found_item, furniture, new)
        | inr (old, there) ↦ rw (found, row, found_item, furniture, there)
      ]

  place_or_replay-Placed :
      (user : User) (item : Item) (p : Position) (id : Option ℕ) (o : Option PlacedObject) (db : Db)
      (s' : Session) (r : PlacedObjectRead)
      → place_or_replay user item p id o (begin db) ≡ (ok r, s')
      → (s'.committed ≡ db) ⊎ Placed user item db s'.committed
  unfolding place_existing
  place_or_replay-Placed user item p id none db s' r h =
      inr (place_new-Placed user item p id db s' r h)
  place_or_replay-Placed user item p id (some q) db s' r h = inl (ground arith)

  -- A placement that returns found the object there, or has added it.
  pub place_furniture-Placed :
      (user_public_id item_public_id : ℕ) (p : Position) (id : Option ℕ) (db : Db) (s' : Session)
      (r : PlacedObjectRead)
      → place_furniture grid_unit user_public_id item_public_id p id (begin db) ≡ (ok r, s')
      → (s'.committed ≡ db)
        ⊎ ((user : User) × (item : Item) × (find (λ i. i.public_id == item_public_id) db.items
              ≡ some item)
            × Placed user item db s'.committed)
  unfolding place_furniture lock_user
  place_furniture-Placed user_public_id item_public_id p id db s' r h =
      elim (Option-cases (find (λ u. u.public_id == user_public_id) db.users)) [
        | inl unknown ↦ ground arith
        | inr (user, found) ↦ elim (Option-cases (get user.id db.users)) [
          | inl unlocked ↦ ground arith
          | inr (locked, row) ↦
              elim (Option-cases (find (λ i. i.public_id == item_public_id) db.items)) [
                | inl no_item ↦ ground arith
                | inr (item, found_item) ↦ elim (Bool-cases (is_furniture item.category)) [
                  | inl furniture ↦
                      elim (place_or_replay-Placed locked item p id (existing_of id db) db s' r (
                        sym (
                          place_furniture-find user_public_id item_public_id p id db user locked
                            item found row found_item furniture)
                        ∙ h)) [
                          | inl same ↦ inl same
                          | inr placed ↦ inr (locked, item, found_item, placed)
                        ]
                  | inr other ↦ ground arith
                ]
              ]
        ]
      ]
