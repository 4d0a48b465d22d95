-- ===== src/Store/Assets.antt =====
-- `SqlAlchemyAssetRepository` of app/db/repositories.py. An asset's object is either pending (it
-- was added in this session, which does not flush before the commit) or persistent.
use cat_game_backend.Base.{
  ℕ, Bool, false, ◌&&◌, Option, none, some, List, [], ◌∷◌, ◌==◌, opt_eq, is_none, not,
  if◌then◌else◌, ℤ, pos, ◌+ℤ◌, ◌-ℤ◌, leb_ℤ,
}
use cat_game_backend.Core.Error.{runtime_error, value_error}
use cat_game_backend.Store.Rows.{Asset, asset_row}
use cat_game_backend.Store.Table.{find, where_rows, insert_row, put}
use cat_game_backend.Store.Session.{
  Session, Tx, pure, raise, gets, ◌>>=◌, ◌>>◌, modify, modify_db, raise_if,
}

pub data Held : Type 0 where
  pending : Asset → Held
  persistent : Asset → Held
  absent : Held

abbrev pub object_of : Held → Option Asset
object_of (pending a) = some a
object_of (persistent a) = some a
object_of absent = none

abbrev pub names : Option ℕ → Option ℕ → Bool
names none column = false
names (some i) column = opt_eq column (some i)

-- `_get_pending_asset`
unfoldable pub get_pending_asset : ℕ → Option ℕ → Option ℕ → List Asset → Option Asset
get_pending_asset user_id cat_id item_id [] = none
get_pending_asset user_id cat_id item_id (a ∷ new) =
    let rest = get_pending_asset user_id cat_id item_id new in
    if not (a.user_id == user_id)
    then rest
    else (if names cat_id a.cat_id
        then some a
        else (if names item_id a.item_id then some a else rest))

abbrev pub is_cat_asset : ℕ → ℕ → Asset → Bool
is_cat_asset user_id cat_id a = a.user_id == user_id && opt_eq a.cat_id (some cat_id)

abbrev pub is_item_asset : ℕ → ℕ → Asset → Bool
is_item_asset user_id item_id a = a.user_id == user_id && opt_eq a.item_id (some item_id)

abbrev pub held : Option Asset → Option Asset → Held
held (some a) _ = pending a
held none (some a) = persistent a
held none none = absent

unfoldable pub find_cat_asset : ℕ → ℕ → Session → Held
unfolding get_pending_asset find
find_cat_asset user_id cat_id s =
    held (get_pending_asset user_id (some cat_id) none s.new_assets)
      (find (is_cat_asset user_id cat_id) s.db.assets)

unfoldable pub find_item_asset : ℕ → ℕ → Session → Held
unfolding get_pending_asset find
find_item_asset user_id item_id s =
    held (get_pending_asset user_id none (some item_id) s.new_assets)
      (find (is_item_asset user_id item_id) s.db.assets)

unfoldable pub get_cat_asset : ℕ → ℕ → Tx (Option Asset)
unfolding gets find_cat_asset
get_cat_asset user_id cat_id = gets (λ s. object_of (find_cat_asset user_id cat_id s))

unfoldable pub list_cat_assets_by_user_id : ℕ → Tx (List Asset)
unfolding gets where_rows
list_cat_assets_by_user_id user_id =
    gets (λ s. where_rows (λ a. a.user_id == user_id && not (is_none a.cat_id)) s.db.assets)

unfoldable pub get_item_asset_for_update : ℕ → ℕ → Tx (Option Asset)
unfolding gets find_item_asset
get_item_asset_for_update user_id item_id =
    gets (λ s. object_of (find_item_asset user_id item_id s))

-- A pending object is the only one with its owner, cat and item.
abbrev pub same_object : Asset → Asset → Bool
same_object a b = a.user_id == b.user_id && opt_eq a.cat_id b.cat_id && opt_eq a.item_id b.item_id

-- The assignment to an attribute of a pending object.
unfoldable pub put_pending : Asset → List Asset → List Asset
put_pending a [] = []
put_pending a (b ∷ new) = (if same_object b a then a else b) ∷ put_pending a new

-- `Session.add`
unfoldable pub add_asset : Asset → Session → Session
add_asset a s = record s { new_assets = insert_row a s.new_assets }

unfoldable pub new_item_asset : ℕ → ℕ → ℤ → Asset
new_item_asset user_id item_id quantity = record {
  id = 0;
  user_id = user_id;
  cat_id = none;
  item_id = some item_id;
  quantity = quantity;
  is_home = false;
}

unfoldable pub add_to : Held → ℕ → ℕ → ℤ → Tx Asset
unfolding ◌>>=◌ modify modify_db put_pending put new_item_asset add_asset
add_to (pending a) user_id item_id quantity = do
  let a' = record a { quantity = a.quantity +ℤ quantity }
  modify (λ s. record s { new_assets = put_pending a' s.new_assets })
  pure a'
add_to (persistent a) user_id item_id quantity = do
  let a' = record a { quantity = a.quantity +ℤ quantity }
  modify_db (λ db. record db { assets = put a' db.assets })
  pure a'
add_to absent user_id item_id quantity = do
  let a = new_item_asset user_id item_id quantity
  modify (add_asset a)
  pure a

unfoldable pub add_item_quantity : ℕ → ℕ → ℤ → Tx Asset
unfolding ◌>>=◌ raise_if find_item_asset add_to
add_item_quantity user_id item_id quantity = do
  raise_if (leb_ℤ quantity (pos 0)) value_error
  existing ← gets (find_item_asset user_id item_id)
  add_to existing user_id item_id quantity

unfoldable pub is_one : ℤ → Bool
is_one n = leb_ℤ n (pos 1) && leb_ℤ (pos 1) n

-- `Session.delete` refuses an object that is still pending.
unfoldable pub consume_from : Held → Tx (Option ℤ)
unfolding ◌>>=◌ modify modify_db put put_pending is_one
consume_from absent = pure none
consume_from (pending a) =
    if is_one a.quantity
    then raise runtime_error
    else (let a' = record a { quantity = a.quantity -ℤ pos 1 } in
        modify (λ s. record s { new_assets = put_pending a' s.new_assets })
        >> pure (some a'.quantity))
consume_from (persistent a) =
    if is_one a.quantity
    then modify (λ s. record s { deleted_assets = a.id ∷ s.deleted_assets }) >> pure (some (pos 0))
    else (let a' = record a { quantity = a.quantity -ℤ pos 1 } in
        modify_db (λ db. record db { assets = put a' db.assets }) >> pure (some a'.quantity))

unfoldable pub consume_item_quantity_for_update : ℕ → ℕ → Tx (Option ℤ)
unfolding ◌>>=◌ find_item_asset consume_from
consume_item_quantity_for_update user_id item_id = do
  asset ← gets (find_item_asset user_id item_id)
  consume_from asset

unfoldable pub new_cat_asset : ℕ → ℕ → Asset
new_cat_asset user_id cat_id = record {
  id = 0;
  user_id = user_id;
  cat_id = some cat_id;
  item_id = none;
  quantity = pos 1;
  is_home = false;
}

unfoldable pub grant_cat : ℕ → ℕ → Tx Asset
unfolding ◌>>=◌ get_cat_asset modify add_asset new_cat_asset
grant_cat user_id cat_id = do
  existing ← get_cat_asset user_id cat_id
  let a = new_cat_asset user_id cat_id
  elim existing [ some b ↦ pure b | none ↦ modify (add_asset a) >> pure a ]
