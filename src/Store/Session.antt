-- ===== src/Store/Session.antt =====
-- The unit of work of app/db/unit_of_work.py over a SQLAlchemy session (app/db/session.py:
-- autoflush is off). An action changes the session's state or raises; the state comes back beside
-- the error too, and what was not committed is lost when the session closes.
use cat_game_backend.Base.{◌≡◌, if◌then◌else◌, ℕ, ◌+◌, Bool, Option, none, some, List, [], ◌∷◌}
use cat_game_backend.Core.Error.{Error, Result, ok, err}
use cat_game_backend.Store.Rows.{
  User, Item, Cat, Asset, GachaExecution, PlacedObject, Row, asset_row, placed_object_row,
}
use cat_game_backend.Store.Table.{insert_row, delete_row}

-- The tables. `next_id` is the next number of the identity columns, and `generated n` the public
-- id that `gen_random_uuid()` gives to the row with the primary key `n`.
pub record Db : Type 0 where
  pub users : List User
  pub items : List Item
  pub cats : List Cat
  pub assets : List Asset
  pub executions : List GachaExecution
  pub placed_objects : List PlacedObject
  pub next_id : ℕ
  pub generated : ℕ → ℕ

-- `db` is what the transaction's queries see, `new_assets` and `new_placements` the objects that
-- `Session.add` holds back until the flush (their primary keys are still open), and the deleted
-- rows are those of `Session.delete`.
pub record Session : Type 0 where
  pub committed : Db
  pub db : Db
  pub new_assets : List Asset
  pub new_placements : List PlacedObject
  pub deleted_assets : List ℕ
  pub deleted_placements : List ℕ

abbrev pub Tx : Type 0 → Type 0
Tx A = Session → Result A × Session

module _ {A : Type 0} where
  unfoldable pub pure : A → Tx A
  pure a s = (ok a, s)

  unfoldable pub raise : Error → Tx A
  raise e s = (err e, s)

  unfoldable pub gets : (Session → A) → Tx A
  gets f s = (ok (f s), s)

  unfoldable pub or_raise : Option A → Error → Tx A
  or_raise o e s = (elim o [ none ↦ err e | some a ↦ ok a ], s)

module _ {A B : Type 0} where
  abbrev pub continue_with : Result A → (A → Tx B) → Tx B
  continue_with (ok a) f s = f a s
  continue_with (err e) f s = (err e, s)

  infixl 5 ◌>>=◌ ◌>>◌
  unfoldable pub ◌>>=◌ : Tx A → (A → Tx B) → Tx B
  unfolding pure raise gets or_raise
  ◌>>=◌ m f s = let (r, s') = m s in continue_with r f s'

  abbrev pub ◌>>◌ : Tx A → Tx B → Tx B
  m >> k = m >>= λ _. k

unfoldable pub modify : (Session → Session) → Tx (Unit {0})
modify f s = (ok tt, f s)

unfoldable pub raise_if : Bool → Error → Tx (Unit {0})
raise_if b e s = (if b then err e else ok tt, s)

unfoldable pub raise_option : Option Error → Tx (Unit {0})
raise_option o s = (elim o [ none ↦ ok tt | some e ↦ err e ], s)

unfoldable pub modify_db : (Db → Db) → Tx (Unit {0})
modify_db f s = (ok tt, record s { db = f s.db })

-- The flush of a commit: new objects are inserted, deleted rows go.
unfoldable pub flush_assets : List Asset → Db → Db
flush_assets [] db = db
flush_assets (a ∷ new) db = flush_assets new (record db {
  assets = insert_row (record a { id = db.next_id }) db.assets;
  next_id = db.next_id + 1;
})

unfoldable pub flush_placements : List PlacedObject → Db → Db
flush_placements [] db = db
flush_placements (p ∷ new) db = flush_placements new (record db {
  placed_objects = insert_row (record p { id = db.next_id }) db.placed_objects;
  next_id = db.next_id + 1;
})

unfoldable pub delete_rows : {V : Type 0} ⦃row : Row V⦄ → List ℕ → List V → List V
delete_rows [] t = t
delete_rows (i ∷ is) t = delete_rows is (delete_row i t)

unfoldable pub flush : Session → Db
unfolding flush_assets flush_placements delete_rows
flush s =
    let db = flush_placements s.new_placements (flush_assets s.new_assets s.db) in
    record db {
      assets = delete_rows s.deleted_assets db.assets;
      placed_objects = delete_rows s.deleted_placements db.placed_objects;
    }

abbrev pub begin : Db → Session
begin db = record {
  committed = db;
  db = db;
  new_assets = [];
  new_placements = [];
  deleted_assets = [];
  deleted_placements = [];
}

-- `SqlAlchemyUnitOfWork.commit`
unfoldable pub commit : Tx (Unit {0})
unfolding flush
commit s = let db = flush s in (ok tt, begin db)

-- `with unit_of_work as uow: ...`: a session is opened, and rolled back and closed at the end.
unfoldable pub run_uow : {A : Type 0} → Tx A → Db → Result A × Db
run_uow m db = let (r, s) = m (begin db) in (r, s.committed)

-- What a transaction returned, it returned from its session.
pub run_uow-ok :
    {A : Type 0} (m : Tx A) (db db' : Db) (a : A)
    → run_uow m db ≡ (ok a, db')
    → (s : Session) × (m (begin db) ≡ (ok a, s)) × (s.committed ≡ db')
unfolding run_uow
run_uow-ok m db db' a h = ((m (begin db)).1, λ i. ((h i).0, (m (begin db)).1), λ i. (h i).1)

pub run_uow_of :
    {A : Type 0} (m : Tx A) (db : Db) (r : Result A) (s : Session)
    → m (begin db) ≡ (r, s)
    → run_uow m db ≡ (r, s.committed)
unfolding run_uow
run_uow_of m db r s h = λ i. ((h i).0, (h i).1.committed)
