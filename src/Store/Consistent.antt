-- ===== src/Store/Consistent.antt =====
-- The invariant of the economy's tables: the CHECK constraints of app/models/user.py,
-- app/models/asset.py and app/models/gacha_execution.py, the primary key of the users, and that a
-- completed request has a stored result.
use cat_game_backend.Base.{
  ℕ, ◌≤◌, ◌≡◌, Bool, true, not, ◌||◌, is_none, arith, All, All-append, pos, ◌≤ℤ◌, String,
  Option-cases, inl, inr,
}
use cat_game_backend.Store.Rows.{
  User, Asset, GachaExecution, is_completed, user_row, asset_row, execution_row,
  advance_state_version,
}
use cat_game_backend.Store.Table.{IsBelow, IsBelow-suc, Distinct, find}
use cat_game_backend.Store.Session.{Db}
use cat_game_backend.Store.Executions.{has_request, new_execution}
use cat_game_backend.Store.Claims.{claimed_db}

abbrev pub IsSoundUser : User → Type 0
IsSoundUser u = (pos 0 ≤ℤ u.balance) × (pos 0 ≤ℤ u.mileage) × (1 ≤ u.state_version)

abbrev pub IsSoundAsset : Asset → Type 0
IsSoundAsset a = pos 1 ≤ℤ a.quantity

abbrev pub has_result : GachaExecution → Bool
has_result e = not (is_completed e.status) || not (is_none e.result_data)

abbrev pub IsSoundExecution : GachaExecution → Type 0
IsSoundExecution e = (pos 0 ≤ℤ e.balance_cost) × (has_result e ≡ true)

pub record IsConsistent (db : Db) : Type 0 where
  pub keys : Distinct db.users
  pub users : All IsSoundUser db.users
  pub asset_keys : Distinct db.assets
  pub asset_ids : All (IsBelow db.next_id) db.assets
  pub assets : All IsSoundAsset db.assets
  pub executions : All IsSoundExecution db.executions

pub advance-IsSoundUser : (u : User) → IsSoundUser u → IsSoundUser (advance_state_version u)
unfolding advance_state_version
advance-IsSoundUser u h = ground arith

module _ (user_id request_id : ℕ) (request_hash operation_type : String) where
  -- A claim keeps the invariant.
  pub claimed_db-IsConsistent :
      (db : Db)
      → IsConsistent db
      → IsConsistent (claimed_db user_id request_id request_hash operation_type db)
  unfolding claimed_db new_execution
  claimed_db-IsConsistent db h = elim (Option-cases (find (has_request request_id) db.executions)) [
    | inl absent ↦
        rw (absent, claimed_db)
          (record {
            keys = h.keys;
            users = h.users;
            asset_keys = h.asset_keys;
            asset_ids = IsBelow-suc db.next_id db.assets h.asset_ids;
            assets = h.assets;
            executions = All-append IsSoundExecution db.executions _ h.executions (ground arith);
          })
    | inr (e, present) ↦ rw (present, claimed_db) h
  ]
