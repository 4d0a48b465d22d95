-- ===== src/Store/Executions.antt =====
-- `SqlAlchemyExecutionRepository` of app/db/repositories.py.
use cat_game_backend.Base.{
  ℕ, ◌+◌, String, Bool, not, ◌||◌, none, some, ◌==◌, str_eq, if◌then◌else◌, ℤ, pos, ltb_ℤ,
}
use cat_game_backend.Core.Error.{value_error, ok, idempotency_conflict, runtime_error}
use cat_game_backend.Store.Rows.{
  GachaExecution, execution_row, ResultData, ClaimStatus, acquired, completed, hash_conflict,
  is_completed,
}
use cat_game_backend.Store.Table.{find, insert_row, put}
use cat_game_backend.Store.Session.{Db, Tx, or_raise, raise, ◌>>=◌, ◌>>◌, modify_db, raise_if}

-- `ExecutionClaim` of app/core/repository_contracts.py.
pub record ExecutionClaim : Type 0 where
  pub status : ClaimStatus
  pub execution : GachaExecution

unfoldable pub new_execution : ℕ → ℕ → String → String → Db → GachaExecution
new_execution user_id request_id request_hash operation_type db = record {
  id = db.next_id;
  public_id = db.generated db.next_id;
  user_id = user_id;
  request_id = request_id;
  request_hash = request_hash;
  operation_type = operation_type;
  status = acquired;
  draw_count = none;
  balance_cost = pos 0;
  result_data = none;
}

-- The status of a claim whose request id has a row already.
unfoldable pub claim_status : GachaExecution → ℕ → String → ClaimStatus
claim_status e user_id request_hash =
    if not (e.user_id == user_id) || not (str_eq e.request_hash request_hash)
    then hash_conflict
    else (if is_completed e.status then completed else acquired)

abbrev pub has_request : ℕ → GachaExecution → Bool
has_request request_id e = e.request_id == request_id

-- `INSERT ... ON CONFLICT (request_id) DO NOTHING RETURNING`, then the row that was there.
unfoldable pub claim : ℕ → ℕ → String → String → Tx ExecutionClaim
unfolding find new_execution claim_status
claim user_id request_id request_hash operation_type s =
    elim (find (has_request request_id) s.db.executions) [
      | none ↦
          (let e = new_execution user_id request_id request_hash operation_type s.db in
            (
              ok (record { status = acquired; execution = e }),
              record s {
                db = record (s.db) {
                  executions = insert_row e s.db.executions;
                  next_id = s.db.next_id + 1;
                };
              },
            ))
      | some e ↦ (ok (record { status = claim_status e user_id request_hash; execution = e }), s)
    ]

-- `completed_at` is not modelled.
unfoldable pub complete : GachaExecution → ℤ → ResultData → Tx (Unit {0})
unfolding ◌>>=◌ raise_if modify_db put
complete execution balance_cost result_data = do
  raise_if (ltb_ℤ balance_cost (pos 0)) value_error
  let done = record execution {
    balance_cost = balance_cost;
    result_data = some result_data;
    status = completed;
  }
  modify_db (λ db. record db { executions = put done db.executions })

-- The two tests on a claim with which every command goes on: a conflict raises, a completed
-- request is answered with its stored result.
unfoldable pub replay_or : ExecutionClaim → Tx ResultData → Tx ResultData
unfolding or_raise raise
replay_or c fresh = elim (c.status) [
  | hash_conflict ↦ raise idempotency_conflict
  | completed ↦ or_raise (c.execution.result_data) runtime_error
  | acquired ↦ fresh
]
