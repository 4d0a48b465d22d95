-- ===== src/Store/Claims.antt =====
-- The idempotency of a command: what the claim of a request id (app/db/repositories.py) and the
-- two tests that follow it make of the transaction.
use cat_game_backend.Base.{
  Option, ℕ, ◌+◌, String, ◌≡◌, refl, ◌∙◌, none, some, ◌⊎◌, inl, inr, arith, Option-cases, ℤ,
  ==_refl,
}
use text.Mathlib.TextPositions.{eq_refl}
use cat_game_backend.Core.Error.{ok, err, idempotency_conflict}
use cat_game_backend.Store.Rows.{
  GachaExecution, ResultData, ClaimStatus, acquired, completed, hash_conflict, execution_row,
}
use cat_game_backend.Store.Table.{find, put, insert_row, find-insert_row, find-put, find-holds}
use cat_game_backend.Store.Session.{Db, Session, Tx, begin, ◌>>=◌}
use cat_game_backend.Store.Inversion.{replay_or-ok}
use cat_game_backend.Store.Executions.{claim, replay_or, claim_status, new_execution, has_request}

-- A session that has committed nothing and holds no object back.
abbrev pub opened : Db → Db → Session
opened committed db = record (begin committed) { db = db }

-- The request's row after `complete`.
abbrev pub settled : GachaExecution → ℤ → ResultData → GachaExecution
settled e cost r = record e { balance_cost = cost; result_data = some r; status = completed }

module _ (user_id request_id : ℕ) (request_hash operation_type : String) where
  -- The row, its status and the tables that the claim leaves.
  unfoldable pub claimed_execution : Db → GachaExecution
  claimed_execution db = elim (find (has_request request_id) db.executions) [
    | none ↦ new_execution user_id request_id request_hash operation_type db
    | some e ↦ e
  ]

  unfoldable pub claimed_status : Db → ClaimStatus
  claimed_status db = elim (find (has_request request_id) db.executions) [
    | none ↦ acquired
    | some e ↦ claim_status e user_id request_hash
  ]

  unfoldable pub claimed_db : Db → Db
  claimed_db db = elim (find (has_request request_id) db.executions) [
    | none ↦ record db {
      executions =
          insert_row (new_execution user_id request_id request_hash operation_type db)
            db.executions;
      next_id = db.next_id + 1;
    }
    | some e ↦ db
  ]

  claim_lem :
      (db : Db)
      → claim user_id request_id request_hash operation_type (begin db) ≡ (
        ok (record { status = claimed_status db; execution = claimed_execution db }),
        opened db (claimed_db db),
      )
  unfolding claim claimed_execution claimed_status claimed_db
  claim_lem db = elim (Option-cases (find (has_request request_id) db.executions)) [
    | inl absent ↦ rw (absent, claimed_status, claimed_execution, claimed_db)
    | inr (e, present) ↦ rw (present, claimed_status, claimed_execution, claimed_db)
  ]

  -- The request was completed by this user with this payload, and its stored result is `r`.
  pub record Settles (r : ResultData) (db : Db) : Type 0 where
    pub row : GachaExecution
    pub found : find (has_request request_id) db.executions ≡ some row
    pub done : claim_status row user_id request_hash ≡ completed
    pub result : row.result_data ≡ some r

  Settles-of_completed :
      (db : Db) (r : ResultData)
      → claimed_status db ≡ completed
      → (claimed_execution db).result_data ≡ some r
      → Settles r db
  unfolding claimed_status claimed_execution
  Settles-of_completed db r h k =
      elim (Option-cases (find (has_request request_id) db.executions)) [
        | inl absent ↦ ground arith
        | inr (e, present) ↦ record {
          row = e;
          found = present;
          done = ground arith;
          result = ground arith;
        }
      ]

  abbrev pub claim_or_replay : (GachaExecution → Tx ResultData) → Tx ResultData
  claim_or_replay fresh = do
    c ← claim user_id request_id request_hash operation_type
    replay_or c (fresh c.execution)

  pub claim_or_replay-ok :
      (fresh : GachaExecution → Tx ResultData) (db : Db) (r : ResultData) (s' : Session)
      → claim_or_replay fresh (begin db) ≡ (ok r, s')
      → (Settles r db × (s'.committed ≡ db))
        ⊎ ((claimed_status db ≡ acquired)
            × (fresh (claimed_execution db) (opened db (claimed_db db)) ≡ (ok r, s')))
  unfolding ◌>>=◌ replay_or
  claim_or_replay-ok fresh db r s' h =
      elim (replay_or-ok (record { status = claimed_status db; execution = claimed_execution db })
        (fresh (claimed_execution db)) (opened db (claimed_db db)) s' r (rw claim_lem at h)) [
          | inl (done, result, same) ↦
              inl (Settles-of_completed db r done result, λ i. (same i).committed)
          | inr (fresh_claim, ran) ↦ inr (fresh_claim, ran)
        ]

  -- A settled request is answered with its result, and nothing changes.
  pub claim_or_replay_settled :
      (fresh : GachaExecution → Tx ResultData) (db : Db) (r : ResultData)
      → Settles r db
      → claim_or_replay fresh (begin db) ≡ (ok r, begin db)
  unfolding ◌>>=◌ claim replay_or
  claim_or_replay_settled fresh db r h = rw (h.found, h.done, h.result)

  -- A row of another user, or of another payload, is a conflict.
  pub claim_or_replay_conflict :
      (fresh : GachaExecution → Tx ResultData) (db : Db) (e : GachaExecution)
      → find (has_request request_id) db.executions ≡ some e
      → claim_status e user_id request_hash ≡ hash_conflict
      → claim_or_replay fresh (begin db) ≡ (err idempotency_conflict, begin db)
  unfolding ◌>>=◌ claim replay_or
  claim_or_replay_conflict fresh db e found differs = rw (found, differs)

  -- A fresh command that ends with `complete` settles its request.
  pub Settles-settled_counted :
      (db db' : Db) (count : Option ℤ) (cost : ℤ) (r : ResultData)
      → claimed_status db ≡ acquired
      → db'.executions
        ≡ put
            (settled (record (claimed_execution db) { draw_count = count }) cost r)
            (claimed_db db).executions
      → Settles r db'
  unfolding claimed_status claimed_execution claimed_db claim_status new_execution
  Settles-settled_counted db db' count cost r h e =
      let fresh = new_execution user_id request_id request_hash operation_type db in
      elim (Option-cases (find (has_request request_id) db.executions)) [
        | inl absent ↦ record {
          row = settled (record fresh { draw_count = count }) cost r;
          found =
              rw (e, absent, claimed_db, claimed_execution)
                (find-put (has_request request_id) fresh
                  (settled (record fresh { draw_count = count }) cost r)
                  (insert_row fresh db.executions)
                  (find-insert_row (has_request request_id) fresh db.executions absent
                    ∙ rw (==_refl request_id) refl)
                  refl (==_refl request_id));
          done = rw (==_refl user_id, eq_refl request_hash);
          result = refl;
        }
        | inr (x, present) ↦ record {
          row = settled (record x { draw_count = count }) cost r;
          found =
              rw (e, present, claimed_db, claimed_execution)
                (find-put (has_request request_id) x
                  (settled (record x { draw_count = count }) cost r) db.executions present refl
                  (find-holds (has_request request_id) x db.executions present));
          done = ground arith;
          result = refl;
        }
      ]

  pub Settles-settled :
      (db db' : Db) (cost : ℤ) (r : ResultData)
      → claimed_status db ≡ acquired
      → db'.executions ≡ put (settled (claimed_execution db) cost r) (claimed_db db).executions
      → Settles r db'
  Settles-settled db db' cost r h e =
      Settles-settled_counted db db' (claimed_execution db).draw_count cost r h e

  -- A claim touches no table but the executions.
  pub claimed_db_rest :
      (db : Db)
      → ((claimed_db db).users ≡ db.users)
        × ((claimed_db db).items ≡ db.items)
        × ((claimed_db db).cats ≡ db.cats)
        × ((claimed_db db).assets ≡ db.assets)
  unfolding claimed_db
  claimed_db_rest db = elim (Option-cases (find (has_request request_id) db.executions)) [
    | inl absent ↦ rw (absent, claimed_db) (refl, refl, refl, refl)
    | inr (e, present) ↦ rw (present, claimed_db) (refl, refl, refl, refl)
  ]
