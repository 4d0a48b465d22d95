-- ===== src/Battle/Commands.antt =====
-- The commands that change the tables of the battles, and what a sequence of them does.
use cat_game_backend.Base.{ℕ, String, Bool, Option, List, [], ◌∷◌, ℤ}
use cat_game_backend.Core.Outcome.{or_unchanged, ◌>>=◌}
use cat_game_backend.Core.Error.{Result, ok}
use cat_game_backend.Store.Rows.{User}
use cat_game_backend.Battle.{
  BattleAttempt, BattleDb, create_room, join_room, set_ready, start_room, record_attempt_result,
}

pub data Command : Type 0 where
  create : User → String → ℕ → Command
  join : User → ℕ → Option String → Command
  ready : User → ℕ → Bool → Command
  start : User → ℕ → List ℕ → Command
  grade : BattleAttempt → Command

-- The tables that a call leaves.
abbrev pub dropped : {A : Type 0} → Result (A × BattleDb) → Result (Unit {0} × BattleDb)
dropped r = r >>= λ x. ok (tt, x.1)

abbrev pub with_unit : Result BattleDb → Result (Unit {0} × BattleDb)
with_unit r = r >>= λ db. ok (tt, db)

module _ (correct_score : Option ℤ) where
  unfoldable pub call : Command → BattleDb → Result (Unit {0} × BattleDb)
  call (create user title max_participants) db =
      dropped (create_room user title max_participants db)
  call (join user room_public_id team_name) db =
      dropped (join_room user room_public_id team_name db)
  call (ready user room_public_id is_ready) db = dropped (set_ready user room_public_id is_ready db)
  call (start user room_public_id task_ids) db =
      dropped (start_room correct_score user room_public_id task_ids db)
  call (grade attempt) db = with_unit (record_attempt_result correct_score attempt db)

  unfoldable pub run_command : Command → BattleDb → BattleDb
  unfolding call
  run_command c db = or_unchanged (call c db) db

  unfoldable pub run_commands : List Command → BattleDb → BattleDb
  run_commands [] db = db
  run_commands (c ∷ cs) db = run_commands cs (run_command c db)
