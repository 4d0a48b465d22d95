-- ===== src/Battle/Scores.antt =====
-- A task of a battle is scored once for each player.
use cat_game_backend.Base.{
  ℕ, ◌≡◌, ◌∙◌, Bool, true, false, Option, none, some, List, [], ◌∷◌, arith, ◌==◌, ==_refl, is_none,
  ℤ,
}
use cat_game_backend.Core.Error.{ok, battle_error}
use cat_game_backend.Core.Outcome.{or_raise-ok, bind-ok}
use cat_game_backend.Store.Rows.{Row}
use cat_game_backend.Store.Table.{find, get, put}
use cat_game_backend.Battle.{
  attempt_row, room_task_row, participant_row, BattleDb, BattleAttempt, RoomTask, solved_before,
  add_score, record_attempt_result, finish_if_complete,
}

-- A row that meets the condition after an update is found.
found-put :
    {V : Type 0} ⦃row : Row V⦄ (p : V → Bool) (u v : V) (t : List V)
    → get (row.id_of v) t ≡ some u
    → p v ≡ true
    → is_none (find p (put v t)) ≡ false
unfolding find get put
found-put p u v [] h e = ground arith
found-put p u v (x ∷ t) h e = ground (arith, found-put p u v t)

finish_rest :
    (room_id : ℕ) (db : BattleDb)
    → ((finish_if_complete room_id db).participants ≡ db.participants)
      × ((finish_if_complete room_id db).attempts ≡ db.attempts)
unfolding finish_if_complete
finish_rest room_id db = ground arith

add_score_attempts :
    (score : Option ℤ) (attempt : BattleAttempt) (t : RoomTask) (db db' : BattleDb)
    → add_score score attempt t db ≡ ok db'
    → db'.attempts ≡ db.attempts
unfolding add_score
add_score_attempts none attempt t db db' ran = ground arith
add_score_attempts (some score) attempt t db db' ran = ground arith

-- What a grading writes besides the room.
pub record Graded (score : Option ℤ) (attempt : BattleAttempt) (db db' : BattleDb) : Type 0 where
  pub task : RoomTask
  pub scored : BattleDb
  pub found : get attempt.room_task_id db.room_tasks ≡ some task
  pub added : add_score score attempt task db ≡ ok scored
  pub participants : db'.participants ≡ scored.participants
  pub attempts : db'.attempts ≡ put attempt db.attempts

record_attempt_result-Graded :
    (score : Option ℤ) (attempt : BattleAttempt) (db db' : BattleDb)
    → record_attempt_result score attempt db ≡ ok db'
    → Graded score attempt db db'
unfolding record_attempt_result
record_attempt_result-Graded score attempt db db' ran =
    let (t, found, h1) =
      or_raise-ok (get attempt.room_task_id db.room_tasks) battle_error _ _ ran in
    let (scored, added, last) = bind-ok (add_score score attempt t db) _ _ h1 in
    let graded = record scored { attempts = put attempt scored.attempts } in
    let written : db' ≡ finish_if_complete t.room_id graded = ground arith in
    let rest = finish_rest t.room_id graded in
    record {
      task = t;
      scored = scored;
      found = found;
      added = added;
      participants = rw written rest.0;
      attempts = rw written (rest.1 ∙ rw (add_score_attempts score attempt t db scored added));
    }

-- No score is added where the task was solved before.
add_score_again :
    (score : Option ℤ) (attempt : BattleAttempt) (t : RoomTask) (db db' : BattleDb)
    → is_none (find (solved_before attempt) db.attempts) ≡ false
    → add_score score attempt t db ≡ ok db'
    → db'.participants ≡ db.participants
unfolding add_score
add_score_again none attempt t db db' again ran = ground arith
add_score_again (some score) attempt t db db' again ran = ground arith

-- If the result of a completed correct attempt whose row stands in the table was recorded, then
-- recording the result of another attempt of the same player at the same room task leaves all
-- players with their scores as they are.
pub record_attempt_result_once :
    (score : Option ℤ) (first second old : BattleAttempt) (db db' db'' : BattleDb)
    → get first.id db.attempts ≡ some old
    → first.completed ≡ true
    → first.is_correct ≡ true
    → second.user_id ≡ first.user_id
    → second.room_task_id ≡ first.room_task_id
    → (first.id == second.id) ≡ false
    → record_attempt_result score first db ≡ ok db'
    → record_attempt_result score second db' ≡ ok db''
    → db''.participants ≡ db'.participants
record_attempt_result_once score first second old db db' db'' row done right user task other ran
      again =
    let g = record_attempt_result-Graded score first db db' ran in
    let g' = record_attempt_result-Graded score second db' db'' again in
    let solved : is_none (find (solved_before second) db'.attempts) ≡ false = rw g.attempts (
      found-put (solved_before second) old first db.attempts row
        (rw (user, task, done, right, other, ==_refl first.user_id, ==_refl first.room_task_id))) in
    g'.participants ∙ add_score_again score second g'.task db' g'.scored solved g'.added
