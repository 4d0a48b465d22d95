-- ===== src/Examples/Battle.antt =====
-- A battle of two players.
use cat_game_backend.Base.{ℕ, ◌+◌, ◌≡◌, refl, true, false, none, some, List, [], ◌∷◌, pos, arith}
use cat_game_backend.Base.Int.{◌+ℤ◌}
use cat_game_backend.Core.Error.{ok}
use cat_game_backend.Battle.{
  Room, RoomTask, BattleAttempt, BattleDb, running, record_attempt_result, participant, room_row,
  attempt_row,
}
use cat_game_backend.Store.Table.{get}
use cat_game_backend.Battle.Commands.{Command, create, join, ready, start, grade, run_commands}
use cat_game_backend.Battle.Capacity.{IsSound}
use cat_game_backend.Battle.Soundness.{run_commands-IsSound}
use cat_game_backend.Battle.Status.{Follows, run_commands-Follows}
use cat_game_backend.Battle.Scores.{record_attempt_result_once}
use cat_game_backend.Examples.{ada, bob}

abbrev empty : BattleDb
empty = record {
  rooms = [];
  participants = [];
  room_tasks = [];
  tasks = record { id = 1; public_id = 201; is_active = true } ∷ [];
  attempts = [];
  next_id = 10;
  generated = λ n. 1000 + n;
}

empty-IsSound : IsSound empty
unfolding get
empty-IsSound = record {
  room_keys = tt;
  room_ids = tt;
  keys = tt;
  ids = tt;
  rooms_below = tt;
  members = tt;
  capacity = λ i r h. ground arith;
}

-- Ada opens a room for two; Bob joins it twice and is ready.
abbrev gathering : List Command
gathering = create ada "duel" 2 ∷ join bob 1010 none ∷ join bob 1010 none ∷ ready bob 1010 true ∷ []

run_commands-IsSound_example : IsSound (run_commands (some (pos 10)) gathering empty)
run_commands-IsSound_example =
    run_commands-IsSound (some (pos 10)) gathering empty (ground arith) empty-IsSound

abbrev gathered : BattleDb
gathered = run_commands (some (pos 10)) gathering empty

abbrev attempt : ℕ → ℕ → BattleAttempt
attempt id user_id = record {
  id = id;
  user_id = user_id;
  room_task_id = 13;
  completed = true;
  is_correct = true;
}

abbrev playing : List Command
playing = start ada 1010 (201 ∷ []) ∷ grade (attempt 51 1) ∷ []

run_commands-Follows_example : Follows gathered (run_commands (some (pos 10)) playing gathered)
run_commands-Follows_example =
    run_commands-Follows (some (pos 10)) playing gathered (ground arith)
      (run_commands-IsSound (some (pos 10)) gathering empty (ground arith) empty-IsSound)

-- A battle that runs, in which Ada has two attempts at the same task.
abbrev room_task : RoomTask
room_task = record { id = 13; public_id = 113; room_id = 10; task_id = 1; task_order = 1 }

abbrev room : Room
room = record {
  id = 10;
  public_id = 1010;
  host_user_id = 1;
  title = "duel";
  status = running;
  max_participants = 2;
}

abbrev duel : BattleDb
duel = record {
  rooms = room ∷ [];
  participants = participant 11 10 1 none true ∷ participant 12 10 2 none true ∷ [];
  room_tasks = room_task ∷ [];
  tasks = [];
  attempts =
      record (attempt 51 1) { completed = false }
      ∷ record (attempt 52 1) { completed = false }
      ∷ [];
  next_id = 60;
  generated = λ n. 1000 + n;
}

abbrev once : BattleDb
once = record duel {
  participants =
      record (participant 11 10 1 none true) { current_score = pos 10 }
      ∷ participant 12 10 2 none true
      ∷ [];
  attempts = attempt 51 1 ∷ record (attempt 52 1) { completed = false } ∷ [];
}

abbrev twice : BattleDb
twice = record once { attempts = attempt 51 1 ∷ attempt 52 1 ∷ [] }

scored_once : record_attempt_result (some (pos 10)) (attempt 51 1) duel ≡ ok once
unfolding record_attempt_result ◌+ℤ◌
scored_once = refl

scored_twice : record_attempt_result (some (pos 10)) (attempt 52 1) once ≡ ok twice
unfolding record_attempt_result ◌+ℤ◌
scored_twice = refl

record_attempt_result_once_example : twice.participants ≡ once.participants
unfolding get
record_attempt_result_once_example =
    record_attempt_result_once (some (pos 10)) (attempt 51 1) (attempt 52 1)
      (record (attempt 51 1) { completed = false }) duel once twice refl refl refl refl refl refl
      scored_once scored_twice
