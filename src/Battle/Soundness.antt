-- ===== src/Battle/Soundness.antt =====
-- Every command on battles keeps the rooms within their capacity.
use cat_game_backend.Base.{
  ap, ℕ, ◌<◌, ◌≡◌, refl, sym, ◌∙◌, Bool, ◌&&◌, Option, none, some, List, [], ◌∷◌, inl, inr, arith,
  All, Bool-cases, Option-cases, ℤ, ◌+ℤ◌,
}
use cat_game_backend.Core.Error.{ok, battle_error}
use cat_game_backend.Core.Outcome.{or_raise-ok, bind-ok, or_unchanged-outcome, or_raise}
use cat_game_backend.Store.Rows.{User}
use cat_game_backend.Store.Table.{find, get, put, get-find}
use cat_game_backend.Battle.{
  Room, RoomTask, BattleDb, BattleAttempt, room_row, participant_row, is_member, running, finished,
  is_waiting, is_running, solved_before, room_task_row, attempt_row, set_ready, start_room,
  record_attempt_result, add_score, finish_if_complete, finish_room, is_complete, has_public_id,
}
use cat_game_backend.Battle.Commands.{
  Command, create, join, ready, start, grade, dropped, with_unit, run_command, run_commands,
}
use cat_game_backend.Battle.Starting.{start_room-Started}
use cat_game_backend.Battle.Capacity.{IsSound, participant_put, room_put, grown, get_id}
use cat_game_backend.Battle.Joining.{create_room-IsSound, join_room-IsSound}

set_ready-IsSound :
    (score : Option ℤ) (user : User) (public_id : ℕ) (is_ready : Bool) (db : BattleDb)
    → IsSound db
    → IsSound (run_command score (ready user public_id is_ready) db)
unfolding run_command set_ready
set_ready-IsSound score user public_id is_ready db h =
    elim (Option-cases (find (has_public_id public_id) db.rooms)) [
      | inl unknown ↦ rw (unknown, or_raise) h
      | inr (room, found) ↦ elim (Option-cases (find (is_member room.id user.id) db.participants)) [
        | inl absent ↦ rw (found, or_raise, absent) h
        | inr (p, there) ↦ elim (Bool-cases (is_waiting room.status)) [
          | inr closed ↦ rw (found, there, closed) h
          | inl open_room ↦
              rw (found, there, open_room)
                (participant_put db h p (record p { is_ready = is_ready })
                  (get-find (is_member room.id user.id) p db.participants h.keys there) refl refl)
        ]
      ]
    ]

start_room-IsSound :
    (correct_score : Option ℤ) (user : User) (public_id : ℕ) (task_ids : List ℕ) (db : BattleDb)
    → IsSound db
    → (room : Room) (db' : BattleDb)
    → start_room correct_score user public_id task_ids db ≡ ok (room, db')
    → IsSound db'
start_room-IsSound correct_score user public_id task_ids db h room db' ran =
    let s = start_room-Started correct_score user public_id task_ids db room db' ran in
    let row : get s.room.id s.tasked.rooms ≡ some s.room =
      rw s.rooms (get-find (has_public_id public_id) s.room db.rooms h.room_keys s.found) in
    rw s.written (
      room_put s.tasked (grown db h s.tasked s.rooms s.participants s.next_id) s.room
        (record s.room { status = running }) row refl)

finish_if_complete-IsSound :
    (room_id : ℕ) (db : BattleDb) → IsSound db → IsSound (finish_if_complete room_id db)
unfolding finish_if_complete
finish_if_complete-IsSound room_id db h = elim (Option-cases (get room_id db.rooms)) [
  | inl unknown ↦ rw (unknown, finish_room) h
  | inr (room, found) ↦ elim (Bool-cases (is_running room.status && is_complete room_id db)) [
    | inl done ↦
        let id : room.id ≡ room_id = ground (arith, get_id room_id room db.rooms found) in
        rw (found, finish_room)
          (rw done (
            room_put db h room (record room { status = finished })
              (ap (λ k. get k db.rooms) id ∙ found) refl))
    | inr more ↦ rw (found, finish_room) (rw more h)
  ]
]

add_score-IsSound :
    (correct_score : Option ℤ) (attempt : BattleAttempt) (t : RoomTask) (db db' : BattleDb)
    → IsSound db
    → add_score correct_score attempt t db ≡ ok db'
    → IsSound db'
unfolding add_score
add_score-IsSound none attempt t db db' h ran = let same : db' ≡ db = ground arith in rw same h
add_score-IsSound (some score) attempt t db db' h ran = elim (Bool-cases attempt.is_correct) [
  | inr wrong ↦ let same : db' ≡ db = ground arith in rw same h
  | inl right ↦ elim (Option-cases (find (is_member t.room_id attempt.user_id) db.participants)) [
    | inl absent ↦ ground arith
    | inr (p, there) ↦ elim (Option-cases (find (solved_before attempt) db.attempts)) [
      | inr (a, before) ↦ let same : db' ≡ db = ground arith in rw same h
      | inl first ↦
          let scored = record p { current_score = p.current_score +ℤ score } in
          let same : db' ≡ record db { participants = put scored db.participants } = ground arith in
          rw same (
            participant_put db h p scored
              (get-find (is_member t.room_id attempt.user_id) p db.participants h.keys there) refl
              refl)
    ]
  ]
]

record_attempt_result-IsSound :
    (correct_score : Option ℤ) (attempt : BattleAttempt) (db db' : BattleDb)
    → IsSound db
    → record_attempt_result correct_score attempt db ≡ ok db'
    → IsSound db'
unfolding record_attempt_result
record_attempt_result-IsSound correct_score attempt db db' h ran =
    let (t, found, h1) =
      or_raise-ok (get attempt.room_task_id db.room_tasks) battle_error _ _ ran in
    let (scored, added, last) = bind-ok (add_score correct_score attempt t db) _ _ h1 in
    let sound = add_score-IsSound correct_score attempt t db scored h added in
    let written : db'
        ≡ finish_if_complete t.room_id (record scored { attempts = put attempt scored.attempts }) =
      ground arith in
    rw written
      (finish_if_complete-IsSound t.room_id _ (grown scored sound _ refl refl (omega arith)))

-- The schema of a new room wants at least 2 places.
abbrev pub IsValid : Command → Type 0
IsValid (create user title max_participants) = 0 < max_participants
IsValid _ = Unit

pub run_command-IsSound :
    (score : Option ℤ) (c : Command) (db : BattleDb)
    → IsValid c
    → IsSound db
    → IsSound (run_command score c db)
unfolding run_command
run_command-IsSound score (create user title n) db v h =
    create_room-IsSound score user title n db v h
run_command-IsSound score (join user p team) db v h = join_room-IsSound score user p team db h
run_command-IsSound score (ready user p b) db v h = set_ready-IsSound score user p b db h
run_command-IsSound score (start user p ids) db v h =
    or_unchanged-outcome IsSound (dropped (start_room score user p ids db)) db h (λ _ db' ran.
      let ((room, after), started, same) = bind-ok (start_room score user p ids db) _ _ ran in
      let e : after ≡ db' = ground arith in
      rw (sym e) (start_room-IsSound score user p ids db h room after started))
run_command-IsSound score (grade attempt) db v h =
    or_unchanged-outcome IsSound (with_unit (record_attempt_result score attempt db)) db h
      (λ _ db' ran.
        let (after, graded, same) = bind-ok (record_attempt_result score attempt db) _ _ ran in
        let e : after ≡ db' = ground arith in
        rw (sym e) (record_attempt_result-IsSound score attempt db after h graded))

-- If the tables of the battles are sound, every sequence of calls (create with a positive size,
-- join, ready, start, grade; each may raise) leaves them sound: no room has more players than its
-- maximum, no player is twice in a room, and the keys of rooms and players are distinct and below
-- the next number.
pub run_commands-IsSound :
    (score : Option ℤ) (cs : List Command) (db : BattleDb)
    → All IsValid cs
    → IsSound db
    → IsSound (run_commands score cs db)
unfolding run_commands
run_commands-IsSound score [] db v h = h
run_commands-IsSound score (c ∷ cs) db v h =
    run_commands-IsSound score cs (run_command score c db) v.1
      (run_command-IsSound score c db v.0 h)
