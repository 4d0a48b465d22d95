-- ===== src/Battle/Status.antt =====
-- The life of a room: it waits, runs and is finished, and never turns back.
use cat_game_backend.Base.{
  ap, ℕ, ◌≡◌, refl, sym, ◌∙◌, Bool, true, ◌&&◌, Option, none, some, List, [], ◌∷◌, inl, inr, arith,
  Bool-cases, Option-cases, ◌==◌, ℤ, String, All,
}
use mathlib.Core.Path.{subst}
use mathlib.Core.Option.{some-injective}
use cat_game_backend.Core.Error.{ok, battle_error}
use cat_game_backend.Core.Outcome.{or_raise-ok, bind-ok, or_unchanged-outcome}
use cat_game_backend.Store.Rows.{User}
use cat_game_backend.Store.Table.{Distinct, get, put, insert_row, get-find, get-put_self}
use cat_game_backend.Battle.{
  RoomStatus, waiting, running, finished, Room, BattleDb, BattleAttempt, RoomTask, room_row,
  room_task_row, attempt_row, participant_row, is_waiting, is_running, has_public_id, create_room,
  join_room, set_ready, start_room, record_attempt_result, add_score, finish_if_complete,
  finish_room, is_complete,
}
use cat_game_backend.Battle.Commands.{
  Command, create, join, ready, start, grade, call, run_command, run_commands,
}
use cat_game_backend.Battle.Capacity.{IsSound, get_id, get-put_other}
use cat_game_backend.Battle.Starting.{start_room-Started}
use cat_game_backend.Battle.Joining.{get-insert_row_old}
use cat_game_backend.Battle.Soundness.{IsValid, run_command-IsSound}

infix 40 ◌⟶◌ ◌⟶*◌
pub data ◌⟶◌ : RoomStatus → RoomStatus → Type 0 where
  begins : waiting ⟶ running
  ends : running ⟶ finished

pub data ◌⟶*◌ : RoomStatus → RoomStatus → Type 0 where
  stays : {s : RoomStatus} → s ⟶* s
  then : {s t u : RoomStatus} → s ⟶* t → t ⟶ u → s ⟶* u

⟶*-trans : {s t u : RoomStatus} → s ⟶* t → t ⟶* u → s ⟶* u
⟶*-trans h stays = h
⟶*-trans h (then k e) = then (⟶*-trans h k) e

-- The room `r` later on: only its status has moved.
pub record Later (r r' : Room) : Type 0 where
  pub same : r' ≡ record r { status = r'.status }
  pub moved : r.status ⟶* r'.status

-- Every room is still there, later on.
pub record Follows (db db' : BattleDb) : Type 0 where
  pub at :
      (i : ℕ) (r : Room)
      → get i db.rooms ≡ some r
      → (r' : Room) × (get i db'.rooms ≡ some r') × Later r r'

same_rooms : (db db' : BattleDb) → db'.rooms ≡ db.rooms → Follows db db'
same_rooms db db' e = record { at = λ i r h. (r, rw e h, record { same = refl; moved = stays }) }

Later-trans : (r s t : Room) → Later r s → Later s t → Later r t
Later-trans r s t h k = record {
  same = k.same ∙ λ i. record (h.same i) { status = t.status };
  moved = ⟶*-trans h.moved k.moved;
}

Follows-trans : (a b c : BattleDb) → Follows a b → Follows b c → Follows a c
Follows-trans a b c h k = record {
  at = λ i r hit.
      let (s, hit_s, l) = h.at i r hit in
      let (t, hit_t, l') = k.at i s hit_s in (t, hit_t, Later-trans r s t l l');
}

-- A room's status moves by one step.
stepped :
    (db db' : BattleDb) (room : Room) (status : RoomStatus)
    → get room.id db.rooms ≡ some room
    → db'.rooms ≡ put (record room { status = status }) db.rooms
    → room.status ⟶ status
    → Follows db db'
stepped db db' room status row written step = record {
  at = λ i r hit. elim (Bool-cases (i == room.id)) [
    | inl same ↦
        let e : i ≡ room.id = ground arith in
        let is_r : room ≡ r =
          some-injective room r (sym row ∙ (ap (λ k. get k db.rooms) (sym e) ∙ hit)) in
        (
          record room { status = status },
          rw (written, e) (get-put_self room (record room { status = status }) db.rooms row),
          record {
            same = λ j. record (is_r j) { status = status };
            moved = then stays (subst (λ x. x.status ⟶ status) is_r step);
          },
        )
    | inr differs ↦ (
      r,
      rw written (get-put_other i (record room { status = status }) db.rooms differs ∙ hit),
      record { same = refl; moved = stays },
    )
  ];
}

is_waiting-eq : (s : RoomStatus) → is_waiting s ≡ true → s ≡ waiting
is_waiting-eq waiting h = refl
is_waiting-eq running h = ground arith
is_waiting-eq finished h = ground arith

is_running-eq : (s : RoomStatus) → is_running s ≡ true → s ≡ running
is_running-eq waiting h = ground arith
is_running-eq running h = refl
is_running-eq finished h = ground arith

create_room-Follows :
    (user : User) (title : String) (n : ℕ) (db : BattleDb) (room : Room) (db' : BattleDb)
    → create_room user title n db ≡ ok (room, db')
    → Follows db db'
unfolding create_room
create_room-Follows user title n db room db' ran = record {
  at = λ i r hit.
      let written : db'.rooms ≡ insert_row room db.rooms = ground arith in
      (
        r,
        rw written (get-insert_row_old i room r db.rooms hit),
        record { same = refl; moved = stays },
      );
}

join_room_rooms :
    (user : User) (p : ℕ) (team : Option String) (db : BattleDb) (room : Room) (db' : BattleDb)
    → join_room user p team db ≡ ok (room, db')
    → db'.rooms ≡ db.rooms
unfolding join_room
join_room_rooms user p team db room db' ran = ground arith

set_ready_rooms :
    (user : User) (p : ℕ) (is_ready : Bool) (db : BattleDb) (room : Room) (db' : BattleDb)
    → set_ready user p is_ready db ≡ ok (room, db')
    → db'.rooms ≡ db.rooms
unfolding set_ready
set_ready_rooms user p is_ready db room db' ran = ground arith

start_room-Follows :
    (score : Option ℤ) (user : User) (p : ℕ) (ids : List ℕ) (db : BattleDb) (room : Room)
    (db' : BattleDb)
    → Distinct db.rooms
    → start_room score user p ids db ≡ ok (room, db')
    → Follows db db'
start_room-Follows score user p ids db room db' keys ran =
    let s = start_room-Started score user p ids db room db' ran in
    stepped db db' s.room running (get-find (has_public_id p) s.room db.rooms keys s.found)
      ((λ i. (s.written i).rooms) ∙ rw s.rooms) (rw (is_waiting-eq s.room.status s.waits) begins)

finish_if_complete-Follows :
    (room_id : ℕ) (db : BattleDb) → Follows db (finish_if_complete room_id db)
unfolding finish_if_complete
finish_if_complete-Follows room_id db = elim (Option-cases (get room_id db.rooms)) [
  | inl unknown ↦ same_rooms db _ (rw (unknown, finish_room))
  | inr (room, found) ↦ elim (Bool-cases (is_running room.status && is_complete room_id db)) [
    | inr more ↦ same_rooms db _ (rw (found, finish_room) (rw more))
    | inl done ↦
        let id : room.id ≡ room_id = ground (arith, get_id room_id room db.rooms found) in
        let runs : is_running room.status ≡ true = ground arith in
        stepped db _ room finished (ap (λ k. get k db.rooms) id ∙ found)
          (rw (found, finish_room) (rw done)) (rw (is_running-eq room.status runs) ends)
  ]
]

add_score_rooms :
    (score : Option ℤ) (attempt : BattleAttempt) (t : RoomTask) (db db' : BattleDb)
    → add_score score attempt t db ≡ ok db'
    → db'.rooms ≡ db.rooms
unfolding add_score
add_score_rooms none attempt t db db' ran = ground arith
add_score_rooms (some score) attempt t db db' ran = ground arith

record_attempt_result-Follows :
    (score : Option ℤ) (attempt : BattleAttempt) (db db' : BattleDb)
    → record_attempt_result score attempt db ≡ ok db'
    → Follows db db'
unfolding record_attempt_result
record_attempt_result-Follows score attempt db db' ran =
    let (t, found, h1) =
      or_raise-ok (get attempt.room_task_id db.room_tasks) battle_error _ _ ran in
    let (scored, added, last) = bind-ok (add_score score attempt t db) _ _ h1 in
    let graded = record scored { attempts = put attempt scored.attempts } in
    let written : db' ≡ finish_if_complete t.room_id graded = ground arith in
    rw written (
      Follows-trans db graded _
        (same_rooms db graded (add_score_rooms score attempt t db scored added))
        (finish_if_complete-Follows t.room_id graded))

call-Follows :
    (score : Option ℤ) (c : Command) (db : BattleDb) (u : Unit {0}) (db' : BattleDb)
    → Distinct db.rooms
    → call score c db ≡ ok (u, db')
    → Follows db db'
unfolding call
call-Follows score (create user title n) db u db' keys ran =
    let ((room, after), made, same) = bind-ok (create_room user title n db) _ _ ran in
    let e : after ≡ db' = ground arith in
    rw (sym e) (create_room-Follows user title n db room after made)
call-Follows score (join user p team) db u db' keys ran =
    let ((room, after), made, same) = bind-ok (join_room user p team db) _ _ ran in
    let e : after ≡ db' = ground arith in
    rw (sym e) (same_rooms db after (join_room_rooms user p team db room after made))
call-Follows score (ready user p is_ready) db u db' keys ran =
    let ((room, after), made, same) = bind-ok (set_ready user p is_ready db) _ _ ran in
    let e : after ≡ db' = ground arith in
    rw (sym e) (same_rooms db after (set_ready_rooms user p is_ready db room after made))
call-Follows score (start user p ids) db u db' keys ran =
    let ((room, after), made, same) = bind-ok (start_room score user p ids db) _ _ ran in
    let e : after ≡ db' = ground arith in
    rw (sym e) (start_room-Follows score user p ids db room after keys made)
call-Follows score (grade attempt) db u db' keys ran =
    let (after, made, same) = bind-ok (record_attempt_result score attempt db) _ _ ran in
    let e : after ≡ db' = ground arith in
    rw (sym e) (record_attempt_result-Follows score attempt db after made)

run_command-Follows :
    (score : Option ℤ) (c : Command) (db : BattleDb)
    → Distinct db.rooms
    → Follows db (run_command score c db)
unfolding run_command
run_command-Follows score c db keys =
    or_unchanged-outcome (Follows db) (call score c db) db (same_rooms db db refl)
      (λ u db' ran. call-Follows score c db u db' keys ran)

-- From sound tables, every sequence of calls (with positive sizes for new rooms) keeps every room
-- under its key; only its status may change, and that only along the steps from waiting to
-- running and from running to finished.
pub run_commands-Follows :
    (score : Option ℤ) (cs : List Command) (db : BattleDb)
    → All IsValid cs
    → IsSound db
    → Follows db (run_commands score cs db)
unfolding run_commands
run_commands-Follows score [] db v h = same_rooms db db refl
run_commands-Follows score (c ∷ cs) db v h =
    Follows-trans db (run_command score c db) _ (run_command-Follows score c db h.room_keys) (
      run_commands-Follows score cs (run_command score c db) v.1
        (run_command-IsSound score c db v.0 h))
