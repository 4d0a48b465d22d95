-- ===== src/Battle.antt =====
-- Battle rooms: app/modules/battle/service.py. A command either raises, and its transaction is
-- rolled back, or returns the tables that it commits. `record_attempt_result` leaves the commit to
-- the grading that calls it.
pub mod Commands
pub mod Capacity
pub mod Starting
pub mod Joining
pub mod Soundness
pub mod Status
pub mod Scores
use cat_game_backend.Base.{
  ℕ, ◌+◌, ◌*◌, String, Bool, true, false, not, ◌&&◌, ◌||◌, Option, none, some, List, [], ◌∷◌, any,
  length, ◌==◌, leb, ltb, if◌then◌else◌, ℤ, pos, ◌+ℤ◌, is_none,
}
use cat_game_backend.Core.Error.{Result, ok, err, battle_error, key_error}
use cat_game_backend.Core.Outcome.{◌>>=◌, ◌>>◌, raise_if, or_raise}
use cat_game_backend.Store.Rows.{Row, User}
use cat_game_backend.Store.Table.{find, get, put, insert_row, where_rows}
use cat_game_backend.Store.Counting.{count}

pub data RoomStatus : Type 0 where
  waiting running finished : RoomStatus

abbrev pub is_waiting : RoomStatus → Bool
is_waiting waiting = true
is_waiting _ = false

abbrev pub is_running : RoomStatus → Bool
is_running running = true
is_running _ = false

pub record Room : Type 0 where
  pub id : ℕ
  pub public_id : ℕ
  pub host_user_id : ℕ
  pub title : String
  pub status : RoomStatus
  pub max_participants : ℕ

pub record RoomParticipant : Type 0 where
  pub id : ℕ
  pub room_id : ℕ
  pub user_id : ℕ
  pub team_name : Option String
  pub current_score : ℤ
  pub is_ready : Bool

pub record RoomTask : Type 0 where
  pub id : ℕ
  pub public_id : ℕ
  pub room_id : ℕ
  pub task_id : ℕ
  pub task_order : ℕ

-- The columns of `Task` that a battle reads.
pub record BattleTask : Type 0 where
  pub id : ℕ
  pub public_id : ℕ
  pub is_active : Bool

-- The columns of `TaskAttempt` that a battle reads; `completed` is `status == "COMPLETED"`.
pub record BattleAttempt : Type 0 where
  pub id : ℕ
  pub user_id : ℕ
  pub room_task_id : ℕ
  pub completed : Bool
  pub is_correct : Bool

instance abbrev pub room_row : Row Room
room_row = record { id_of = λ r. r.id }

instance abbrev pub participant_row : Row RoomParticipant
participant_row = record { id_of = λ r. r.id }

instance abbrev pub room_task_row : Row RoomTask
room_task_row = record { id_of = λ r. r.id }

instance abbrev pub attempt_row : Row BattleAttempt
attempt_row = record { id_of = λ r. r.id }

pub record BattleDb : Type 0 where
  pub rooms : List Room
  pub participants : List RoomParticipant
  pub room_tasks : List RoomTask
  pub tasks : List BattleTask
  pub attempts : List BattleAttempt
  pub next_id : ℕ
  pub generated : ℕ → ℕ

abbrev pub is_member : ℕ → ℕ → RoomParticipant → Bool
is_member room_id user_id p = p.room_id == room_id && p.user_id == user_id

abbrev pub is_in : ℕ → RoomParticipant → Bool
is_in room_id p = p.room_id == room_id

abbrev pub has_public_id : ℕ → Room → Bool
has_public_id public_id r = r.public_id == public_id

abbrev pub participant : ℕ → ℕ → ℕ → Option String → Bool → RoomParticipant
participant id room_id user_id team_name is_ready = record {
  id = id;
  room_id = room_id;
  user_id = user_id;
  team_name = team_name;
  current_score = pos 0;
  is_ready = is_ready;
}

unfoldable pub create_room : User → String → ℕ → BattleDb → Result (Room × BattleDb)
create_room user title max_participants db =
    let room : Room = record {
      id = db.next_id;
      public_id = db.generated db.next_id;
      host_user_id = user.id;
      title = title;
      status = waiting;
      max_participants = max_participants;
    } in
    ok (
      room,
      record db {
        rooms = insert_row room db.rooms;
        participants =
            insert_row (participant (db.next_id + 1) room.id user.id none true) db.participants;
        next_id = db.next_id + 2;
      },
    )

unfoldable pub join_room : User → ℕ → Option String → BattleDb → Result (Room × BattleDb)
unfolding find count
join_room user room_public_id team_name db = do
  room ← or_raise (find (has_public_id room_public_id) db.rooms) battle_error
  raise_if (not (is_waiting room.status)) battle_error
  let existing = find (is_member room.id user.id) db.participants
  let full = leb room.max_participants (count (is_in room.id) db.participants)
  raise_if (is_none existing && full) battle_error
  let joined = record db {
    participants =
        insert_row (participant db.next_id room.id user.id team_name false) db.participants;
    next_id = db.next_id + 1;
  }
  ok (room, if is_none existing then joined else db)

unfoldable pub set_ready : User → ℕ → Bool → BattleDb → Result (Room × BattleDb)
unfolding find put
set_ready user room_public_id ready db = do
  room ← or_raise (find (has_public_id room_public_id) db.rooms) battle_error
  p ← or_raise (find (is_member room.id user.id) db.participants) battle_error
  raise_if (not (is_waiting room.status)) battle_error
  ok (room, record db { participants = put (record p { is_ready = ready }) db.participants })

-- `len(values) != len(set(values))`
unfoldable pub has_duplicates : List ℕ → Bool
has_duplicates [] = false
has_duplicates (x ∷ xs) = any (λ y. y == x) xs || has_duplicates xs

-- The loop that adds the tasks, from the order `order` on.
unfoldable pub add_room_tasks : ℕ → ℕ → List ℕ → List BattleTask → BattleDb → Result BattleDb
unfolding find
add_room_tasks room_id order [] indexed db = ok db
add_room_tasks room_id order (task_id ∷ task_ids) indexed db =
    or_raise (find (λ t. t.public_id == task_id) indexed) key_error >>= λ task.
    add_room_tasks room_id (order + 1) task_ids indexed (record db {
      room_tasks =
          insert_row
            (record {
              id = db.next_id;
              public_id = db.generated db.next_id;
              room_id = room_id;
              task_id = task.id;
              task_order = order;
            })
            db.room_tasks;
      next_id = db.next_id + 1;
    })

-- `settings.battle_correct_score` is the first argument.
unfoldable pub start_room : Option ℤ → User → ℕ → List ℕ → BattleDb → Result (Room × BattleDb)
unfolding find where_rows put has_duplicates
start_room correct_score user room_public_id task_ids db = do
  raise_if (is_none correct_score) battle_error
  room ← or_raise (find (has_public_id room_public_id) db.rooms) battle_error
  raise_if (not (room.host_user_id == user.id) || not (is_waiting room.status)) battle_error
  let participants = where_rows (is_in room.id) db.participants
  raise_if (ltb (length participants) 2 || any (λ p. not p.is_ready) participants) battle_error
  raise_if (length task_ids == 0 || has_duplicates task_ids) battle_error
  let indexed = where_rows (λ t. any (λ i. i == t.public_id) task_ids && t.is_active) db.tasks
  raise_if (not (length indexed == length task_ids)) battle_error
  with_tasks ← add_room_tasks room.id 1 task_ids indexed db
  let started = record room { status = running }
  ok (started, record with_tasks { rooms = put started with_tasks.rooms })

unfoldable pub room_for_member : User → ℕ → BattleDb → Result Room
unfolding find
room_for_member user room_public_id db = do
  room ← or_raise (find (has_public_id room_public_id) db.rooms) battle_error
  p ← or_raise (find (is_member room.id user.id) db.participants) battle_error
  ok room

-- `count(distinct concat(user_id, ":", room_task_id))` over the attempts that are counted.
unfoldable pub count_submitted : List BattleAttempt → ℕ
count_submitted [] = 0
count_submitted (a ∷ attempts) =
    let rest = count_submitted attempts in
    if any (λ b. b.user_id == a.user_id && b.room_task_id == a.room_task_id) attempts
    then rest
    else rest + 1

-- The attempts that the query joins with the tasks of the room.
abbrev pub is_submission : ℕ → List RoomTask → BattleAttempt → Bool
is_submission room_id room_tasks a =
    a.completed && any (λ t. t.id == a.room_task_id && t.room_id == room_id) room_tasks

unfoldable pub is_complete : ℕ → BattleDb → Bool
unfolding count where_rows count_submitted
is_complete room_id db =
    let participant_count = count (is_in room_id) db.participants in
    let task_count = count (λ t. t.room_id == room_id) db.room_tasks in
    let submitted =
      count_submitted (where_rows (is_submission room_id db.room_tasks) db.attempts) in
    not (participant_count == 0)
    && not (task_count == 0)
    && leb (participant_count * task_count) submitted

abbrev pub finish_room : Option Room → ℕ → BattleDb → BattleDb
finish_room none room_id db = db
finish_room (some room) room_id db =
    if is_running room.status && is_complete room_id db
    then record db { rooms = put (record room { status = finished }) db.rooms }
    else db

unfoldable pub finish_if_complete : ℕ → BattleDb → BattleDb
unfolding get is_complete put
finish_if_complete room_id db = finish_room (get room_id db.rooms) room_id db

-- Whether another attempt of the same player has solved the task before.
abbrev pub solved_before : BattleAttempt → BattleAttempt → Bool
solved_before attempt a =
    a.user_id == attempt.user_id
    && a.room_task_id == attempt.room_task_id
    && a.completed
    && a.is_correct
    && not (a.id == attempt.id)

-- The score of a first correct attempt.
unfoldable pub add_score : Option ℤ → BattleAttempt → RoomTask → BattleDb → Result BattleDb
unfolding find put
add_score none attempt room_task db = ok db
add_score (some score) attempt room_task db =
    if attempt.is_correct
    then (do
      p ← or_raise (find (is_member room_task.room_id attempt.user_id) db.participants) battle_error
      let scored = record p { current_score = p.current_score +ℤ score }
      ok (
          if is_none (find (solved_before attempt) db.attempts)
          then record db { participants = put scored db.participants }
          else db))
    else ok db

-- The flush writes the attempt's row, whose columns the grading has set.
unfoldable pub record_attempt_result : Option ℤ → BattleAttempt → BattleDb → Result BattleDb
unfolding get put finish_if_complete add_score
record_attempt_result correct_score attempt db = do
  room_task ← or_raise (get attempt.room_task_id db.room_tasks) battle_error
  scored ← add_score correct_score attempt room_task db
  ok (
      finish_if_complete room_task.room_id
        (record scored { attempts = put attempt scored.attempts }))
