-- ===== src/Battle/Starting.antt =====
-- What the start of a battle finds and does.
use cat_game_backend.Base.{
  any, ltb, length, ℕ, ◌+◌, ◌≤◌, ◌≡◌, true, false, not, ◌&&◌, ◌||◌, Option, some, List, [], ◌∷◌,
  inl, inr, arith, Option-cases, ◌==◌, is_none, ℤ,
}
use cat_game_backend.Core.Error.{ok, battle_error}
use cat_game_backend.Core.Outcome.{raise_if-ok, or_raise-ok, bind-ok}
use cat_game_backend.Store.Rows.{User}
use cat_game_backend.Store.Table.{find, put, where_rows}
use cat_game_backend.Store.Counting.{count}
use cat_game_backend.Battle.{
  has_duplicates, Room, BattleTask, BattleDb, room_row, participant_row, is_in, running, is_waiting,
  room_task_row, attempt_row, start_room, add_room_tasks, has_public_id,
}

-- The loop adds tasks only.
add_room_tasks_rest :
    (room_id order : ℕ) (task_ids : List ℕ) (indexed : List BattleTask) (db db' : BattleDb)
    → add_room_tasks room_id order task_ids indexed db ≡ ok db'
    → (db'.rooms ≡ db.rooms) × (db'.participants ≡ db.participants) × (db.next_id ≤ db'.next_id)
unfolding add_room_tasks
add_room_tasks_rest room_id order [] indexed db db' h = ground arith
add_room_tasks_rest room_id order (i ∷ task_ids) indexed db db' h =
    elim (Option-cases (find (λ t. t.public_id == i) indexed)) [
      | inl missing ↦ ground arith
      | inr (task, found) ↦
          let rest =
            add_room_tasks_rest room_id (order + 1) task_ids indexed _ db' (rw found at h) in
          (rest.0, rest.1, omega (arith, rest.2))
    ]

-- What a start that returned has done.
pub record Started (score : Option ℤ) (user : User) (public_id : ℕ) (task_ids : List ℕ)
    (db db' : BattleDb) : Type 0 where
  pub room : Room
  pub tasked : BattleDb
  pub found : find (has_public_id public_id) db.rooms ≡ some room
  pub host : room.host_user_id ≡ user.id
  pub waits : is_waiting room.status ≡ true
  pub enough : 2 ≤ count (is_in room.id) db.participants
  pub all_ready : any (λ p. not p.is_ready) (where_rows (is_in room.id) db.participants) ≡ false
  pub rooms : tasked.rooms ≡ db.rooms
  pub participants : tasked.participants ≡ db.participants
  pub next_id : db.next_id ≤ tasked.next_id
  pub written : db' ≡ record tasked { rooms = put (record room { status = running }) tasked.rooms }

pub start_room-Started :
    (score : Option ℤ) (user : User) (public_id : ℕ) (task_ids : List ℕ) (db : BattleDb)
    (room : Room) (db' : BattleDb)
    → start_room score user public_id task_ids db ≡ ok (room, db')
    → Started score user public_id task_ids db db'
unfolding start_room count
start_room-Started score user public_id task_ids db started db' ran =
    let (configured, h1) = raise_if-ok (is_none score) battle_error _ _ ran in
    let (room, found, h2) =
      or_raise-ok (find (has_public_id public_id) db.rooms) battle_error _ _ h1 in
    let there = where_rows (is_in room.id) db.participants in
    let indexed =
      where_rows (λ (t : BattleTask). any (λ i. i == t.public_id) task_ids && t.is_active)
        db.tasks in
    let (hosted, h3) =
      raise_if-ok (not (room.host_user_id == user.id) || not (is_waiting room.status)) battle_error
        _ _ h2 in
    let (enough, h4) =
      raise_if-ok (ltb (length there) 2 || any (λ p. not p.is_ready) there) battle_error _ _ h3 in
    let (chosen, h5) =
      raise_if-ok (length task_ids == 0 || has_duplicates task_ids) battle_error _ _ h4 in
    let (active, h6) = raise_if-ok (not (length indexed == length task_ids)) battle_error _ _ h5 in
    let (tasked, added, last) = bind-ok (add_room_tasks room.id 1 task_ids indexed db) _ _ h6 in
    let rest = add_room_tasks_rest room.id 1 task_ids indexed db tasked added in
    record {
      room = room;
      tasked = tasked;
      found = found;
      host = ground arith;
      waits = ground arith;
      enough = ground arith;
      all_ready = ground arith;
      rooms = rest.0;
      participants = rest.1;
      next_id = rest.2;
      written = ground arith;
    }
