-- ===== src/Battle/Joining.antt =====
-- A room that is created, or joined, holds no more players than it may.
use cat_game_backend.Base.{
  ℕ, ◌+◌, ◌≤◌, ◌<◌, ◌≡◌, refl, sym, ◌∙◌, Bool, true, false, Option, none, some, List, [], ◌∷◌, inl,
  inr, arith, All, All-append, All-map_imp, Bool-cases, Option-cases, ◌==◌, ==_refl, leb,
  if◌then◌else◌, ℤ, String,
}
use mathlib.Core.Option.{some-injective}
use cat_game_backend.Core.Outcome.{or_raise}
use cat_game_backend.Store.Rows.{User}
use cat_game_backend.Store.Table.{
  has_id, All-find, IsBelow, IsBelow-suc, find, get, insert_row, where_rows, get-find,
  find-insert_row, find-insert_row_old, Distinct-insert_row,
}
use cat_game_backend.Store.Counting.{count, count-insert_row}
use cat_game_backend.Battle.{
  Room, RoomParticipant, BattleDb, room_row, participant_row, is_in, is_member, participant,
  waiting, is_waiting, room_task_row, attempt_row, create_room, join_room, has_public_id,
}
use cat_game_backend.Battle.Commands.{create, join, run_command}
use cat_game_backend.Battle.Capacity.{IsSound, FitsIn, Members-insert_row, grown, get_id}

pub get-find_same :
    (i : ℕ) (r : Room) (t : List Room) → get i t ≡ some r → find (has_id i) t ≡ some r
unfolding get
get-find_same i r t h = h

pub get-insert_row_old :
    (i : ℕ) (r u : Room) (t : List Room) → get i t ≡ some u → get i (insert_row r t) ≡ some u
unfolding get
get-insert_row_old i r u t h = find-insert_row_old (has_id i) r u t h

get-insert_row :
    (i : ℕ) (r : Room) (t : List Room)
    → get i t ≡ none
    → get i (insert_row r t) ≡ (if r.id == i then some r else none)
unfolding get
get-insert_row i r t h = find-insert_row (has_id i) r t h

get_below : (n : ℕ) (t : List Room) → All (IsBelow n) t → get n t ≡ none
unfolding get find
get_below n [] h = refl
get_below n (x ∷ t) h = ground (arith, get_below n t h.1)

find-none_in :
    (room_id user_id : ℕ) (t : List RoomParticipant)
    → count (is_in room_id) t ≡ 0
    → find (is_member room_id user_id) t ≡ none
unfolding count find where_rows
find-none_in room_id user_id [] h = refl
find-none_in room_id user_id (x ∷ t) h = ground (arith, find-none_in room_id user_id t)

-- A participant is added: to a room with a free place, and only once.
participant_added :
    (db : BattleDb) (room : Room) (user_id : ℕ) (team_name : Option String) (is_ready : Bool)
    → IsSound db
    → get room.id db.rooms ≡ some room
    → count (is_in room.id) db.participants + 1 ≤ room.max_participants
    → find (is_member room.id user_id) db.participants ≡ none
    → IsSound (record db {
      participants =
          insert_row (participant db.next_id room.id user_id team_name is_ready) db.participants;
      next_id = db.next_id + 1;
    })
participant_added db room user_id team_name is_ready h row free new =
    let below : room.id < db.next_id =
      All-find (IsBelow db.next_id) (has_id room.id) room db.rooms h.room_ids
        (get-find_same room.id room db.rooms row) in
    let p = participant db.next_id room.id user_id team_name is_ready in
    record {
      room_keys = h.room_keys;
      room_ids = IsBelow-suc db.next_id db.rooms h.room_ids;
      keys = Distinct-insert_row p db.participants h.ids h.keys;
      ids =
          All-append (IsBelow (db.next_id + 1)) db.participants _
            (IsBelow-suc db.next_id db.participants h.ids) (omega arith, tt);
      rooms_below =
          All-append (λ q. q.room_id < db.next_id + 1) db.participants _
            (All-map_imp (λ q. q.room_id < db.next_id) (λ q. q.room_id < db.next_id + 1)
              db.participants (λ q k. omega arith) h.rooms_below)
            (ground (arith, below), tt);
      members = Members-insert_row p db.participants new h.members;
      capacity = λ i r hit. elim (Bool-cases (room.id == r.id)) [
        | inl same ↦
            let e : i ≡ room.id = ground (arith, get_id i r db.rooms hit) in
            let is_r : room ≡ r = some-injective room r (sym row ∙ rw (sym e) hit) in
            rw (sym is_r, count-insert_row (is_in room.id) p db.participants, ==_refl room.id) free
        | inr differs ↦
            rw (count-insert_row (is_in r.id) p db.participants, differs)
              (omega (arith, h.capacity i r hit))
      ];
    }

nobody_in : (n : ℕ) (t : List RoomParticipant) → All (λ p. p.room_id < n) t → count (is_in n) t ≡ 0
unfolding count where_rows
nobody_in n [] h = refl
nobody_in n (x ∷ t) h = ground (arith, nobody_in n t)

-- A room is added, empty.
room_added :
    (db : BattleDb) (room : Room)
    → IsSound db
    → room.id ≡ db.next_id
    → IsSound (record db { rooms = insert_row room db.rooms; next_id = db.next_id + 1 })
room_added db room h e = record {
  room_keys = Distinct-insert_row room db.rooms (rw e h.room_ids) h.room_keys;
  room_ids =
      All-append (IsBelow (db.next_id + 1)) db.rooms _ (IsBelow-suc db.next_id db.rooms h.room_ids)
        (omega (arith, e), tt);
  keys = h.keys;
  ids = IsBelow-suc db.next_id db.participants h.ids;
  rooms_below =
      All-map_imp (λ q. q.room_id < db.next_id) (λ q. q.room_id < db.next_id + 1) db.participants
        (λ q k. omega arith) h.rooms_below;
  members = h.members;
  capacity = λ i r hit. inserted_room db room h e i r hit;
}
  where
    inserted_room :
        (db : BattleDb) (room : Room)
        → IsSound db
        → room.id ≡ db.next_id
        → (i : ℕ) (r : Room) → get i (insert_row room db.rooms) ≡ some r
        → FitsIn db.participants r
    inserted_room db room h e i r hit = elim (Option-cases (get i db.rooms)) [
      | inr (x, old) ↦
          let same : x ≡ r =
            some-injective x r (sym (get-insert_row_old i room x db.rooms old) ∙ hit) in
          rw (sym same) (h.capacity i x old)
      | inl new ↦
          let law = sym (get-insert_row i room db.rooms new) ∙ hit in
          let is_r : room ≡ r = ground (arith, law) in
          let empty = nobody_in db.next_id db.participants h.rooms_below in
          rw (sym is_r, e, empty) (omega arith)
    ]

pub create_room-IsSound :
    (score : Option ℤ) (user : User) (title : String) (max_participants : ℕ) (db : BattleDb)
    → 0 < max_participants
    → IsSound db
    → IsSound (run_command score (create user title max_participants) db)
unfolding run_command create_room
create_room-IsSound score user title max_participants db positive h =
    let room : Room = record {
      id = db.next_id;
      public_id = db.generated db.next_id;
      host_user_id = user.id;
      title = title;
      status = waiting;
      max_participants = max_participants;
    } in
    let empty = nobody_in db.next_id db.participants h.rooms_below in
    let with_room = room_added db room h refl in
    let with_host =
      participant_added (record db { rooms = insert_row room db.rooms; next_id = db.next_id + 1 })
        room user.id none true with_room
        (get-insert_row db.next_id room db.rooms (get_below db.next_id db.rooms h.room_ids)
          ∙ rw (==_refl db.next_id))
        (rw empty (omega arith)) (find-none_in db.next_id user.id db.participants empty) in
    grown _ with_host _ refl refl (omega arith)

pub join_room-IsSound :
    (score : Option ℤ) (user : User) (public_id : ℕ) (team_name : Option String) (db : BattleDb)
    → IsSound db
    → IsSound (run_command score (join user public_id team_name) db)
unfolding run_command join_room
join_room-IsSound score user public_id team_name db h =
    elim (Option-cases (find (has_public_id public_id) db.rooms)) [
      | inl unknown ↦ rw (unknown, or_raise) h
      | inr (room, found) ↦ elim (Bool-cases (is_waiting room.status)) [
        | inr closed ↦ rw (found, or_raise, closed) h
        | inl open_room ↦ elim (Option-cases (find (is_member room.id user.id) db.participants)) [
          | inr (p, there) ↦ rw (found, open_room, there) h
          | inl new ↦
              elim (Bool-cases
                (leb room.max_participants (count (is_in room.id) db.participants))) [
                  | inl full ↦ rw (found, open_room, new, full) h
                  | inr free ↦
                      rw (found, open_room, new, free)
                        (participant_added db room user.id team_name false h
                          (get-find (has_public_id public_id) room db.rooms h.room_keys found)
                          (ground arith) new)
                ]
        ]
      ]
    ]
