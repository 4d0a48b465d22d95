-- ===== src/Battle/Capacity.antt =====
-- No room holds more players than it may, nor a player twice.
use cat_game_backend.Base.{
  ℕ, ◌≤◌, ◌<◌, ◌≡◌, refl, sym, ◌∙◌, Bool, true, false, none, some, List, [], ◌∷◌, inl, inr, arith,
  All, All-map_imp, Bool-cases, ◌==◌,
}
use mathlib.Core.Option.{some-injective}
use cat_game_backend.Store.Rows.{Row}
use cat_game_backend.Store.Table.{
  Distinct, IsBelow, find, get, put, insert_row, get-put, get-put_self, find-holds, find-insert_row,
  Distinct-put, All-put, All-find, put_absent, has_id,
}
use cat_game_backend.Store.Counting.{count, count-put, count-none, find-none}
use cat_game_backend.Battle.{
  Room, RoomParticipant, BattleDb, room_row, participant_row, is_in, is_member,
}

-- No two rows of the list are the same player in the same room.
abbrev pub Members : List RoomParticipant → Type 0
Members [] = Unit
Members (p ∷ t) = (find (is_member p.room_id p.user_id) t ≡ none) × Members t

abbrev pub FitsIn : List RoomParticipant → Room → Type 0
FitsIn participants r = count (is_in r.id) participants ≤ r.max_participants

pub record IsSound (db : BattleDb) : Type 0 where
  pub room_keys : Distinct db.rooms
  pub room_ids : All (IsBelow db.next_id) db.rooms
  pub keys : Distinct db.participants
  pub ids : All (IsBelow db.next_id) db.participants
  pub rooms_below : All (λ p. p.room_id < db.next_id) db.participants
  pub members : Members db.participants
  pub capacity : (i : ℕ) (r : Room) → get i db.rooms ≡ some r → FitsIn db.participants r

pub Members-insert_row :
    (p : RoomParticipant) (t : List RoomParticipant)
    → find (is_member p.room_id p.user_id) t ≡ none
    → Members t
    → Members (insert_row p t)
unfolding find
Members-insert_row p [] h m = (refl, tt)
Members-insert_row p (x ∷ t) h m =
    (find_other p x t h m.0, Members-insert_row p t (ground arith) m.1)
  where
    find_other :
        (p x : RoomParticipant) (t : List RoomParticipant)
        → find (is_member p.room_id p.user_id) (x ∷ t) ≡ none
        → find (is_member x.room_id x.user_id) t ≡ none
        → find (is_member x.room_id x.user_id) (insert_row p t) ≡ none
    find_other p x t h m = find-insert_row (is_member x.room_id x.user_id) p t m ∙ ground arith

find-put_missing :
    (q : RoomParticipant → Bool) (u v : RoomParticipant) (t : List RoomParticipant)
    → Distinct t
    → get v.id t ≡ some u
    → q v ≡ q u
    → find q t ≡ none
    → find q (put v t) ≡ none
find-put_missing q u v t d found e h =
    find-none q (put v t) (count-put q u v t d found e ∙ count-none q t h)

Members-put :
    (u v : RoomParticipant) (t : List RoomParticipant)
    → Distinct t
    → get v.id t ≡ some u
    → v.room_id ≡ u.room_id
    → v.user_id ≡ u.user_id
    → Members t
    → Members (put v t)
unfolding put get find
Members-put u v [] d found er eu m = tt
Members-put u v (x ∷ t) d found er eu m = elim (Bool-cases (x.id == v.id)) [
  | inl same ↦
      let i : x.id ≡ v.id = ground arith in
      let absent : get v.id t ≡ none = rw i at (d.0) in
      let hit : x ≡ u = ground arith in
      let room : x.room_id ≡ v.room_id = (λ i. (hit i).room_id) ∙ sym er in
      let user : x.user_id ≡ v.user_id = (λ i. (hit i).user_id) ∙ sym eu in
      rw (same, put_absent v t absent) (rw (room, user) at (m.0), m.1)
  | inr differs ↦
      let found' : get v.id t ≡ some u = ground arith in
      rw differs (
        find-put_missing (is_member x.room_id x.user_id) u v t d.1 found' (rw (er, eu)) m.0,
        Members-put u v t d.1 found' er eu m.1,
      )
]

module _ {V : Type 0} ⦃row : Row V⦄ where
  pub get_id : (i : ℕ) (u : V) (t : List V) → get i t ≡ some u → (row.id_of u == i) ≡ true
  unfolding get
  get_id i u t h = find-holds (has_id i) u t h

  pub get-put_other :
      (i : ℕ) (v : V) (t : List V) → (i == row.id_of v) ≡ false → get i (put v t) ≡ get i t
  get-put_other i v t h = get-put i v t ∙ rw h

  same-IsBelow :
      {n : ℕ} (v u : V) (t : List V)
      → get (row.id_of v) t ≡ some u
      → All (IsBelow n) t
      → IsBelow n v
  unfolding get
  same-IsBelow {n} v u t found h =
      let below : row.id_of u < n = All-find (IsBelow n) (has_id (row.id_of v)) u t h found in
      ground (arith, below, get_id (row.id_of v) u t found)

module _ (db : BattleDb) (h : IsSound db) where
  -- A participant's row is updated.
  pub participant_put :
      (u v : RoomParticipant)
      → get v.id db.participants ≡ some u
      → v.room_id ≡ u.room_id
      → v.user_id ≡ u.user_id
      → IsSound (record db { participants = put v db.participants })
  unfolding get find
  participant_put u v found er eu = record {
    room_keys = h.room_keys;
    room_ids = h.room_ids;
    keys = Distinct-put v db.participants h.keys;
    ids =
        All-put (IsBelow db.next_id) v db.participants
          (same-IsBelow v u db.participants found h.ids) h.ids;
    rooms_below =
        All-put (λ p. p.room_id < db.next_id) v db.participants
          (rw er (All-find (λ p. p.room_id < db.next_id) _ u db.participants h.rooms_below found))
          h.rooms_below;
    members = Members-put u v db.participants h.keys found er eu h.members;
    capacity = λ i r hit.
        rw (count-put (is_in r.id) u v db.participants h.keys found (rw er)) (h.capacity i r hit);
  }

  -- A room's row is updated.
  pub room_put :
      (u v : Room)
      → get v.id db.rooms ≡ some u
      → v.max_participants ≡ u.max_participants
      → IsSound (record db { rooms = put v db.rooms })
  room_put u v found em = record {
    room_keys = Distinct-put v db.rooms h.room_keys;
    room_ids =
        All-put (IsBelow db.next_id) v db.rooms (same-IsBelow v u db.rooms found h.room_ids)
          h.room_ids;
    keys = h.keys;
    ids = h.ids;
    rooms_below = h.rooms_below;
    members = h.members;
    capacity = λ i r hit. elim (Bool-cases (i == v.id)) [
      | inl same ↦
          let e : i ≡ v.id = ground arith in
          let is_v : v ≡ r =
            some-injective v r (sym (rw (e, get-put_self u v db.rooms found)) ∙ hit) in
          let old : FitsIn db.participants u = h.capacity v.id u found in
          let id : u.id ≡ v.id = ground (arith, get_id v.id u db.rooms found) in
          rw (sym is_v) (rw (em, sym id) old)
      | inr differs ↦ h.capacity i r (sym (get-put_other i v db.rooms differs) ∙ hit)
    ];
  }

  -- Other tables change, and numbers are used up.
  pub grown :
      (db' : BattleDb)
      → db'.rooms ≡ db.rooms
      → db'.participants ≡ db.participants
      → db.next_id ≤ db'.next_id
      → IsSound db'
  grown db' rooms participants more = record {
    room_keys = rw rooms h.room_keys;
    room_ids = rw rooms (
        All-map_imp (IsBelow db.next_id) (IsBelow db'.next_id) db.rooms (λ r k. omega arith)
          h.room_ids);
    keys = rw participants h.keys;
    ids = rw participants (
        All-map_imp (IsBelow db.next_id) (IsBelow db'.next_id) db.participants (λ r k. omega arith)
          h.ids);
    rooms_below = rw participants (
        All-map_imp (λ p. p.room_id < db.next_id) (λ p. p.room_id < db'.next_id) db.participants
          (λ r k. omega arith) h.rooms_below);
    members = rw participants h.members;
    capacity = λ i r hit. rw participants (h.capacity i r (rw rooms at hit));
  }
