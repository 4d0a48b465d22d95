-- ===== src/Rewards/Once.antt =====
-- One row of a player and a day serves attendance and the daily mission.
use cat_game_backend.Base.{
  ℕ, ◌+◌, ◌-◌, ◌%◌, ◌≡◌, refl, sym, ap, ◌∙◌, true, false, not, ◌&&◌, ◌||◌, length, is_none, ℤ,
  Option, none, some, List, [], ◌∷◌, inl, inr, arith, any, ◌==◌, All, All-append, ==_refl,
  Bool-cases,
}
use cat_game_backend.Core.Error.{
  ok, err, Missing, already_claimed, integrity_error, resource_not_found, daily_mission_error,
  runtime_error,
}
use cat_game_backend.Core.Outcome.{or_raise-ok, raise_if-ok}
use cat_game_backend.Store.Rows.{User, user_row, advance_state_version}
use cat_game_backend.Store.Table.{
  get, find, put, insert_row, has_id, find-put, where_rows, find-holds, get-put_self,
  find-insert_row,
}
use cat_game_backend.Rewards.{
  Attendance, AttendanceTask, attendance_row, AttendanceClaim, RewardDb, is_attendance,
  latest_attendance, is_on, next_streak, attendance_daily_coins, attendance_bonus, pay,
  claim_attendance,
}
use cat_game_backend.Rewards.Missions.{get_or_create_daily, claim_reward}
use cat_game_backend.Rewards.Streak.{
  was_there, IsUntil, latest_attendance-Latest, latest_attendance-All,
}
use cat_game_backend.Rewards.Attending.{get_or_create_daily-Opened, insert_row-there}

-- A player who was there today cannot claim the attendance of today.
claim_refused :
    (user_id today now : ℕ) (u : User) (db : RewardDb)
    → get user_id db.users ≡ some u
    → All (IsUntil today) db.attendances
    → was_there user_id today db.attendances ≡ true
    → claim_attendance user_id today now db ≡ err already_claimed
unfolding claim_attendance
claim_refused user_id today now u db found until there =
    let (a, e, late) = latest_attendance-Latest user_id today db.attendances there in
    let (early, same, on) =
      latest_attendance-All (IsUntil today) user_id a db.attendances until e in
    let at_day : (a.check_in_date == today) ≡ true = ground arith in
    rw (found, e, at_day, claim_attendance) refl

-- For a known player and no attendance later than today, once the daily mission of today was
-- opened, the claim of the attendance of today raises that it is already claimed, though opening
-- the mission paid nothing to anybody.
pub claim_attendance_after_daily :
    (task_count : ℕ) (recommended : List ℕ) (user_id today now : ℕ) (u : User) (db : RewardDb)
    (a : Attendance) (db' : RewardDb)
    → get user_id db.users ≡ some u
    → All (IsUntil today) db.attendances
    → get_or_create_daily task_count recommended user_id today db ≡ ok (a, db')
    → (claim_attendance user_id today now db' ≡ err already_claimed) × (db'.users ≡ db.users)
claim_attendance_after_daily task_count recommended user_id today now u db a db' found until ran =
    let o = get_or_create_daily-Opened task_count recommended user_id today db a db' ran in
    (claim_refused user_id today now u db' (rw o.users found) (o.until until) o.there, o.users)

-- What a claim that returned has done.
record Claimed (user_id today now : ℕ) (db db' : RewardDb) : Type 0 where
  player : User
  row : Attendance
  found : get user_id db.users ≡ some player
  fresh : was_there user_id today db.attendances ≡ false
  owner : row.user_id ≡ user_id
  day : row.check_in_date ≡ today
  rewarded : row.daily_reward_claimed_at ≡ some now
  attendances : db'.attendances ≡ insert_row row db.attendances
  users : (coins : ℕ) × (db'.users ≡ put (pay coins player) db.users)

claim_attendance-Claimed :
    (user_id today now : ℕ) (db : RewardDb) (c : AttendanceClaim) (db' : RewardDb)
    → claim_attendance user_id today now db ≡ ok (c, db')
    → Claimed user_id today now db db'
unfolding claim_attendance
claim_attendance-Claimed user_id today now db c db' ran =
    let (u, found, h1) =
      or_raise-ok (get user_id db.users) (resource_not_found Missing.user) _ _ ran in
    let latest = latest_attendance user_id db.attendances in
    let (free, h2) = raise_if-ok (is_on today latest) already_claimed _ _ h1 in
    let (fresh, last) =
      raise_if-ok (any (is_attendance user_id today) db.attendances) integrity_error _ _ h2 in
    let streak = next_streak today latest in
    record {
      player = u;
      row = record {
        id = db.next_id;
        public_id = db.generated db.next_id;
        user_id = user_id;
        check_in_date = today;
        streak_count = streak;
        daily_reward_claimed_at = some now;
      };
      found = found;
      fresh = fresh;
      owner = refl;
      day = refl;
      rewarded = refl;
      attendances = ground arith;
      users = (attendance_daily_coins + attendance_bonus ((streak - 1) % 7 + 1), ground arith);
    }

get-put_paid :
    (user_id coins : ℕ) (u : User) (t : List User)
    → get user_id t ≡ some u
    → u.id ≡ user_id
    → get user_id (put (pay coins u) t) ≡ some (pay coins u)
unfolding advance_state_version
get-put_paid user_id coins u t found key =
    ap (λ k. get k (put (pay coins u) t)) (sym key)
    ∙ get-put_self u (pay coins u) t (ap (λ k. get k t) key ∙ found)

absent-find :
    (user_id day : ℕ) (t : List Attendance)
    → was_there user_id day t ≡ false
    → find (is_attendance user_id day) t ≡ none
unfolding find
absent-find user_id day [] h = refl
absent-find user_id day (x ∷ t) h = ground (arith, absent-find user_id day t)

-- If no attendance is later than today, a second claim of the day after one that returned raises
-- that the attendance is already claimed.
pub claim_attendance_twice :
    (user_id today now later : ℕ) (db : RewardDb) (c : AttendanceClaim) (db' : RewardDb)
    → All (IsUntil today) db.attendances
    → claim_attendance user_id today now db ≡ ok (c, db')
    → claim_attendance user_id today later db' ≡ err already_claimed
unfolding advance_state_version get
claim_attendance_twice user_id today now later db c db' until ran =
    let k = claim_attendance-Claimed user_id today now db c db' ran in
    let paid = pay k.users.0 k.player in
    let key : k.player.id ≡ user_id =
      let hit = find-holds (has_id user_id) k.player db.users k.found in ground arith in
    let there = insert_row-there k.row db.attendances in
    claim_refused user_id today later paid db'
      (rw k.users.1 (get-put_paid user_id k.users.0 k.player db.users k.found key))
      (rw k.attendances (
        All-append (IsUntil today) db.attendances (k.row ∷ []) until
          (let at_day = k.day in omega arith, tt)))
      (rw k.attendances (rw (k.owner, k.day) at there))

-- After a claim of the attendance that returned, opening the mission of the day leaves the tables
-- as they are, so that no task is assigned, and returns a row whose reward counts as claimed.
pub get_or_create_daily_after_claim :
    (task_count : ℕ) (recommended : List ℕ) (user_id today now : ℕ) (db : RewardDb)
    (c : AttendanceClaim) (db' : RewardDb)
    → claim_attendance user_id today now db ≡ ok (c, db')
    → (a : Attendance) × (get_or_create_daily task_count recommended user_id today db'
        ≡ ok (a, db'))
      × (a.daily_reward_claimed_at ≡ some now)
unfolding get_or_create_daily
get_or_create_daily_after_claim task_count recommended user_id today now db c db' ran =
    let k = claim_attendance-Claimed user_id today now db c db' ran in
    let found : find (is_attendance user_id today) db'.attendances ≡ some k.row = rw k.attendances (
      find-insert_row (is_attendance user_id today) k.row db.attendances
        (absent-find user_id today db.attendances k.fresh)
      ∙ rw (k.owner, k.day, ==_refl user_id, ==_refl today) refl) in
    (k.row, rw (found, get_or_create_daily) refl, k.rewarded)

-- A claim of a mission reward that returned a row, made again at any time, returns the same row
-- and leaves the tables, and so the balance, as they are.
pub claim_reward_again :
    (daily_reward_balance : Option ℤ) (user_id public_id now later : ℕ) (db : RewardDb)
    (a : Attendance) (db' : RewardDb)
    → claim_reward daily_reward_balance user_id public_id now db ≡ ok (a, db')
    → claim_reward daily_reward_balance user_id public_id later db' ≡ ok (a, db')
unfolding claim_reward
claim_reward_again none user_id public_id now later db a db' ran = ground arith
claim_reward_again (some reward) user_id public_id now later db a db' ran =
    let wanted = λ (a : Attendance). a.public_id == public_id && a.user_id == user_id in
    let (old, found, h1) = or_raise-ok (find wanted db.attendances) daily_mission_error _ _ ran in
    let tasks =
      where_rows (λ (t : AttendanceTask). t.attendance_id == old.id) db.attendance_tasks in
    elim (Bool-cases (not (is_none old.daily_reward_claimed_at))) [
      | inl claimed ↦
          let kept : db' ≡ db = ground arith in
          let same : a ≡ old = ground arith in
          rw (kept, same) (rw (found, claimed, claim_reward) refl)
      | inr unclaimed ↦
          let (complete, h2) =
            raise_if-ok (length tasks == 0 || any (λ t. not t.is_completed) tasks)
              daily_mission_error _ _ (rw unclaimed at h1) in
          let (u, player, last) = or_raise-ok (get user_id db.users) runtime_error _ _ h2 in
          let claimed = record old { daily_reward_claimed_at = some now } in
          let hit = find-holds wanted old db.attendances found in
          let written : db'.attendances ≡ put claimed db.attendances = ground arith in
          let found' : find wanted db'.attendances ≡ some claimed =
            rw written (find-put wanted old claimed db.attendances found refl hit) in
          let same : a ≡ claimed = ground arith in rw (found', same, claim_reward) refl
    ]
