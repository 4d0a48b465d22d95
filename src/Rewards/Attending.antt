-- ===== src/Rewards/Attending.antt =====
-- Players who come on several days.
use cat_game_backend.Base.{
  ℕ, ◌+◌, ◌≤◌, ◌<◌, ◌≡◌, refl, sym, ◌∙◌, true, false, ◌&&◌, none, some, List, [], ◌∷◌, inl, inr,
  arith, any, length, ◌==◌, ltb, ==_refl, Option-cases, All, All-append, All-map_imp,
}
use cat_game_backend.Core.Error.{
  ok, Missing, already_claimed, integrity_error, resource_not_found, daily_mission_error,
}
use cat_game_backend.Core.Outcome.{or_unchanged, or_unchanged-outcome, or_raise-ok, raise_if-ok}
use cat_game_backend.Store.Rows.{user_row}
use cat_game_backend.Store.Table.{get, find, insert_row}
use cat_game_backend.Rewards.{
  Attendance, RewardDb, is_attendance, latest_attendance, is_on, next_streak, claim_attendance,
}
use cat_game_backend.Rewards.Missions.{get_or_create_daily, add_attendance_tasks, streak_after}
use cat_game_backend.Rewards.Streak.{
  was_there, days_before, IsCounted, IsUntil, days_in_a_row-insert_row, days_in_a_row_new,
  next_streak_lem, streak_after_lem, find-absent,
}

pub data Visit : Type 0 where
  attend : (user_id today now : ℕ) → Visit
  play : (task_count : ℕ) (recommended : List ℕ) (user_id today : ℕ) → Visit

abbrev pub day_of : Visit → ℕ
day_of (attend user_id today now) = today
day_of (play task_count recommended user_id today) = today

unfoldable pub visit : Visit → RewardDb → RewardDb
visit (attend user_id today now) db = or_unchanged (claim_attendance user_id today now db) db
visit (play task_count recommended user_id today) db =
    or_unchanged (get_or_create_daily task_count recommended user_id today db) db

unfoldable pub visits : List Visit → RewardDb → RewardDb
visits [] db = db
visits (v ∷ vs) db = visits vs (visit v db)

-- The days do not go back.
abbrev pub InOrder : ℕ → List Visit → Type 0
InOrder day [] = Unit
InOrder day (v ∷ vs) = (day ≤ day_of v) × InOrder (day_of v) vs

-- Every streak is the number of days in a row, and no day is later than `day`.
pub record IsKept (day : ℕ) (t : List Attendance) : Type 0 where
  pub counted : All (IsCounted t) t
  pub until : All (IsUntil day) t

abbrev IsBefore : Attendance → Attendance → Type 0
IsBefore a x = a.user_id ≡ x.user_id → x.check_in_date < a.check_in_date

All-IsBefore :
    (a : Attendance) (t : List Attendance)
    → All (IsUntil a.check_in_date) t
    → was_there a.user_id a.check_in_date t ≡ false
    → All (IsBefore a) t
All-IsBefore a [] until fresh = tt
All-IsBefore a (x ∷ t) until fresh = (λ same. before same, All-IsBefore a t until.1 (ground arith))
  where
    before : a.user_id ≡ x.user_id → x.check_in_date < a.check_in_date
    before same = let early = until.0 in ground arith

IsKept-insert_row :
    (a : Attendance) (t : List Attendance)
    → a.streak_count ≡ days_before a.user_id t a.check_in_date + 1
    → was_there a.user_id a.check_in_date t ≡ false
    → IsKept a.check_in_date t
    → IsKept a.check_in_date (insert_row a t)
IsKept-insert_row a t streak fresh h = record {
  counted =
      All-append (IsCounted (insert_row a t)) t (a ∷ [])
        (All-kept t h.counted (All-IsBefore a t h.until fresh))
        (streak ∙ sym (days_in_a_row_new a.check_in_date a t refl), tt);
  until = All-append (IsUntil a.check_in_date) t (a ∷ []) h.until (omega arith, tt);
}
  where
    All-kept :
        (xs : List Attendance)
        → All (IsCounted t) xs
        → All (IsBefore a) xs
        → All (IsCounted (insert_row a t)) xs
    All-kept [] k l = tt
    All-kept (x ∷ xs) k l = (
      k.0 ∙ sym (days_in_a_row-insert_row x.user_id x.check_in_date a t l.0),
      All-kept xs k.1 l.1,
    )

claim_attendance-IsKept :
    (user_id today now : ℕ) (db : RewardDb)
    → IsKept today db.attendances
    → IsKept today (or_unchanged (claim_attendance user_id today now db) db).attendances
unfolding claim_attendance
claim_attendance-IsKept user_id today now db h =
    or_unchanged-outcome (λ d. IsKept today d.attendances) (claim_attendance user_id today now db)
      db h
      (λ answer db' ran.
        let (u, found, h1) =
          or_raise-ok (get user_id db.users) (resource_not_found Missing.user) _ _ ran in
        let latest = latest_attendance user_id db.attendances in
        let (free, h2) = raise_if-ok (is_on today latest) already_claimed _ _ h1 in
        let (fresh, last) =
          raise_if-ok (any (is_attendance user_id today) db.attendances) integrity_error _ _ h2 in
        let added : Attendance = record {
          id = db.next_id;
          public_id = db.generated db.next_id;
          user_id = user_id;
          check_in_date = today;
          streak_count = next_streak today latest;
          daily_reward_claimed_at = some now;
        } in
        let written : db'.attendances ≡ insert_row added db.attendances = ground arith in
        rw written (
          IsKept-insert_row added db.attendances
            (next_streak_lem user_id today db.attendances h.counted h.until fresh) fresh h))

add_attendance_tasks_rest :
    (attendance_id order : ℕ) (task_ids : List ℕ) (db : RewardDb)
    → ((add_attendance_tasks attendance_id order task_ids db).attendances ≡ db.attendances)
      × ((add_attendance_tasks attendance_id order task_ids db).users ≡ db.users)
unfolding add_attendance_tasks
add_attendance_tasks_rest attendance_id order [] db = (refl, refl)
add_attendance_tasks_rest attendance_id order (i ∷ task_ids) db =
    let rest = add_attendance_tasks_rest attendance_id (order + 1) task_ids _ in (rest.0, rest.1)

-- What `get_or_create_daily` leaves, if it returns: the row of the day, found or added.
pub record Opened (user_id today : ℕ) (db db' : RewardDb) : Type 0 where
  pub users : db'.users ≡ db.users
  pub there : was_there user_id today db'.attendances ≡ true
  pub kept : IsKept today db.attendances → IsKept today db'.attendances
  pub until : All (IsUntil today) db.attendances → All (IsUntil today) db'.attendances

find-there :
    (user_id day : ℕ) (a : Attendance) (t : List Attendance)
    → find (is_attendance user_id day) t ≡ some a
    → was_there user_id day t ≡ true
unfolding find
find-there user_id day a [] h = ground arith
find-there user_id day a (x ∷ t) h = ground (arith, find-there user_id day a t)

pub insert_row-there :
    (a : Attendance) (t : List Attendance)
    → was_there a.user_id a.check_in_date (insert_row a t) ≡ true
insert_row-there a [] = rw (==_refl a.user_id, ==_refl a.check_in_date)
insert_row-there a (x ∷ t) = ground (arith, insert_row-there a t)

pub get_or_create_daily-Opened :
    (task_count : ℕ) (recommended : List ℕ) (user_id today : ℕ) (db : RewardDb) (a : Attendance)
    (db' : RewardDb)
    → get_or_create_daily task_count recommended user_id today db ≡ ok (a, db')
    → Opened user_id today db db'
unfolding get_or_create_daily
get_or_create_daily-Opened task_count recommended user_id today db a db' ran =
    elim (Option-cases (find (is_attendance user_id today) db.attendances)) [
      | inr (x, e) ↦
          let same : db' ≡ db = ground arith in
          rw same (record {
            users = refl;
            there = find-there user_id today x db.attendances e;
            kept = λ h. h;
            until = λ h. h;
          })
      | inl e ↦
          let (enough, last) =
            raise_if-ok (ltb (length recommended) task_count) daily_mission_error _ _
              (rw (e, get_or_create_daily) at ran) in
          let added : Attendance = record {
            id = db.next_id;
            public_id = db.generated db.next_id;
            user_id = user_id;
            check_in_date = today;
            streak_count =
                streak_after
                  (find (λ p. p.user_id == user_id && p.check_in_date + 1 == today) db.attendances);
            daily_reward_claimed_at = none;
          } in
          let opened = record db {
            attendances = insert_row added db.attendances;
            next_id = db.next_id + 1;
          } in
          let rest = add_attendance_tasks_rest db.next_id 1 recommended opened in
          let written : db' ≡ add_attendance_tasks db.next_id 1 recommended opened = ground arith in
          let attendances : db'.attendances ≡ insert_row added db.attendances = rw written rest.0 in
          let fresh = find-absent user_id today db.attendances e in
          record {
            users = rw written rest.1;
            there = rw attendances (insert_row-there added db.attendances);
            kept = λ h. rw attendances (
                IsKept-insert_row added db.attendances
                  (streak_after_lem user_id today db.attendances h.counted) fresh h);
            until = λ h.
                rw attendances
                  (All-append (IsUntil today) db.attendances (added ∷ []) h (omega arith, tt));
          }
    ]

IsKept-later : (day later : ℕ) (t : List Attendance) → day ≤ later → IsKept day t → IsKept later t
IsKept-later day later t d h = record {
  counted = h.counted;
  until = All-map_imp (IsUntil day) (IsUntil later) t (λ a until. omega arith) h.until;
}

visit-IsKept :
    (v : Visit) (db : RewardDb)
    → IsKept (day_of v) db.attendances
    → IsKept (day_of v) (visit v db).attendances
unfolding visit
visit-IsKept (attend user_id today now) db h = claim_attendance-IsKept user_id today now db h
visit-IsKept (play task_count recommended user_id today) db h =
    or_unchanged-outcome (λ d. IsKept today d.attendances)
      (get_or_create_daily task_count recommended user_id today db) db h
      (λ a db' ran.
        let o = get_or_create_daily-Opened task_count recommended user_id today db a db' ran in
        o.kept h)

-- If every streak in the table is the number of days in a row with attendance that end with its
-- day, and the days of the visits do not go back, then any sequence of calls of claim_attendance
-- and get_or_create_daily, which find the last streak in two different ways and may raise, leaves
-- every streak that number.
pub visits-IsCounted :
    (vs : List Visit) (day : ℕ) (db : RewardDb)
    → InOrder day vs
    → IsKept day db.attendances
    → All (IsCounted (visits vs db).attendances) (visits vs db).attendances
unfolding visits
visits-IsCounted [] day db order h = h.counted
visits-IsCounted (v ∷ vs) day db order h =
    visits-IsCounted vs (day_of v) (visit v db) order.1
      (visit-IsKept v db (IsKept-later day (day_of v) db.attendances order.0 h))
