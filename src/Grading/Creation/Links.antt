-- ===== src/Grading/Creation/Links.antt =====
-- The daily task or the room task of a new attempt.
use cat_game_backend.Base.{
  ℕ, ◌≡◌, refl, true, false, not, ◌&&◌, ◌||◌, Option, none, some, List, any, ◌==◌, arith,
}
use mathlib.Core.Path.{subst}
use cat_game_backend.Core.Error.{ok, submission_error}
use cat_game_backend.Core.Outcome.{bind-ok, raise_if-ok, or_raise-ok}
use cat_game_backend.Store.Rows.{User, user_row}
use cat_game_backend.Store.Table.{find}
use cat_game_backend.Rewards.{AttendanceTask}
use cat_game_backend.Battle.{RoomTask, is_member}
use cat_game_backend.Battle
use cat_game_backend.Learning.{ContextType, learning, daily, battle, concept_row, LearningTask}
use cat_game_backend.Learning.{LearningDb}
use cat_game_backend.Grading.{GradingDb, with_learning}
use cat_game_backend.Grading.Checks.{TaskAttemptCreate, own_daily_task, own_room_task}
use cat_game_backend.Grading.Creation.{linked_tasks}

-- The row is the one that the payload names.
abbrev pub IsNamed : {V : Type 0} → Option ℕ → (V → ℕ) → List V → V → Type 0
IsNamed named key rows v =
    (public_id : ℕ) × (named ≡ some public_id) × (find (λ r. key r == public_id) rows ≡ some v)

-- The linked task is the named one, and it can be solved by the player.
pub Linked :
    ContextType
    → TaskAttemptCreate
    → User
    → ℕ
    → LearningTask
    → Option AttendanceTask × Option RoomTask
    → GradingDb
    → Type 0
Linked learning payload user today task links db = links ≡ (none, none)
Linked daily payload user today task links db =
    (t : AttendanceTask) × (links ≡ (some t, none))
    × IsNamed payload.attendance_task_public_id (λ t. t.public_id) db.attendance_tasks t
    × (t.task_id ≡ task.id)
    × (t.is_completed ≡ false)
    × (any (λ a. a.id == t.attendance_id && a.user_id == user.id && a.check_in_date == today)
          db.attendances
        ≡ true)
Linked battle payload user today task links db =
    (t : RoomTask) × (links ≡ (none, some t))
    × IsNamed payload.room_task_public_id (λ t. t.public_id) db.room_tasks t
    × (t.task_id ≡ task.id)
    × (any (is_member t.room_id user.id) db.participants ≡ true)
    × (any (λ r. r.id == t.room_id && Battle.is_running r.status) db.rooms ≡ true)

own_daily_task-Linked :
    (payload : TaskAttemptCreate) (public_id : Option ℕ) (user : User) (today : ℕ)
    (task : LearningTask) (db : GradingDb) (o : AttendanceTask)
    → payload.attendance_task_public_id ≡ public_id
    → own_daily_task public_id user today task db ≡ ok o
    → Linked daily payload user today task (some o, none) db
unfolding own_daily_task Linked
own_daily_task-Linked payload none user today task db o e ran = ground arith
own_daily_task-Linked payload (some public_id) user today task db o e ran =
    let (t, found, h) =
      or_raise-ok (find (λ (t : AttendanceTask). t.public_id == public_id) db.attendance_tasks)
        submission_error _ _ ran in
    let mine =
      any (λ a. a.id == t.attendance_id && a.user_id == user.id && a.check_in_date == today)
        db.attendances in
    let (test, last) =
      raise_if-ok (not mine || not (t.task_id == task.id) || t.is_completed) submission_error _ _
        h in
    (t, ground arith, (public_id, e, found), ground arith, ground arith, ground arith)

own_room_task-Linked :
    (payload : TaskAttemptCreate) (public_id : Option ℕ) (user : User) (today : ℕ)
    (task : LearningTask) (db : GradingDb) (o : RoomTask)
    → payload.room_task_public_id ≡ public_id
    → own_room_task public_id user task db ≡ ok o
    → Linked battle payload user today task (none, some o) db
unfolding own_room_task Linked
own_room_task-Linked payload none user today task db o e ran = ground arith
own_room_task-Linked payload (some public_id) user today task db o e ran =
    let (t, found, h) =
      or_raise-ok (find (λ (t : RoomTask). t.public_id == public_id) db.room_tasks) submission_error
        _ _ ran in
    let member = any (is_member t.room_id user.id) db.participants in
    let running = any (λ r. r.id == t.room_id && Battle.is_running r.status) db.rooms in
    let (test, last) =
      raise_if-ok (not (member && running) || not (t.task_id == task.id)) submission_error _ _ h in
    (t, ground arith, (public_id, e, found), ground arith, ground arith, ground arith)

pub linked_tasks-Linked :
    (context : ContextType) (payload : TaskAttemptCreate) (user : User) (today : ℕ)
    (task : LearningTask) (db : GradingDb) (links : Option AttendanceTask × Option RoomTask)
    → linked_tasks context payload user today task db ≡ ok links
    → Linked context payload user today task links db
unfolding linked_tasks Linked
linked_tasks-Linked learning payload user today task db links ran = ground arith
linked_tasks-Linked daily payload user today task db links ran =
    let (t, h, last) =
      bind-ok (own_daily_task payload.attendance_task_public_id user today task db) _ _ ran in
    let same : links ≡ (some t, none) = ground arith in
    rw same
      (own_daily_task-Linked payload payload.attendance_task_public_id user today task db t refl h)
linked_tasks-Linked battle payload user today task db links ran =
    let (t, h, last) = bind-ok (own_room_task payload.room_task_public_id user task db) _ _ ran in
    let same : links ≡ (none, some t) = ground arith in
    rw same (own_room_task-Linked payload payload.room_task_public_id user today task db t refl h)

-- What the learning writes is no part of the link.
Linked-learned :
    (context : ContextType) (payload : TaskAttemptCreate) (user : User) (today : ℕ)
    (task : LearningTask) (links : Option AttendanceTask × Option RoomTask) (learned : LearningDb)
    (db : GradingDb)
    → Linked context payload user today task links (with_learning learned db)
    → Linked context payload user today task links db
unfolding Linked
Linked-learned learning payload user today task links learned db h = h
Linked-learned daily payload user today task links learned db h = h
Linked-learned battle payload user today task links learned db h = h

pub Linked-written :
    (context : ContextType) (payload : TaskAttemptCreate) (user : User) (today : ℕ)
    (task : LearningTask) (links : Option AttendanceTask × Option RoomTask) (learned : LearningDb)
    (db db' : GradingDb)
    → db' ≡ with_learning learned db
    → Linked context payload user today task links db'
    → Linked context payload user today task links db
Linked-written context payload user today task links learned db db' written h =
    Linked-learned context payload user today task links learned db
      (subst (λ x. Linked context payload user today task links x) written h)
