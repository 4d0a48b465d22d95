-- ===== src/Grading/Persisting/Money.antt =====
-- Which step of a grading touches the player, the attempt and the completions.
use cat_game_backend.Base.{
  ℕ, ◌≡◌, refl, ◌∙◌, Bool, true, false, not, ◌&&◌, Option, none, some, List, is_none, ℤ, pos, ◌+ℤ◌,
  Bool-cases, Option-cases, inl, inr, ◌⊎◌, arith, ◌||◌,
}
use cat_game_backend.Core.Error.{ok, runtime_error, battle_error}
use cat_game_backend.Core.Outcome.{bind-ok, or_raise-ok}
use cat_game_backend.Store.Table.{find, get, put, insert_row}
use cat_game_backend.Rewards.{attendance_task_row}
use cat_game_backend.Battle.{record_attempt_result}
use cat_game_backend.Learning.{
  Tier, Concept, concept_row, LearningTask, same_context, daily, battle, presentation_row,
}
use cat_game_backend.Learning.Proficiency.{update_proficiency}
use cat_game_backend.Learning.Tiers.{get_or_advance_tier}
use cat_game_backend.Grading.{
  is_true, battle_attempt, battle_view, learning_view, with_learning, GradingDb,
}
use cat_game_backend.Grading.Persisting.{
  Graded, fetch, counted_task, measure, is_completion_of, completion, reward, flushed_for,
  learner_of, complete_presentation, complete_daily, record_battle, advance_tier, persist,
}

-- The step leaves the player, the attempt and the completions alone.
pub record KeepsMoney (g g' : Graded) : Type 0 where
  pub attempt : g'.attempt ≡ g.attempt
  pub user : g'.user ≡ g.user
  pub users : g'.db.users ≡ g.db.users
  pub attempts : g'.db.attempts ≡ g.db.attempts
  pub completions : g'.db.completions ≡ g.db.completions

KeepsMoney-trans : (g g' g'' : Graded) → KeepsMoney g g' → KeepsMoney g' g'' → KeepsMoney g g''
KeepsMoney-trans g g' g'' h k = record {
  attempt = k.attempt ∙ h.attempt;
  user = k.user ∙ h.user;
  users = k.users ∙ h.users;
  attempts = k.attempts ∙ h.attempts;
  completions = k.completions ∙ h.completions;
}

-- Only the tables are new, and among them not these.
moved :
    (g g' : Graded) (db' : GradingDb)
    → g' ≡ record g { db = db' }
    → db'.users ≡ g.db.users
    → db'.attempts ≡ g.db.attempts
    → db'.completions ≡ g.db.completions
    → KeepsMoney g g'
moved g g' db' e users attempts completions = rw e (record {
  attempt = refl;
  user = refl;
  users = users;
  attempts = attempts;
  completions = completions;
})

measure-KeepsMoney : (task : Option LearningTask) (g : Graded) → KeepsMoney g (measure task g)
unfolding measure
measure-KeepsMoney none g = moved g g g.db refl refl refl refl
measure-KeepsMoney (some task) g =
    moved g (measure (some task) g)
      (with_learning
        (update_proficiency (learning_view g.db) g.attempt.user_id task.concept_id
          g.user.learning_reset_at).1
        g.db)
      refl refl refl refl

complete_presentation-KeepsMoney : (g : Graded) → KeepsMoney g (complete_presentation g)
unfolding complete_presentation
complete_presentation-KeepsMoney g =
    elim (Option-cases (fetch g.attempt.presentation_id g.db.presentations)) [
      | inl e ↦
          moved g (complete_presentation g) g.db (rw (e, complete_presentation)) refl refl refl
      | inr (p, e) ↦ elim (Bool-cases (is_true g.attempt.is_correct)) [
        | inr wrong ↦
            moved g (complete_presentation g) g.db (rw (e, wrong, complete_presentation)) refl refl
              refl
        | inl right ↦
            moved g (complete_presentation g)
              (record g.db {
                presentations = put (record p { is_active = false }) g.db.presentations;
              })
              (rw (e, right, complete_presentation)) refl refl refl
      ]
    ]

complete_daily-KeepsMoney : (g g' : Graded) → complete_daily g ≡ ok g' → KeepsMoney g g'
unfolding complete_daily
complete_daily-KeepsMoney g g' ran =
    elim (Bool-cases (is_true g.attempt.is_correct && same_context g.attempt.context_type daily)) [
      | inr miss ↦ moved g g' g.db (ground arith) refl refl refl
      | inl hit ↦
          let (t, found, last) =
            or_raise-ok (fetch g.attempt.attendance_task_id g.db.attendance_tasks) runtime_error _ _
              (rw hit at ran) in
          moved g g'
            (record g.db {
              attendance_tasks = put (record t { is_completed = true }) g.db.attendance_tasks;
            })
            (ground arith) refl refl refl
    ]

record_battle-KeepsMoney :
    (score : Option ℤ) (g g' : Graded) → record_battle score g ≡ ok g' → KeepsMoney g g'
unfolding record_battle
record_battle-KeepsMoney score g g' ran =
    elim (Bool-cases
      (same_context g.attempt.context_type battle && not (is_none g.attempt.is_correct))) [
        | inr miss ↦ moved g g' g.db (ground arith) refl refl refl
        | inl hit ↦
            let (i, found, h) =
              or_raise-ok g.attempt.room_task_id battle_error _ _ (rw hit at ran) in
            let (b, recorded, last) =
              bind-ok (record_attempt_result score (battle_attempt i g.attempt) (battle_view g.db))
                _ _ h in
            moved g g' (record g.db { rooms = b.rooms; participants = b.participants })
              (ground arith) refl refl refl
      ]

-- The player is paid for the task, which has no completion on the day yet.
pub record IsPaid (day : ℕ) (task : LearningTask) (g g' : Graded) : Type 0 where
  pub right : is_true g.attempt.is_correct ≡ true
  pub first : find (is_completion_of g.attempt.user_id task.id day) g.db.completions ≡ none
  pub attempt : g'.attempt ≡ record g.attempt { coins_awarded = task.reward_coins }
  pub user : g'.user ≡ record g.user { balance = g.user.balance +ℤ pos task.reward_coins }
  pub users : g'.db.users ≡ g.db.users
  pub attempts : g'.db.attempts ≡ g.db.attempts
  pub id : ℕ
  pub completions :
      g'.db.completions
      ≡ insert_row (completion id day g.attempt.id g.attempt.user_id task) g.db.completions

-- No task counts, the answer is wrong, or a completion of the day is stored.
abbrev pub is_unpaid : ℕ → Option LearningTask → Graded → Bool
is_unpaid day none g = true
is_unpaid day (some task) g =
    not (is_true g.attempt.is_correct)
    || not (is_none (find (is_completion_of g.attempt.user_id task.id day) g.db.completions))

abbrev pub Paying : ℕ → Option LearningTask → Graded → Graded → Type 0
Paying day task g g' =
    (KeepsMoney g g' × (is_unpaid day task g ≡ true))
    ⊎ ((t : LearningTask) × (task ≡ some t) × IsPaid day t g g')

reward-Paying :
    (day : ℕ) (task : Option LearningTask) (g : Graded) → Paying day task g (reward day task g)
unfolding reward
reward-Paying day none g = inl (moved g g g.db refl refl refl refl, refl)
reward-Paying day (some task) g =
    let stored = find (is_completion_of g.attempt.user_id task.id day) g.db.completions in
    elim (Bool-cases (is_true g.attempt.is_correct)) [
      | inr wrong ↦
          inl
            (moved g (reward day (some task) g) g.db (rw (wrong, reward)) refl refl refl, rw wrong)
      | inl right ↦ elim (Option-cases stored) [
        | inr (c, e) ↦ inl (
          moved g (reward day (some task) g) g.db (rw (right, e, reward)) refl refl refl,
          rw (right, e),
        )
        | inl e ↦ inr (
          task,
          refl,
          rw (right, e, reward)
              (record {
                right = right;
                first = e;
                attempt = refl;
                user = refl;
                users = refl;
                attempts = refl;
                id = g.db.next_id;
                completions = refl;
              }),
        )
      ]
    ]

-- Steps that leave the money alone change nothing of a payment before or after them.
Paying-before :
    (day : ℕ) (task : Option LearningTask) (g g' g'' : Graded)
    → KeepsMoney g g'
    → Paying day task g' g''
    → Paying day task g g''
Paying-before day none g g' g'' h (inl (k, unpaid)) = inl (KeepsMoney-trans g g' g'' h k, refl)
Paying-before day (some task) g g' g'' h (inl (k, unpaid)) =
    inl (KeepsMoney-trans g g' g'' h k, rw (h.attempt, h.completions) at unpaid)
Paying-before day task g g' g'' h (inr (t, e, p)) = inr (
  t,
  e,
  record {
    right = rw h.attempt at (p.right);
    first = rw (h.attempt, h.completions) at (p.first);
    attempt = rw h.attempt at (p.attempt);
    user = rw h.user at (p.user);
    users = p.users ∙ h.users;
    attempts = p.attempts ∙ h.attempts;
    id = p.id;
    completions = rw (h.attempt, h.completions) at (p.completions);
  },
)

Paying-after :
    (day : ℕ) (task : Option LearningTask) (g g' g'' : Graded)
    → Paying day task g g'
    → KeepsMoney g' g''
    → Paying day task g g''
Paying-after day task g g' g'' (inl (k, unpaid)) h = inl (KeepsMoney-trans g g' g'' k h, unpaid)
Paying-after day task g g' g'' (inr (t, e, p)) h = inr (
  t,
  e,
  record {
    right = p.right;
    first = p.first;
    attempt = h.attempt ∙ p.attempt;
    user = h.user ∙ p.user;
    users = h.users ∙ p.users;
    attempts = h.attempts ∙ p.attempts;
    id = p.id;
    completions = h.completions ∙ p.completions;
  },
)

module _ (game_date : ℕ → ℕ) (by_name : List Concept → List Concept) (clock : Tier → ℕ) (now : ℕ)
    (correct_score : Option ℤ) where
  advance_tier-KeepsMoney :
      (task : Option LearningTask) (g g' : Graded)
      → advance_tier game_date by_name clock now correct_score task g ≡ ok g'
      → KeepsMoney g g'
  unfolding advance_tier
  advance_tier-KeepsMoney none g g' ran = moved g g' g.db (ground arith) refl refl refl
  advance_tier-KeepsMoney (some task) g g' ran = elim (Bool-cases (is_true g.attempt.is_correct)) [
    | inr miss ↦ moved g g' g.db (ground arith) refl refl refl
    | inl hit ↦ elim (Option-cases (get task.concept_id g.db.concepts)) [
      | inl e ↦ moved g g' g.db (ground arith) refl refl refl
      | inr (concept, e) ↦
          let (r, advanced, last) =
            or_raise-ok
              (get_or_advance_tier by_name clock now 3 (learner_of g.user) concept.domain
                (learning_view (flushed_for concept.domain g)))
              runtime_error _ _ (rw (hit, e) at ran) in
          moved g g' (with_learning r.1 g.db) (ground arith) refl refl refl
    ]
  ]

  pub persist-Paying :
      (task_id : Option ℕ) (g g' : Graded)
      → persist game_date by_name clock now correct_score task_id g ≡ ok g'
      → (task : Option LearningTask) × (counted_task task_id g ≡ ok task)
        × Paying (game_date g.attempt.attempted_at) task g g'
  unfolding persist
  persist-Paying task_id g g' ran =
      let day = game_date g.attempt.attempted_at in
      let (task, counted, h1) = bind-ok (counted_task task_id g) _ _ ran in
      let measured = measure task g in
      let paid = reward day task measured in
      let (advanced, e2, h2) =
        bind-ok (advance_tier game_date by_name clock now correct_score task paid) _ _ h1 in
      let presented = complete_presentation advanced in
      let (marked, e3, h3) = bind-ok (complete_daily presented) _ _ h2 in
      let k0 = measure-KeepsMoney task g in
      let k2 = advance_tier-KeepsMoney task paid advanced e2 in
      let k3 = complete_presentation-KeepsMoney advanced in
      let k4 = complete_daily-KeepsMoney presented marked e3 in
      let k5 = record_battle-KeepsMoney correct_score marked g' h3 in
      let rest =
        KeepsMoney-trans paid advanced g' k2 (
          KeepsMoney-trans advanced presented g' k3 (KeepsMoney-trans presented marked g' k4 k5)) in
      (
        task,
        counted,
        Paying-before day task g measured g' k0
            (Paying-after day task measured paid g' (reward-Paying day task measured) rest),
      )
