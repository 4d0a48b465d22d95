-- ===== src/Grading/Creation/Accepted.antt =====
-- What a request for an attempt is accepted for, before and after the wait for the player's row.
use cat_game_backend.Base.{
  ℕ, ◌≡◌, ap, ◌∙◌, true, not, sym, Option, none, some, List, ◌==◌, Option-cases, inl, inr, arith,
}
use mathlib.Core.Path.{subst}
use cat_game_backend.Core.Error.{ok, submission_error}
use cat_game_backend.Core.Outcome.{◌>>=◌, bind-ok, raise_if-ok, or_raise-ok, ok-injective}
use cat_game_backend.Core.RequestHash.{Digest}
use cat_game_backend.Store.Rows.{User, user_row}
use cat_game_backend.Store.Table.{find}
use cat_game_backend.Learning.{LearningDb, Tier, Concept, LearningTask}
use cat_game_backend.Grading.{GradingDb, learning_view, with_learning}
use cat_game_backend.Grading.Checks.{TaskAttemptCreate}
use cat_game_backend.Grading.Creation.{
  Found, active_task, tier_concept, unlock, check_attempt, check_under_lock,
}
use cat_game_backend.Grading.Creation.Checked.{
  Checked, Unlocked, Checked-written, check_attempt-Checked, unlock-written,
}

-- The tables at the checks: those that the wait for the lock has left, if the attempt asks for the
-- tier in a concept.
abbrev pub tables_at : Option Concept → (GradingDb → GradingDb) → GradingDb → GradingDb
tables_at none meanwhile db = db
tables_at (some concept) meanwhile db = meanwhile db

module _ (d : Digest) (by_name : List Concept → List Concept) (clock : Tier → ℕ) (now today : ℕ)
    (payload : TaskAttemptCreate) (user : User) where
  -- The named task was active before the wait; the presentation and the linked task were as they
  -- had to be at the checks.
  pub record Accepted (meanwhile : GradingDb → GradingDb) (db : GradingDb) (found : Found)
      : Type 0 where
    pub named : find (λ t. t.public_id == payload.task_public_id) db.tasks ≡ some (found.0)
    pub active : found.0.is_active ≡ true
    pub unlocked :
        Unlocked by_name clock now user found.0 (tier_concept payload found.0 db) (meanwhile db)
    pub checked :
        Checked today payload user found (tables_at (tier_concept payload found.0 db) meanwhile db)

  pub record Locked (meanwhile : GradingDb → GradingDb) (db locked : GradingDb) (found : Found)
      : Type 0 where
    pub accepted : Accepted meanwhile db found
    pub attempts : locked.attempts ≡ (meanwhile db).attempts
    pub users : locked.users ≡ (meanwhile db).users
    pub generated : locked.generated ≡ (meanwhile db).generated

  active_task-ok :
      (db : GradingDb) (task : LearningTask)
      → active_task payload db ≡ ok task
      → (find (λ t. t.public_id == payload.task_public_id) db.tasks ≡ some task)
        × (task.is_active ≡ true)
  unfolding active_task
  active_task-ok db task ran =
      let (t, named, h) =
        or_raise-ok (find (λ (t : LearningTask). t.public_id == payload.task_public_id) db.tasks)
          submission_error _ _ ran in
      let (active, last) = raise_if-ok (not t.is_active) submission_error _ _ h in
      let same : t ≡ task = ok-injective t task last in
      (named ∙ ap some same, subst (λ x. x.is_active ≡ true) same (ground arith))

  accepted_lem :
      (meanwhile : GradingDb → GradingDb) (db : GradingDb) (task : LearningTask) (found : Found)
      → active_task payload db ≡ ok task
      → found.0 ≡ task
      → Unlocked by_name clock now user task (tier_concept payload task db) (meanwhile db)
      → Checked today payload user found (tables_at (tier_concept payload task db) meanwhile db)
      → Accepted meanwhile db found
  accepted_lem meanwhile db task found ran same unlocked checked =
      let (named, active) = active_task-ok db task ran in
      record {
        named = rw same named;
        active = rw same active;
        unlocked =
            subst
              (λ t. Unlocked by_name clock now user t (tier_concept payload t db) (meanwhile db))
              (sym same) unlocked;
        checked =
            subst
              (λ t.
                Checked today payload user found
                  (tables_at (tier_concept payload t db) meanwhile db))
              (sym same) checked;
      }

  Locked-written :
      (meanwhile : GradingDb → GradingDb) (db locked : GradingDb) (found : Found)
      (learned : LearningDb)
      → Accepted meanwhile db found
      → locked ≡ with_learning learned (meanwhile db)
      → Locked meanwhile db locked found
  Locked-written meanwhile db locked found learned accepted written = record {
    accepted = accepted;
    attempts = ap (λ x. x.attempts) written;
    users = ap (λ x. x.users) written;
    generated = ap (λ x. x.generated) written;
  }

  -- What the checks in the tables `read` have found; they leave the tables `kept`.
  checks-Checked :
      (task : LearningTask) (read kept locked : GradingDb) (found : Found)
      → ◌>>=◌ {B = Found × GradingDb}
          (check_attempt d by_name clock now today payload user task read)
          (λ x. ok (x, kept))
        ≡ ok (found, locked)
      → (found.0 ≡ task) × Checked today payload user found read × (locked ≡ kept)
  checks-Checked task read kept locked found ran =
      let (found', checks, last) =
        bind-ok (check_attempt d by_name clock now today payload user task read) _ _ ran in
      let pair = ok-injective (found', kept) (found, locked) last in
      let (same, checked) =
        check_attempt-Checked d by_name clock now today payload user task read found' checks in
      let again =
        subst (λ x. (x.0 ≡ task) × Checked today payload user x read) (ap (λ x. x.0) pair)
          (same, checked) in
      (again.0, again.1, sym (ap (λ x. x.1) pair))

  pub check_under_lock-Locked :
      (meanwhile : GradingDb → GradingDb) (db locked : GradingDb) (found : Found)
      → check_under_lock d by_name clock now today payload user meanwhile db ≡ ok (found, locked)
      → Locked meanwhile db locked found
  unfolding check_under_lock
  check_under_lock-Locked meanwhile db locked found ran =
      let (task, named, h1) = bind-ok (active_task payload db) _ _ ran in
      let accept =
        λ (o : Option Concept) (e : tier_concept payload task db ≡ o) (same : found.0 ≡ task)
            (unlocked : Unlocked by_name clock now user task o (meanwhile db))
            (checked : Checked today payload user found (tables_at o meanwhile db)).
          accepted_lem meanwhile db task found named same
            (subst (λ c. Unlocked by_name clock now user task c (meanwhile db)) (sym e) unlocked)
            (subst (λ c. Checked today payload user found (tables_at c meanwhile db)) (sym e)
              checked) in
      elim (Option-cases (tier_concept payload task db)) [
        | inl elsewhere ↦
            let (same, checked, tables) =
              checks-Checked task db (meanwhile db) locked found (rw elsewhere at h1) in
            Locked-written meanwhile db locked found (learning_view (meanwhile db))
              (accept none elsewhere same tt checked) tables
        | inr (concept, here) ↦
            let (unlocked, unlocks, h2) =
              bind-ok (unlock d by_name clock now today user task concept (meanwhile db)) _ _
                (rw here at h1) in
            let (same, checked, tables) = checks-Checked task unlocked unlocked locked found h2 in
            let (learned, written, reached) =
              unlock-written d by_name clock now today user task concept (meanwhile db) unlocked
                unlocks in
            let before =
              Checked-written today payload user found learned (meanwhile db) unlocked written
                checked in
            Locked-written meanwhile db locked found learned
              (accept (some concept) here same reached before) (tables ∙ written)
      ]
