-- ===== src/Grading/Running/Worker.antt =====
-- What a worker stores.
use cat_game_backend.Base.{
  ℕ, ◌≡◌, refl, Bool, true, false, Option, some, List, ℤ, Option-cases, inl, inr, ◌⊎◌,
}
use cat_game_backend.Store.Table.{find}
use cat_game_backend.Learning.{Tier, Concept}
use cat_game_backend.Grading.{TaskAttempt, task_attempt_row, AttemptLease, GradingDb}
use cat_game_backend.Grading.Persisting.{is_leased, persist_result}
use cat_game_backend.Grading.Persisting.Outcome.{
  Persisted, persist_result-Persisted, persist_result_unstored,
}
use cat_game_backend.Grading.Running.{Python, attempt_result, grade_claimed_attempt}
use cat_game_backend.Grading.Steps.Change.{Stored-cases}

module _ (p : Python) (game_date : ℕ → ℕ) (by_name : List Concept → List Concept) (clock : Tier → ℕ)
    (now : ℕ) (correct_score : Option ℤ) where
  -- The worker held the lease when it began, and what it stored is the result of its attempt.
  pub record Worked (lease : AttemptLease) (meanwhile : GradingDb → GradingDb) (db db' : GradingDb)
      : Type 0 where
    pub attempt : TaskAttempt
    pub held : find (is_leased lease) db.attempts ≡ some attempt
    pub stored :
        Persisted game_date lease
          (attempt_result p attempt db).0
          (attempt_result p attempt db).1
          (meanwhile db)
          db'

  -- What a worker leaves: a stored result, or the tables as others left them.
  unfoldable pub Work :
      AttemptLease → (GradingDb → GradingDb) → GradingDb → Bool × GradingDb → Type 0
  Work lease meanwhile db (true, db') = Worked lease meanwhile db db'
  Work lease meanwhile db (false, db') = (db' ≡ db) ⊎ (db' ≡ meanwhile db)

  -- A worker that reports a stored result held the lease when it began and after the sandbox
  -- returned; it stored the result of the attempt it held: the row is finished with the verdict,
  -- and the player, with the state version moved on, is paid the coins of the task with a new
  -- completion exactly when the answer is right, no reset of the learning came after the attempt
  -- and the task has no completion of the player on the day. A worker that reports none leaves
  -- the tables as others left them.
  pub grade_claimed_attempt-Work :
      (lease : AttemptLease) (meanwhile : GradingDb → GradingDb) (db : GradingDb)
      → Work lease meanwhile db
          (grade_claimed_attempt p game_date by_name clock now correct_score lease meanwhile db)
  unfolding grade_claimed_attempt Work
  grade_claimed_attempt-Work lease meanwhile db =
      elim (Option-cases (find (is_leased lease) db.attempts)) [
        | inl absent ↦ rw (grade_claimed_attempt, absent) (inl refl)
        | inr (attempt, held) ↦
            let graded = attempt_result p attempt db in
            elim (Stored-cases (
              persist_result game_date by_name clock now correct_score lease graded.0 graded.1
                (meanwhile db))) [
                  | inl (e, raised) ↦ rw (grade_claimed_attempt, held, raised) (inr refl)
                  | inr (inl (db', unstored)) ↦
                      rw (grade_claimed_attempt, held, unstored)
                        (inr (
                          persist_result_unstored game_date by_name clock now correct_score lease
                            graded.0 graded.1 (meanwhile db) db' unstored))
                  | inr (inr (db', kept)) ↦
                      rw (grade_claimed_attempt, held, kept)
                        (record {
                          attempt = attempt;
                          held = held;
                          stored =
                              persist_result-Persisted game_date by_name clock now correct_score
                                lease graded.0 graded.1 (meanwhile db) db' kept;
                        })
                ]
      ]
