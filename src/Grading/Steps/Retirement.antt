-- ===== src/Grading/Steps/Retirement.antt =====
-- A lease brings one result.
use cat_game_backend.Base.{
  ℕ, ◌+◌, ◌≤◌, ◌≡◌, refl, ◌∙◌, ap, Bool, true, false, Option, none, some, List, [], ◌∷◌, ◌==◌, ℤ,
  Bool-cases, inl, inr, arith, All,
}
use cat_game_backend.Core.Error.{ok}
use cat_game_backend.Store.Rows.{Row}
use cat_game_backend.Store.Table.{
  find, get, put, Distinct, put_absent, find-holds, get-find, Distinct-put,
}
use cat_game_backend.Store.Counting.{count, find-none}
use cat_game_backend.Learning.{Tier, Concept}
use cat_game_backend.Grading.{TaskAttempt, task_attempt_row, AttemptLease, GradeResult, GradingDb}
use cat_game_backend.Grading.Persisting.{is_leased, finished, persist_result}
use cat_game_backend.Grading.Persisting.Outcome.{persist_result-Persisted, Settles-row}
use cat_game_backend.Grading.Steps.{Step, run_steps, is_fresh}
use cat_game_backend.Grading.Steps.Change.{Change, polled, taken, stored, step-Changed, next}
use cat_game_backend.Grading.Steps.Evolution.{step-Distinct}

module _ {V : Type 0} ⦃row : Row V⦄ where
  count-put_zero :
      (p : V → Bool) (v : V) (t : List V) → p v ≡ false → count p t ≡ 0 → count p (put v t) ≡ 0
  unfolding count put
  count-put_zero p v [] e z = refl
  count-put_zero p v (x ∷ t) e z = ground (arith, count-put_zero p v t e)

  -- A row that met the condition and meets it no more is counted no more.
  count-put_gone :
      (p : V → Bool) (u v : V) (t : List V)
      → Distinct t
      → get (row.id_of v) t ≡ some u
      → p u ≡ true
      → p v ≡ false
      → count p (put v t) + 1 ≡ count p t
  unfolding count put get find
  count-put_gone p u v [] d found h e = ground arith
  count-put_gone p u v (x ∷ t) d found h e = elim (Bool-cases (row.id_of x == row.id_of v)) [
    | inl same ↦
        let absent : get (row.id_of v) t ≡ none =
          (let i : row.id_of x ≡ row.id_of v = ground arith in rw i at (d.0)) in
        let hit : x ≡ u = ground arith in
        let test : p x ≡ true = ap p hit ∙ h in
        rw (same, put_absent v t absent) (ground (arith, test))
    | inr differs ↦ ground (arith, count-put_gone p u v t d.1)
  ]

-- Neither a claim with another token nor a result leaves a row under the lease.
Change-fresh :
    {lease_seconds : ℕ} {s : Step} {a b : TaskAttempt} (lease : AttemptLease)
    → is_fresh lease.token s ≡ true
    → Change lease_seconds s a b
    → is_leased lease b ≡ false
Change-fresh lease h (polled k) = ground arith
Change-fresh lease h (taken k) = ground arith
Change-fresh lease h (stored l result coins k) = ground arith

abbrev pub leases : AttemptLease → GradingDb → ℕ
leases lease db = count (is_leased lease) db.attempts

module _ (lease_seconds : ℕ) (game_date : ℕ → ℕ) (by_name : List Concept → List Concept)
    (clock : Tier → ℕ) (now : ℕ) (correct_score : Option ℤ) where
  run_steps-leases :
      (lease : AttemptLease) (steps : List Step) (db : GradingDb)
      → Distinct db.attempts
      → leases lease db ≡ 0
      → All (λ s. is_fresh lease.token s ≡ true) steps
      → leases lease (run_steps lease_seconds game_date by_name clock now correct_score steps db)
        ≡ 0
  unfolding run_steps
  run_steps-leases lease [] db d none_left fresh = none_left
  run_steps-leases lease (s ∷ steps) db d none_left fresh =
      run_steps-leases lease steps
        (next lease_seconds game_date by_name clock now correct_score s db)
        (step-Distinct lease_seconds game_date by_name clock now correct_score s db d)
        (elim (step-Changed lease_seconds game_date by_name clock now correct_score s db d) [
          | inl same ↦ rw same none_left
          | inr c ↦ rw c.written (
              count-put_zero (is_leased lease) c.new db.attempts
                (Change-fresh lease fresh.0 c.change) none_left)
        ])
        fresh.1

  -- After a stored result, no row is under the lease.
  retired :
      (lease : AttemptLease) (task_id : Option ℕ) (result : GradeResult) (db db' : GradingDb)
      → Distinct db.attempts
      → leases lease db ≤ 1
      → persist_result game_date by_name clock now correct_score lease task_id result db
        ≡ ok (true, db')
      → (leases lease db' ≡ 0) × Distinct db'.attempts
  retired lease task_id result db db' d one ran =
      let p =
        persist_result-Persisted game_date by_name clock now correct_score lease task_id result db
          db' ran in
      let (coins, row) = Settles-row _ _ _ db' p.stored in
      let new = record (finished result p.attempt) { coins_awarded = coins } in
      let gone =
        count-put_gone (is_leased lease) p.attempt new db.attempts d
          (get-find (is_leased lease) p.attempt db.attempts d p.found)
          (find-holds (is_leased lease) p.attempt db.attempts p.found) (ground arith) in
      (rw row (omega (arith, gone, one)), rw row (Distinct-put new db.attempts d))

  -- If the primary keys of the attempts are distinct and at most one attempt is under a lease,
  -- then after its result was stored, and after any further steps of workers whose claims take
  -- other tokens, a result under the same lease is not stored and changes nothing.
  pub persist_result_once :
      (lease : AttemptLease) (steps : List Step) (task_id task_id' : Option ℕ)
      (result result' : GradeResult) (db db' : GradingDb)
      → Distinct db.attempts
      → leases lease db ≤ 1
      → persist_result game_date by_name clock now correct_score lease task_id result db
        ≡ ok (true, db')
      → All (λ s. is_fresh lease.token s ≡ true) steps
      → let later = run_steps lease_seconds game_date by_name clock now correct_score steps db' in
        persist_result game_date by_name clock now correct_score lease task_id' result' later
        ≡ ok (false, later)
  unfolding persist_result
  persist_result_once lease steps task_id task_id' result result' db db' d one ran fresh =
      let (none_left, d') = retired lease task_id result db db' d one ran in
      let later = run_steps lease_seconds game_date by_name clock now correct_score steps db' in
      rw
        (
          persist_result,
          find-none (is_leased lease) later.attempts
              (run_steps-leases lease steps db' d' none_left fresh),
        )
        refl
