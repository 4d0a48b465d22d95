-- ===== src/Grading/Steps/Exclusion.antt =====
-- While a lease runs, no other worker touches the attempt.
use cat_game_backend.Base.{
  ℕ, ◌+◌, ◌≡◌, refl, sym, ◌∙◌, ap, true, not, Option, some, List, [], ◌∷◌, ◌==◌, leb, opt_eq, ◌&&◌,
  ℤ, Bool-cases, inl, inr, arith, All,
}
use mathlib.Core.Option.{some-injective}
use mathlib.Core.Path.{subst}
use cat_game_backend.Store.Table.{get, Distinct, get-put}
use cat_game_backend.Learning.{Tier, Concept}
use cat_game_backend.Grading.Persisting.{is_leased}
use cat_game_backend.Grading.{
  running, is_running, TaskAttempt, task_attempt_row, AttemptLease, GradingDb,
}
use cat_game_backend.Grading.Leases.{is_claimable, is_claimable_status, is_expired}
use cat_game_backend.Grading.Steps.{Step, run_steps, is_by, is_other}
use cat_game_backend.Grading.Steps.Change.{Change, polled, taken, stored, step-Changed, next}
use cat_game_backend.Grading.Steps.Evolution.{step-Distinct}

-- The attempt has been leased at this time with this token.
pub record IsHeld (since token : ℕ) (a : TaskAttempt) : Type 0 where
  pub status : a.status ≡ running
  pub started : a.grading_started_at ≡ some since
  pub holder : a.grading_lease_token ≡ some token

module _ (lease_seconds since token : ℕ) where
  not_claimable :
      (a : TaskAttempt) (now : ℕ) {A : Type 0}
      → IsHeld since token a
      → leb now (since + lease_seconds) ≡ true
      → is_claimable lease_seconds now a ≡ true
      → A
  not_claimable a now h by k =
      let k' : is_claimable_status running (is_expired lease_seconds now (some since)) ≡ true =
        rw (h.status, h.started) at k in
      ground arith

  not_other :
      (l : AttemptLease) (a : TaskAttempt) {A : Type 0}
      → IsHeld since token a
      → not (l.token == token) ≡ true
      → is_leased l a ≡ true
      → A
  not_other l a h other k =
      let k' : (a.public_id == l.public_id
            && is_running a.status
            && opt_eq (some token) (some l.token))
          ≡ true =
        rw h.holder at k in
      ground arith

  Change-held :
      {s : Step} {a b : TaskAttempt}
      → IsHeld since token a
      → is_by (since + lease_seconds) s ≡ true
      → is_other token s ≡ true
      → Change lease_seconds s a b
      → b ≡ a
  Change-held {a = a} h by other (polled {now = now} k) = not_claimable a now h by k
  Change-held {a = a} h by other (taken {now = now} k) = not_claimable a now h by k
  Change-held {a = a} h by other (stored l result coins k) = not_other l a h other k

  module _ (game_date : ℕ → ℕ) (by_name : List Concept → List Concept) (clock : Tier → ℕ) (now : ℕ)
      (correct_score : Option ℤ) where
    step-held :
        (s : Step) (db : GradingDb) (a : TaskAttempt)
        → Distinct db.attempts
        → get a.id db.attempts ≡ some a
        → IsHeld since token a
        → is_by (since + lease_seconds) s ≡ true
        → is_other token s ≡ true
        → get a.id (next lease_seconds game_date by_name clock now correct_score s db).attempts
          ≡ some a
    step-held s db a d found h by other =
        elim (step-Changed lease_seconds game_date by_name clock now correct_score s db d) [
          | inl same ↦ rw same found
          | inr c ↦ elim (Bool-cases (a.id == c.new.id)) [
            | inr apart ↦ rw (c.written, get-put, apart, found) refl
            | inl mine ↦
                let key : a.id ≡ c.old.id = ground (arith, c.same_id) in
                let held : c.old ≡ a =
                  some-injective c.old a
                    (sym (c.found) ∙ ap (λ k. get k db.attempts) (sym key) ∙ found) in
                let kept : c.new ≡ a =
                  Change-held h by other
                    (subst (λ x. Change lease_seconds s x c.new) held c.change) in
                rw (c.written, get-put, mine, found) (ap some kept)
          ]
        ]

    -- If the primary keys of the attempts are distinct, an attempt that was leased at some time
    -- keeps its row through any steps of workers that claim until the lease time has passed and
    -- that store no result under its token.
    pub run_steps_exclusion :
        (steps : List Step) (db : GradingDb) (a : TaskAttempt)
        → Distinct db.attempts
        → get a.id db.attempts ≡ some a
        → IsHeld since token a
        → All (λ s. is_by (since + lease_seconds) s ≡ true) steps
        → All (λ s. is_other token s ≡ true) steps
        → get a.id
            (run_steps lease_seconds game_date by_name clock now correct_score steps db).attempts
          ≡ some a
    unfolding run_steps
    run_steps_exclusion [] db a d found h by other = found
    run_steps_exclusion (s ∷ steps) db a d found h by other =
        run_steps_exclusion steps
          (next lease_seconds game_date by_name clock now correct_score s db) a
          (step-Distinct lease_seconds game_date by_name clock now correct_score s db d)
          (step-held s db a d found h by.0 other.0) h by.1 other.1
