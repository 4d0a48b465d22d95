-- ===== src/Grading/Steps/Change.antt =====
-- The row that a step of a worker changes.
use cat_game_backend.Base.{
  ℕ, ◌≡◌, refl, sym, ap, Bool, true, false, ◌&&◌, Option, none, some, List, [], ◌∷◌, ◌==◌, ℤ,
  ==_refl, Bool-cases, Option-cases, inl, inr, ◌⊎◌, arith,
}
use mathlib.Core.List.{Memᴰ}
use mathlib.Core.Path.{subst}
use cat_game_backend.Core.Error.{Error, Result, ok, err}
use cat_game_backend.Store.Table.{find, get, put, Distinct, get-find, find-holds}
use cat_game_backend.Learning.{Tier, Concept}
use cat_game_backend.Grading.{TaskAttempt, task_attempt_row, AttemptLease, GradeResult, GradingDb}
use cat_game_backend.Grading.Leases.{
  is_claimable, is_free, oldest, leased, claim_next_attempt, claim_attempt,
}
use cat_game_backend.Grading.Leases.Oldest.{oldest-Oldest}
use cat_game_backend.Grading.Persisting.{is_leased, finished, persist_result}
use cat_game_backend.Grading.Persisting.Outcome.{
  persist_result-Persisted, persist_result_unstored, Settles-row,
}
use cat_game_backend.Grading.Steps.{Step, poll, take_one, store, step}

-- A row of the table is the one of its primary key.
get-Memᴰ : (a : TaskAttempt) (t : List TaskAttempt) → Distinct t → Memᴰ a t → get a.id t ≡ some a
unfolding get find
get-Memᴰ a [] d m = elim m [ ]
get-Memᴰ a (b ∷ t) d (Memᴰ.head p) =
    subst (λ x. get x.id (b ∷ t) ≡ some x) (sym p) (rw (get, find, ==_refl b.id) refl)
get-Memᴰ a (b ∷ t) d (Memᴰ.tail m) = elim (Bool-cases (b.id == a.id)) [
  | inl same ↦
      let i : b.id ≡ a.id = ground arith in
      let absent : get a.id t ≡ none = rw i at (d.0) in ground (arith, get-Memᴰ a t d.1 m)
  | inr differs ↦ ground (arith, get-Memᴰ a t d.1 m)
]

-- The step takes a lease of the row, or stores a result of its lease.
pub data Change (lease_seconds : ℕ) : Step → TaskAttempt → TaskAttempt → Type 0 where
  polled :
      {now token : ℕ} {locked : List ℕ} {a : TaskAttempt}
      → is_claimable lease_seconds now a ≡ true
      → Change lease_seconds (poll now token locked) a (leased now token a)
  taken :
      {now token public_id : ℕ} {a : TaskAttempt}
      → is_claimable lease_seconds now a ≡ true
      → Change lease_seconds (take_one now token public_id) a (leased now token a)
  stored :
      {task_id : Option ℕ} {a : TaskAttempt} (lease : AttemptLease) (result : GradeResult)
      (coins : ℕ)
      → is_leased lease a ≡ true
      → Change lease_seconds
          (store lease task_id result)
          a
          (record (finished result a) { coins_awarded = coins })

-- A step changes one row, or none.
pub record Changed (lease_seconds : ℕ) (s : Step) (t t' : List TaskAttempt) : Type 0 where
  pub old : TaskAttempt
  pub new : TaskAttempt
  pub found : get old.id t ≡ some old
  pub same_id : new.id ≡ old.id
  pub change : Change lease_seconds s old new
  pub written : t' ≡ put new t

leased-claimable :
    (lease_seconds now : ℕ) (locked : List ℕ) (a : TaskAttempt)
    → is_free lease_seconds now locked a ≡ true
    → is_claimable lease_seconds now a ≡ true
leased-claimable lease_seconds now locked a h = ground arith

second : (b c : Bool) → (b && c) ≡ true → c ≡ true
second b c h = ground arith

-- A grading raises, stores nothing, or stores a result.
pub Stored-cases :
    (r : Result (Bool × GradingDb))
    → ((e : Error) × (r ≡ err e))
      ⊎ (((db' : GradingDb) × (r ≡ ok (false, db'))) ⊎ ((db' : GradingDb) × (r ≡ ok (true, db'))))
Stored-cases (err e) = inl (e, refl)
Stored-cases (ok (false, db')) = inr (inl (db', refl))
Stored-cases (ok (true, db')) = inr (inr (db', refl))

module _ (lease_seconds : ℕ) (game_date : ℕ → ℕ) (by_name : List Concept → List Concept)
    (clock : Tier → ℕ) (now : ℕ) (correct_score : Option ℤ) where
  abbrev pub next : Step → GradingDb → GradingDb
  next = step lease_seconds game_date by_name clock now correct_score

  pub step-Changed :
      (s : Step) (db : GradingDb)
      → Distinct db.attempts
      → ((next s db).attempts ≡ db.attempts)
        ⊎ Changed lease_seconds s db.attempts (next s db).attempts
  unfolding step claim_next_attempt claim_attempt
  step-Changed (poll time token locked) db d =
      let selects = is_free lease_seconds time locked in
      elim (Option-cases (oldest selects db.attempts)) [
        | inl e ↦ inl (rw (step, claim_next_attempt, e) refl)
        | inr (a, e) ↦
            let o = oldest-Oldest selects a db.attempts e in
            inr (record {
              old = a;
              new = leased time token a;
              found = get-Memᴰ a db.attempts d o.member;
              same_id = refl;
              change = polled (leased-claimable lease_seconds time locked a o.selected);
              written = rw (step, claim_next_attempt, e) refl;
            })
      ]
  step-Changed (take_one time token public_id) db d =
      let selects =
        λ (a : TaskAttempt). a.public_id == public_id && is_claimable lease_seconds time a in
      elim (Option-cases (find selects db.attempts)) [
        | inl e ↦ inl (rw (step, claim_attempt, e) refl)
        | inr (a, e) ↦ inr (record {
          old = a;
          new = leased time token a;
          found = get-find selects a db.attempts d e;
          same_id = refl;
          change = taken (second _ _ (find-holds selects a db.attempts e));
          written = rw (step, claim_attempt, e) refl;
        })
      ]
  step-Changed (store lease task_id result) db d =
      let r = persist_result game_date by_name clock now correct_score lease task_id result db in
      elim (Stored-cases r) [
        | inl (e, raised) ↦ inl (rw (step, raised) refl)
        | inr (inl (db', unstored)) ↦
            let same =
              persist_result_unstored game_date by_name clock now correct_score lease task_id result
                db db' unstored in
            inl (rw (step, unstored) (ap (λ x. x.attempts) same))
        | inr (inr (db', kept)) ↦
            let p =
              persist_result-Persisted game_date by_name clock now correct_score lease task_id
                result db db' kept in
            let (coins, row) = Settles-row _ _ _ db' p.stored in
            inr (record {
              old = p.attempt;
              new = record (finished result p.attempt) { coins_awarded = coins };
              found = get-find (is_leased lease) p.attempt db.attempts d p.found;
              same_id = refl;
              change =
                  stored lease result coins
                    (find-holds (is_leased lease) p.attempt db.attempts p.found);
              written = rw (step, kept) row;
            })
      ]
