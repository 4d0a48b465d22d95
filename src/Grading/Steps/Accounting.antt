-- ===== src/Grading/Steps/Accounting.antt =====
-- The completions account for the coins that the players gain.
use cat_game_backend.Base.{
  ℕ, ◌+◌, ◌≡◌, refl, sym, ◌∙◌, ap, true, false, Option, none, some, List, [], ◌∷◌, ◌==◌, ==_refl,
  if◌then◌else◌, ℤ, pos, ◌+ℤ◌, Bool-cases, inl, inr, arith,
}
use cat_game_backend.Base.Int.{int_laws}
use mathlib.Core.Option.{some-injective}
use cat_game_backend.Store.Rows.{User, user_row, advance_state_version}
use cat_game_backend.Store.Table.{get, put, get-put, find-holds, insert_row, has_id}
use cat_game_backend.Learning.{Tier, Concept, LearningTask, learning_task_row}
use cat_game_backend.Grading.{TaskCompletion, GradingDb}
use cat_game_backend.Grading.Persisting.{Graded, completion}
use cat_game_backend.Grading.Persisting.Outcome.{Settles, graded}
use cat_game_backend.Grading.Steps.{Step, run_steps}
use cat_game_backend.Grading.Steps.Change.{next}
use cat_game_backend.Grading.Steps.Completions.{nothing, persisted, step-Touches}

-- The coins of a player's completions.
unfoldable pub coins_of : ℕ → List TaskCompletion → ℕ
coins_of user_id [] = 0
coins_of user_id (c ∷ completions) =
    (if c.user_id == user_id then c.coins_awarded else 0) + coins_of user_id completions

coins_of-insert_row :
    (user_id : ℕ) (c : TaskCompletion) (completions : List TaskCompletion)
    → coins_of user_id (insert_row c completions)
      ≡ coins_of user_id completions + (if c.user_id == user_id then c.coins_awarded else 0)
unfolding coins_of
coins_of-insert_row user_id c [] = ground arith
coins_of-insert_row user_id c (x ∷ completions) =
    omega (arith, coins_of-insert_row user_id c completions)

-- The player has gained what the new completions pay.
pub record Accounts (user_id : ℕ) (u : User) (db db' : GradingDb) : Type 0 where
  pub user : User
  pub found : get user_id db'.users ≡ some user
  pub gain : ℕ
  pub balance : user.balance ≡ u.balance +ℤ pos gain
  pub completions : coins_of user_id db'.completions ≡ coins_of user_id db.completions + gain

add_gains : (x : ℤ) (a b : ℕ) → (x +ℤ pos a) +ℤ pos b ≡ x +ℤ pos (a + b)
add_gains x a b = omega int_laws

add_nothing : (x : ℤ) → x ≡ x +ℤ pos 0
add_nothing x = omega int_laws

Accounts-trans :
    (i : ℕ) (u : User) (db db' db'' : GradingDb) (first : Accounts i u db db')
    → Accounts i first.user db' db''
    → Accounts i u db db''
Accounts-trans i u db db' db'' first second = record {
  user = second.user;
  found = second.found;
  gain = first.gain + second.gain;
  balance = rw (second.balance, first.balance) (add_gains u.balance first.gain second.gain);
  completions = omega (arith, first.completions, second.completions);
}

-- Rows that stay as they are account for themselves.
Accounts-same :
    (i : ℕ) (u : User) (db db' : GradingDb)
    → get i db.users ≡ some u
    → db'.users ≡ db.users
    → db'.completions ≡ db.completions
    → Accounts i u db db'
Accounts-same i u db db' found users completions = record {
  user = u;
  found = rw users found;
  gain = 0;
  balance = add_nothing u.balance;
  completions = rw completions (omega arith);
}

-- The row of the player `holder` is replaced, and the completions gain for this player.
Accounts-put :
    (i : ℕ) (u holder v : User) (key gain : ℕ) (db db' : GradingDb)
    → get i db.users ≡ some u
    → get key db.users ≡ some holder
    → v.id ≡ holder.id
    → v.balance ≡ holder.balance +ℤ pos gain
    → db'.users ≡ put v db.users
    → coins_of i db'.completions ≡ coins_of i db.completions + (if key == i then gain else 0)
    → Accounts i u db db'
unfolding get
Accounts-put i u holder v key gain db db' found held same_id paid users completions =
    let own : (holder.id == key) ≡ true = find-holds (has_id key) holder db.users held in
    elim (Bool-cases (i == v.id)) [
      | inr apart ↦
          let other : (key == i) ≡ false = ground arith in
          record {
            user = u;
            found = rw (users, get-put, apart) found;
            gain = 0;
            balance = add_nothing u.balance;
            completions = rw (completions, other) refl;
          }
      | inl mine ↦
          let same : i ≡ key = ground arith in
          let player : holder ≡ u =
            some-injective holder u (sym held ∙ ap (λ k. get k db.users) (sym same) ∙ found) in
          record {
            user = v;
            found = rw (users, get-put, mine, found) refl;
            gain = gain;
            balance = paid ∙ ap (λ (x : User). x.balance +ℤ pos gain) player;
            completions = rw (completions, same, ==_refl key) refl;
          }
    ]

Settles-Accounts :
    (day : ℕ) (task : Option LearningTask) (g : Graded) (i : ℕ) (u : User) (db' : GradingDb)
    → get g.attempt.user_id g.db.users ≡ some g.user
    → get i g.db.users ≡ some u
    → Settles day task g db'
    → Accounts i u g.db db'
unfolding Settles advance_state_version
Settles-Accounts day none g i u db' holder found h =
    Accounts-put i u g.user (advance_state_version g.user) g.attempt.user_id 0 g.db db' found holder
      refl (add_nothing g.user.balance) (h.1) (rw (h.2) (ground arith))
Settles-Accounts day (some t) g i u db' holder found h =
    let (id, completions) = h.2 in
    Accounts-put i u g.user
      (advance_state_version (record g.user { balance = g.user.balance +ℤ pos t.reward_coins }))
      g.attempt.user_id t.reward_coins g.db db' found holder refl refl (h.1)
      (rw completions (
        coins_of-insert_row i (completion id day g.attempt.id g.attempt.user_id t)
          g.db.completions))

module _ (lease_seconds : ℕ) (game_date : ℕ → ℕ) (by_name : List Concept → List Concept)
    (clock : Tier → ℕ) (now : ℕ) (correct_score : Option ℤ) where
  step-Accounts :
      (s : Step) (db : GradingDb) (i : ℕ) (u : User)
      → get i db.users ≡ some u
      → Accounts i u db (next lease_seconds game_date by_name clock now correct_score s db)
  step-Accounts s db i u found =
      let db' = next lease_seconds game_date by_name clock now correct_score s db in
      elim (step-Touches lease_seconds game_date by_name clock now correct_score s db) [
        | nothing users completions ↦ Accounts-same i u db db' found users completions
        | persisted lease task_id result p ↦
            Settles-Accounts (game_date p.attempt.attempted_at) _
              (graded result p.attempt p.user db) i u db' p.holder found p.stored
      ]

  -- Over any sequence of steps of workers (polling, taking one attempt, storing a result), the
  -- balance of every player grows by exactly the coins that the new completions of the player are
  -- worth.
  pub run_steps-Accounts :
      (steps : List Step) (db : GradingDb) (i : ℕ) (u : User)
      → get i db.users ≡ some u
      → Accounts i u db (run_steps lease_seconds game_date by_name clock now correct_score steps db)
  unfolding run_steps
  run_steps-Accounts [] db i u found = Accounts-same i u db db found refl refl
  run_steps-Accounts (s ∷ steps) db i u found =
      let db' = next lease_seconds game_date by_name clock now correct_score s db in
      let first = step-Accounts s db i u found in
      Accounts-trans i u db db'
        (run_steps lease_seconds game_date by_name clock now correct_score steps db') first
        (run_steps-Accounts steps db' i first.user first.found)
