-- ===== src/Grading/Creation/Requests.antt =====
-- A request for an attempt is carried out once.
use cat_game_backend.Base.{
  ℕ, ◌+◌, ◌≡◌, refl, ap, ◌∙◌, String, Bool, true, not, ◌||◌, ◌&&◌, sym, none, some, List, ◌==◌,
  ==_refl, str_eq, Option-cases, inl, inr, ◌⊎◌, arith,
}
use text.Mathlib.TextPositions.{eq_refl}
use mathlib.Core.Path.{subst}
use mathlib.Core.Option
use cat_game_backend.Core.Error.{ok, submission_error, integrity_error, idempotency_conflict}
use cat_game_backend.Core.Outcome.{bind-ok, raise_if-ok, or_raise-ok, ok-injective}
use cat_game_backend.Core.RequestHash.{Digest}
use cat_game_backend.Store.Rows.{User, user_row, advance_state_version}
use cat_game_backend.Store.Table.{find, get, put, insert_row, find-insert_row}
use cat_game_backend.Learning.{Tier, Concept}
use cat_game_backend.Grading.{pending, TaskAttempt, GradingDb}
use cat_game_backend.Grading.Checks.{TaskAttemptCreate, attempt_hash, has_request, replay_attempt}
use cat_game_backend.Grading.Creation.{
  Found, submission, new_attempt, check_under_lock, insert_attempt, create_attempt,
}
use cat_game_backend.Grading.Creation.Accepted.{Accepted, Locked, check_under_lock-Locked}

-- The stored row belongs to this player and this payload.
abbrev is_same_request : ℕ → String → TaskAttempt → Bool
is_same_request user_id request_hash a = a.user_id == user_id && str_eq a.request_hash request_hash

replay_attempt-ok :
    (existing a : TaskAttempt) (user_id : ℕ) (request_hash : String) (db db' : GradingDb)
    → replay_attempt existing user_id request_hash db ≡ ok (a, db')
    → (existing ≡ a) × (db' ≡ db) × (is_same_request user_id request_hash a ≡ true)
replay_attempt-ok existing a user_id request_hash db db' ran =
    let (same, last) =
      raise_if-ok
        (not (existing.user_id == user_id) || not (str_eq existing.request_hash request_hash))
        idempotency_conflict _ _ ran in
    let pair = ok-injective (existing, db) (a, db') last in
    let test : is_same_request user_id request_hash existing ≡ true = ground arith in
    (
      ap (λ x. x.0) pair,
      sym (ap (λ x. x.1) pair),
      subst (λ x. is_same_request user_id request_hash x ≡ true) (ap (λ x. x.0) pair) test,
    )

replay_same :
    (a : TaskAttempt) (user_id : ℕ) (request_hash : String) (db : GradingDb)
    → is_same_request user_id request_hash a ≡ true
    → replay_attempt a user_id request_hash db ≡ ok (a, db)
replay_same a user_id request_hash db same = ground arith

module _ (d : Digest) (by_name : List Concept → List Concept) (clock : Tier → ℕ) (now today : ℕ)
    (payload : TaskAttemptCreate) (user : User) where
  -- A new attempt: what it was accepted for, that no attempt has its request, the answer of the
  -- payload, and the row that is stored under the next key.
  pub record Fresh (meanwhile : GradingDb → GradingDb) (db : GradingDb) (a : TaskAttempt)
      (db' : GradingDb) : Type 0 where
    pub found : Found
    pub accepted : Accepted d by_name clock now today payload user meanwhile db found
    pub absent : find (has_request payload.request_id) (meanwhile db).attempts ≡ none
    pub submitted : String
    pub answer : submission payload ≡ some submitted
    pub key : ℕ
    pub row : a ≡ record {
      id = key;
      public_id = (meanwhile db).generated key;
      request_id = payload.request_id;
      request_hash = attempt_hash d payload;
      user_id = user.id;
      task_id = found.0.id;
      presentation_id = Option.map (λ p. p.id) (found.1);
      attendance_task_id = Option.map (λ t. t.id) (found.2.0);
      room_task_id = Option.map (λ t. t.id) (found.2.1);
      context_type = payload.context_type;
      submitted_code = submitted;
      used_hint = payload.used_hint;
      status = pending;
      is_correct = none;
      attempted_at = now;
      result_detail = none;
      coins_awarded = 0;
      grading_started_at = none;
      grading_lease_token = none;
    }
    pub next_key : db'.next_id ≡ key + 1
    pub attempts : db'.attempts ≡ insert_row a (meanwhile db).attempts
    pub player : User
    pub holder : get user.id (meanwhile db).users ≡ some player
    pub users : db'.users ≡ put (advance_state_version player) (meanwhile db).users

  -- The attempt of an earlier request, which is this one.
  pub record Replayed (meanwhile : GradingDb → GradingDb) (db : GradingDb) (a : TaskAttempt)
      (db' : GradingDb) : Type 0 where
    pub tables : (db' ≡ db) ⊎ (db' ≡ meanwhile db)
    pub stored : find (has_request payload.request_id) db'.attempts ≡ some a
    pub same : is_same_request user.id (attempt_hash d payload) a ≡ true

  insert_attempt-ok :
      (meanwhile : GradingDb → GradingDb) (db locked db' : GradingDb) (found : Found)
      (a : TaskAttempt)
      → Locked d by_name clock now today payload user meanwhile db locked found
      → insert_attempt d by_name clock now today payload user found (meanwhile db) locked
        ≡ ok (a, db')
      → Replayed meanwhile db a db' ⊎ Fresh meanwhile db a db'
  unfolding insert_attempt
  insert_attempt-ok meanwhile db locked db' found a l ran =
      let (player, holder, h1) = or_raise-ok (get user.id locked.users) submission_error _ _ ran in
      elim (Option-cases (find (has_request payload.request_id) locked.attempts)) [
        | inr (existing, stored) ↦
            let (same_row, same_db, same) =
              replay_attempt-ok existing a user.id (attempt_hash d payload) (meanwhile db) db'
                (rw (insert_attempt, stored) at h1) in
            inl (record {
              tables = inr same_db;
              stored = rw (same_db, ← (l.attempts), stored) (ap some same_row);
              same = same;
            })
        | inl absent ↦
            let (submitted, s, last) =
              or_raise-ok (submission payload) integrity_error _ _ (rw absent at h1) in
            let attempt =
              new_attempt d by_name clock now today payload user.id (found.0) (found.1) (found.2)
                submitted locked in
            let pair = ok-injective _ (a, db') last in
            let row : attempt ≡ a = ap (λ x. x.0) pair in
            let keyed = λ (g : ℕ → ℕ).
              new_attempt d by_name clock now today payload user.id (found.0) (found.1) (found.2)
                submitted (record (meanwhile db) { next_id = locked.next_id; generated = g }) in
            inr (record {
              found = found;
              accepted = l.accepted;
              absent = rw l.attempts at absent;
              submitted = submitted;
              answer = s;
              key = locked.next_id;
              row = sym row ∙ ap keyed l.generated;
              next_key = sym (ap (λ x. x.1.next_id) pair);
              attempts =
                  sym (ap (λ x. x.1.attempts) pair)
                  ∙ (ap (λ x. insert_row x locked.attempts) row ∙ ap (insert_row a) l.attempts);
              player = player;
              holder = rw l.users at holder;
              users =
                  sym (ap (λ x. x.1.users) pair) ∙ ap (put (advance_state_version player)) l.users;
            })
      ]

  pub create_attempt-Fresh :
      (meanwhile : GradingDb → GradingDb) (db db' : GradingDb) (a : TaskAttempt)
      → create_attempt d by_name clock now today payload user meanwhile db ≡ ok (a, db')
      → Replayed meanwhile db a db' ⊎ Fresh meanwhile db a db'
  unfolding create_attempt
  create_attempt-Fresh meanwhile db db' a ran =
      elim (Option-cases (find (has_request payload.request_id) db.attempts)) [
        | inr (existing, stored) ↦
            let (same_row, same_db, same) =
              replay_attempt-ok existing a user.id (attempt_hash d payload) db db'
                (rw (create_attempt, stored) at ran) in
            inl (record {
              tables = inl same_db;
              stored = rw (same_db, stored) (ap some same_row);
              same = same;
            })
        | inl absent ↦
            let (checked, locks, last) =
              bind-ok (check_under_lock d by_name clock now today payload user meanwhile db) _ _
                (rw (create_attempt, absent) at ran) in
            insert_attempt-ok meanwhile db checked.1 db' checked.0 a
              (check_under_lock-Locked d by_name clock now today payload user meanwhile db checked.1
                checked.0 locks)
              last
      ]

  -- The row of an accepted request is found under its id, and it is the player's.
  accepted :
      (meanwhile : GradingDb → GradingDb) (db db' : GradingDb) (a : TaskAttempt)
      → Replayed meanwhile db a db' ⊎ Fresh meanwhile db a db'
      → (find (has_request payload.request_id) db'.attempts ≡ some a)
        × (is_same_request user.id (attempt_hash d payload) a ≡ true)
  accepted meanwhile db db' a (inl r) = (r.stored, r.same)
  accepted meanwhile db db' a (inr f) =
      let own : has_request payload.request_id a ≡ true = rw f.row (==_refl payload.request_id) in
      let last =
        find-insert_row (has_request payload.request_id) a (meanwhile db).attempts f.absent in
      (
        rw (f.attempts, last, own) refl,
        rw (f.row, ==_refl user.id, eq_refl (attempt_hash d payload)) refl,
      )

  -- A request for an attempt that returned, sent again by the same player, returns the same
  -- attempt and leaves the tables as they are.
  pub create_attempt_again :
      (meanwhile meanwhile' : GradingDb → GradingDb) (db db' : GradingDb) (a : TaskAttempt)
      → create_attempt d by_name clock now today payload user meanwhile db ≡ ok (a, db')
      → create_attempt d by_name clock now today payload user meanwhile' db' ≡ ok (a, db')
  unfolding create_attempt
  create_attempt_again meanwhile meanwhile' db db' a ran =
      let (stored, same) =
        accepted meanwhile db db' a (create_attempt-Fresh meanwhile db db' a ran) in
      rw (create_attempt, stored) (replay_same a user.id (attempt_hash d payload) db' same)
