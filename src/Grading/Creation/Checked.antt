-- ===== src/Grading/Creation/Checked.antt =====
-- What the checks of a new attempt have found.
use cat_game_backend.Base.{
  ℕ, String, ◌≡◌, refl, true, false, not, ◌&&◌, ◌||◌, Option, none, some, List, any, ◌==◌, is_none,
  arith,
}
use mathlib.Core.Path.{subst}
use cat_game_backend.Core.Error.{ok, submission_error, runtime_error}
use cat_game_backend.Core.Outcome.{bind-ok, raise_if-ok, or_raise-ok, ok-injective}
use cat_game_backend.Core.RequestHash.{Digest}
use cat_game_backend.Store.Rows.{User, user_row}
use cat_game_backend.Store.Table.{find}
use cat_game_backend.Rewards.{TaskType, code, multiple_choice}
use cat_game_backend.Learning.{
  learning, same_context, Tier, same_tier, Concept, concept_row, LearningTask, TaskPresentation,
}
use cat_game_backend.Learning.Tiers.{TierProgress, unlocked_difficulties, get_or_advance_tier}
use cat_game_backend.Learning.{LearningDb, UserLearningTier}
use cat_game_backend.Grading.{GradingDb, learning_view, with_learning}
use cat_game_backend.Grading.Persisting.{learner_of}
use cat_game_backend.Grading.Checks.{
  TaskAttemptCreate, has_options, chosen_presentation, presentation_type, presented_options,
  check_submission, is_option,
}
use cat_game_backend.Grading.Creation.{Found, linked_tasks, unlock, check_attempt}
use cat_game_backend.Grading.Creation.Links.{IsNamed, Linked, linked_tasks-Linked, Linked-written}

-- The presentation that the payload names is the player's own active one of the task.
pub Presented :
    TaskAttemptCreate → User → LearningTask → Option TaskPresentation → GradingDb → Type 0
Presented payload user task none db = payload.presentation_public_id ≡ none
Presented payload user task (some p) db =
    IsNamed payload.presentation_public_id (λ p. p.public_id) db.presentations p
    × (p.user_id ≡ user.id)
    × (p.task_id ≡ task.id)
    × (p.is_active ≡ true)
    × (same_context p.context_type payload.context_type ≡ true)

chosen_presentation-Presented :
    (payload : TaskAttemptCreate) (user : User) (task : LearningTask) (db : GradingDb)
    (public_id : Option ℕ) (o : Option TaskPresentation)
    → payload.presentation_public_id ≡ public_id
    → chosen_presentation public_id payload.context_type user task db ≡ ok o
    → Presented payload user task o db
unfolding chosen_presentation Presented
chosen_presentation-Presented payload user task db none o e ran =
    let same : o ≡ none = ground arith in rw same e
chosen_presentation-Presented payload user task db (some public_id) o e ran =
    let (p, found, h) =
      or_raise-ok (find (λ (p : TaskPresentation). p.public_id == public_id) db.presentations)
        submission_error _ _ ran in
    let (test, last) =
      raise_if-ok
        (not (p.user_id == user.id)
          || not (p.task_id == task.id)
          || not (same_context p.context_type payload.context_type)
          || not p.is_active)
        submission_error _ _ h in
    let same : o ≡ some p = ground arith in
    rw same ((public_id, e, found), ground arith, ground arith, ground arith, ground arith)

Presented-written :
    (payload : TaskAttemptCreate) (user : User) (task : LearningTask) (o : Option TaskPresentation)
    (learned : LearningDb) (db db' : GradingDb)
    → db' ≡ with_learning learned db
    → Presented payload user task o db'
    → Presented payload user task o db
unfolding Presented
Presented-written payload user task none learned db db' written h = h
Presented-written payload user task (some p) learned db db' written h =
    subst (λ x. Presented payload user task (some p) x) written h

-- The payload has an answer of the task's type.
pub Answered : TaskAttemptCreate → TaskType → Option (List (String × String)) → Type 0
Answered payload code options = is_none payload.submitted_code ≡ false
Answered payload multiple_choice options =
    (selected : String) × (payload.selected_option ≡ some selected)
    × (is_option selected options ≡ true)

check_submission-Answered :
    (payload : TaskAttemptCreate) (type : TaskType) (options : Option (List (String × String)))
    (r : Unit {0})
    → check_submission payload type options ≡ ok r
    → Answered payload type options
unfolding check_submission Answered
check_submission-Answered payload code options r ran = ground arith
check_submission-Answered payload multiple_choice options r ran =
    let (selected, named, h) = or_raise-ok payload.selected_option submission_error _ _ ran in
    (selected, named, ground arith)

-- The presentation, the answer and the linked task of a new attempt, in the tables at the checks.
pub record Checked (today : ℕ) (payload : TaskAttemptCreate) (user : User) (found : Found)
    (db : GradingDb) : Type 0 where
  pub presented : Presented payload user found.0 found.1 db
  pub shown :
      (same_context payload.context_type learning
        && has_options (found.0.options)
        && is_none payload.presentation_public_id)
      ≡ false
  pub answered :
      Answered payload (presentation_type found.0 found.1) (presented_options found.0 found.1)
  pub linked : Linked payload.context_type payload user today found.0 found.2 db

pub Checked-written :
    (today : ℕ) (payload : TaskAttemptCreate) (user : User) (found : Found) (learned : LearningDb)
    (db db' : GradingDb)
    → db' ≡ with_learning learned db
    → Checked today payload user found db'
    → Checked today payload user found db
Checked-written today payload user found learned db db' written c = record {
  presented = Presented-written payload user found.0 found.1 learned db db' written c.presented;
  shown = c.shown;
  answered = c.answered;
  linked =
      Linked-written payload.context_type payload user today found.0 found.2 learned db db' written
        c.linked;
}

-- The task's difficulty is unlocked by the tier that the player has, or now reaches, in the concept.
abbrev pub Unlocked :
    (List Concept → List Concept)
    → (Tier → ℕ)
    → ℕ
    → User
    → LearningTask
    → Option Concept
    → GradingDb
    → Type 0
Unlocked by_name clock now user task none db = Unit
Unlocked by_name clock now user task (some concept) db =
    (r : (UserLearningTier × TierProgress) × LearningDb) × (get_or_advance_tier by_name clock now 3
        (learner_of user) concept.domain (learning_view db)
      ≡ some r)
    × (any (same_tier task.difficulty) (unlocked_difficulties r.0.0.current_tier) ≡ true)

module _ (d : Digest) (by_name : List Concept → List Concept) (clock : Tier → ℕ)
    (now today : ℕ) where
  -- The checks write the tier's row.
  pub unlock-written :
      (user : User) (task : LearningTask) (concept : Concept) (db db' : GradingDb)
      → unlock d by_name clock now today user task concept db ≡ ok db'
      → (learned : LearningDb) × (db' ≡ with_learning learned db)
        × Unlocked by_name clock now user task (some concept) db
  unfolding unlock
  unlock-written user task concept db db' ran =
      let (r, advanced, h) =
        or_raise-ok
          (get_or_advance_tier by_name clock now 3 (learner_of user) concept.domain
            (learning_view db))
          runtime_error _ _ ran in
      let (test, last) =
        raise_if-ok
          (not (any (same_tier task.difficulty) (unlocked_difficulties r.0.0.current_tier)))
          submission_error _ _ h in
      (r.1, ground arith, (r, advanced, ground arith))

  pub check_attempt-Checked :
      (payload : TaskAttemptCreate) (user : User) (task : LearningTask) (db : GradingDb)
      (found : Found)
      → check_attempt d by_name clock now today payload user task db ≡ ok found
      → (found.0 ≡ task) × Checked today payload user found db
  unfolding check_attempt
  check_attempt-Checked payload user task db found ran =
      let (shown, h4) =
        raise_if-ok
          (same_context payload.context_type learning
            && has_options task.options
            && is_none payload.presentation_public_id)
          submission_error _ _ ran in
      let (presentation, chosen, h5) =
        bind-ok
          (chosen_presentation payload.presentation_public_id payload.context_type user task db) _ _
          h4 in
      let (unit, answered, h6) =
        bind-ok
          (check_submission payload (presentation_type task presentation)
            (presented_options task presentation))
          _ _ h5 in
      let (links, linked, last) =
        bind-ok (linked_tasks payload.context_type payload user today task db) _ _ h6 in
      subst (λ x. (x.0 ≡ task) × Checked today payload user x db)
        (ok-injective (task, presentation, links) found last)
        (
          refl,
          record {
            presented =
                chosen_presentation-Presented payload user task db payload.presentation_public_id
                  presentation refl chosen;
            shown = shown;
            answered =
                check_submission-Answered payload (presentation_type task presentation)
                  (presented_options task presentation) unit answered;
            linked =
                linked_tasks-Linked payload.context_type payload user today task db links linked;
          },
        )
