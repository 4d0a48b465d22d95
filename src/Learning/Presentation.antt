-- ===== src/Learning/Presentation.antt =====
-- app/modules/learning/presentation.py. The random source is a parameter: what it shuffles a list
-- to, and whether its number is below the probability of a difficulty.
pub mod Shuffle
pub mod Content
use cat_game_backend.Base.{
  ℕ, ◌+◌, String, Bool, true, false, not, ◌&&◌, ◌||◌, Option, none, some, List, [], ◌∷◌, any, map,
  str_eq, if◌then◌else◌, is_none, length, ◌==◌,
}
use cat_game_backend.Core.Error.{
  Result, ok, value_error, stop_iteration, lookup_error, runtime_error, type_error,
}
use cat_game_backend.Store.Table.{find, get, insert_row}
use cat_game_backend.Rewards.{TaskType, code, multiple_choice}
use cat_game_backend.Learning.{
  Tier, bronze, silver, gold, Domain, python, sql, same_tier, same_domain, Concept, LearningTask,
  LearningAttempt, Learner, UserLearningTier, tier_row, concept_row, TaskPresentation, LearningDb,
  learning, same_context,
}
use cat_game_backend.Learning.Tiers.{unlocked_difficulties, TierProgress, get_or_advance_tier}
use cat_game_backend.Core.Outcome.{◌>>=◌, ◌>>◌, raise_if, or_raise}

-- `list(options)`
abbrev pub labels_of : List (String × String) → List String
labels_of options = map (λ o. o.0) options

abbrev pub lookup : String → List (String × String) → Option String
lookup label [] = none
lookup label (o ∷ options) = if str_eq o.0 label then some o.1 else lookup label options

-- `{label: value for label, (_, value) in zip(labels, entries)}`
unfoldable pub assign : List String → List (String × String) → List (String × String)
assign [] entries = []
assign (l ∷ labels) [] = []
assign (l ∷ labels) (e ∷ entries) = (l, e.1) ∷ assign labels entries

-- The first label whose entry is the correct one.
unfoldable pub new_label : String → List String → List (String × String) → Option String
new_label correct [] entries = none
new_label correct (l ∷ labels) [] = none
new_label correct (l ∷ labels) (e ∷ entries) =
    if str_eq e.0 correct then some l else new_label correct labels entries

module _ (shuffle : List (String × String) → List (String × String)) where
  unfoldable pub shuffled_options :
      List (String × String) → String → Result (List (String × String) × String)
  unfolding assign new_label
  shuffled_options options correct_option = do
    let labels = labels_of options
    let entries = shuffle options
    raise_if (not (length labels == length entries)) value_error
    new_correct ← or_raise (new_label correct_option labels entries) stop_iteration
    ok (assign labels entries, new_correct)

-- `options and correct_option in options`
abbrev pub has_multiple_choice : LearningTask → Bool
has_multiple_choice task = elim task.options [
  | none ↦ false
  | some options ↦ elim task.correct_option [
    | none ↦ false
    | some correct ↦ any (λ l. str_eq l correct) (labels_of options)
  ]
]

-- `below` tells whether the number of the day is less than the probability of a difficulty, which
-- for gold is 0.
unfoldable pub suggested_presentation_type : (Tier → Bool) → LearningTask → TaskType
suggested_presentation_type below task =
    if not (has_multiple_choice task) || same_tier task.difficulty gold
    then code
    else (if below task.difficulty then multiple_choice else code)

unfoldable pub choose_presentation_type : (Tier → Bool) → LearningTask → Option TaskType → TaskType
choose_presentation_type below task (some code) = code
choose_presentation_type below task (some multiple_choice) =
    if has_multiple_choice task
    then multiple_choice
    else (if has_multiple_choice task && below task.difficulty then multiple_choice else code)
choose_presentation_type below task none =
    if has_multiple_choice task && below task.difficulty then multiple_choice else code

-- `task.multiple_choice_prompt or task.description`
abbrev pub prompt_of : LearningTask → String
prompt_of task = elim task.multiple_choice_prompt [
  | none ↦ task.description
  | some prompt ↦ if str_eq prompt "" then task.description else prompt
]

-- The type, the description, the options and the right label of a new presentation.
unfoldable pub present :
    (List (String × String) → List (String × String))
    → (Tier → Bool)
    → LearningTask
    → Option TaskType
    → Result (TaskType × String × Option (List (String × String)) × Option String)
unfolding shuffled_options choose_presentation_type
present shuffle below task preferred = elim (choose_presentation_type below task preferred) [
  | code ↦ ok (code, task.description, none, none)
  | multiple_choice ↦ or_raise task.options type_error >>= λ options.
      or_raise task.correct_option stop_iteration >>= λ correct.
      shuffled_options shuffle options correct >>= λ r.
      ok (multiple_choice, prompt_of task, some r.0, some r.1)
]

abbrev pub is_active_of : ℕ → ℕ → TaskPresentation → Bool
is_active_of user_id task_id p =
    p.user_id == user_id
    && p.task_id == task_id
    && same_context p.context_type learning
    && p.is_active

-- The tier's row is written only if the call commits; three rounds of promotions are enough.
unfoldable pub start_task_presentation :
    (List Concept → List Concept)
    → (Tier → ℕ)
    → ℕ
    → (List (String × String) → List (String × String))
    → (Tier → Bool)
    → ℕ
    → Learner
    → Option TaskType
    → LearningDb
    → Result (TaskPresentation × LearningDb)
unfolding find get present
start_task_presentation by_name clock now shuffle below task_public_id user preferred db = do
  task ← or_raise (find (λ t. t.public_id == task_public_id && t.is_active) db.tasks) lookup_error
  concept ← or_raise (get task.concept_id db.concepts) lookup_error
  advanced ← or_raise (get_or_advance_tier by_name clock now 3 user concept.domain db) runtime_error
  raise_if (not (any (same_tier task.difficulty) (unlocked_difficulties advanced.0.0.current_tier)))
      lookup_error
  elim (find (is_active_of user.id task.id) advanced.1.presentations) [
    | some active ↦ ok (active, db)
    | none ↦ present shuffle below task preferred >>= λ r.
        let presentation : TaskPresentation = record {
          id = advanced.1.next_id;
          public_id = advanced.1.generated advanced.1.next_id;
          user_id = user.id;
          task_id = task.id;
          context_type = learning;
          presentation_type = r.0;
          description = r.1;
          options = r.2;
          correct_option = r.3;
          is_active = true;
        } in
        ok (
          presentation,
          record advanced.1 {
            presentations = insert_row presentation advanced.1.presentations;
            next_id = advanced.1.next_id + 1;
          },
        )
  ]
