-- ===== src/Learning/Presentation/Content.antt =====
-- What a new presentation shows.
use cat_game_backend.Base.{
  ◌≡◌, refl, String, Bool, true, false, ◌&&◌, Option, none, some, List, [], ◌∷◌, inl, inr, ◌⊎◌,
  arith, any, str_eq, Bool-cases, Option-cases,
}
use mathlib.Core.List.{Permᴰ}
use cat_game_backend.Core.Error.{ok}
use cat_game_backend.Rewards.{TaskType, code, multiple_choice}
use cat_game_backend.Learning.{Tier, LearningTask}
use cat_game_backend.Learning.Presentation.{
  labels_of, lookup, has_multiple_choice, choose_presentation_type, present, prompt_of,
}
use cat_game_backend.Learning.Presentation.Shuffle.{NoRepeat, shuffled_options-answer}

-- The right answer of a task with options.
record Answer (task : LearningTask) : Type 0 where
  options : List (String × String)
  correct : String
  text : String
  has_options : task.options ≡ some options
  has_correct : task.correct_option ≡ some correct
  found : lookup correct options ≡ some text

lookup-any :
    (label : String) (options : List (String × String))
    → any (λ l. str_eq l label) (labels_of options) ≡ true
    → (text : String) × (lookup label options ≡ some text)
lookup-any label [] h = ground arith
lookup-any label (o ∷ options) h = elim (Bool-cases (str_eq o.0 label)) [
  | inl hit ↦ (o.1, rw hit refl)
  | inr miss ↦ let (text, found) = lookup-any label options (rw miss at h) in (text, rw miss found)
]

Answer-of : (task : LearningTask) → has_multiple_choice task ≡ true → Answer task
Answer-of task h = elim (Option-cases task.options) [
  | inl e ↦ let impossible : false ≡ true = rw e at h in ground arith
  | inr (options, e) ↦ elim (Option-cases task.correct_option) [
    | inl f ↦ let impossible : false ≡ true = rw (e, f) at h in ground arith
    | inr (correct, f) ↦
        let (text, found) = lookup-any correct options (rw (e, f) at h) in
        record {
          options = options;
          correct = correct;
          text = text;
          has_options = e;
          has_correct = f;
          found = found;
        }
  ]
]

choose_presentation_type-cases :
    (below : Tier → Bool) (task : LearningTask) (preferred : Option TaskType)
    → (choose_presentation_type below task preferred ≡ code)
      ⊎ ((choose_presentation_type below task preferred ≡ multiple_choice)
          × (has_multiple_choice task ≡ true))
unfolding choose_presentation_type
choose_presentation_type-cases below task (some code) = inl refl
choose_presentation_type-cases below task (some multiple_choice) =
    elim (Bool-cases (has_multiple_choice task)) [
      | inl has ↦ inr (rw has refl, has)
      | inr hasnt ↦ inl rw hasnt refl
    ]
choose_presentation_type-cases below task none =
    elim (Bool-cases (has_multiple_choice task && below task.difficulty)) [
      | inl has ↦ inr (rw has refl, ground arith)
      | inr hasnt ↦ inl (rw hasnt refl)
    ]

-- Code has no options; a choice has options of which the right one says what the task's does.
pub data Shows (task : LearningTask)
    : TaskType → Option (List (String × String)) → Option String → Type 0 where
  as_code : Shows task code none none
  as_choice :
      {options shuffled : List (String × String)} {correct new_correct text : String}
      → task.options ≡ some options
      → task.correct_option ≡ some correct
      → lookup correct options ≡ some text
      → lookup new_correct shuffled ≡ some text
      → labels_of shuffled ≡ labels_of options
      → Shows task multiple_choice (some shuffled) (some new_correct)

-- If the shuffle permutes every list of options and no label of the task occurs twice, a new
-- presentation raises no error; it is code without options, or a multiple choice with the labels
-- of the task's options, of which the one marked correct has the text of the task's correct
-- option.
pub present-Shows :
    (shuffle : List (String × String) → List (String × String)) (below : Tier → Bool)
    (task : LearningTask) (preferred : Option TaskType)
    → ((options : List (String × String)) → Permᴰ options (shuffle options))
    → ((options : List (String × String))
        → task.options ≡ some options
        → NoRepeat (labels_of options))
    → (kind : TaskType) × (description : String) × (options : Option (List (String × String)))
      × (correct : Option String) × (present shuffle below task preferred
          ≡ ok (kind, description, options, correct))
      × Shows task kind options correct
unfolding present
present-Shows shuffle below task preferred perm distinct =
    elim (choose_presentation_type-cases below task preferred) [
      | inl e ↦ (code, task.description, none, none, rw (e, present) refl, as_code)
      | inr (e, has) ↦
          let a = Answer-of task has in
          let (shuffled, new_correct, ran, right, same) =
            shuffled_options-answer shuffle a.options a.correct a.text (perm a.options)
              (distinct a.options a.has_options) a.found in
          (
            multiple_choice,
            prompt_of task,
            some shuffled,
            some new_correct,
            rw (e, a.has_options, a.has_correct, ran, present) refl,
            as_choice a.has_options a.has_correct a.found right same,
          )
    ]
