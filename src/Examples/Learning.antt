-- ===== src/Examples/Learning.antt =====
-- A task with two answers, and a learner's first promotion.
use cat_game_backend.Base.{
  All, ◌≤◌, arith, ℕ, ◌≡◌, refl, true, false, none, some, String, Option, List, [], ◌∷◌,
}
use cat_game_backend.Learning.Proficiency.{
  update_proficiency, mastery_level, assess_concept_mastery,
}
use cat_game_backend.Learning.Proficiency.Level.{IsPercent, update_proficiency-IsPercent}
use mathlib.Core.List.{Permᴰ}
use mathlib.Core.Option.{some-injective}
use mathlib.Core.Path.{subst}
use cat_game_backend.Core.Error.{ok}
use cat_game_backend.Rewards.{TaskType, multiple_choice}
use cat_game_backend.Learning.{Tier, bronze, python, Concept, LearningTask, Learner, LearningDb}
use cat_game_backend.Learning.Tiers.Promotion.{Advanced, get_or_advance_tier-Advanced}
use cat_game_backend.Learning.Presentation.{labels_of, lookup, shuffled_options, present}
use cat_game_backend.Learning.Presentation.Shuffle.{NoRepeat, shuffled_options-answer}
use cat_game_backend.Learning.Presentation.Content.{Shows, present-Shows}

-- A shuffle that changes the first two entries.
abbrev swapped : List (String × String) → List (String × String)
swapped (a ∷ b ∷ entries) = b ∷ a ∷ entries
swapped entries = entries

swapped-Permᴰ : (entries : List (String × String)) → Permᴰ entries (swapped entries)
swapped-Permᴰ [] = Permᴰ.nil
swapped-Permᴰ (a ∷ []) = Permᴰ.cons refl Permᴰ.nil
swapped-Permᴰ (a ∷ b ∷ entries) = Permᴰ.swap refl refl

abbrev options : List (String × String)
options = ("A", "4") ∷ ("B", "5") ∷ []

options-NoRepeat : NoRepeat (labels_of options)
options-NoRepeat = (refl, (refl, tt))

shuffled_options-answer_example :
    (shuffled : List (String × String)) × (new_correct : String) × (shuffled_options swapped options
        "B"
      ≡ ok (shuffled, new_correct))
    × (lookup new_correct shuffled ≡ some "5")
    × (labels_of shuffled ≡ labels_of options)
shuffled_options-answer_example =
    shuffled_options-answer swapped options "B" "5" (swapped-Permᴰ options) options-NoRepeat refl

abbrev task : LearningTask
task = record {
  id = 5;
  concept_id = 3;
  type = TaskType.code;
  difficulty = bronze;
  is_active = true;
  public_id = 105;
  description = "2 + 3";
  test_cases = "[]";
  multiple_choice_prompt = none;
  options = some options;
  correct_option = some "B";
  reward_coins = 20;
}

task_options : (o : List (String × String)) → task.options ≡ some o → NoRepeat (labels_of o)
task_options o e = subst (λ o. NoRepeat (labels_of o)) (some-injective options o e) options-NoRepeat

present-Shows_example :
    (kind : TaskType) × (description : String) × (o : Option (List (String × String)))
    × (correct : Option String) × (present swapped (λ t. false) task (some multiple_choice)
        ≡ ok (kind, description, o, correct))
    × Shows task kind o correct
present-Shows_example =
    present-Shows swapped (λ t. false) task (some multiple_choice) swapped-Permᴰ task_options

abbrev learning : LearningDb
learning = record {
  concepts = record { id = 3; domain = python; name = "sums" } ∷ [];
  tasks = task ∷ [];
  attempts = [];
  tiers = [];
  presentations = [];
  proficiencies = [];
  next_id = 20;
  generated = λ n. n;
}

abbrev learner : Learner
learner = record { id = 1; learning_reset_at = none }

abbrev same_order : List Concept → List Concept
same_order concepts = concepts

abbrev noon : Tier → ℕ
noon t = 12

get_or_advance_tier-Advanced_example : Advanced same_order noon 12 3 learner python learning
get_or_advance_tier-Advanced_example =
    get_or_advance_tier-Advanced same_order noon 12 0 learner python learning

-- One of two attempts was right.
abbrev practised : LearningDb
practised = record learning {
  attempts =
      record {
        id = 31;
        user_id = 1;
        task_id = 5;
        completed = true;
        is_correct = true;
        attempted_at = 7;
      }
      ∷ record {
        id = 32;
        user_id = 1;
        task_id = 5;
        completed = true;
        is_correct = false;
        attempted_at = 8;
      }
      ∷ [];
  proficiencies = record { id = 9; user_id = 1; concept_id = 3; proficiency_level = 0 } ∷ [];
}

update_proficiency-IsPercent_example :
    All IsPercent (update_proficiency practised 1 3 none).1.proficiencies
    × (mastery_level (assess_concept_mastery practised 1 3 (bronze ∷ []) none) ≤ 100)
update_proficiency-IsPercent_example =
    update_proficiency-IsPercent practised 1 3 (bronze ∷ []) none (omega arith, tt)

half_right : (update_proficiency practised 1 3 none).0.proficiency_level ≡ 50
unfolding update_proficiency
half_right = refl
