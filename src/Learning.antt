-- ===== src/Learning.antt =====
-- The tables of the learning: app/modules/learning.
pub mod Presentation
pub mod Tiers
pub mod Proficiency
pub mod Reset
use cat_game_backend.Base.{ℕ, String, Bool, true, false, Option, List}
use cat_game_backend.Store.Rows.{Row}
use cat_game_backend.Rewards.{TaskType}

pub data Tier : Type 0 where
  bronze silver gold : Tier

pub data Domain : Type 0 where
  python sql : Domain

abbrev pub same_tier : Tier → Tier → Bool
same_tier bronze bronze = true
same_tier silver silver = true
same_tier gold gold = true
same_tier _ _ = false

abbrev pub same_domain : Domain → Domain → Bool
same_domain python python = true
same_domain sql sql = true
same_domain _ _ = false

-- `context_type` of a presentation and of an attempt.
pub data ContextType : Type 0 where
  learning daily battle : ContextType

abbrev pub same_context : ContextType → ContextType → Bool
same_context learning learning = true
same_context daily daily = true
same_context battle battle = true
same_context _ _ = false

pub record Concept : Type 0 where
  pub id : ℕ
  pub domain : Domain
  pub name : String

-- The columns of `Task`, `TaskAttempt` and `User` that the learning reads.
pub record LearningTask : Type 0 where
  pub id : ℕ
  pub concept_id : ℕ
  pub type : TaskType
  pub difficulty : Tier
  pub is_active : Bool
  pub public_id : ℕ
  pub description : String
  pub test_cases : String
  pub multiple_choice_prompt : Option String
  pub options : Option (List (String × String))
  pub correct_option : Option String
  pub reward_coins : ℕ

pub record LearningAttempt : Type 0 where
  pub id : ℕ
  pub user_id : ℕ
  pub task_id : ℕ
  pub completed : Bool
  pub is_correct : Bool
  pub attempted_at : ℕ

pub record Learner : Type 0 where
  pub id : ℕ
  pub learning_reset_at : Option ℕ

pub record UserLearningTier : Type 0 where
  pub id : ℕ
  pub user_id : ℕ
  pub domain : Domain
  pub current_tier : Tier
  pub silver_unlocked_at : Option ℕ
  pub gold_unlocked_at : Option ℕ
  pub updated_at : ℕ

instance abbrev pub concept_row : Row Concept
concept_row = record { id_of = λ r. r.id }

instance abbrev pub tier_row : Row UserLearningTier
tier_row = record { id_of = λ r. r.id }

pub record UserProficiency : Type 0 where
  pub id : ℕ
  pub user_id : ℕ
  pub concept_id : ℕ
  pub proficiency_level : ℕ

instance abbrev pub proficiency_row : Row UserProficiency
proficiency_row = record { id_of = λ r. r.id }

instance abbrev pub learning_task_row : Row LearningTask
learning_task_row = record { id_of = λ r. r.id }

-- `is_active` is `status == "ACTIVE"`.
pub record TaskPresentation : Type 0 where
  pub id : ℕ
  pub public_id : ℕ
  pub user_id : ℕ
  pub task_id : ℕ
  pub context_type : ContextType
  pub presentation_type : TaskType
  pub description : String
  pub options : Option (List (String × String))
  pub correct_option : Option String
  pub is_active : Bool

instance abbrev pub presentation_row : Row TaskPresentation
presentation_row = record { id_of = λ r. r.id }

pub record LearningDb : Type 0 where
  pub concepts : List Concept
  pub tasks : List LearningTask
  pub attempts : List LearningAttempt
  pub tiers : List UserLearningTier
  pub presentations : List TaskPresentation
  pub proficiencies : List UserProficiency
  pub next_id : ℕ
  pub generated : ℕ → ℕ
