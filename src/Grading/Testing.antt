-- ===== src/Grading/Testing.antt =====
-- `run_code_test` of app/modules/grading/service.py: a run of a code task that leaves no trace.
use cat_game_backend.Base.{
  ℕ, String, Bool, true, false, not, ◌&&◌, ◌||◌, Option, none, some, List, [], ◌∷◌, any, is_none,
  ◌==◌,
}
use cat_game_backend.Core.Error.{Result, ok, submission_error}
use cat_game_backend.Core.Outcome.{◌>>=◌, ◌>>◌, raise_if, or_raise}
use cat_game_backend.Store.Rows.{User}
use cat_game_backend.Store.Table.{find, get}
use cat_game_backend.Rewards.{TaskType, code, multiple_choice}
use cat_game_backend.Learning.{
  Tier, bronze, same_tier, learning, same_context, concept_row, LearningTask, UserLearningTier,
}
use cat_game_backend.Learning.Tiers.{unlocked_difficulties, is_tier_of}
use cat_game_backend.Grading.{GradeResult, GradingDb}
use cat_game_backend.Grading.Checks.{has_options}
use cat_game_backend.Grading.Running.{Python, TestCase, parse_test_cases, run_code_safely}

pub record CodeTestCreate : Type 0 where
  pub task_public_id : ℕ
  pub presentation_public_id : Option ℕ
  pub submitted_code : String

abbrev pub is_code_task : TaskType → Bool
is_code_task code = true
is_code_task multiple_choice = false

abbrev pub tier_of : Option UserLearningTier → Tier
tier_of none = bronze
tier_of (some row) = row.current_tier

-- The presentation that the payload names is the player's own, of the code of this task.
unfoldable pub check_presentation : Option ℕ → User → LearningTask → GradingDb → Result (Unit {0})
unfolding find
check_presentation none user task db = ok tt
check_presentation (some public_id) user task db = do
  p ← or_raise (find (λ p. p.public_id == public_id) db.presentations) submission_error
  raise_if
      (not (p.user_id == user.id)
        || not (p.task_id == task.id)
        || not (same_context p.context_type learning)
        || not (is_code_task p.presentation_type))
      submission_error

-- `parse_test_cases(task.test_cases)[0]`, or None
abbrev pub sample_case : Option (List TestCase) → Option TestCase
sample_case none = none
sample_case (some []) = none
sample_case (some (c ∷ cases)) = some c

unfoldable pub run_code_test :
    Python → GradingDb → CodeTestCreate → User → Result (GradeResult × Option TestCase)
unfolding find get check_presentation run_code_safely parse_test_cases
run_code_test p db payload user = do
  task ← or_raise (find (λ t. t.public_id == payload.task_public_id) db.tasks) submission_error
  raise_if (not task.is_active || not (is_code_task task.type)) submission_error
  concept ← or_raise (get task.concept_id db.concepts) submission_error
  let current_tier = tier_of (find (is_tier_of user.id concept.domain) db.tiers)
  raise_if (not (any (same_tier task.difficulty) (unlocked_difficulties current_tier)))
      submission_error
  raise_if (has_options task.options && is_none payload.presentation_public_id) submission_error
  check_presentation payload.presentation_public_id user task db
      >> ok (
        run_code_safely p task concept.domain payload.submitted_code concept.name,
        sample_case (parse_test_cases (p.loads task.test_cases)),
      )
