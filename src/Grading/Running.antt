-- ===== src/Grading/Running.antt =====
-- How an attempt is graded: app/modules/grading/runners.py, app/modules/grading/test_cases.py and
-- `grade_claimed_attempt` of app/modules/grading/service.py. The sandboxes, `json.loads` and
-- `ast.parse` are parameters that return their exceptions too.
pub mod Worker
use cat_game_backend.Base.{
  ℕ, zero, suc, String, Bool, true, false, not, ◌&&◌, ◌||◌, Option, none, some, List, [], ◌∷◌, any,
  all, str_eq, if◌then◌else◌, ℤ, is_none, ◌==◌,
}
use cat_game_backend.Core.Error.{Result, ok, err}
use cat_game_backend.Store.Table.{find, get}
use cat_game_backend.Rewards.{TaskType, code, multiple_choice}
use cat_game_backend.Learning.{
  Tier, Domain, python, sql, Concept, concept_row, LearningTask, learning_task_row,
  TaskPresentation, presentation_row,
}
use cat_game_backend.Grading.{
  Verdict, GradeResult, TaskAttempt, AttemptLease, GradingDb, task_attempt_row,
}
use cat_game_backend.Grading.Leases.{claim_attempt}
use cat_game_backend.Grading.Persisting.{is_leased, fetch, persist_result}

pub record TestCase : Type 0 where
  pub input : String
  pub expected_output : String

-- What `json.loads` makes of a text, as far as `parse_test_cases` looks: an entry of the array is a
-- mapping with its fields, or none; a field's value is a text, or none.
pub data Loaded : Type 0 where
  not_json other_json : Loaded
  array : List (Option (List (String × Option String))) → Loaded

abbrev pub value_of : String → List (String × Option String) → Option (Option String)
value_of key [] = none
value_of key (f ∷ fields) = if str_eq f.0 key then some f.1 else value_of key fields

-- `set(item) != {"input", "expected_output"}`
abbrev pub is_known : String × Option String → Bool
is_known f = str_eq f.0 "input" || str_eq f.0 "expected_output"

abbrev pub case_of : Option (Option String) → Option (Option String) → Option TestCase
case_of (some (some i)) (some (some e)) = some (record { input = i; expected_output = e })
case_of _ _ = none

abbrev pub parse_case : Option (List (String × Option String)) → Option TestCase
parse_case none = none
parse_case (some fields) =
    if all is_known fields
    then case_of (value_of "input" fields) (value_of "expected_output" fields)
    else none

abbrev pub cons_case : Option TestCase → Option (List TestCase) → Option (List TestCase)
cons_case (some c) (some cases) = some (c ∷ cases)
cons_case _ _ = none

-- None where a TestCaseSpecError is raised.
unfoldable pub parse_cases : List (Option (List (String × Option String))) → Option (List TestCase)
parse_cases [] = some []
parse_cases (i ∷ items) = cons_case (parse_case i) (parse_cases items)

unfoldable pub parse_test_cases : Loaded → Option (List TestCase)
unfolding parse_cases
parse_test_cases not_json = none
parse_test_cases other_json = none
parse_test_cases (array []) = none
parse_test_cases (array (i ∷ items)) = parse_cases (i ∷ items)

-- A node of `ast.walk`: the number of handlers of a `try`; the name of a function, the number of
-- its arguments and whether a `return` stands in it; the name that is called, if it is a name.
pub data Node : Type 0 where
  try_node : ℕ → Node
  function_def : String → ℕ → Bool → Node
  call : Option String → Node
  other_node : Node

abbrev pub handles : Node → Bool
handles (try_node handlers) = not (handlers == 0)
handles _ = false

abbrev pub defines : String → Node → Bool
defines name (function_def f arguments returns) = str_eq f name && not (arguments == 0) && returns
defines name _ = false

-- `{node.name for node in ast.walk(tree) if ...}` and the test that follows.
abbrev pub calls_own : List Node → Node → Bool
calls_own nodes (call (some name)) = any (defines name) nodes
calls_own nodes _ = false

-- What `ast.parse` does: it returns the nodes of `ast.walk`, or raises a SyntaxError, or another
-- exception, such as a RecursionError.
pub data Parsed : Type 0 where
  nodes : List Node → Parsed
  syntax_error parse_failure : Parsed

-- What `_meets_python_concept_structure` returns: True, False and None; or its exception.
pub data Structure : Type 0 where
  met unmet unparsed failed : Structure

abbrev pub met_if : Bool → Structure
met_if true = met
met_if false = unmet

pub record Python : Type 0 where
  pub loads : String → Loaded
  pub parse : String → Parsed
  pub run_python : String → List TestCase → Option GradeResult
  pub run_sql : String → List TestCase → Option GradeResult

abbrev pub system_failure : GradeResult
system_failure = record { verdict = Verdict.system_error; passed = 0; total = 0 }

abbrev pub choice_result : Bool → GradeResult
choice_result true = record { verdict = Verdict.accepted; passed = 1; total = 1 }
choice_result false = record { verdict = Verdict.wrong_answer; passed = 0; total = 1 }

abbrev pub is_answer : String → Option String → Bool
is_answer submission none = false
is_answer submission (some correct) = str_eq submission correct

module _ (p : Python) where
  -- `_meets_python_concept_structure`
  unfoldable pub meets_structure : String → String → Structure
  meets_structure submission concept_name =
      if not (str_eq concept_name "functions" || str_eq concept_name "exceptions")
      then met
      else elim (p.parse submission) [
        | syntax_error ↦ unparsed
        | parse_failure ↦ failed
        | nodes tree ↦ met_if (
            if str_eq concept_name "exceptions"
            then any handles tree
            else any (calls_own tree) tree)
      ]

  abbrev pub run_cases :
      (String → List TestCase → Option GradeResult)
      → String
      → Option (List TestCase)
      → Option GradeResult
  run_cases run submission none = none
  run_cases run submission (some cases) = run submission cases

  -- `RunnerDispatcher.for_task` and the runner's `grade`.
  unfoldable pub grade : LearningTask → Domain → String → Option GradeResult
  unfolding parse_test_cases
  grade task domain submission = elim task.type [
    | multiple_choice ↦ some (choice_result (is_answer submission task.correct_option))
    | code ↦ elim domain [
      | python ↦ run_cases p.run_python submission (parse_test_cases (p.loads task.test_cases))
      | sql ↦ run_cases p.run_sql submission (parse_test_cases (p.loads task.test_cases))
    ]
  ]

  abbrev pub or_failure : Option GradeResult → GradeResult
  or_failure none = system_failure
  or_failure (some r) = r

  -- The structure counts for a Python program only.
  abbrev pub structure_of : LearningTask → Domain → Structure → Structure
  structure_of task domain structure = elim domain [
    | sql ↦ met
    | python ↦ elim task.type [ multiple_choice ↦ met | code ↦ structure ]
  ]

  unfoldable pub run_code_safely : LearningTask → Domain → String → String → GradeResult
  unfolding grade meets_structure
  run_code_safely task domain submission concept_name =
      elim (structure_of task domain (meets_structure submission concept_name)) [
        | unmet ↦ record { verdict = Verdict.wrong_answer; passed = 0; total = 0 }
        | failed ↦ system_failure
        | met ↦ or_failure (grade task domain submission)
        | unparsed ↦ or_failure (grade task domain submission)
      ]

  abbrev pub is_choice : TaskPresentation → Bool
  is_choice presentation = elim presentation.presentation_type [
    | code ↦ false
    | multiple_choice ↦ true
  ]

  unfoldable pub run_safely :
      LearningTask → Concept → TaskAttempt → Option TaskPresentation → GradeResult
  unfolding run_code_safely
  run_safely task concept attempt none =
      run_code_safely task concept.domain attempt.submitted_code concept.name
  run_safely task concept attempt (some presentation) =
      if is_choice presentation
      then choice_result (is_answer attempt.submitted_code presentation.correct_option)
      else run_code_safely task concept.domain attempt.submitted_code concept.name

  -- The task that was found, and the result.
  unfoldable pub attempt_result : TaskAttempt → GradingDb → Option ℕ × GradeResult
  unfolding get run_safely
  attempt_result attempt db = elim (get attempt.task_id db.tasks) [
    | none ↦ (none, system_failure)
    | some task ↦ elim (get task.concept_id db.concepts) [
      | none ↦ (some task.id, system_failure)
      | some concept ↦ (
        some task.id,
        run_safely task concept attempt (fetch attempt.presentation_id db.presentations),
      )
    ]
  ]

-- An exception rolls back, and the attempt keeps its lease.
abbrev pub or_deferred : Result (Bool × GradingDb) → GradingDb → Bool × GradingDb
or_deferred (ok r) db = r
or_deferred (err e) db = (false, db)

-- `meanwhile` is what other transactions commit while the sandbox runs.
module _ (p : Python) (game_date : ℕ → ℕ) (by_name : List Concept → List Concept) (clock : Tier → ℕ)
    (now : ℕ) (correct_score : Option ℤ) where
  unfoldable pub grade_claimed_attempt :
      AttemptLease → (GradingDb → GradingDb) → GradingDb → Bool × GradingDb
  unfolding find attempt_result persist_result
  grade_claimed_attempt lease meanwhile db = elim (find (is_leased lease) db.attempts) [
    | none ↦ (false, db)
    | some attempt ↦
        let graded = attempt_result p attempt db in
        or_deferred
          (persist_result game_date by_name clock now correct_score lease graded.0 graded.1
            (meanwhile db))
          (meanwhile db)
  ]

  -- The synchronous grading of one attempt.
  unfoldable pub grade_attempt : ℕ → ℕ → ℕ → ℕ → (GradingDb → GradingDb) → GradingDb → GradingDb
  unfolding claim_attempt grade_claimed_attempt
  grade_attempt lease_seconds claimed_at token public_id meanwhile db =
      let claimed = claim_attempt lease_seconds claimed_at token public_id db in
      elim (claimed.0) [
        | none ↦ claimed.1
        | some lease ↦ (grade_claimed_attempt lease meanwhile claimed.1).1
      ]
