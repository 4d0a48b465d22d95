-- ===== src/Examples/Grading.antt =====
-- An answer is submitted, leased by a worker and graded.
use cat_game_backend.Base.{ℕ, ◌+◌, ◌≡◌, refl, true, false, none, some, List, [], ◌∷◌, arith}
use cat_game_backend.Core.Error.{ok}
use cat_game_backend.Store.Rows.{advance_state_version}
use cat_game_backend.Store.Table.{get}
use cat_game_backend.Rewards.{TaskType}
use cat_game_backend.Learning.{Tier, bronze, python, Concept, LearningTask, learning}
use cat_game_backend.Learning.Tiers.{up_to}
use cat_game_backend.Grading.{
  AttemptStatus, GradingDb, GradeResult, Verdict, TaskAttempt, task_attempt_row, AttemptLease,
}
use cat_game_backend.Grading.Leases.{claim_next_attempt, leased}
use cat_game_backend.Grading.Leases.Oldest.{Claims, claim_next_attempt-Claims}
use cat_game_backend.Grading.Persisting.{persist_result}
use cat_game_backend.Grading.Running.{nodes, Python, array, grade_claimed_attempt}
use cat_game_backend.Grading.Running.Worker.{Work, grade_claimed_attempt-Work}
use cat_game_backend.Grading.Steps.{Step, poll, store, run_steps}
use cat_game_backend.Grading.Steps.Evolution.{Evolves, run_steps-Evolves}
use cat_game_backend.Grading.Steps.Retirement.{persist_result_once}
use cat_game_backend.Grading.Steps.Exclusion.{run_steps_exclusion}
use cat_game_backend.Grading.Steps.Completions.{OncePerDay, run_steps-OncePerDay}
use cat_game_backend.Grading.Steps.Accounting.{Accounts, run_steps-Accounts}
use cat_game_backend.Store.Counting.{count}
use cat_game_backend.Grading.Checks.{TaskAttemptCreate, attempt_hash}
use cat_game_backend.Grading.Creation.{create_attempt}
use cat_game_backend.Grading.Creation.Requests.{create_attempt_again}
use cat_game_backend.Examples.{ada, bob, digest}

abbrev task : LearningTask
task = record {
  id = 5;
  public_id = 105;
  concept_id = 3;
  type = TaskType.code;
  difficulty = bronze;
  is_active = true;
  description = "2 + 3";
  test_cases = "[]";
  multiple_choice_prompt = none;
  options = none;
  correct_option = none;
  reward_coins = 20;
}

abbrev tables : GradingDb
tables = record {
  users = ada ∷ bob ∷ [];
  attempts = [];
  completions = [];
  attendances = [];
  attendance_tasks = [];
  rooms = [];
  participants = [];
  room_tasks = [];
  concepts = record { id = 3; domain = python; name = "sums" } ∷ [];
  tasks = task ∷ [];
  tiers =
      record {
        id = 7;
        user_id = 1;
        domain = python;
        current_tier = bronze;
        silver_unlocked_at = none;
        gold_unlocked_at = none;
        updated_at = 0;
      }
      ∷ [];
  presentations = [];
  proficiencies = [];
  next_id = 30;
  generated = λ n. 1000 + n;
}

abbrev payload : ℕ → TaskAttemptCreate
payload request_id = record {
  request_id = request_id;
  task_public_id = 105;
  presentation_public_id = none;
  submitted_code = some "print(5)";
  selected_option = none;
  context_type = learning;
  used_hint = false;
  attendance_task_public_id = none;
  room_task_public_id = none;
}

abbrev by_name : List Concept → List Concept
by_name concepts = concepts

abbrev clock : Tier → ℕ
clock tier = 100

-- Nothing happens while the call waits.
abbrev quiet : GradingDb → GradingDb
quiet db = db

abbrev attempt : ℕ → ℕ → TaskAttempt
attempt id attempted_at = record {
  id = id;
  public_id = 1000 + id;
  request_id = id;
  request_hash = attempt_hash digest (payload id);
  user_id = 1;
  task_id = 5;
  presentation_id = none;
  attendance_task_id = none;
  room_task_id = none;
  context_type = learning;
  submitted_code = "print(5)";
  used_hint = false;
  status = AttemptStatus.pending;
  is_correct = none;
  attempted_at = attempted_at;
  result_detail = none;
  coins_awarded = 0;
  grading_started_at = none;
  grading_lease_token = none;
}

abbrev submitted : GradingDb
submitted = record tables {
  users = advance_state_version ada ∷ bob ∷ [];
  attempts = attempt 30 100 ∷ [];
  next_id = 31;
}

submits :
    create_attempt digest by_name clock 100 2 (payload 30) ada quiet tables
    ≡ ok (attempt 30 100, submitted)
unfolding create_attempt advance_state_version up_to
submits = refl

create_attempt_again_example :
    create_attempt digest by_name clock 100 2 (payload 30) ada quiet submitted
    ≡ ok (attempt 30 100, submitted)
create_attempt_again_example =
    create_attempt_again digest by_name clock 100 2 (payload 30) ada quiet quiet tables submitted
      (attempt 30 100) submits

-- Two attempts wait for a worker, of which the second is the older one.
abbrev waiting : GradingDb
waiting = record tables { attempts = attempt 30 100 ∷ attempt 31 90 ∷ []; next_id = 32 }

claim_next_attempt-Claims_example :
    Claims 60 200 77 [] waiting (claim_next_attempt 60 200 77 [] waiting)
claim_next_attempt-Claims_example = claim_next_attempt-Claims 60 200 77 [] waiting

abbrev oldest_lease : AttemptLease
oldest_lease = record { public_id = 1031; token = 77 }

abbrev grading : GradingDb
grading = record waiting { attempts = attempt 30 100 ∷ leased 200 77 (attempt 31 90) ∷ [] }

oldest_first : claim_next_attempt 60 200 77 [] waiting ≡ (some oldest_lease, grading)
unfolding claim_next_attempt
oldest_first = refl

abbrev right : GradeResult
right = record { verdict = Verdict.accepted; passed = 3; total = 3 }

abbrev day : ℕ → ℕ
day moment = 2

abbrev graded_db : GradingDb
graded_db = run_steps 60 day by_name clock 210 none (store oldest_lease (some 5) right ∷ []) grading

-- The result is stored, the player is paid, and the level of the concept stays at 0, since the
-- query for the level does not see the attempt that is being graded.
persists :
    persist_result day by_name clock 210 none oldest_lease (some 5) right grading
    ≡ ok (true, graded_db)
unfolding persist_result run_steps
persists = refl

level_after_first :
    graded_db.proficiencies
    ≡ record { id = 32; user_id = 1; concept_id = 3; proficiency_level = 0 } ∷ []
unfolding run_steps
level_after_first = refl

-- A sandbox that accepts every program.
abbrev python_env : Python
python_env = record {
  loads = λ text. array (some (("input", some "") ∷ ("expected_output", some "5") ∷ []) ∷ []);
  parse = λ text. nodes [];
  run_python = λ text cases. some right;
  run_sql = λ text cases. none;
}

grade_claimed_attempt-Work_example :
    Work python_env day by_name clock 210 none oldest_lease quiet grading
      (grade_claimed_attempt python_env day by_name clock 210 none oldest_lease quiet grading)
grade_claimed_attempt-Work_example =
    grade_claimed_attempt-Work python_env day by_name clock 210 none oldest_lease quiet grading

works :
    grade_claimed_attempt python_env day by_name clock 210 none oldest_lease quiet grading
    ≡ (true, graded_db)
unfolding grade_claimed_attempt run_steps
works = refl

-- Another worker takes the other attempt, and its sandbox fails.
abbrev others : List Step
others =
    poll 220 78 []
    ∷ store (record { public_id = 1030; token = 78 }) (some 5)
        (record { verdict = Verdict.system_error; passed = 0; total = 0 })
    ∷ []

persist_result_once_example :
    let later = run_steps 60 day by_name clock 210 none others graded_db in
    persist_result day by_name clock 210 none oldest_lease (some 5) right later ≡ ok (false, later)
unfolding get count
persist_result_once_example =
    persist_result_once 60 day by_name clock 210 none oldest_lease others (some 5) (some 5) right
      right grading graded_db (refl, (refl, tt)) (ground arith) persists (refl, (refl, tt))

run_steps-Evolves_example :
    (b : TaskAttempt) × (get 30 (run_steps 60 day by_name clock 210 none others grading).attempts
      ≡ some b)
    × Evolves (attempt 30 100) b
unfolding get
run_steps-Evolves_example =
    run_steps-Evolves 60 day by_name clock 210 none others grading 30 (attempt 30 100)
      (refl, (refl, tt)) refl

run_steps_exclusion_example :
    get 31 (run_steps 60 day by_name clock 210 none others grading).attempts
    ≡ some (leased 200 77 (attempt 31 90))
unfolding get
run_steps_exclusion_example =
    run_steps_exclusion 60 200 77 day by_name clock 210 none others grading
      (leased 200 77 (attempt 31 90)) (refl, (refl, tt)) refl
      (record { status = refl; started = refl; holder = refl }) (refl, (refl, tt))
      (refl, (refl, tt))

abbrev answers : List Step
answers = store oldest_lease (some 5) right ∷ others

run_steps-OncePerDay_example :
    OncePerDay (run_steps 60 day by_name clock 210 none answers grading).completions
unfolding count
run_steps-OncePerDay_example =
    run_steps-OncePerDay 60 day by_name clock 210 none answers grading
      (λ user_id task_id day. ground arith)

run_steps-Accounts_example :
    Accounts 1 ada grading (run_steps 60 day by_name clock 210 none answers grading)
unfolding get
run_steps-Accounts_example =
    run_steps-Accounts 60 day by_name clock 210 none answers grading 1 ada refl
