-- ===== src/Learning/Proficiency.antt =====
-- The measures of app/modules/learning/proficiency.py: what a learner has mastered, and the row
-- of a concept.
pub mod Level
use cat_game_backend.Base.{
  ℕ, ◌+◌, ◌-◌, ◌*◌, ◌/◌, ◌%◌, Bool, true, false, not, ◌&&◌, ◌||◌, Option, none, some, List, [], ◌∷◌,
  any, map, length, ltb, leb, ◌==◌, if◌then◌else◌,
}
use cat_game_backend.Store.Table.{find, get, put, insert_row, where_rows}
use cat_game_backend.Store.Counting.{count}
use cat_game_backend.Learning.{
  Tier, same_tier, LearningTask, learning_task_row, LearningAttempt, UserProficiency,
  proficiency_row, LearningDb,
}
use cat_game_backend.Learning.Tiers.{since}

-- Python's `round` of the quotient of two numbers: a half goes to the even neighbour.
unfoldable pub round_quotient : ℕ → ℕ → ℕ
round_quotient a b =
    let q = a / b in
    let r = a % b in if ltb (2 * r) b then q else (if ltb b (2 * r) then q + 1 else q + q % 2)

-- `sum(results)`
unfoldable pub sum_right : List Bool → ℕ
sum_right [] = 0
sum_right (b ∷ results) = (if b then 1 else 0) + sum_right results

unfoldable pub calculate_proficiency : List Bool → ℕ
unfolding round_quotient sum_right
calculate_proficiency [] = 0
calculate_proficiency (b ∷ results) =
    round_quotient (100 * sum_right (b ∷ results)) (length (b ∷ results))

pub record ConceptAssessment : Type 0 where
  pub concept_id : ℕ
  pub attempts : ℕ
  pub proficiency_level : ℕ

abbrev pub recent_attempt_limit : ℕ
recent_attempt_limit = 10

abbrev pub is_weak : ConceptAssessment → Bool
is_weak a = leb 3 a.attempts && leb a.proficiency_level 50

pub record ConceptMastery : Type 0 where
  pub concept_id : ℕ
  pub attempts : ℕ
  pub completed : ℕ
  pub total : ℕ

unfoldable pub mastery_level : ConceptMastery → ℕ
unfolding round_quotient
mastery_level m = if m.total == 0 then 0 else round_quotient (100 * m.completed) m.total

-- `order_by(attempted_at.desc(), id.desc())`
abbrev pub is_earlier : LearningAttempt → LearningAttempt → Bool
is_earlier a b =
    ltb a.attempted_at b.attempted_at || (a.attempted_at == b.attempted_at && ltb a.id b.id)

unfoldable pub place : LearningAttempt → List LearningAttempt → List LearningAttempt
place a [] = a ∷ []
place a (b ∷ rest) =
    let placed = place a rest in if is_earlier a b then b ∷ placed else a ∷ b ∷ rest

unfoldable pub latest_first : List LearningAttempt → List LearningAttempt
unfolding place
latest_first [] = []
latest_first (a ∷ attempts) = place a (latest_first attempts)

unfoldable pub take : {A : Type 0} → ℕ → List A → List A
take n [] = []
take n (a ∷ rows) = let rest = take (n - 1) rows in if n == 0 then [] else a ∷ rest

-- Whether the attempt is of a task that the condition selects.
abbrev pub is_at : (LearningTask → Bool) → List LearningTask → LearningAttempt → Bool
is_at selects tasks a = any (λ t. t.id == a.task_id && selects t) tasks

abbrev pub is_done : ℕ → Option ℕ → LearningAttempt → Bool
is_done user_id reset a = a.user_id == user_id && a.completed && since reset a.attempted_at

unfoldable pub assess_concept : LearningDb → ℕ → ℕ → Option ℕ → ConceptAssessment
unfolding where_rows latest_first take calculate_proficiency
assess_concept db user_id concept_id reset =
    let done =
      where_rows
        (λ a. is_done user_id reset a && is_at (λ t. t.concept_id == concept_id) db.tasks a)
        db.attempts in
    let recent = take recent_attempt_limit (latest_first done) in
    record {
      concept_id = concept_id;
      attempts = length recent;
      proficiency_level = calculate_proficiency (map (λ a. a.is_correct) recent);
    }

-- The tasks in the scope of a measurement.
abbrev pub in_scope : ℕ → List Tier → LearningTask → Bool
in_scope concept_id allowed t =
    t.concept_id == concept_id && t.is_active && any (λ d. same_tier d t.difficulty) allowed

unfoldable pub assess_concept_mastery : LearningDb → ℕ → ℕ → List Tier → Option ℕ → ConceptMastery
unfolding count
assess_concept_mastery db user_id concept_id allowed reset = record {
  concept_id = concept_id;
  attempts =
      count (λ a. is_done user_id reset a && is_at (in_scope concept_id allowed) db.tasks a)
        db.attempts;
  completed =
      count
        (λ t.
          in_scope concept_id allowed t
          && any (λ a. is_done user_id reset a && a.task_id == t.id && a.is_correct) db.attempts)
        db.tasks;
  total = count (in_scope concept_id allowed) db.tasks;
}

abbrev pub is_proficiency_of : ℕ → ℕ → UserProficiency → Bool
is_proficiency_of user_id concept_id p = p.user_id == user_id && p.concept_id == concept_id

unfoldable pub update_proficiency : LearningDb → ℕ → ℕ → Option ℕ → UserProficiency × LearningDb
unfolding assess_concept find put
update_proficiency db user_id concept_id reset =
    let assessment = assess_concept db user_id concept_id reset in
    elim (find (is_proficiency_of user_id concept_id) db.proficiencies) [
      | some row ↦
          let changed = record row { proficiency_level = assessment.proficiency_level } in
          (changed, record db { proficiencies = put changed db.proficiencies })
      | none ↦
          let row : UserProficiency = record {
            id = db.next_id;
            user_id = user_id;
            concept_id = concept_id;
            proficiency_level = assessment.proficiency_level;
          } in
          (
            row,
            record db { proficiencies = insert_row row db.proficiencies; next_id = db.next_id + 1 },
          )
    ]

-- `select(Task.concept_id).join(TaskAttempt)` with `distinct()`, in the order of the concepts.
unfoldable pub insert_id : ℕ → List ℕ → List ℕ
insert_id i [] = i ∷ []
insert_id i (j ∷ ids) =
    let rest = insert_id i ids in
    if i == j then j ∷ ids else (if ltb i j then i ∷ j ∷ ids else j ∷ rest)

unfoldable pub concept_ids : List LearningTask → List LearningAttempt → List ℕ
unfolding get insert_id
concept_ids tasks [] = []
concept_ids tasks (a ∷ attempts) =
    let rest = concept_ids tasks attempts in
    elim (get a.task_id tasks) [ none ↦ rest | some t ↦ insert_id t.concept_id rest ]

unfoldable pub concept_assessments : LearningDb → ℕ → Option ℕ → List ConceptAssessment
unfolding concept_ids where_rows
concept_assessments db user_id reset =
    map (λ c. assess_concept db user_id c reset)
      (concept_ids db.tasks (where_rows (is_done user_id reset) db.attempts))

unfoldable pub weak_concepts : LearningDb → ℕ → Option ℕ → List ConceptAssessment
unfolding where_rows concept_assessments
weak_concepts db user_id reset = where_rows is_weak (concept_assessments db user_id reset)
