-- ===== src/Learning/Proficiency/Level.antt =====
-- A level is a percentage.
use cat_game_backend.Base.{
  ℕ, ◌+◌, ◌*◌, ◌/◌, ◌%◌, ◌≤◌, ◌<◌, ◌≡◌, Bool, true, false, ◌&&◌, Option, List, [], ◌∷◌, inl, inr,
  arith, any, map, length, All, All-append, Option-cases, Bool-cases, ◌==◌, ltb, ltb→lt,
}
use native.Mathlib.Nat.{div-add-mod, div-lt_iff_lt-mul, div-eq_of_eq-mul_left}
use cat_game_backend.Store.Table.{find, where_rows, All-put}
use cat_game_backend.Store.Counting.{count}
use cat_game_backend.Learning.{Tier, UserProficiency, proficiency_row, LearningDb}
use cat_game_backend.Learning.Proficiency.{
  round_quotient, sum_right, calculate_proficiency, mastery_level, assess_concept,
  assess_concept_mastery, update_proficiency, is_proficiency_of, in_scope, is_done, is_at, take,
  latest_first, recent_attempt_limit,
}

round_quotient-percent : (a b : ℕ) → 0 < b → a ≤ 100 * b → round_quotient a b ≤ 100
unfolding round_quotient
round_quotient-percent a b some_left bound =
    let parts = div-add-mod a b in
    elim (Bool-cases (ltb a (100 * b))) [
      | inl below ↦
          let less : a < 100 * b = ltb→lt a (100 * b) below in
          let small : a / b < 100 = (div-lt_iff_lt-mul some_left).1 less in ground arith
      | inr full ↦
          let all_of_it : a ≡ 100 * b = ground arith in
          let hundred : a / b ≡ 100 = div-eq_of_eq-mul_left some_left all_of_it in
          let none_left : a % b ≡ 0 = whole a b (a / b) (a % b) parts hundred all_of_it in
          rw (hundred, none_left) (ground arith)
    ]
  where
    whole : (a b q r : ℕ) → b * q + r ≡ a → q ≡ 100 → a ≡ 100 * b → r ≡ 0
    whole a b q r parts e f = let e' : b * 100 + r ≡ a = rw e at parts in omega arith

sum_right_bounded : (results : List Bool) → sum_right results ≤ length results
unfolding sum_right
sum_right_bounded [] = omega arith
sum_right_bounded (true ∷ results) = omega (arith, sum_right_bounded results)
sum_right_bounded (false ∷ results) = omega (arith, sum_right_bounded results)

calculate_proficiency-percent : (results : List Bool) → calculate_proficiency results ≤ 100
unfolding calculate_proficiency
calculate_proficiency-percent [] = omega arith
calculate_proficiency-percent (b ∷ results) =
    let right = sum_right_bounded (b ∷ results) in
    round_quotient-percent (100 * sum_right (b ∷ results)) (length (b ∷ results)) (omega arith)
      (omega arith)

abbrev pub IsPercent : UserProficiency → Type 0
IsPercent p = p.proficiency_level ≤ 100

count_both : {A : Type 0} (p q : A → Bool) (t : List A) → count (λ x. p x && q x) t ≤ count p t
unfolding count
count_both p q [] = omega arith
count_both p q (x ∷ t) = ground (arith, count_both p q t)

assess_concept-percent :
    (db : LearningDb) (user_id concept_id : ℕ) (reset : Option ℕ)
    → (assess_concept db user_id concept_id reset).proficiency_level ≤ 100
unfolding assess_concept
assess_concept-percent db user_id concept_id reset =
    let done =
      where_rows
        (λ a. is_done user_id reset a && is_at (λ t. t.concept_id == concept_id) db.tasks a)
        db.attempts in
    calculate_proficiency-percent
      (map (λ a. a.is_correct) (take recent_attempt_limit (latest_first done)))

mastery_level-percent :
    (db : LearningDb) (user_id concept_id : ℕ) (allowed : List Tier) (reset : Option ℕ)
    → mastery_level (assess_concept_mastery db user_id concept_id allowed reset) ≤ 100
unfolding mastery_level assess_concept_mastery
mastery_level-percent db user_id concept_id allowed reset =
    let m = assess_concept_mastery db user_id concept_id allowed reset in
    let part =
      count_both (in_scope concept_id allowed)
        (λ t. any (λ a. is_done user_id reset a && a.task_id == t.id && a.is_correct) db.attempts)
        db.tasks in
    elim (Bool-cases (m.total == 0)) [
      | inl empty ↦ rw empty (omega arith)
      | inr some_tasks ↦
          rw some_tasks (
            round_quotient-percent (100 * m.completed) m.total (ground arith) (omega (arith, part)))
    ]

-- If every stored proficiency is at most 100, updating that of a concept leaves every one at most
-- 100, and so is the mastery of the concept over any difficulties.
pub update_proficiency-IsPercent :
    (db : LearningDb) (user_id concept_id : ℕ) (allowed : List Tier) (reset : Option ℕ)
    → All IsPercent db.proficiencies
    → All IsPercent (update_proficiency db user_id concept_id reset).1.proficiencies
      × (mastery_level (assess_concept_mastery db user_id concept_id allowed reset) ≤ 100)
unfolding update_proficiency
update_proficiency-IsPercent db user_id concept_id allowed reset h = (
  elim (Option-cases (find (is_proficiency_of user_id concept_id) db.proficiencies)) [
    | inl e ↦
        rw (e, update_proficiency)
          (All-append IsPercent db.proficiencies _ h
            (assess_concept-percent db user_id concept_id reset, tt))
    | inr (row, e) ↦
        rw (e, update_proficiency)
          (All-put IsPercent _ db.proficiencies (assess_concept-percent db user_id concept_id reset)
            h)
  ],
  mastery_level-percent db user_id concept_id allowed reset,
)
