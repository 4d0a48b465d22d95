-- ===== src/Learning/Tiers.antt =====
-- app/modules/learning/tier.py. The order of the names, which is the database's, and the clock at
-- a promotion are parameters.
pub mod Promotion
use cat_game_backend.Base.{
  ℕ, zero, suc, ◌+◌, ◌*◌, ◌/◌, String, Bool, true, false, not, ◌&&◌, Option, none, some, List, [],
  ◌∷◌, any, all, map, length, leb, ◌==◌, if◌then◌else◌,
}
use mathlib.Core.Option
use cat_game_backend.Store.Rows.{Row}
use cat_game_backend.Store.Table.{find, put, insert_row, where_rows}
use cat_game_backend.Store.Counting.{count}
use cat_game_backend.Learning.{
  Tier, bronze, silver, gold, Domain, python, sql, same_tier, same_domain, Concept, LearningTask,
  LearningAttempt, Learner, UserLearningTier, tier_row, concept_row, TaskPresentation, LearningDb,
}

abbrev pub tier_order : List Tier
tier_order = bronze ∷ silver ∷ gold ∷ []

-- The solved tasks, the percentage of each concept, and the next tier.
pub record PromotionPolicy : Type 0 where
  pub required : ℕ
  pub concept_percent : ℕ
  pub next_tier : Tier

-- `PROMOTION_POLICY.get(difficulty)`
unfoldable pub promotion_policy : Tier → Option PromotionPolicy
promotion_policy bronze = some (record { required = 40; concept_percent = 50; next_tier = silver })
promotion_policy silver = some (record { required = 45; concept_percent = 60; next_tier = gold })
promotion_policy gold = none

-- `TIER_ORDER[: TIER_ORDER.index(tier) + 1]`
unfoldable pub up_to : Tier → List Tier → List Tier
up_to tier [] = []
up_to tier (t ∷ tiers) = if same_tier t tier then t ∷ [] else t ∷ up_to tier tiers

abbrev pub unlocked_difficulties : Tier → List Tier
unlocked_difficulties tier = up_to tier tier_order

pub record ConceptTierProgress : Type 0 where
  pub concept_id : ℕ
  pub name : String
  pub completed : ℕ
  pub total : ℕ
  pub required : ℕ

pub record TierProgress : Type 0 where
  pub difficulty : Tier
  pub completed : ℕ
  pub total : ℕ
  pub required : ℕ
  pub concept_required_percent : ℕ
  pub concepts : List ConceptTierProgress

abbrev pub concept_is_met : ConceptTierProgress → Bool
concept_is_met p = leb p.required p.completed

abbrev pub is_met : TierProgress → Bool
is_met p = leb p.required p.completed && all concept_is_met p.concepts

abbrev pub since : Option ℕ → ℕ → Bool
since none attempted_at = true
since (some reset_at) attempted_at = leb reset_at attempted_at

abbrev pub is_of : ℕ → Tier → LearningTask → Bool
is_of concept_id difficulty t =
    t.concept_id == concept_id && same_tier t.difficulty difficulty && t.is_active

-- The task has a correct attempt that counts: `count(distinct(task_id))` counts such tasks.
abbrev pub is_solved : Learner → List LearningAttempt → LearningTask → Bool
is_solved user attempts t =
    any
      (λ a.
        a.user_id == user.id
        && a.task_id == t.id
        && a.completed
        && a.is_correct
        && since user.learning_reset_at a.attempted_at)
      attempts

abbrev pub sum : List ℕ → ℕ
sum [] = 0
sum (n ∷ ns) = n + sum ns

abbrev pub required_of : Option PromotionPolicy → ℕ
required_of none = 0
required_of (some p) = p.required

abbrev pub percent_of : Option PromotionPolicy → ℕ
percent_of none = 0
percent_of (some p) = p.concept_percent

-- `ceil(total * concept_percent / 100)` is the quotient rounded up.
unfoldable pub concept_progress : LearningDb → Learner → Tier → ℕ → Concept → ConceptTierProgress
unfolding count
concept_progress db user difficulty percent c =
    let total = count (is_of c.id difficulty) db.tasks in
    record {
      concept_id = c.id;
      name = c.name;
      completed = count (λ t. is_of c.id difficulty t && is_solved user db.attempts t) db.tasks;
      total = total;
      required = (total * percent + 99) / 100;
    }

-- The row of a promotion.
abbrev pub promoted : ℕ → Tier → UserLearningTier → UserLearningTier
promoted now silver row = record row {
  silver_unlocked_at = some now;
  current_tier = silver;
  updated_at = now;
}
promoted now next_tier row = record row {
  gold_unlocked_at = some now;
  current_tier = next_tier;
  updated_at = now;
}

-- The loop of `get_or_advance_tier`, on fuel; `progress` is that of the tables, in which the loop
-- changes no row that it reads.
unfoldable pub advance :
    (Tier → TierProgress)
    → (Tier → ℕ)
    → ℕ
    → UserLearningTier
    → Option (UserLearningTier × TierProgress)
unfolding promotion_policy
advance progress clock zero row = none
advance progress clock (suc fuel) row = elim (promotion_policy row.current_tier) [
  | none ↦ some (row, progress row.current_tier)
  | some policy ↦
      let next =
        advance progress clock fuel (promoted (clock row.current_tier) policy.next_tier row) in
      if not (is_met (progress row.current_tier))
      then some (row, progress row.current_tier)
      else next
]

abbrev pub is_tier_of : ℕ → Domain → UserLearningTier → Bool
is_tier_of user_id domain r = r.user_id == user_id && same_domain r.domain domain

-- The row of the player and the tables with it.
unfoldable pub get_or_create_tier : ℕ → ℕ → Domain → LearningDb → UserLearningTier × LearningDb
unfolding find
get_or_create_tier now user_id domain db = elim (find (is_tier_of user_id domain) db.tiers) [
  | some row ↦ (row, db)
  | none ↦
      let row : UserLearningTier = record {
        id = db.next_id;
        user_id = user_id;
        domain = domain;
        current_tier = bronze;
        silver_unlocked_at = none;
        gold_unlocked_at = none;
        updated_at = now;
      } in
      (row, record db { tiers = insert_row row db.tiers; next_id = db.next_id + 1 })
]

module _ (by_name : List Concept → List Concept) where
  -- The concepts of the domain that have a task of the difficulty.
  unfoldable pub concepts_of : LearningDb → Domain → Tier → List Concept
  concepts_of db domain difficulty = by_name (
      where_rows (λ c. same_domain c.domain domain && any (is_of c.id difficulty) db.tasks)
        db.concepts)

  unfoldable pub tier_progress : LearningDb → Learner → Domain → Tier → TierProgress
  unfolding concepts_of concept_progress promotion_policy
  tier_progress db user domain difficulty =
      let policy = promotion_policy difficulty in
      let percent = percent_of policy in
      let concepts =
        map (concept_progress db user difficulty percent) (concepts_of db domain difficulty) in
      record {
        difficulty = difficulty;
        completed = sum (map (λ p. p.completed) concepts);
        total = sum (map (λ p. p.total) concepts);
        required = required_of policy;
        concept_required_percent = percent;
        concepts = concepts;
      }

  -- The flush at the commit writes the row, which the loop has changed.
  unfoldable pub get_or_advance_tier :
      (Tier → ℕ)
      → ℕ
      → ℕ
      → Learner
      → Domain
      → LearningDb
      → Option ((UserLearningTier × TierProgress) × LearningDb)
  unfolding get_or_create_tier advance tier_progress put
  get_or_advance_tier clock now fuel user domain db =
      let (row, created) = get_or_create_tier now user.id domain db in
      Option.map (λ r. (r, record created { tiers = put r.0 created.tiers }))
        (advance (tier_progress created user domain) clock fuel row)
