-- ===== src/Learning/Tiers/Promotion.antt =====
-- The promotion of a learner ends, and where it ends.
use cat_game_backend.Base.{
  ℕ, suc, ◌≡◌, refl, sym, ap, ◌∙◌, true, false, none, some, List, inl, inr, ◌⊎◌, Bool-cases,
  Option-cases, ==_refl,
}
use mathlib.Core.Option
use mathlib.Core.Option.{some-injective}
use mathlib.Core.Path.{subst}
use cat_game_backend.Store.Table.{find, put, find-put, find-holds, find-insert_row}
use cat_game_backend.Learning.{
  Tier, bronze, silver, gold, Domain, python, sql, same_domain, Concept, Learner, UserLearningTier,
  tier_row, concept_row, LearningDb,
}
use cat_game_backend.Learning.Tiers.{
  PromotionPolicy, promotion_policy, TierProgress, is_met, advance, promoted, is_tier_of,
  get_or_create_tier, tier_progress, get_or_advance_tier,
}

-- No promotion is left: the tier has none, or its progress does not meet it.
record Settled (progress : Tier → TierProgress) (clock : Tier → ℕ) (fuel : ℕ)
    (row : UserLearningTier) : Type 0 where
  end : UserLearningTier
  returned : advance progress clock fuel row ≡ some (end, progress end.current_tier)
  settled :
      (promotion_policy end.current_tier ≡ none) ⊎ (is_met (progress end.current_tier) ≡ false)
  same_id : end.id ≡ row.id
  same_user : end.user_id ≡ row.user_id
  same_domain : end.domain ≡ row.domain

Tier-cases : (t : Tier) → (t ≡ bronze) ⊎ ((t ≡ silver) ⊎ (t ≡ gold))
Tier-cases bronze = inl refl
Tier-cases silver = inr (inl refl)
Tier-cases gold = inr (inr refl)

promoted-kept :
    (now : ℕ) (t : Tier) (row : UserLearningTier)
    → ((promoted now t row).id ≡ row.id)
      × ((promoted now t row).user_id ≡ row.user_id)
      × ((promoted now t row).domain ≡ row.domain)
promoted-kept now bronze row = (refl, refl, refl)
promoted-kept now silver row = (refl, refl, refl)
promoted-kept now gold row = (refl, refl, refl)

module _ (progress : Tier → TierProgress) (clock : Tier → ℕ) where
  advance_gold :
      (n : ℕ) (row : UserLearningTier)
      → row.current_tier ≡ gold
      → Settled progress clock (suc n) row
  unfolding advance promotion_policy
  advance_gold n row at = record {
    end = row;
    returned = rw (at, advance) (rw at refl);
    settled = inl (rw at refl);
    same_id = refl;
    same_user = refl;
    same_domain = refl;
  }

  -- One round at a tier that has a promotion.
  advance_round :
      (n : ℕ) (row : UserLearningTier) (policy : PromotionPolicy)
      → promotion_policy row.current_tier ≡ some policy
      → Settled progress clock n (promoted (clock row.current_tier) policy.next_tier row)
      → Settled progress clock (suc n) row
  unfolding advance
  advance_round n row policy has next = elim (Bool-cases (is_met (progress row.current_tier))) [
    | inr unmet ↦ record {
      end = row;
      returned = rw (has, unmet, advance) refl;
      settled = inr unmet;
      same_id = refl;
      same_user = refl;
      same_domain = refl;
    }
    | inl met ↦
        let kept = promoted-kept (clock row.current_tier) policy.next_tier row in
        record {
          end = next.end;
          returned = rw (has, met, advance) next.returned;
          settled = next.settled;
          same_id = next.same_id ∙ kept.0;
          same_user = next.same_user ∙ kept.1;
          same_domain = next.same_domain ∙ kept.2;
        }
  ]

  advance_silver :
      (n : ℕ) (row : UserLearningTier)
      → row.current_tier ≡ silver
      → Settled progress clock (suc (suc n)) row
  unfolding promotion_policy
  advance_silver n row at =
      advance_round (suc n) row (record { required = 45; concept_percent = 60; next_tier = gold })
        (rw at refl) (advance_gold n _ refl)

  advance_bronze :
      (n : ℕ) (row : UserLearningTier)
      → row.current_tier ≡ bronze
      → Settled progress clock (suc (suc (suc n))) row
  unfolding promotion_policy
  advance_bronze n row at =
      advance_round (suc (suc n)) row
        (record { required = 40; concept_percent = 50; next_tier = silver }) (rw at refl)
        (advance_silver n _ refl)

  -- Three rounds are enough.
  advance_settles :
      (n : ℕ) (row : UserLearningTier) → Settled progress clock (suc (suc (suc n))) row
  advance_settles n row = elim (Tier-cases row.current_tier) [
    | inl at ↦ advance_bronze n row at
    | inr (inl at) ↦ advance_silver (suc n) row at
    | inr (inr at) ↦ advance_gold (suc (suc n)) row at
  ]

same_domain_refl : (d : Domain) → same_domain d d ≡ true
same_domain_refl python = refl
same_domain_refl sql = refl

get_or_create_tier-found :
    (now user_id : ℕ) (domain : Domain) (db : LearningDb)
    → find (is_tier_of user_id domain) (get_or_create_tier now user_id domain db).1.tiers
      ≡ some (get_or_create_tier now user_id domain db).0
unfolding get_or_create_tier
get_or_create_tier-found now user_id domain db =
    elim (Option-cases (find (is_tier_of user_id domain) db.tiers)) [
      | inr (row, e) ↦ rw (e, get_or_create_tier) e
      | inl e ↦
          rw (e, get_or_create_tier)
            (find-insert_row (is_tier_of user_id domain) _ db.tiers e
              ∙ rw (==_refl user_id, same_domain_refl domain) refl)
    ]

module _ (by_name : List Concept → List Concept) where
  -- What a call returns and leaves.
  pub record Advanced (clock : Tier → ℕ) (now fuel : ℕ) (user : Learner) (domain : Domain)
      (db : LearningDb) : Type 0 where
    pub row : UserLearningTier
    pub after : LearningDb
    pub returned :
        get_or_advance_tier by_name clock now fuel user domain db
        ≡ some ((row, tier_progress by_name after user domain row.current_tier), after)
    pub settled :
        (promotion_policy row.current_tier ≡ none)
        ⊎ (is_met (tier_progress by_name after user domain row.current_tier) ≡ false)
    pub stored : find (is_tier_of user.id domain) after.tiers ≡ some row

  -- With fuel for three rounds or more the promotion of a learner returns; the returned progress
  -- is that of the returned row's tier in the tables it leaves, that tier has no promotion or its
  -- progress does not meet it, and the row is the one stored for the player and the domain.
  pub get_or_advance_tier-Advanced :
      (clock : Tier → ℕ) (now n : ℕ) (user : Learner) (domain : Domain) (db : LearningDb)
      → Advanced clock now (suc (suc (suc n))) user domain db
  unfolding get_or_advance_tier tier_progress
  get_or_advance_tier-Advanced clock now n user domain db =
      let created = get_or_create_tier now user.id domain db in
      let found = get_or_create_tier-found now user.id domain db in
      let hit = find-holds (is_tier_of user.id domain) created.0 created.1.tiers found in
      let s = advance_settles (tier_progress by_name created.1 user domain) clock n created.0 in
      record {
        row = s.end;
        after = record created.1 { tiers = put s.end created.1.tiers };
        returned =
            ap (Option.map (λ r. (r, record created.1 { tiers = put r.0 created.1.tiers })))
              s.returned;
        settled = s.settled;
        stored =
            find-put (is_tier_of user.id domain) created.0 s.end created.1.tiers found
              (sym s.same_id) (rw (s.same_user, s.same_domain) hit);
      }

  -- A settled row stays as it is.
  advance_stays :
      (progress : Tier → TierProgress) (clock : Tier → ℕ) (n : ℕ) (row : UserLearningTier)
      → (promotion_policy row.current_tier ≡ none) ⊎ (is_met (progress row.current_tier) ≡ false)
      → advance progress clock (suc n) row ≡ some (row, progress row.current_tier)
  unfolding advance
  advance_stays progress clock n row (inl top) = rw (top, advance) refl
  advance_stays progress clock n row (inr unmet) =
      elim (Option-cases (promotion_policy row.current_tier)) [
        | inl top ↦ rw (top, advance) refl
        | inr (policy, has) ↦ rw (has, unmet, advance) refl
      ]

  Advanced-again :
      (clock clock' : Tier → ℕ) (now later fuel m : ℕ) (user : Learner) (domain : Domain)
      (db : LearningDb) (a : Advanced clock now fuel user domain db)
      → Option.map (λ r. r.0) (get_or_advance_tier by_name clock' later (suc m) user domain a.after)
        ≡ some (a.row, tier_progress by_name a.after user domain a.row.current_tier)
  unfolding get_or_advance_tier get_or_create_tier
  Advanced-again clock clock' now later fuel m user domain db a =
      let stays =
        advance_stays (tier_progress by_name a.after user domain) clock' m a.row a.settled in
      rw (a.stored, get_or_create_tier, stays) refl

  -- If a call with fuel for three rounds or more returned a row and a progress, another call for
  -- the same learner and domain on the tables that it left, with fuel for one round and at any
  -- time, returns the same row and progress.
  pub get_or_advance_tier_again :
      (clock clock' : Tier → ℕ) (now later n m : ℕ) (user : Learner) (domain : Domain)
      (db : LearningDb) (row : UserLearningTier) (p : TierProgress) (db' : LearningDb)
      → get_or_advance_tier by_name clock now (suc (suc (suc n))) user domain db
        ≡ some ((row, p), db')
      → Option.map (λ r. r.0) (get_or_advance_tier by_name clock' later (suc m) user domain db')
        ≡ some (row, p)
  get_or_advance_tier_again clock clock' now later n m user domain db row p db' ran =
      let a = get_or_advance_tier-Advanced clock now n user domain db in
      let e = some-injective _ _ (sym a.returned ∙ ran) in
      subst
        (λ r.
          Option.map (λ x. x.0) (get_or_advance_tier by_name clock' later (suc m) user domain r.1)
          ≡ some r.0)
        e (Advanced-again clock clock' now later (suc (suc (suc n))) m user domain db a)
