-- ===== src/Grading/Leases/Oldest.antt =====
-- Which attempt a worker takes.
use cat_game_backend.Base.{
  ℕ, ◌≡◌, refl, Bool, true, false, not, ◌||◌, Option, none, some, List, [], ◌∷◌, All, Bool-cases,
  Option-cases, inl, inr, arith,
}
use mathlib.Core.List.{Memᴰ}
use mathlib.Core.Path.{subst}
use cat_game_backend.Store.Table.{put}
use cat_game_backend.Grading.{TaskAttempt, AttemptLease, GradingDb, task_attempt_row}
use cat_game_backend.Grading.Leases.{is_older, oldest, leased, is_free, claim_next_attempt}

-- The row is not selected, or does not come before `a`.
abbrev pub is_not_before : (TaskAttempt → Bool) → TaskAttempt → TaskAttempt → Bool
is_not_before selects a b = not (selects b) || not (is_older b a)

-- A row that is in no order before the second one is in none before an elder of it.
is_older_trans :
    (a b c : TaskAttempt) → is_older b a ≡ false → is_older c b ≡ false → is_older c a ≡ false
is_older_trans a b c h k = ground arith

is_older_self : (a : TaskAttempt) → is_older a a ≡ false
is_older_self a = ground arith

is_older_asym : (a b : TaskAttempt) → is_older b a ≡ true → is_older a b ≡ false
is_older_asym a b h = ground arith

not_before_trans :
    (selects : TaskAttempt → Bool) (a b : TaskAttempt) (t : List TaskAttempt)
    → is_older b a ≡ false
    → All (λ c. is_not_before selects b c ≡ true) t
    → All (λ c. is_not_before selects a c ≡ true) t
not_before_trans selects a b [] h k = tt
not_before_trans selects a b (c ∷ t) h k =
    (ground (arith, is_older_trans a b c h), not_before_trans selects a b t h k.1)

unselected :
    (selects : TaskAttempt → Bool) (a : TaskAttempt) (t : List TaskAttempt)
    → All (λ b. selects b ≡ false) t
    → All (λ c. is_not_before selects a c ≡ true) t
unselected selects a [] h = tt
unselected selects a (b ∷ t) h = (rw h.0, unselected selects a t h.1)

pub oldest-none :
    (selects : TaskAttempt → Bool) (t : List TaskAttempt)
    → oldest selects t ≡ none
    → All (λ b. selects b ≡ false) t
unfolding oldest
oldest-none selects [] h = tt
oldest-none selects (b ∷ t) h = (ground arith, oldest-none selects t (ground arith))

-- What `limit(1)` selects.
pub record Oldest (selects : TaskAttempt → Bool) (t : List TaskAttempt) (a : TaskAttempt)
    : Type 0 where
  pub member : Memᴰ a t
  pub selected : selects a ≡ true
  pub first : All (λ b. is_not_before selects a b ≡ true) t

-- The first row of a table that has one more row in front.
skip :
    (selects : TaskAttempt → Bool) (a b : TaskAttempt) (t : List TaskAttempt)
    → is_not_before selects a b ≡ true
    → Oldest selects t a
    → Oldest selects (b ∷ t) a
skip selects a b t h o = record {
  member = Memᴰ.tail o.member;
  selected = o.selected;
  first = (h, o.first);
}

start :
    (selects : TaskAttempt → Bool) (a : TaskAttempt) (t : List TaskAttempt)
    → selects a ≡ true
    → All (λ b. is_not_before selects a b ≡ true) t
    → Oldest selects (a ∷ t) a
start selects a t h k = record {
  member = Memᴰ.head refl;
  selected = h;
  first = (rw (h, is_older_self a), k);
}

pub oldest-Oldest :
    (selects : TaskAttempt → Bool) (a : TaskAttempt) (t : List TaskAttempt)
    → oldest selects t ≡ some a
    → Oldest selects t a
unfolding oldest
oldest-Oldest selects a [] h = ground arith
oldest-Oldest selects a (b ∷ t) h = elim (Bool-cases (selects b)) [
  | inr miss ↦ skip selects a b t (rw miss) (oldest-Oldest selects a t (ground arith))
  | inl hit ↦ elim (Option-cases (oldest selects t)) [
    | inl e ↦
        let same : b ≡ a = ground arith in
        subst (λ x. Oldest selects (b ∷ t) x) same
          (start selects b t hit (unselected selects b t (oldest-none selects t e)))
    | inr (c, e) ↦
        let o = oldest-Oldest selects c t e in
        elim (Bool-cases (is_older c b)) [
          | inl older ↦
              let same : c ≡ a = ground arith in
              subst (λ x. Oldest selects (b ∷ t) x) same
                (skip selects c b t (rw (is_older_asym b c older) (ground arith)) o)
          | inr younger ↦
              let same : b ≡ a = ground arith in
              subst (λ x. Oldest selects (b ∷ t) x) same
                (start selects b t hit (not_before_trans selects b c t younger o.first))
        ]
  ]
]

-- What a worker gets, and the tables after it.
unfoldable pub Claims : ℕ → ℕ → ℕ → List ℕ → GradingDb → Option AttemptLease × GradingDb → Type 0
Claims lease_seconds now token locked db (none, db') =
    (db' ≡ db) × All (λ b. is_free lease_seconds now locked b ≡ false) db.attempts
Claims lease_seconds now token locked db (some l, db') =
    (a : TaskAttempt) × Oldest (is_free lease_seconds now locked) db.attempts a
    × (l ≡ record { public_id = a.public_id; token = token })
    × (db' ≡ record db { attempts = put (leased now token a) db.attempts })

-- A poll that returns no lease changes nothing, and no attempt is both claimable and not locked
-- by others; a poll that returns a lease has leased one that is, with no such attempt before it
-- in the order of submission and key, and has changed no other row.
pub claim_next_attempt-Claims :
    (lease_seconds now token : ℕ) (locked : List ℕ) (db : GradingDb)
    → Claims lease_seconds now token locked db
        (claim_next_attempt lease_seconds now token locked db)
unfolding claim_next_attempt Claims
claim_next_attempt-Claims lease_seconds now token locked db =
    let selects = is_free lease_seconds now locked in
    elim (Option-cases (oldest selects db.attempts)) [
      | inl e ↦ rw (e, claim_next_attempt) (refl, oldest-none selects db.attempts e)
      | inr (a, e) ↦
          rw (e, claim_next_attempt) (a, oldest-Oldest selects a db.attempts e, refl, refl)
    ]
