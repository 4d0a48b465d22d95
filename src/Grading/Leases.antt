-- ===== src/Grading/Leases.antt =====
-- The leases of app/modules/grading/service.py, with which workers take attempts. A time is a
-- number of seconds.
pub mod Oldest
use cat_game_backend.Base.{
  ℕ, ◌+◌, Bool, true, false, not, ◌&&◌, ◌||◌, Option, none, some, List, [], ◌∷◌, ◌==◌, ltb, any,
  if◌then◌else◌,
}
use cat_game_backend.Store.Table.{find, put}
use cat_game_backend.Grading.{
  AttemptStatus, pending, running, TaskAttempt, AttemptLease, GradingDb, task_attempt_row,
}

-- `settings.grading_lease_seconds` and the time of the claim.
abbrev pub is_expired : ℕ → ℕ → Option ℕ → Bool
is_expired lease_seconds now none = true
is_expired lease_seconds now (some started_at) = ltb (started_at + lease_seconds) now

abbrev pub is_claimable_status : AttemptStatus → Bool → Bool
is_claimable_status pending expired = true
is_claimable_status running expired = expired
is_claimable_status _ expired = false

-- `_claimable_at`
abbrev pub is_claimable : ℕ → ℕ → TaskAttempt → Bool
is_claimable lease_seconds now a =
    is_claimable_status a.status (is_expired lease_seconds now a.grading_started_at)

-- `order_by(attempted_at, id)`
abbrev pub is_older : TaskAttempt → TaskAttempt → Bool
is_older a b =
    ltb a.attempted_at b.attempted_at || (a.attempted_at == b.attempted_at && ltb a.id b.id)

abbrev pub elder : TaskAttempt → Option TaskAttempt → TaskAttempt
elder a none = a
elder a (some b) = if is_older b a then b else a

-- The first row in that order, `limit(1)`.
unfoldable pub oldest : (TaskAttempt → Bool) → List TaskAttempt → Option TaskAttempt
oldest selects [] = none
oldest selects (a ∷ attempts) =
    let found = oldest selects attempts in if selects a then some (elder a found) else found

-- The row of `_lease`; the token is a new UUID.
abbrev pub leased : ℕ → ℕ → TaskAttempt → TaskAttempt
leased now token a = record a {
  status = running;
  grading_started_at = some now;
  grading_lease_token = some token;
}

abbrev pub lease : ℕ → ℕ → Option TaskAttempt → GradingDb → Option AttemptLease × GradingDb
lease now token none db = (none, db)
lease now token (some a) db = (
  some (record { public_id = a.public_id; token = token }),
  record db { attempts = put (leased now token a) db.attempts },
)

module _ (lease_seconds : ℕ) where
  -- `skip_locked`: the rows with the primary keys `locked` belong to other transactions.
  abbrev pub is_free : ℕ → List ℕ → TaskAttempt → Bool
  is_free now locked a = is_claimable lease_seconds now a && not (any (λ i. i == a.id) locked)

  unfoldable pub claim_next_attempt : ℕ → ℕ → List ℕ → GradingDb → Option AttemptLease × GradingDb
  unfolding oldest put
  claim_next_attempt now token locked db =
      lease now token (oldest (is_free now locked) db.attempts) db

  unfoldable pub claim_attempt : ℕ → ℕ → ℕ → GradingDb → Option AttemptLease × GradingDb
  unfolding find put
  claim_attempt now token public_id db =
      lease now token
        (find (λ a. a.public_id == public_id && is_claimable lease_seconds now a) db.attempts) db
