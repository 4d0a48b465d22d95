-- ===== src/Identity/RateLimit.antt =====
-- app/modules/identity/rate_limit.py. Times count microseconds; the settings are whole seconds.
pub mod Blocking
use cat_game_backend.Base.{
  ℕ, ◌+◌, ◌-◌, ◌*◌, ◌/◌, String, Bool, true, false, not, ◌&&◌, Option, none, some, List, [], ◌∷◌,
  any, length, map, leb, ltb, ◌==◌, if◌then◌else◌, str_eq, ◌++◌,
}
use cat_game_backend.Core.Error.{Result, ok, err, runtime_error}
use cat_game_backend.Store.Rows.{Row}
use cat_game_backend.Store.Table.{where_rows, insert_row}

-- app/models/auth_rate_limit.py
pub record AuthRateLimit : Type 0 where
  pub id : ℕ
  pub bucket_hash : String
  pub attempts : ℕ
  pub window_started_at : ℕ
  pub blocked_until : Option ℕ
  pub updated_at : ℕ

instance abbrev pub rate_limit_row : Row AuthRateLimit
rate_limit_row = record { id_of = λ r. r.id }

-- `auth_rate_window_seconds` and `auth_rate_block_seconds`
pub record RateSettings : Type 0 where
  pub window_seconds : ℕ
  pub block_seconds : ℕ

abbrev pub second : ℕ
second = 1000000

-- `blocked_until is not None and blocked_until <= now`
abbrev pub has_expired : Option ℕ → ℕ → Bool
has_expired none now = false
has_expired (some u) now = leb u now

-- `blocked_until and blocked_until > current_time`
abbrev pub is_blocked : Option ℕ → ℕ → Bool
is_blocked none now = false
is_blocked (some u) now = ltb now u

-- `math.ceil((blocked_until - now).total_seconds())`
abbrev pub seconds_left : Option ℕ → ℕ → ℕ
seconds_left none now = 0
seconds_left (some u) now = (u - now + (second - 1)) / second

abbrev pub restarted : ℕ → AuthRateLimit → AuthRateLimit
restarted now b = record b {
  attempts = 0;
  blocked_until = none;
  window_started_at = now;
  updated_at = now;
}

abbrev pub max : ℕ → ℕ → ℕ
max a b = if leb b a then a else b

module _ (s : RateSettings) where
  unfoldable pub refresh_window : ℕ → AuthRateLimit → AuthRateLimit
  refresh_window now b =
      if has_expired b.blocked_until now
      then restarted now b
      else (if ltb now (b.window_started_at + s.window_seconds * second)
          then b
          else restarted now b)

  abbrev pub blocked : ℕ → AuthRateLimit → AuthRateLimit
  blocked now b = record b { blocked_until = some (now + s.block_seconds * second) }

  -- One round of the loop of `blocked_retry_after`: the seconds to wait, and the bucket.
  unfoldable pub check_bucket : ℕ → ℕ → AuthRateLimit → ℕ × AuthRateLimit
  unfolding refresh_window
  check_bucket attempt_limit now bucket =
      let b = refresh_window now bucket in
      if is_blocked b.blocked_until now
      then (seconds_left b.blocked_until now, b)
      else (if leb attempt_limit b.attempts then (s.block_seconds, blocked now b) else (0, b))

  unfoldable pub check_buckets : ℕ → ℕ → List AuthRateLimit → ℕ × List AuthRateLimit
  unfolding check_bucket
  check_buckets attempt_limit now [] = (0, [])
  check_buckets attempt_limit now (bucket ∷ buckets) =
      let (wait, b) = check_bucket attempt_limit now bucket in
      let (waits, bs) = check_buckets attempt_limit now buckets in (max wait waits, b ∷ bs)

  -- `retry_after or None`
  abbrev pub or_none : ℕ → Option ℕ
  or_none n = if n == 0 then none else some n

  unfoldable pub blocked_retry_after : ℕ → ℕ → List AuthRateLimit → Option ℕ × List AuthRateLimit
  unfolding check_buckets
  blocked_retry_after attempt_limit now buckets =
      let (retry_after, bs) = check_buckets attempt_limit now buckets in (or_none retry_after, bs)

  abbrev pub counted : ℕ → AuthRateLimit → AuthRateLimit
  counted now b = record b { attempts = b.attempts + 1; updated_at = now }

  unfoldable pub fail_bucket : ℕ → ℕ → AuthRateLimit → AuthRateLimit
  fail_bucket attempt_limit now b =
      let c = counted now b in if leb attempt_limit c.attempts then blocked now c else c

  unfoldable pub record_failed_attempts : ℕ → ℕ → List AuthRateLimit → Option ℕ × List AuthRateLimit
  unfolding fail_bucket
  record_failed_attempts attempt_limit now buckets = (
    if any (λ b. leb attempt_limit (b.attempts + 1)) buckets then some s.block_seconds else none,
    map (fail_bucket attempt_limit now) buckets,
  )

  unfoldable pub record_request_attempt : ℕ → List AuthRateLimit → List AuthRateLimit
  record_request_attempt now buckets = map (counted now) buckets

  unfoldable pub reset_rate_bucket : ℕ → AuthRateLimit → AuthRateLimit
  reset_rate_bucket now b = restarted now b

  -- `list(dict.fromkeys(bucket_hashes))`
  unfoldable pub unique : List String → List String
  unique [] = []
  unique (h ∷ hs) = h ∷ where_rows (λ j. not (str_eq j h)) (unique hs)

  abbrev pub is_hash : String → AuthRateLimit → Bool
  is_hash h b = str_eq b.bucket_hash h

  -- The inserts of the missing buckets.
  unfoldable pub insert_missing_buckets :
      ℕ → ℕ → List String → List AuthRateLimit → List AuthRateLimit
  insert_missing_buckets now next_id [] t = t
  insert_missing_buckets now next_id (h ∷ hs) t = insert_missing_buckets now (next_id + 1) hs (
      if any (is_hash h) t
      then t
      else insert_row
          (record {
            id = next_id;
            bucket_hash = h;
            attempts = 0;
            window_started_at = now;
            blocked_until = none;
            updated_at = now;
          })
          t)

  -- The locked buckets, refreshed, and the table.
  unfoldable pub lock_rate_buckets :
      ℕ → ℕ → List String → List AuthRateLimit → Result (List AuthRateLimit × List AuthRateLimit)
  unfolding refresh_window unique insert_missing_buckets where_rows
  lock_rate_buckets now next_id bucket_hashes table =
      let unique_hashes = unique bucket_hashes in
      let t = insert_missing_buckets now next_id unique_hashes table in
      let buckets = where_rows (λ b. any (λ h. is_hash h b) unique_hashes) t in
      if length buckets == length unique_hashes
      then ok (map (refresh_window now) buckets, t)
      else err runtime_error
