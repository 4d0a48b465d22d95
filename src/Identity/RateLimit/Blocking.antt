-- ===== src/Identity/RateLimit/Blocking.antt =====
-- When a bucket is open, how long it is to wait for, and how a block ends.
use cat_game_backend.Base.{
  ℕ, ◌+◌, ◌*◌, ◌≤◌, ◌<◌, ◌≡◌, refl, true, false, Option, none, some, List, [], ◌∷◌, inl, inr, ◌↔◌,
  arith, ap, map, All, leb, Bool-cases,
}
use mathlib.Core.Path.{subst}
use cat_game_backend.Identity.RateLimit.{
  AuthRateLimit, RateSettings, second, has_expired, is_blocked, seconds_left, restarted,
  refresh_window, check_bucket, check_buckets, blocked_retry_after, fail_bucket,
  record_failed_attempts,
}

pub seconds_left-positive :
    (now : ℕ) (u : Option ℕ) → is_blocked u now ≡ true → 0 < seconds_left u now
seconds_left-positive now none held = ground arith
seconds_left-positive now (some u) held = let early : now < u = ground arith in omega arith

seconds_left-expired :
    (now later : ℕ) (u : Option ℕ)
    → is_blocked u now ≡ true
    → now + seconds_left u now * second ≤ later
    → has_expired u later ≡ true
seconds_left-expired now later none held waited = ground arith
seconds_left-expired now later (some u) held waited =
    let enough : u ≤ later = omega arith in ground arith

module _ (s : RateSettings) where
  -- The bucket has attempts left and no block, once its window is refreshed.
  pub record IsOpen (attempt_limit now : ℕ) (b : AuthRateLimit) : Type 0 where
    pub unblocked : is_blocked (refresh_window s now b).blocked_until now ≡ false
    pub attempts_left : (refresh_window s now b).attempts < attempt_limit

  pub check_bucket-open :
      (attempt_limit now : ℕ) (b : AuthRateLimit)
      → IsOpen attempt_limit now b
      → check_bucket s attempt_limit now b ≡ (0, refresh_window s now b)
  unfolding check_bucket
  check_bucket-open attempt_limit now b o =
      let used_up : leb attempt_limit (refresh_window s now b).attempts ≡ false =
        let left = o.attempts_left in ground arith in
      rw (o.unblocked, used_up)

  pub check_bucket-IsOpen :
      (attempt_limit now : ℕ) (b : AuthRateLimit)
      → 0 < s.block_seconds
      → (check_bucket s attempt_limit now b).0 ≡ 0
      → IsOpen attempt_limit now b
  unfolding check_bucket
  check_bucket-IsOpen attempt_limit now b lasts h =
      let c = refresh_window s now b in
      elim (Bool-cases (is_blocked c.blocked_until now)) [
        | inl held ↦ ground (arith, seconds_left-positive now c.blocked_until)
        | inr free ↦ elim (Bool-cases (leb attempt_limit c.attempts)) [
          | inl spent ↦ ground arith
          | inr left ↦ record { unblocked = free; attempts_left = ground arith }
        ]
      ]

  -- Nothing is blocked once the announced seconds have passed.
  check_bucket-waited :
      (attempt_limit now later : ℕ) (b : AuthRateLimit)
      → 0 < attempt_limit
      → now + (check_bucket s attempt_limit now b).0 * second ≤ later
      → IsOpen attempt_limit later (check_bucket s attempt_limit now b).1
  unfolding check_bucket refresh_window
  check_bucket-waited attempt_limit now later b some_limit waited = record {
    unblocked =
        ground (arith, seconds_left-expired now later (refresh_window s now b).blocked_until);
    attempts_left =
        ground (arith, seconds_left-expired now later (refresh_window s now b).blocked_until);
  }

  check_buckets-open :
      (attempt_limit now : ℕ) (buckets : List AuthRateLimit)
      → All (IsOpen attempt_limit now) buckets
      → check_buckets s attempt_limit now buckets ≡ (0, map (refresh_window s now) buckets)
  unfolding check_buckets
  check_buckets-open attempt_limit now [] opens = refl
  check_buckets-open attempt_limit now (b ∷ bs) opens = rw (
    check_bucket-open attempt_limit now b opens.0,
    check_buckets-open attempt_limit now bs opens.1,
  )

  check_buckets-IsOpen :
      (attempt_limit now : ℕ) (buckets : List AuthRateLimit)
      → 0 < s.block_seconds
      → (check_buckets s attempt_limit now buckets).0 ≡ 0
      → All (IsOpen attempt_limit now) buckets
  unfolding check_buckets
  check_buckets-IsOpen attempt_limit now [] lasts h = tt
  check_buckets-IsOpen attempt_limit now (b ∷ bs) lasts h = (
    check_bucket-IsOpen attempt_limit now b lasts (ground arith),
    check_buckets-IsOpen attempt_limit now bs lasts (ground arith),
  )

  check_buckets-waited :
      (attempt_limit now later : ℕ) (buckets : List AuthRateLimit)
      → 0 < attempt_limit
      → now + (check_buckets s attempt_limit now buckets).0 * second ≤ later
      → All (IsOpen attempt_limit later) (check_buckets s attempt_limit now buckets).1
  unfolding check_buckets
  check_buckets-waited attempt_limit now later [] some_limit waited = tt
  check_buckets-waited attempt_limit now later (b ∷ bs) some_limit waited = (
    check_bucket-waited attempt_limit now later b some_limit (ground arith),
    check_buckets-waited attempt_limit now later bs some_limit (ground arith),
  )

  -- With a positive block time, the check names no time to wait exactly when every bucket, its
  -- window refreshed, has no block and attempts left.
  pub blocked_retry_after_opens :
      (attempt_limit now : ℕ) (buckets : List AuthRateLimit)
      → 0 < s.block_seconds
      → ((blocked_retry_after s attempt_limit now buckets).0 ≡ none)
        ↔ All (IsOpen attempt_limit now) buckets
  unfolding blocked_retry_after
  blocked_retry_after_opens attempt_limit now buckets lasts = (
    λ allowed. check_buckets-IsOpen attempt_limit now buckets lasts (ground arith),
    λ opens. rw (check_buckets-open attempt_limit now buckets opens),
  )

  -- With a positive limit, if a check said to wait for some seconds, a check of the buckets it
  -- left, at least that much later, passes, and only refreshes their windows.
  pub blocked_retry_after_waited :
      (attempt_limit now later seconds : ℕ) (buckets buckets' : List AuthRateLimit)
      → 0 < attempt_limit
      → blocked_retry_after s attempt_limit now buckets ≡ (some seconds, buckets')
      → now + seconds * second ≤ later
      → blocked_retry_after s attempt_limit later buckets'
        ≡ (none, map (refresh_window s later) buckets')
  unfolding blocked_retry_after
  blocked_retry_after_waited attempt_limit now later seconds buckets buckets' some_limit ran
        waited =
      let opens : All (IsOpen attempt_limit later) buckets' =
        let told : (check_buckets s attempt_limit now buckets).0 ≡ seconds = ground arith in
        let left : (check_buckets s attempt_limit now buckets).1 ≡ buckets' = ap (λ r. r.1) ran in
        subst (All (IsOpen attempt_limit later)) left
          (check_buckets-waited attempt_limit now later buckets some_limit (rw told waited)) in
      rw (check_buckets-open attempt_limit later buckets' opens)

  -- The counting window of the bucket has ended.
  abbrev pub HasEnded : ℕ → AuthRateLimit → Type 0
  HasEnded now b = b.window_started_at + s.window_seconds * second ≤ now

  fail_bucket-opens :
      (attempt_limit now later : ℕ) (b : AuthRateLimit)
      → 0 < attempt_limit
      → HasEnded later b
      → refresh_window s later (fail_bucket s attempt_limit now b) ≡ restarted later b
  unfolding fail_bucket refresh_window
  fail_bucket-opens attempt_limit now later b some_limit over = ground arith

  fail_buckets-open :
      (attempt_limit now later : ℕ) (buckets : List AuthRateLimit)
      → 0 < attempt_limit
      → All (HasEnded later) buckets
      → check_buckets s attempt_limit later (map (fail_bucket s attempt_limit now) buckets)
        ≡ (0, map (restarted later) buckets)
  unfolding check_buckets check_bucket
  fail_buckets-open attempt_limit now later [] some_limit over = refl
  fail_buckets-open attempt_limit now later (b ∷ bs) some_limit over =
      rw
        (
          fail_bucket-opens attempt_limit now later b some_limit over.0,
          fail_buckets-open attempt_limit now later bs some_limit over.1,
        )
        (ground arith)

  -- With a positive limit, if failed attempts are counted on any buckets, whatever block that
  -- sets and announces, a check at a time when the counting windows of all of them have ended
  -- passes and clears their blocks and attempts.
  pub record_failed_attempts_outlived :
      (attempt_limit now later : ℕ) (buckets : List AuthRateLimit)
      → 0 < attempt_limit
      → All (HasEnded later) buckets
      → blocked_retry_after s attempt_limit later
          (record_failed_attempts s attempt_limit now buckets).1
        ≡ (none, map (restarted later) buckets)
  unfolding blocked_retry_after record_failed_attempts
  record_failed_attempts_outlived attempt_limit now later buckets some_limit over =
      rw (fail_buckets-open attempt_limit now later buckets some_limit over)
