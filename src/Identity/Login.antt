-- ===== src/Identity/Login.antt =====
-- The throttling of app/modules/identity/router.py: login, and the part of register before its
-- account is looked up. Whether the password is right is the verification service's answer.
pub mod Limit
use cat_game_backend.Base.{
  ℕ, ◌+◌, ◌*◌, ◌≤◌, ◌<◌, ◌≡◌, refl, sym, Bool, true, false, Option, none, some, List, [], ◌∷◌, ◌++◌,
  arith, map, All, All-append, leb, ltb, ◌==◌, if◌then◌else◌, any, inl, inr, Option-cases,
  Bool-cases,
}
use cat_game_backend.Identity.RateLimit.Blocking.{
  seconds_left-positive, check_bucket-IsOpen, check_bucket-open,
}
use cat_game_backend.Identity.RateLimit.{
  AuthRateLimit, RateSettings, has_expired, is_blocked, seconds_left, second, restarted,
  refresh_window, blocked, check_bucket, check_buckets, blocked_retry_after, fail_bucket, counted,
  record_failed_attempts, record_request_attempt, reset_rate_bucket,
}

-- The answers: 429 with its Retry-After, 401, and the user with a new session.
pub data LoginAnswer : Type 0 where
  rate_limited : ℕ → LoginAnswer
  invalid_credentials : LoginAnswer
  logged_in : LoginAnswer

module _ (s : RateSettings) where
  -- `record_failed_attempts`, and the answer to a wrong password.
  abbrev pub refuse : ℕ → ℕ → List AuthRateLimit → LoginAnswer × List AuthRateLimit
  refuse attempt_limit now buckets =
      let (retry_after, bs) = record_failed_attempts s attempt_limit now buckets in
      elim retry_after [
        | some seconds ↦ (rate_limited seconds, bs)
        | none ↦ (invalid_credentials, bs)
      ]

  -- The answer, the bucket of the address and that of the account.
  unfoldable pub login :
      Bool → ℕ → ℕ → AuthRateLimit → AuthRateLimit → LoginAnswer × List AuthRateLimit
  login verified attempt_limit now ip account =
      let (ip_wait, ip_buckets) =
        blocked_retry_after s attempt_limit now (refresh_window s now ip ∷ []) in
      elim ip_wait [
        | some seconds ↦ (rate_limited seconds, ip_buckets ++ (account ∷ []))
        | none ↦
            let (wait, account_buckets) =
              blocked_retry_after s attempt_limit now (refresh_window s now account ∷ []) in
            elim wait [
              | some seconds ↦ (rate_limited seconds, ip_buckets ++ account_buckets)
              | none ↦
                  if verified
                  then (logged_in, ip_buckets ++ map (reset_rate_bucket s now) account_buckets)
                  else refuse attempt_limit now (ip_buckets ++ account_buckets)
            ]
      ]

  -- `record_request_attempt` after the check, as register does.
  unfoldable pub register_attempt : ℕ → ℕ → AuthRateLimit → Option ℕ × List AuthRateLimit
  register_attempt attempt_limit now bucket =
      let (retry_after, buckets) =
        blocked_retry_after s attempt_limit now (refresh_window s now bucket ∷ []) in
      elim retry_after [
        | some seconds ↦ (some seconds, buckets)
        | none ↦ (none, record_request_attempt s now buckets)
      ]
