-- ===== src/Identity/Login/Limit.antt =====
-- The attempts that logins leave in the buckets, and the logins that a block refuses.
use cat_game_backend.Base.{
  ℕ, ◌+◌, ◌*◌, ◌≤◌, ◌<◌, ◌≡◌, refl, Bool, true, false, Option, none, some, List, [], ◌∷◌, arith,
  All, if◌then◌else◌, inl, inr, Option-cases,
}
use cat_game_backend.Identity.RateLimit.Blocking.{
  seconds_left-positive, check_bucket-IsOpen, check_bucket-open,
}
use cat_game_backend.Identity.RateLimit.{
  AuthRateLimit, RateSettings, is_blocked, seconds_left, second, refresh_window, check_bucket,
  check_buckets, blocked_retry_after, fail_bucket, record_failed_attempts, reset_rate_bucket,
}
use cat_game_backend.Identity.Login.{rate_limited, logged_in, refuse, login}

module _ (s : RateSettings) where
  abbrev pub InLimit : ℕ → AuthRateLimit → Type 0
  InLimit attempt_limit b = b.attempts ≤ attempt_limit

  refresh_window-InLimit :
      (attempt_limit now : ℕ) (b : AuthRateLimit)
      → InLimit attempt_limit b
      → InLimit attempt_limit (refresh_window s now b)
  unfolding refresh_window
  refresh_window-InLimit attempt_limit now b h = ground arith

  -- What a check leaves in one bucket: one that is let through has an attempt left.
  pub record Checked (attempt_limit : ℕ) (answer : Option ℕ × List AuthRateLimit) : Type 0 where
    pub bucket : AuthRateLimit
    pub alone : answer.1 ≡ bucket ∷ []
    pub in_limit : bucket.attempts ≤ attempt_limit
    pub left : answer.0 ≡ none → bucket.attempts < attempt_limit

  check_bucket-attempts :
      (attempt_limit now : ℕ) (b : AuthRateLimit)
      → InLimit attempt_limit b
      → InLimit attempt_limit (check_bucket s attempt_limit now b).1
  unfolding check_bucket refresh_window
  check_bucket-attempts attempt_limit now b h = ground arith

  check_bucket-left :
      (attempt_limit now : ℕ) (b : AuthRateLimit)
      → 0 < s.block_seconds
      → (check_bucket s attempt_limit now b).0 ≡ 0
      → (check_bucket s attempt_limit now b).1.attempts < attempt_limit
  check_bucket-left attempt_limit now b lasts h =
      let o = check_bucket-IsOpen s attempt_limit now b lasts h in
      let left = o.attempts_left in rw (check_bucket-open s attempt_limit now b o) left

  blocked_retry_after-Checked :
      (attempt_limit now : ℕ) (b : AuthRateLimit)
      → 0 < s.block_seconds
      → InLimit attempt_limit b
      → Checked attempt_limit
          (blocked_retry_after s attempt_limit now (refresh_window s now b ∷ []))
  unfolding blocked_retry_after check_buckets check_bucket
  blocked_retry_after-Checked attempt_limit now b lasts h = record {
    bucket = (check_bucket s attempt_limit now (refresh_window s now b)).1;
    alone = refl;
    in_limit =
        check_bucket-attempts attempt_limit now (refresh_window s now b)
          (refresh_window-InLimit attempt_limit now b h);
    left = λ through.
        check_bucket-left attempt_limit now (refresh_window s now b) lasts (ground arith);
  }

  tested-InLimit :
      (verified : Bool) (attempt_limit now : ℕ) (ip account : AuthRateLimit)
      → ip.attempts < attempt_limit
      → account.attempts < attempt_limit
      → All
          (InLimit attempt_limit)
          (if verified
            then (logged_in, ip ∷ reset_rate_bucket s now account ∷ [])
            else refuse s attempt_limit now (ip ∷ account ∷ [])).1
  unfolding record_failed_attempts fail_bucket reset_rate_bucket
  tested-InLimit true attempt_limit now ip account h k = (ground arith, ground arith)
  tested-InLimit false attempt_limit now ip account h k = ground arith

  -- With a positive block time, and buckets of address and account that have at most
  -- attempt_limit attempts, a login, whether its password is right or not, leaves both within the
  -- limit.
  pub login-InLimit :
      (verified : Bool) (attempt_limit now : ℕ) (ip account : AuthRateLimit)
      → 0 < s.block_seconds
      → InLimit attempt_limit ip
      → InLimit attempt_limit account
      → All (InLimit attempt_limit) (login s verified attempt_limit now ip account).1
  unfolding login
  login-InLimit verified attempt_limit now ip account lasts h k =
      let i = blocked_retry_after-Checked attempt_limit now ip lasts h in
      let a = blocked_retry_after-Checked attempt_limit now account lasts k in
      elim (Option-cases
        (blocked_retry_after s attempt_limit now (refresh_window s now ip ∷ [])).0) [
          | inr (n, e) ↦ rw (e, i.alone, login) (i.in_limit, (k, tt))
          | inl e ↦
              elim (Option-cases
                (blocked_retry_after s attempt_limit now (refresh_window s now account ∷ [])).0) [
                  | inr (n, f) ↦ rw (e, f, i.alone, a.alone, login) (i.in_limit, (a.in_limit, tt))
                  | inl f ↦
                      rw (e, f, i.alone, a.alone, login)
                        (tested-InLimit verified attempt_limit now i.bucket a.bucket (i.left e)
                          (a.left f))
                ]
        ]

  refresh_window_held :
      (now u : ℕ) (b : AuthRateLimit)
      → b.blocked_until ≡ some u
      → now < u
      → now < b.window_started_at + s.window_seconds * second
      → refresh_window s now b ≡ b
  unfolding refresh_window
  refresh_window_held now u b held early within = ground arith

  check_bucket_held :
      (attempt_limit now u : ℕ) (b : AuthRateLimit)
      → b.blocked_until ≡ some u
      → now < u
      → now < b.window_started_at + s.window_seconds * second
      → check_bucket s attempt_limit now b ≡ (seconds_left (some u) now, b)
  unfolding check_bucket
  check_bucket_held attempt_limit now u b held early within =
      let ahead : is_blocked (some u) now ≡ true = ground arith in
      rw (refresh_window_held now u b held early within, held, ahead) refl

  blocked_retry_after_held :
      (attempt_limit now u : ℕ) (b : AuthRateLimit)
      → b.blocked_until ≡ some u
      → now < u
      → now < b.window_started_at + s.window_seconds * second
      → blocked_retry_after s attempt_limit now (b ∷ [])
        ≡ (some (seconds_left (some u) now), b ∷ [])
  unfolding blocked_retry_after check_buckets
  blocked_retry_after_held attempt_limit now u b held early within =
      let some_wait : 0 < seconds_left (some u) now =
        seconds_left-positive now (some u) (ground arith) in
      rw (check_bucket_held attempt_limit now u b held early within) (ground arith)

  -- While the block of the account lasts and the window of its bucket has not ended, every login
  -- of the account is answered with rate_limited, whatever its address and even with the right
  -- password.
  pub login_held :
      (verified : Bool) (attempt_limit now u : ℕ) (ip account : AuthRateLimit)
      → account.blocked_until ≡ some u
      → now < u
      → now < account.window_started_at + s.window_seconds * second
      → (seconds : ℕ) × ((login s verified attempt_limit now ip account).0 ≡ rate_limited seconds)
  unfolding login
  login_held verified attempt_limit now u ip account held early within =
      elim (Option-cases
        (blocked_retry_after s attempt_limit now (refresh_window s now ip ∷ [])).0) [
          | inr (n, e) ↦ (n, rw (e, login) refl)
          | inl e ↦ (
            seconds_left (some u) now,
            rw
                (
                  e,
                  refresh_window_held now u account held early within,
                  blocked_retry_after_held attempt_limit now u account held early within,
                  login,
                )
                refl,
          )
        ]
