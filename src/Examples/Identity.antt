-- ===== src/Examples/Identity.antt =====
-- Logins from one address.
use cat_game_backend.Base.{ℕ, ◌≡◌, ◌↔◌, refl, true, false, none, some, [], ◌∷◌, arith, All, map}
use cat_game_backend.Identity.RateLimit.{
  AuthRateLimit, RateSettings, restarted, refresh_window, blocked_retry_after,
  record_failed_attempts,
}
use cat_game_backend.Identity.RateLimit.Blocking.{
  IsOpen, blocked_retry_after_opens, blocked_retry_after_waited, record_failed_attempts_outlived,
}
use cat_game_backend.Identity.Login.{login, rate_limited}
use cat_game_backend.Identity.Login.Limit.{InLimit, login-InLimit, login_held}

abbrev settings : RateSettings
settings = record { window_seconds = 900; block_seconds = 900 }

abbrev bucket : ℕ → AuthRateLimit
bucket attempts = record {
  id = 1;
  bucket_hash = "account";
  attempts = attempts;
  window_started_at = 0;
  blocked_until = none;
  updated_at = 0;
}

abbrev shut : AuthRateLimit
shut = record (bucket 5) { blocked_until = some 1700000000 }

blocked_retry_after_opens_example :
    ((blocked_retry_after settings 5 800000000 (bucket 4 ∷ shut ∷ [])).0 ≡ none)
    ↔ All (IsOpen settings 5 800000000) (bucket 4 ∷ shut ∷ [])
blocked_retry_after_opens_example =
    blocked_retry_after_opens settings 5 800000000 (bucket 4 ∷ shut ∷ []) (omega arith)

checked :
    blocked_retry_after settings 5 800000000 (bucket 4 ∷ shut ∷ [])
    ≡ (some 900, bucket 4 ∷ shut ∷ [])
unfolding blocked_retry_after
checked = refl

blocked_retry_after_waited_example :
    blocked_retry_after settings 5 1700000000 (bucket 4 ∷ shut ∷ [])
    ≡ (none, map (refresh_window settings 1700000000) (bucket 4 ∷ shut ∷ []))
blocked_retry_after_waited_example =
    blocked_retry_after_waited settings 5 800000000 1700000000 900 (bucket 4 ∷ shut ∷ [])
      (bucket 4 ∷ shut ∷ []) (omega arith) checked (omega arith)

-- The fifth failure announces a block of 900 seconds, of which the check lets 100 pass.
promised : (record_failed_attempts settings 5 800000000 (bucket 4 ∷ bucket 0 ∷ [])).0 ≡ some 900
unfolding record_failed_attempts
promised = refl

record_failed_attempts_outlived_example :
    blocked_retry_after settings 5 900000000
      (record_failed_attempts settings 5 800000000 (bucket 4 ∷ bucket 0 ∷ [])).1
    ≡ (none, map (restarted 900000000) (bucket 4 ∷ bucket 0 ∷ []))
record_failed_attempts_outlived_example =
    record_failed_attempts_outlived settings 5 800000000 900000000 (bucket 4 ∷ bucket 0 ∷ [])
      (omega arith) (omega arith, (omega arith, tt))

login-InLimit_example :
    All (InLimit settings 5) (login settings false 5 800000000 (bucket 2) (bucket 4)).1
login-InLimit_example =
    login-InLimit settings false 5 800000000 (bucket 2) (bucket 4) (omega arith) (omega arith)
      (omega arith)

login_held_example :
    (seconds : ℕ) × ((login settings true 5 800000000 (bucket 2) shut).0 ≡ rate_limited seconds)
login_held_example =
    login_held settings true 5 800000000 1700000000 (bucket 2) shut refl (omega arith) (omega arith)
