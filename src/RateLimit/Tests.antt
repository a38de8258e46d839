-- ===== src/RateLimit/Tests.antt =====
-- The tracker on concrete calls: CONFIG's defaults, in seconds.
use generatorpi.Base.{
  string_key, lookup, insert, erase, ◌<◌, String, ◌≡◌, refl, ◌≢◌, true, some, List, [], ◌∷◌, arith,
}
use generatorpi.RateLimit.{
  Limits, Tracker, purge, cleanup_tracker, is_rate_limited, failed_entry, record_failure,
  no_failures, Call, check, fail, succeed, step, run, Entry,
}
use generatorpi.RateLimit.Bounds.{IsValid, run-IsValid}
use generatorpi.RateLimit.Lockout.{lockout_holds}
use generatorpi.RateLimit.Threshold.{fails}

abbrev pub limits : Limits
limits = record {
  max_failures = 5;
  lockout_seconds = 300;
  cleanup_seconds = 600;
  max_tracked_ips = 1000;
}

abbrev attack : List Call
attack = fails "10.0.0.9" ((10, 10) ∷ (11, 11) ∷ (12, 12) ∷ (13, 13) ∷ (14, 14) ∷ [])

locked_at_five :
    (is_rate_limited limits "10.0.0.9" 20 20 (run limits attack (no_failures 0))).0 ≡ 294
unfolding is_rate_limited run step cleanup_tracker purge record_failure lookup insert erase
locked_at_five = refl

unlocked_later :
    (is_rate_limited limits "10.0.0.9" 314 314 (run limits attack (no_failures 0))).0 ≡ 0
unfolding is_rate_limited run step cleanup_tracker purge record_failure lookup insert erase
unlocked_later = refl

IsValid-no_failures : IsValid limits (no_failures 0)
IsValid-no_failures = record { unique = tt; capped = omega arith }

run-IsValid_example : IsValid limits (run limits attack (no_failures 0))
run-IsValid_example = run-IsValid limits attack (no_failures 0) (omega arith) IsValid-no_failures

abbrev no_room : Limits
no_room = record limits { max_tracked_ips = 0 }

abbrev strict : Limits
strict = record limits { max_failures = 1 }

abbrev between : List Call
between = check "10.0.0.9" 20 20 ∷ fail "10.0.0.7" 21 21 ∷ succeed "10.0.0.7" ∷ []

other_ip : ◌≢◌ {A = String} "10.0.0.7" "10.0.0.9"
other_ip = ground (arith, string_key.same_iff "10.0.0.7" "10.0.0.9")

abbrev first_failure : Entry
first_failure = record { count = 1; locked_until = some 310; last_attempt = 10 }

abbrev locked_tracker : Tracker
locked_tracker = record { entries = ("10.0.0.9", first_failure) ∷ []; last_cleanup = 0 }

lockout_holds_example :
    (record_failure strict "10.0.0.9" 10 10 (no_failures 0) ≡ some ((true, 1), locked_tracker))
    × ((is_rate_limited strict "10.0.0.9" 30 30 (run strict between locked_tracker)).0 ≡ 280)
    × (0 < (is_rate_limited strict "10.0.0.9" 30 30 (run strict between locked_tracker)).0)
unfolding failed_entry lookup insert
lockout_holds_example =
    lockout_holds strict "10.0.0.9" 10 10 30 30 (no_failures 0) between (omega arith)
      ((omega arith, omega arith, omega arith), (other_ip, (other_ip, tt))) (omega arith)
      (omega arith) (omega arith) (omega arith)
