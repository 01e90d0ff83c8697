-- ===== src/Retry/Tests.antt =====
-- Retries that are sent and retries that are not.
use jmaplib.Prelude.{
  ℕ, ◌*◌, ◌^◌, ◌<◌, ltb, true, false, none, some, ◌≡◌, ◌⊎◌, refl, arith, nat_eq, list_eq, list_beq,
  ok,
}
use jmaplib.Retry.{Seconds, RetryPolicy, classify, timeout, status_arrived, should_retry, pause}
use jmaplib.Retry.Laws.{IsUnapplied, retry_is_safe, pause_bounded, wait_bound}

-- Whole seconds.
abbrev whole : Seconds ℕ
whole = record {
  zero_seconds = 0;
  less = ltb;
  scaled = λ initial multiplier n. ok (initial * multiplier ^ n);
}

abbrev policy : RetryPolicy ℕ
policy = record {
  max_attempts = 3;
  initial_backoff = 1;
  max_backoff = 30;
  multiplier = 2;
  max_retry_after = 120;
}

service_retried : should_retry (classify status_arrived (some 503) none) policy 1 true false ≡ true
unfolding should_retry classify list_beq
service_retried = refl

timeout_kept : should_retry (classify timeout none none) policy 1 true false ≡ false
unfolding should_retry classify list_beq
timeout_kept = refl

retry_is_safe_example :
    (1 < 3) × (IsUnapplied status_arrived (some 503) none ⊎ ((true ≡ false) ⊎ (false ≡ true)))
retry_is_safe_example =
    retry_is_safe status_arrived (some 503) none policy 1 true false service_retried

third_wait : pause whole policy 3 none ≡ ok (some 4)
unfolding pause
third_wait = refl

ltb_asymmetric : (a b : ℕ) → ltb a b ≡ true → ltb b a ≡ false
ltb_asymmetric a b h = ground arith

pause_bounded_example : ltb (wait_bound policy none) 4 ≡ false
pause_bounded_example = pause_bounded whole policy 3 none 4 ltb_asymmetric refl third_wait
