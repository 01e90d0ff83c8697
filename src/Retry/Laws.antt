-- ===== src/Retry/Laws.antt =====
-- A request that may have been applied is not applied twice; a wait is bounded.
use jmaplib.Prelude.{
  Bool-cases, ==_iff, ℕ, ◌-◌, ◌<◌, leb, Bool, true, false, Option, none, some, Text, ◌≡◌, ◌⊎◌, inl,
  inr, refl, arith, nat_eq, list_eq, ok, >>=-eq-ok,
}
use jmaplib.Retry.{
  Seconds, never_applied, Failure, connect, timeout, interrupted, status_arrived, RetryPolicy,
  classify, is_limit_problem, should_retry, backoff, pause, min_of,
}

-- The request provably never reached a method: nothing was sent, or the server refused it whole.
abbrev pub IsUnapplied : Failure → Option ℕ → Option Text → Type 0
IsUnapplied failure status problem_type =
    (failure ≡ connect)
    ⊎ ((failure ≡ status_arrived)
        × ((is_limit_problem problem_type ≡ true) ⊎ ((status ≡ some 429) ⊎ (status ≡ some 503))))

unapplied :
    (failure : Failure) (status : Option ℕ) (problem_type : Option Text)
    → classify failure status problem_type ≡ never_applied
    → IsUnapplied failure status problem_type
unfolding classify
unapplied connect status problem_type h = inl refl
unapplied timeout status problem_type h = cc
unapplied interrupted status problem_type h = cc
unapplied status_arrived none problem_type h = ground arith
unapplied status_arrived (some s) problem_type h = ground (arith, ==_iff s 429, ==_iff s 503)

-- A request is sent again only before the last attempt, and only where the failure proves that it
-- was not applied, or it changes nothing, or each of its changes is guarded.
pub retry_is_safe :
    (failure : Failure) (status : Option ℕ) (problem_type : Option Text) {D : Type 0}
    (policy : RetryPolicy D) (attempt : ℕ) (mutating guarded : Bool)
    → should_retry (classify failure status problem_type) policy attempt mutating guarded ≡ true
    → (attempt < policy.max_attempts)
      × (IsUnapplied failure status problem_type ⊎ ((mutating ≡ false) ⊎ (guarded ≡ true)))
unfolding should_retry
retry_is_safe failure status problem_type policy attempt mutating guarded h =
    elim (Bool-cases (leb policy.max_attempts attempt)) [
      | inl late ↦ absurd (ground arith)
      | inr early ↦ (ground arith, ground (arith, unapplied failure status problem_type))
    ]

self_less :
    {D : Type 0} (seconds : Seconds D)
    → ((a b : D) → seconds.less a b ≡ true → seconds.less b a ≡ false)
    → (d : D) → seconds.less d d ≡ false
self_less seconds h d = elim (Bool-cases (seconds.less d d)) [ inl t ↦ h d d t | inr f ↦ f ]

asymmetric_min :
    {D : Type 0} (seconds : Seconds D) (a b : D)
    → seconds.less a a ≡ false
    → (seconds.less b a ≡ true → seconds.less a b ≡ false)
    → seconds.less a (min_of seconds a b) ≡ false
asymmetric_min seconds a b h k = elim (Bool-cases (seconds.less b a)) [
  | inl below ↦ rw below (k below)
  | inr above ↦ rw above h
]

abbrev pub wait_bound : {D : Type 0} → RetryPolicy D → Option D → D
wait_bound policy none = policy.max_backoff
wait_bound policy (some _) = policy.max_retry_after

-- Where no two delays are each less than the other and `max_retry_after` is not below 0, a wait does not exceed
-- its bound: `max_backoff`, or `max_retry_after` when the server named a delay.
pub pause_bounded :
    {D : Type 0} (seconds : Seconds D) (policy : RetryPolicy D) (attempt : ℕ)
    (retry_after : Option D) (wait : D)
    → ((a b : D) → seconds.less a b ≡ true → seconds.less b a ≡ false)
    → seconds.less policy.max_retry_after seconds.zero_seconds ≡ false
    → pause seconds policy attempt retry_after ≡ ok (some wait)
    → seconds.less (wait_bound policy retry_after) wait ≡ false
unfolding pause backoff
pause_bounded seconds policy attempt none wait asymmetric valid h =
    let (delay, made, same) = >>=-eq-ok (backoff seconds policy attempt none) _ h in
    let (curve, grown, least) =
      >>=-eq-ok (seconds.scaled policy.initial_backoff policy.multiplier (attempt - 1)) _ made in
    let waits : min_of seconds policy.max_backoff curve ≡ wait = cc in
    rw (← waits) (
      asymmetric_min seconds policy.max_backoff curve
        (self_less seconds asymmetric policy.max_backoff) (asymmetric curve policy.max_backoff))
pause_bounded seconds policy attempt (some n) wait asymmetric valid h = ground arith
