-- ===== src/Retry.antt =====
-- core/retry.py: whether a failed request is sent again, and after how long.
pub mod Laws
mod Tests
use jmaplib.Prelude.{
  ℕ, zero, suc, ◌-◌, ◌*◌, ◌^◌, min, ltb, leb, if◌then◌else◌, Bool, true, false, not, ◌||◌, ◌&&◌,
  Option, none, some, Text, codes, ◌==◌, nat_eq, list_eq, list_beq, Result, ok, err, ◌>>=◌,
}

pub data Safety : Type 0 where
  never_applied maybe_applied futile : Safety

pub data Failure : Type 0 where
  connect timeout interrupted status_arrived : Failure

abbrev pub status_rate_limited : ℕ
status_rate_limited = 429

abbrev pub status_service_unavailable : ℕ
status_service_unavailable = 503

abbrev pub urn_limit : Text
urn_limit = codes "urn:ietf:params:jmap:error:limit"

abbrev pub is_limit_problem : Option Text → Bool
is_limit_problem none = false
is_limit_problem (some t) = t == urn_limit

abbrev pub classify_status : Option ℕ → Safety
classify_status none = futile
classify_status (some s) =
    if s == status_rate_limited || s == status_service_unavailable
    then never_applied
    else if leb 500 s
    then maybe_applied
    else futile

unfoldable pub classify : Failure → Option ℕ → Option Text → Safety
unfolding list_beq
classify connect status problem_type = never_applied
classify timeout status problem_type = maybe_applied
classify interrupted status problem_type = maybe_applied
classify status_arrived status problem_type =
    if is_limit_problem problem_type then never_applied else classify_status status

-- `OverflowError`, which Python raises where a power, an integer or a time is too large for a float
-- or the clock, and with it the `ValueError` of such a time.
pub data Overflow : Type 0 where
  overflow : Overflow

-- Python's floats, as far as the delays use them: 0.0, `<`, and `initial * multiplier ** exponent`.
pub record Seconds (D : Type 0) : Type 0 where
  pub zero_seconds : D
  pub less : D → D → Bool
  pub scaled : D → D → ℕ → Result Overflow D

-- `min(a, b)` and `max(a, b)`, which return `a` unless `b` is the smaller, or the larger.
abbrev pub min_of : {D : Type 0} → Seconds D → D → D → D
min_of seconds a b = if seconds.less b a then b else a

abbrev pub max_of : {D : Type 0} → Seconds D → D → D → D
max_of seconds a b = if seconds.less a b then b else a

pub record RetryPolicy (D : Type 0) : Type 0 where
  pub max_attempts : ℕ
  pub initial_backoff : D
  pub max_backoff : D
  pub multiplier : D
  pub max_retry_after : D

-- `RetryPolicy.backoff`
unfoldable pub backoff : {D : Type 0} → Seconds D → RetryPolicy D → ℕ → Option D → Result Overflow D
backoff seconds policy attempt (some retry_after) =
    ok (max_of seconds seconds.zero_seconds retry_after)
backoff seconds policy attempt none =
    seconds.scaled policy.initial_backoff policy.multiplier (attempt - 1) >>= λ curve.
    ok (min_of seconds policy.max_backoff curve)

-- `RetryPolicy.pause`
unfoldable pub pause :
    {D : Type 0} → Seconds D → RetryPolicy D → ℕ → Option D → Result Overflow (Option D)
unfolding backoff
pause seconds policy attempt none = backoff seconds policy attempt none >>= λ delay. ok (some delay)
pause seconds policy attempt (some retry_after) =
    if seconds.less policy.max_retry_after retry_after
    then ok none
    else (backoff seconds policy attempt (some retry_after) >>= λ delay. ok (some delay))

unfoldable pub should_retry :
    {D : Type 0} → Safety → RetryPolicy D → ℕ → (mutating all_mutations_guarded : Bool) → Bool
should_retry safety policy attempt mutating all_mutations_guarded =
    if leb policy.max_attempts attempt then false else elim safety [
      | futile ↦ false
      | never_applied ↦ true
      | maybe_applied ↦ not mutating || all_mutations_guarded
    ]
