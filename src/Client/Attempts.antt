-- ===== src/Client/Attempts.antt =====
-- How often `_post` sends a request, and when it sends one again.
use jmaplib.Prelude.{
  ℕ, zero, suc, ◌+◌, ◌≤◌, ◌<◌, max, Text, Bool, true, false, ◌||◌, Option, none, some,
  if◌then◌else◌, ◌==◌, nat_eq, nat_beq, nat_beq_iff, list_eq, Bool-cases, inl, inr, Result, ok, err,
  ◌≡◌, refl, sym, subst, arith,
}
use jmaplib.Response.{Response}
use jmaplib.Retry.{
  Overflow, backoff, Safety, never_applied, maybe_applied, futile, Seconds, RetryPolicy, pause,
  classify, should_retry, urn_limit, status_rate_limited, status_service_unavailable,
  status_arrived,
}
use jmaplib.Client.{
  Attempt, connect_failed, timed_out, broken_off, answered, Reply, Codecs, PostError, RequestError,
  Round, over, question, round, round_answer, round_problem, round_pause, round_failure, escaped,
  unencodable, problem_of, post, post_from, unauthorized, authentication_error, parse_retry_after,
}

-- The server has not run the calls: nothing was sent, or it was turned away for a limit, with 429 or
-- with 503.
abbrev pub was_not_run : {D : Type 0} → Codecs D → Attempt → Bool
was_not_run codecs (connect_failed e) = true
was_not_run codecs (timed_out e) = false
was_not_run codecs (broken_off e) = false
was_not_run codecs (escaped e) = false
was_not_run codecs (answered reply) = elim (problem_of codecs reply) [
  | none ↦ false
  | some problem ↦
      problem.problem_type == urn_limit
      || reply.status == status_rate_limited
      || reply.status == status_service_unavailable
]

module _ {D : Type 0} (codecs : Codecs D) (seconds : Seconds D) (policy : RetryPolicy D)
    (now : ℕ → D) (mutating guarded : Bool) where
  -- A round after which the request is sent again.
  abbrev IsAgain : ℕ → Round D → Type 0
  IsAgain attempt (over outcome) = ⊥
  IsAgain attempt (question safety delay error) =
      should_retry safety policy attempt mutating guarded ≡ true

  abbrev pub IsRetried : ℕ → Attempt → Type 0
  IsRetried attempt a = IsAgain attempt (round codecs seconds policy now attempt a)

  -- The outcome of the last round.
  abbrev IsLast : ℕ → Result (PostError D) Response → Round D → Type 0
  IsLast attempt outcome (over r) = outcome ≡ r
  IsLast attempt outcome (question safety delay error) =
      (outcome ≡ err error) × (should_retry safety policy attempt mutating guarded ≡ false)

  abbrev pub IsOutcome : ℕ → Attempt → Result (PostError D) Response → Type 0
  IsOutcome attempt a outcome = IsLast attempt outcome (round codecs seconds policy now attempt a)

  should_retry_room :
      (safety : Safety) (attempt : ℕ)
      → should_retry safety policy attempt mutating guarded ≡ true
      → attempt < policy.max_attempts
  unfolding should_retry
  should_retry_room safety attempt h = ground arith

  module _ (transport : ℕ → Attempt) where
    abbrev run_from : ℕ → ℕ → ℕ × Result (PostError D) Response
    run_from fuel attempt =
        post_from codecs seconds policy now transport mutating guarded fuel attempt

    abbrev go_on : ℕ → ℕ → Round D → ℕ × Result (PostError D) Response
    go_on fuel attempt (over outcome) = (attempt, outcome)
    go_on fuel attempt (question safety delay error) =
        if should_retry safety policy attempt mutating guarded
        then run_from fuel (suc attempt)
        else (attempt, err error)

    run_from_go :
        (fuel attempt : ℕ)
        → run_from (suc fuel) attempt
          ≡ go_on fuel attempt (round codecs seconds policy now attempt (transport attempt))
    unfolding post_from
    run_from_go fuel attempt = go (round codecs seconds policy now attempt (transport attempt))
      where
        go :
            (r : Round D)
            → ◌≡◌ {A = ℕ × Result (PostError D) Response}
                (elim r as (λ _. ℕ × Result (PostError D) Response) [
                  | over outcome ↦ (attempt, outcome)
                  | question safety delay error ↦
                      if should_retry safety policy attempt mutating guarded
                      then post_from codecs seconds policy now transport mutating guarded fuel
                          (suc attempt)
                      else (attempt, err error)
                ])
                (go_on fuel attempt r)
        go (over outcome) = refl
        go (question safety delay error) = refl

    -- What a run that starts at an attempt keeps to.
    pub record IsRun (first : ℕ) (run : ℕ × Result (PostError D) Response) : Type 0 where
      pub starts : first ≤ run.0
      pub ends : run.0 ≤ max first policy.max_attempts
      pub outcome : IsOutcome run.0 (transport run.0) run.1

    go_on-IsRun :
        (fuel attempt : ℕ) (r : Round D)
        → r ≡ round codecs seconds policy now attempt (transport attempt)
        → policy.max_attempts < suc fuel + attempt
        → ((policy.max_attempts < fuel + suc attempt)
            → attempt < policy.max_attempts
            → IsRun (suc attempt) (run_from fuel (suc attempt)))
        → IsRun attempt (go_on fuel attempt r)
    go_on-IsRun fuel attempt (over outcome) e room more = record {
      starts = omega arith;
      ends = omega arith;
      outcome = subst (IsLast attempt outcome) e refl;
    }
    go_on-IsRun fuel attempt (question safety delay error) e room more =
        elim (Bool-cases (should_retry safety policy attempt mutating guarded)) [
          | inl again ↦
              let less = should_retry_room safety attempt again in
              let later = more (omega arith) less in
              rw again (record {
                starts = omega (arith, later.starts);
                ends = omega (arith, later.ends, less);
                outcome = later.outcome;
              })
          | inr stop ↦ rw stop (record {
            starts = omega arith;
            ends = omega arith;
            outcome = subst (IsLast attempt (err error)) e (refl, stop);
          })
        ]

    run_from-IsRun :
        (fuel attempt : ℕ)
        → 1 ≤ fuel
        → policy.max_attempts < fuel + attempt
        → IsRun attempt (run_from fuel attempt)
    run_from-IsRun zero attempt some_fuel room = absurd (omega arith)
    run_from-IsRun (suc fuel) attempt some_fuel room =
        subst (IsRun attempt) (sym (run_from_go fuel attempt)) (
          go_on-IsRun fuel attempt (round codecs seconds policy now attempt (transport attempt))
            refl room (λ left less. run_from-IsRun fuel (suc attempt) (omega arith) left))

    go_on-IsRetried :
        (fuel attempt k : ℕ) (r : Round D)
        → r ≡ round codecs seconds policy now attempt (transport attempt)
        → attempt ≤ k
        → k < (go_on fuel attempt r).0
        → (suc attempt ≤ k → k < (run_from fuel (suc attempt)).0 → IsRetried k (transport k))
        → IsRetried k (transport k)
    go_on-IsRetried fuel attempt k (over outcome) e from before more = absurd (omega arith)
    go_on-IsRetried fuel attempt k (question safety delay error) e from before more =
        elim (Bool-cases (should_retry safety policy attempt mutating guarded)) [
          | inr stop ↦ absurd (let below = rw stop at before in omega arith)
          | inl again ↦ elim (Bool-cases (nat_beq attempt k)) [
            | inl same ↦
                subst (λ j. IsRetried j (transport j)) ((nat_beq_iff attempt k).0 same)
                  (subst (IsAgain attempt) e again)
            | inr other ↦ more (ground arith) (rw again at before)
          ]
        ]

    run_from-IsRetried :
        (fuel attempt k : ℕ)
        → attempt ≤ k
        → k < (run_from fuel attempt).0
        → IsRetried k (transport k)
    unfolding post_from
    run_from-IsRetried zero attempt k from before = absurd (omega arith)
    run_from-IsRetried (suc fuel) attempt k from before =
        go_on-IsRetried fuel attempt k (round codecs seconds policy now attempt (transport attempt))
          refl from (subst (λ run. k < run.0) (run_from_go fuel attempt) before)
          (λ later less. run_from-IsRetried fuel (suc attempt) k later less)

    -- A request that cannot be encoded is not sent; of any other the attempts are a run from the first.
    abbrev pub IsPosted : Result Text (Unit {0}) → ℕ × Result (PostError D) Response → Type 0
    IsPosted (err e) run = run ≡ (0, err (unencodable e))
    IsPosted (ok _) run = IsRun 1 run

    -- Sending a request always ends. One that cannot be encoded ends with what that raises and no
    -- attempt; any other ends after at least one attempt and at most as many as the policy allows, or
    -- one, with the outcome of the last attempt: its answer, its error, or an exception raised on it.
    pub post-IsPosted :
        (encoded : Result Text (Unit {0}))
        → IsPosted encoded (post codecs seconds policy now transport mutating guarded encoded)
    unfolding post
    post-IsPosted (err e) = refl
    post-IsPosted (ok _) = run_from-IsRun (suc policy.max_attempts) 1 (omega arith) (omega arith)

    post-IsRetried :
        (encoded : Result Text (Unit {0})) (k : ℕ)
        → 1 ≤ k
        → k < (post codecs seconds policy now transport mutating guarded encoded).0
        → IsRetried k (transport k)
    unfolding post
    post-IsRetried (err e) k from before = absurd (omega arith)
    post-IsRetried (ok _) k from before =
        run_from-IsRetried (suc policy.max_attempts) 1 k from before

  module _ (mutates : mutating ≡ true) (unguarded : guarded ≡ false) where
    should_retry_never_applied :
        (safety : Safety) (attempt : ℕ)
        → should_retry safety policy attempt mutating guarded ≡ true
        → safety ≡ never_applied
    unfolding should_retry
    should_retry_never_applied never_applied attempt h = refl
    should_retry_never_applied maybe_applied attempt h = ground arith
    should_retry_never_applied futile attempt h = ground arith

    turned_away :
        (status : ℕ) (problem_type : Text)
        → classify status_arrived (some status) (some problem_type) ≡ never_applied
        → (problem_type == urn_limit
            || status == status_rate_limited
            || status == status_service_unavailable)
          ≡ true
    unfolding classify
    turned_away status problem_type h = ground arith

    problem_not_run :
        (attempt : ℕ) (reply : Reply) (problem : RequestError D)
        (delay : Result Overflow (Option D))
        → IsAgain attempt (round_problem codecs seconds policy now attempt reply problem delay)
        → (problem.problem_type == urn_limit
            || reply.status == status_rate_limited
            || reply.status == status_service_unavailable)
          ≡ true
    problem_not_run attempt reply problem (err e) h = absurd h
    problem_not_run attempt reply problem (ok none) h = absurd h
    problem_not_run attempt reply problem (ok (some delay)) h =
        turned_away reply.status problem.problem_type (
          should_retry_never_applied
            (classify status_arrived (some reply.status) (some problem.problem_type)) attempt h)

    pause_not_run :
        (attempt : ℕ) (reply : Reply) (problem : RequestError D)
        (after : Result Overflow (Option D))
        → IsAgain attempt (round_pause codecs seconds policy now attempt reply problem after)
        → (problem.problem_type == urn_limit
            || reply.status == status_rate_limited
            || reply.status == status_service_unavailable)
          ≡ true
    pause_not_run attempt reply problem (err e) h = absurd h
    pause_not_run attempt reply problem (ok after) h =
        problem_not_run attempt reply (record problem { retry_after = after })
          (pause seconds policy attempt after) h

    failure_again :
        (attempt : ℕ) (safety : Safety) (e : Text) (delay : Result Overflow D)
        → IsAgain attempt (round_failure codecs seconds policy now safety e delay)
        → should_retry safety policy attempt mutating guarded ≡ true
    failure_again attempt safety e (err raised) h = absurd h
    failure_again attempt safety e (ok delay) h = h

    again_not_run :
        (attempt : ℕ) (reply : Reply) (p : Option (RequestError D))
        → p ≡ problem_of codecs reply
        → IsAgain attempt (round_answer codecs seconds policy now attempt reply p)
        → was_not_run codecs (answered reply) ≡ true
    again_not_run attempt reply none e h = absurd h
    again_not_run attempt reply (some problem) e h =
        let after = parse_retry_after codecs seconds reply.headers (now attempt) in
        let branch : Bool → Round D = λ b.
          if b
          then over (err (authentication_error reply.challenges))
          else round_pause codecs seconds policy now attempt reply problem after in
        elim (Bool-cases (reply.status == unauthorized)) [
          | inl refused ↦ absurd (subst (λ b. IsAgain attempt (branch b)) refused h)
          | inr other ↦
              rw (← e, was_not_run)
                (pause_not_run attempt reply problem after
                  (subst (λ b. IsAgain attempt (branch b)) other h))
        ]

    retried_not_run :
        (attempt : ℕ) (a : Attempt) → IsRetried attempt a → was_not_run codecs a ≡ true
    unfolding round classify
    retried_not_run attempt (connect_failed e) h = refl
    retried_not_run attempt (timed_out e) h = cc (
        should_retry_never_applied maybe_applied attempt
          (failure_again attempt maybe_applied e (backoff seconds policy attempt none) h))
    retried_not_run attempt (broken_off e) h = cc (
        should_retry_never_applied maybe_applied attempt
          (failure_again attempt maybe_applied e (backoff seconds policy attempt none) h))
    retried_not_run attempt (escaped e) h = absurd h
    retried_not_run attempt (answered reply) h =
        again_not_run attempt reply (problem_of codecs reply) refl h

    -- Where the batch changes state and not all of its changes are guarded, each attempt before the
    -- last one that is made was not run by the server: it did not reach it, or it was turned away for
    -- a limit, with 429 or with 503.
    pub post-was_not_run :
        (transport : ℕ → Attempt) (encoded : Result Text (Unit {0})) (k : ℕ)
        → 1 ≤ k
        → k < (post codecs seconds policy now transport mutating guarded encoded).0
        → was_not_run codecs (transport k) ≡ true
    post-was_not_run transport encoded k from before =
        retried_not_run k (transport k) (post-IsRetried transport encoded k from before)
