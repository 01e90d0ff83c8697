-- ===== src/Client/Tests.antt =====
-- A request that is turned away once and then answered, and a batch that is executed.
use jmaplib.Prelude.{
  ℕ, zero, suc, ◌-◌, ◌*◌, ◌^◌, ◌<◌, ltb, Text, true, false, [], none, Result, ok, err, ◌≡◌, refl,
  arith, nat_eq, list_eq, list_beq, decimal, starts_with,
}
use jmaplib.Prelude.Dict.{Dict, lookup}
use jmaplib.Json.{Json, obj, end}
use jmaplib.Request.{Request}
use jmaplib.Response.{
  Response, read_response, read_responses, read_created_value, read_created, read_triples,
}
use jmaplib.Retry.{Seconds, RetryPolicy, classify, backoff, pause, should_retry}
use jmaplib.Capabilities.Tests.{active}
use jmaplib.Batch.Sending.{pending}
use jmaplib.Batch.Tests.{batcher, two_calls, two_calls_made, empty_response, str_of}
use jmaplib.Client.{
  unencodable, Attempt, answered, timed_out, Codecs, PostError, round, problem_of, from_problem,
  occurs, parse_retry_after, parse_response, post, post_from,
}
use jmaplib.Client.Attempts.{was_not_run, IsPosted, post-IsPosted, post-was_not_run}
use jmaplib.Client.Execute.{Progress, execute, send_all, session_is_stale, execute-AllSettled}

poster : Unit {0}
unfolding post post_from round problem_of from_problem occurs parse_retry_after parse_response
    classify backoff pause should_retry starts_with decimal lookup list_beq read_response
    read_responses read_created_value read_created read_triples
poster = tt

-- Whole seconds, and a decoder that reads an empty object from any body.
abbrev whole : Seconds ℕ
whole = record {
  zero_seconds = 0;
  less = ltb;
  scaled = λ initial multiplier n. ok (initial * multiplier ^ n);
}

abbrev codecs : Codecs ℕ
codecs = record {
  loads = λ body. ok (obj end);
  str_of = str_of;
  strip = λ t. t;
  head_text = λ t. t;
  int_seconds = λ t. ok none;
  date_seconds = λ t. ok none;
  minus = λ a b. a - b;
}

abbrev policy : RetryPolicy ℕ
policy = record {
  max_attempts = 3;
  initial_backoff = 1;
  max_backoff = 30;
  multiplier = 2;
  max_retry_after = 120;
}

abbrev replied : ℕ → Attempt
replied status = answered (record { status = status; headers = []; challenges = []; content = [] })

abbrev transport : ℕ → Attempt
transport (suc zero) = replied 503
transport _ = replied 200

post_run : post codecs whole policy (λ n. 0) transport true false (ok tt) ≡ (2, ok empty_response)
unfolding poster
post_run = refl

timeout_kept : (post codecs whole policy (λ n. 0) (λ n. timed_out []) true false (ok tt)).0 ≡ 1
unfolding poster
timeout_kept = refl

timeout_repeated : (post codecs whole policy (λ n. 0) (λ n. timed_out []) false false (ok tt)).0 ≡ 3
unfolding poster
timeout_repeated = refl

post-IsPosted_example :
    IsPosted codecs whole policy
      (λ n. 0)
      true
      false
      transport
      (ok tt)
      (post codecs whole policy (λ n. 0) transport true false (ok tt))
post-IsPosted_example = post-IsPosted codecs whole policy (λ n. 0) true false transport (ok tt)

unencodable_unsent :
    post codecs whole policy (λ n. 0) transport true false (err []) ≡ (0, err (unencodable []))
unfolding poster
unencodable_unsent = refl

sent_twice : 1 < (post codecs whole policy (λ n. 0) transport true false (ok tt)).0
unfolding poster
sent_twice = omega arith

post-was_not_run_example : was_not_run codecs (replied 503) ≡ true
post-was_not_run_example =
    post-was_not_run codecs whole policy (λ n. 0) true false refl refl transport (ok tt) 1
      (omega arith) sent_twice

abbrev server : ℕ → Request (Dict Text Json) → Result (PostError ℕ) Response
server left request = ok empty_response

abbrev start : Progress (Dict Text Json)
start = record { batch = two_calls; session_stale = false }

executor : Unit {0}
unfolding batcher execute send_all session_is_stale
executor = tt

executed : (execute str_of active.session server [] start).1 ≡ none
unfolding executor
executed = refl

execute-AllSettled_example : pending (execute str_of active.session server [] start).0.batch ≡ []
execute-AllSettled_example =
    execute-AllSettled str_of active.session server [] start two_calls_made executed
