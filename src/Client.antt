-- ===== src/Client.antt =====
-- client.py, `_post`, and _shell.py: one request is sent, and sent again while that is safe.
pub mod Attempts
pub mod Execute
mod Tests
use jmaplib.Prelude.{
  ℕ, zero, suc, ◌+◌, Text, codes, Bool, true, false, not, ◌&&◌, ◌||◌, List, [], ◌∷◌, ◌++◌, Option,
  none, some, if◌then◌else◌, ltb, leb, ◌==◌, nat_eq, list_eq, list_beq, starts_with, decimal,
  Result, ok, err, ◌>>=◌,
}
use jmaplib.Prelude.Dict.{Dict, lookup}
use jmaplib.Json.{Json, null, str, obj, fields}
use jmaplib.Response.{Response, Malformed, read_response, get_member}
use jmaplib.Retry.{
  Safety, never_applied, maybe_applied, futile, Failure, connect, timeout, interrupted,
  status_arrived, Overflow, Seconds, RetryPolicy, backoff, pause, classify, should_retry, max_of,
}

-- `RequestError`; `detail`, `title` and `limit` are whatever the problem says, and null for `None`.
pub record RequestError (D : Type 0) : Type 0 where
  pub problem_type : Text
  pub status : ℕ
  pub title : Json
  pub detail : Json
  pub limit : Json
  pub raw : Dict Text Json
  pub retry_after : Option D

-- An answer of the server: `challenges` are its `WWW-Authenticate` headers.
pub record Reply : Type 0 where
  pub status : ℕ
  pub headers : Dict Text Text
  pub challenges : List Text
  pub content : Text

-- What `httpx` does with one attempt: the three groups of exceptions, any other exception, such as one
-- of the credential, or an answer.
pub data Attempt : Type 0 where
  connect_failed timed_out broken_off escaped : Text → Attempt
  answered : Reply → Attempt

pub data PostError (D : Type 0) : Type 0 where
  transport_error : Text → PostError D
  authentication_error : List Text → PostError D
  request_error : RequestError D → PostError D
  bad_json : Text → PostError D
  not_an_object out_of_attempts overflow_error : PostError D
  -- what `dumps` or `to_wire` raises for the request, and what none of the handlers takes
  unencodable other_error : Text → PostError D
  malformed_response : Malformed → PostError D

-- What the sending of a request stands on. `loads` is the strict decoder of core/ijson.py, or the
-- `ValueError` that it raises; `int_seconds` is `float(int(text))` and `date_seconds` the time of
-- an HTTP date: none where Python reads no such thing, or what escapes from the number or from
-- `timestamp()`; `head_text` decodes the first 512 bytes of a body.
pub record Codecs (D : Type 0) : Type 0 where
  pub loads : Text → Result Text Json
  pub str_of : Json → Text
  pub strip : Text → Text
  pub head_text : Text → Text
  pub int_seconds : Text → Result Overflow (Option D)
  pub date_seconds : Text → Result Overflow (Option D)
  pub minus : D → D → D

-- `needle in text`
unfoldable pub occurs : Text → Text → Bool
unfolding starts_with
occurs needle [] = starts_with needle []
occurs needle (c ∷ s) = starts_with needle (c ∷ s) || occurs needle s

abbrev pub problem_content_type : Text
problem_content_type = codes "application/problem+json"

abbrev pub header_or : Text → Text → Dict Text Text → Text
header_or name fallback headers = elim (lookup name headers) [ none ↦ fallback | some v ↦ v ]

module _ {D : Type 0} (codecs : Codecs D) where
  -- `RequestError.from_problem`
  unfoldable pub from_problem : Dict Text Json → ℕ → RequestError D
  unfolding lookup list_beq
  from_problem body status = record {
    problem_type = elim (lookup (codes "type") body) [
      | none ↦ codes "about:blank"
      | some v ↦ codecs.str_of v
    ];
    status = status;
    title = get_member (codes "title") body;
    detail = get_member (codes "detail") body;
    limit = get_member (codes "limit") body;
    raw = body;
    retry_after = none;
  }

  abbrev pub text_or_null : Text → Json
  text_or_null [] = null
  text_or_null (c ∷ s) = str (c ∷ s)

  -- The error for an answer that is no problem document.
  abbrev pub plain_problem : Reply → RequestError D
  plain_problem reply = record {
    problem_type = codes "about:blank";
    status = reply.status;
    title = str (codes "HTTP " ++ decimal reply.status);
    detail = text_or_null (codecs.head_text reply.content);
    limit = null;
    raw = [];
    retry_after = none;
  }

  abbrev pub content_type : Reply → Text
  content_type reply =
      header_or (codes "content-type") (header_or (codes "Content-Type") [] reply.headers)
        reply.headers

  abbrev pub problem_from : Reply → Result Text Json → RequestError D
  problem_from reply (ok (obj fs)) = from_problem (fields fs) reply.status
  problem_from reply other = plain_problem reply

  -- `problem_of`
  unfoldable pub problem_of : Reply → Option (RequestError D)
  unfolding from_problem lookup list_beq occurs decimal
  problem_of reply =
      if leb 200 reply.status && ltb reply.status 300
      then none
      else if occurs problem_content_type (content_type reply)
      then some (problem_from reply (codecs.loads reply.content))
      else some (plain_problem reply)

  abbrev pub first_text : Option Text → Option Text → Text
  first_text (some (c ∷ s)) other = c ∷ s
  first_text empty (some t) = t
  first_text empty none = []

  abbrev pub date_delay : Seconds D → D → Option D → Option D
  date_delay seconds now none = none
  date_delay seconds now (some time) =
      some (max_of seconds seconds.zero_seconds (codecs.minus time now))

  -- `parse_retry_after`, of a `now` that is known.
  unfoldable pub parse_retry_after : Seconds D → Dict Text Text → D → Result Overflow (Option D)
  unfolding lookup list_beq
  parse_retry_after seconds headers now =
      parse_header
        (first_text (lookup (codes "retry-after") headers) (lookup (codes "Retry-After") headers))
    where
      parse_header : Text → Result Overflow (Option D)
      parse_header [] = ok none
      parse_header (c ∷ s) = elim (codecs.int_seconds (codecs.strip (c ∷ s))) [
        | err e ↦ err e
        | ok (some delay) ↦ ok (some (max_of seconds seconds.zero_seconds delay))
        | ok none ↦
            (codecs.date_seconds (codecs.strip (c ∷ s)) >>= λ time.
            ok (date_delay seconds now time))
      ]

  -- `failure_of`, of a problem that there is.
  abbrev pub failure_of : ℕ → RequestError D → Safety
  failure_of status problem = classify status_arrived (some status) (some problem.problem_type)

  -- `_parse_response`
  unfoldable pub parse_response : Text → Result (PostError D) Response
  unfolding read_response
  parse_response body = parse_json (codecs.loads body)
    where
      parse_read : Result Malformed Response → Result (PostError D) Response
      parse_read (ok response) = ok response
      parse_read (err e) = err (malformed_response e)

      parse_json : Result Text Json → Result (PostError D) Response
      parse_json (err e) = err (bad_json e)
      parse_json (ok (obj fs)) = parse_read (read_response codecs.str_of (fields fs))
      parse_json (ok other) = err not_an_object

-- What one round of the loop comes to: the end, or a question whether to send again, with the
-- delay before that and the error if not.
pub data Round (D : Type 0) : Type 0 where
  over : Result (PostError D) Response → Round D
  question : Safety → D → PostError D → Round D

abbrev pub unauthorized : ℕ
unauthorized = 401

module _ {D : Type 0} (codecs : Codecs D) (seconds : Seconds D) (policy : RetryPolicy D)
    (now : ℕ → D) where
  abbrev pub round_problem : ℕ → Reply → RequestError D → Result Overflow (Option D) → Round D
  round_problem attempt reply problem (err _) = over (err overflow_error)
  round_problem attempt reply problem (ok none) = over (err (request_error problem))
  round_problem attempt reply problem (ok (some delay)) =
      question (failure_of codecs reply.status problem) delay (request_error problem)

  -- `retry_pause`, by what the header gave.
  abbrev pub round_pause : ℕ → Reply → RequestError D → Result Overflow (Option D) → Round D
  round_pause attempt reply problem (err _) = over (err overflow_error)
  round_pause attempt reply problem (ok after) =
      round_problem attempt reply (record problem { retry_after = after })
        (pause seconds policy attempt after)

  -- A failure of the transport, by the delay before the next attempt.
  abbrev pub round_failure : Safety → Text → Result Overflow D → Round D
  round_failure safety e (err _) = over (err overflow_error)
  round_failure safety e (ok delay) = question safety delay (transport_error e)

  abbrev pub round_answer : ℕ → Reply → Option (RequestError D) → Round D
  round_answer attempt reply none = over (parse_response codecs reply.content)
  round_answer attempt reply (some problem) =
      let after = parse_retry_after codecs seconds reply.headers (now attempt) in
      if reply.status == unauthorized
      then over (err (authentication_error reply.challenges))
      else round_pause attempt reply problem after

  -- One round, of the attempt with this number.
  unfoldable pub round : ℕ → Attempt → Round D
  unfolding classify backoff pause problem_of parse_retry_after parse_response
  round attempt (connect_failed e) =
      round_failure (classify connect none none) e (backoff seconds policy attempt none)
  round attempt (timed_out e) =
      round_failure (classify timeout none none) e (backoff seconds policy attempt none)
  round attempt (broken_off e) =
      round_failure (classify interrupted none none) e (backoff seconds policy attempt none)
  round attempt (escaped e) = over (err (other_error e))
  round attempt (answered reply) = round_answer attempt reply (problem_of codecs reply)

  module _ (transport : ℕ → Attempt) (mutating guarded : Bool) where
    -- The loop from an attempt on, with fuel: how many attempts were made in all, and the outcome.
    unfoldable pub post_from : ℕ → ℕ → ℕ × Result (PostError D) Response
    unfolding round should_retry
    post_from zero attempt = (attempt, err out_of_attempts)
    post_from (suc fuel) attempt =
        let more = post_from fuel (suc attempt) in
        elim (round attempt (transport attempt)) [
          | over outcome ↦ (attempt, outcome)
          | question safety delay error ↦
              if should_retry safety policy attempt mutating guarded
              then more
              else (attempt, err error)
        ]

    -- `_post`, given whether the request can be encoded, or what that raises: `max_attempts` rounds,
    -- or one, are fuel enough.
    unfoldable pub post : Result Text (Unit {0}) → ℕ × Result (PostError D) Response
    unfolding post_from
    post (err e) = (0, err (unencodable e))
    post (ok _) = post_from (suc policy.max_attempts) 1
