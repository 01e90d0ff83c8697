-- ===== src/Push/Tests.antt =====
-- Requests over a socket at small inputs, and the theorems about them there.
use jmaplib.Prelude.{
  ℕ, ◌<◌, ◌≤◌, ◌≡◌, refl, Text, codes, true, false, not, ◌&&◌, ◌||◌, [], ◌∷◌, ◌++◌, none, some,
  if◌then◌else◌, ◌==◌, list_eq, nat_eq, list_beq, ok, err, decimal, decimal_from,
}
use jmaplib.Prelude.Dict.{lookup}
use jmaplib.Json.{obj, str, field, end}
use jmaplib.Patch.{contains}
use jmaplib.Response.{Response}
use jmaplib.Push.Protocol.{
  Codec, StateChange, response_message, state_change, not_in_flight, classify_frame,
  next_request_id, request_id_of,
}
use jmaplib.Push.Protocol.Numbers.{next_request_id_fresh}
use jmaplib.Push.Socket.{Client, frame, violation, exchange}
use jmaplib.Push.Socket.Exchange.{frames, exchange_matched}

-- A frame "c" is a change; any other names the request that it answers.
abbrev small_codec : Codec
small_codec = record {
  loads = λ text.
      if text == codes "c"
      then some (obj (field (codes "@type") (str (codes "StateChange")) end))
      else some (
          obj (
            field (codes "@type") (str (codes "Response"))
              (field (codes "requestId") (str text) end)));
  str_of = λ v. [];
  read_change = λ body. some (record { changed = []; push_state = some (codes "p1") });
}

abbrev busy : Client
busy = record {
  protocol = record { push_state = none; counter = 0; outstanding = codes "r1" ∷ [] };
  pending = [];
  is_open = true;
}

abbrev pushed_change : StateChange
pushed_change = record { changed = []; push_state = some (codes "p1") }

abbrev empty_response : Response
empty_response = record { method_responses = []; created_ids = []; session_state = [] }

reads_change : classify_frame small_codec (codes "c") ≡ ok (state_change pushed_change)
unfolding classify_frame lookup list_beq
reads_change = refl

reads_answer :
    classify_frame small_codec (codes "r2")
    ≡ ok (response_message empty_response (some (codes "r2")))
unfolding classify_frame lookup list_beq
reads_answer = refl

taken_id :
    next_request_id busy.protocol
    ≡ some (codes "r2", record { push_state = none; counter = 2; outstanding = codes "r1" ∷ [] })
unfolding next_request_id contains decimal_from decimal
taken_id = refl

next_request_id_fresh_example :
    (n : ℕ) × (next_request_id busy.protocol
      ≡ some (request_id_of n, record busy.protocol { counter = n }))
    × (contains busy.protocol.outstanding (request_id_of n) ≡ false)
    × (0 < n)
    × (n ≤ 2)
next_request_id_fresh_example = next_request_id_fresh busy.protocol

exchange_matched_example :
    (id : Text) × (after : Client) × (contains busy.protocol.outstanding id ≡ false)
    × (exchange small_codec true []
          (frames ((codes "c", pushed_change) ∷ []) ++ frame (codes "r2") ∷ [])
          busy
        ≡ (
          some (
              if codes "r2" == id
              then ok empty_response
              else err (violation (not_in_flight (codes "r2")))),
          after,
          [],
        ))
    × (after.pending ≡ pushed_change ∷ [])
    × (after.is_open ≡ (codes "r2" == id))
    × ((x : Text)
        → contains after.protocol.outstanding x
          ≡ (not (codes "r2" == x) && (id == x || contains busy.protocol.outstanding x)))
exchange_matched_example =
    exchange_matched small_codec busy [] ((codes "c", pushed_change) ∷ []) (codes "r2")
      empty_response (codes "r2") [] refl (reads_change, tt) reads_answer
