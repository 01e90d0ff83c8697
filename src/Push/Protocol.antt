-- ===== src/Push/Protocol.antt =====
-- push/websocket.py: `WebSocketProtocol`, which frames requests and classifies what arrives. The
-- set of outstanding ids is a list without repetitions.
pub mod Numbers
use jmaplib.Prelude.{
  ℕ, zero, suc, Text, codes, Bool, true, false, not, List, [], ◌∷◌, ◌++◌, length, Option, none,
  some, if◌then◌else◌, ◌==◌, nat_eq, list_eq, list_beq, decimal, Result, ok, err,
}
use jmaplib.Prelude.Dict.{Dict, lookup, insert}
use jmaplib.Json.{Json, obj, str, fields}
use jmaplib.Invocation.{Value}
use jmaplib.Patch.{contains}
use jmaplib.Response.{Response, read_response, get_member}

-- `StateChange` of models/push.py, as far as the protocol reads it.
pub record StateChange : Type 0 where
  pub changed : Dict Text (Dict Text Text)
  pub push_state : Option Text

pub data Incoming : Type 0 where
  response_message : Response → Option Text → Incoming
  -- `RequestError.from_problem(body)`, by the body
  request_error_message : Dict Text Json → Option Text → Incoming
  state_change : StateChange → Incoming

-- `WebSocketProtocolError`, by what it says.
pub data Violation : Type 0 where
  not_json not_object malformed_response malformed_change unexpected_type not_text : Violation
  not_in_flight : Text → Violation

-- What the protocol calls: the parser of a frame, `str` of a decoded value, and the check of a
-- `StateChange` by its model.
pub record Codec : Type 0 where
  pub loads : Text → Option Json
  pub str_of : Json → Text
  pub read_change : Dict Text Json → Option StateChange

pub record Protocol : Type 0 where
  pub push_state : Option Text
  pub counter : ℕ
  pub outstanding : List Text

abbrev pub request_id_of : ℕ → Text
request_id_of n = b'r' ∷ decimal n

-- The loop of `next_request_id` from a counter: the number of the first free id.
unfoldable pub next_number : ℕ → ℕ → List Text → Option ℕ
next_number zero counter outstanding = none
next_number (suc fuel) counter outstanding =
    let later = next_number fuel (suc counter) outstanding in
    if not (contains outstanding (request_id_of (suc counter))) then some (suc counter) else later

abbrev pub with_number : Protocol → Option ℕ → Option (Text × Protocol)
with_number p none = none
with_number p (some n) = some (request_id_of n, record p { counter = n })

-- `next_request_id`: each round that goes on has met another outstanding id.
unfoldable pub next_request_id : Protocol → Option (Text × Protocol)
unfolding next_number
next_request_id p = with_number p (next_number (suc (length p.outstanding)) p.counter p.outstanding)

abbrev pub add_id : Text → List Text → List Text
add_id id ids = if contains ids id then ids else id ∷ ids

unfoldable pub discard : Text → List Text → List Text
unfolding list_beq
discard id [] = []
discard id (x ∷ xs) = let rest = discard id xs in if x == id then rest else x ∷ rest

-- What goes wrong before a request is framed.
pub data Misuse : Type 0 where
  awaiting_answer : Text → Misuse
  -- the loop of `next_request_id` has not ended
  no_id : Misuse

-- `encode_request` with an id: the body that is framed, without the request that cannot be one.
unfoldable pub encode_with : Protocol → Dict Text Value → Text → Dict Text Value × Protocol
unfolding contains insert
encode_with p body id = (
  insert (codes "id") (Value.str id) (insert (codes "@type") (Value.str (codes "Request")) body),
  record p { outstanding = add_id id p.outstanding },
)

abbrev pub encode_named :
    Dict Text Value → Option (Text × Protocol) → Result Misuse (Dict Text Value × Protocol)
encode_named body none = err no_id
encode_named body (some (id, p)) = ok (encode_with p body id)

-- `encode_request`; the body is `request.to_wire()`.
unfoldable pub encode_request :
    Protocol → Dict Text Value → Option Text → Result Misuse (Dict Text Value × Protocol)
unfolding encode_with next_request_id contains
encode_request p body (some (c ∷ id)) =
    if contains p.outstanding (c ∷ id)
    then err (awaiting_answer (c ∷ id))
    else ok (encode_with p body (c ∷ id))
encode_request p body unnamed = encode_named body (next_request_id p)

-- `settle`
unfoldable pub settle : Protocol → Option Text → Protocol
settle p none = p
settle p (some id) = record p { outstanding = discard id p.outstanding }

-- `_identifier`
abbrev pub identifier : Dict Text Json → Option Text
identifier body = elim (get_member (codes "requestId") body) [ str s ↦ some s | _ ↦ none ]

abbrev pub has_tag : Dict Text Json → Text → Bool
has_tag body tag = elim (get_member (codes "@type") body) [ str s ↦ s == tag | _ ↦ false ]

-- The part of `decode` after the frame has been read as an object.
unfoldable pub classify_body : Codec → Dict Text Json → Result Violation Incoming
unfolding read_response lookup list_beq
classify_body codec body =
    if has_tag body (codes "Response")
    then elim (read_response codec.str_of body) [
      | err _ ↦ err malformed_response
      | ok response ↦ ok (response_message response (identifier body))
    ]
    else if has_tag body (codes "StateChange")
    then elim (codec.read_change body) [
      | none ↦ err malformed_change
      | some change ↦ ok (state_change change)
    ]
    else if has_tag body (codes "RequestError")
    then ok (request_error_message body (identifier body))
    else err unexpected_type

unfoldable pub classify_frame : Codec → Text → Result Violation Incoming
unfolding classify_body
classify_frame codec text = elim (codec.loads text) [
  | none ↦ err not_json
  | some (obj fs) ↦ classify_body codec (fields fs)
  | some _ ↦ err not_object
]

-- What `decode` remembers of a frame.
abbrev pub remember : Incoming → Protocol → Protocol
remember (state_change change) p = elim change.push_state [
  | none ↦ p
  | some s ↦ record p { push_state = some s }
]
remember _ p = p

abbrev pub decoded : Protocol → Result Violation Incoming → Result Violation Incoming × Protocol
decoded p (err e) = (err e, p)
decoded p (ok m) = (ok m, remember m p)

unfoldable pub decode : Codec → Protocol → Text → Result Violation Incoming × Protocol
unfolding classify_frame
decode codec p text = decoded p (classify_frame codec text)

-- `should_reauthenticate`
abbrev pub should_reauthenticate : Option ℕ → Bool
should_reauthenticate none = false
should_reauthenticate (some code) = code == 1008
