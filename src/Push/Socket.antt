-- ===== src/Push/Socket.antt =====
-- push/websocket_client.py: `WebSocketClient._receive`, `_exchange`, `_send` and `_reject` over the
-- events that the socket delivers, which are given as a list.
pub mod Exchange
use jmaplib.Prelude.{
  ℕ, Text, Bool, true, false, not, List, [], ◌∷◌, ◌++◌, Option, none, some, if◌then◌else◌, ◌==◌,
  nat_eq, list_eq, list_beq, Result, ok, err,
}
use jmaplib.Prelude.Dict.{Dict}
use jmaplib.Json.{Json}
use jmaplib.Invocation.{Value}
use jmaplib.Response.{Response}
use jmaplib.Push.Protocol.{
  Protocol, Codec, Incoming, StateChange, Violation, Misuse, response_message,
  request_error_message, state_change, not_text, not_in_flight, next_request_id, encode_request,
  settle, decode,
}

-- What `receive_text` answers.
pub data Event : Type 0 where
  frame : Text → Event
  timed_out not_a_text broken : Event
  disconnected : ℕ → Event

-- How a call ends other than by its value.
pub data Stop : Type 0 where
  not_open timeout normal_close transport_error : Stop
  closed : ℕ → Stop
  violation : Violation → Stop
  misuse : Misuse → Stop
  request_error : Dict Text Json → Stop

pub record Client : Type 0 where
  pub protocol : Protocol
  -- the changes that arrived while a request waited, the oldest first
  pub pending : List StateChange
  pub is_open : Bool

-- `close`
abbrev pub shut : Client → Client
shut c = record c { is_open = false }

abbrev pub received : Client → Result Violation Incoming × Protocol → Result Stop Incoming × Client
received c (ok m, p) = (ok m, record c { protocol = p })
received c (err e, p) = (err (violation e), record c { protocol = p; is_open = false })

-- `_receive` on an open socket
unfoldable pub receive : Codec → Event → Client → Result Stop Incoming × Client
unfolding decode
receive codec (frame text) c = received c (decode codec c.protocol text)
receive codec timed_out c = (err timeout, c)
receive codec not_a_text c = (err (violation not_text), shut c)
receive codec broken c = (err transport_error, shut c)
receive codec (disconnected code) c =
    if code == 1000 then (err normal_close, shut c) else (err (closed code), shut c)

-- `message.request_id not in (request_id, None)`
abbrev pub mismatches : Text → Option Text → Bool
mismatches id none = false
mismatches id (some named) = not (named == id)

abbrev pub named_or_empty : Option Text → Text
named_or_empty none = []
named_or_empty (some id) = id

-- `settle`, the check of the id, and what the answer comes to.
abbrev pub answered_with :
    Text → Option Text → Result Stop Response → Client → Result Stop Response × Client
answered_with id named answer c =
    let settled = record c { protocol = settle c.protocol named } in
    if mismatches id named
    then (err (violation (not_in_flight (named_or_empty named))), shut settled)
    else (answer, settled)

-- What the loop of `_exchange` makes of one message: `none` goes on.
unfoldable pub take_answer :
    Text → Result Stop Incoming × Client → Option (Result Stop Response) × Client
unfolding settle list_beq
take_answer id (err e, c) = (some (err e), c)
take_answer id (ok (state_change change), c) =
    (none, record c { pending = c.pending ++ change ∷ [] })
take_answer id (ok (response_message r named), c) =
    let (answer, after) = answered_with id named (ok r) c in (some answer, after)
take_answer id (ok (request_error_message body named), c) =
    let (answer, after) = answered_with id named (err (request_error body)) c in
    (some answer, after)

-- Returns, or goes on with the events left.
abbrev pub returned_or :
    List Event
    → (Client → Option (Result Stop Response) × Client × List Event)
    → Option (Result Stop Response) × Client
    → Option (Result Stop Response) × Client × List Event
returned_or es go (some result, c) = (some result, c, es)
returned_or es go (none, c) = go c

-- The loop of `_exchange`: its result, `none` while it waits, and the events left.
unfoldable pub await_answer :
    Codec → Text → List Event → Client → Option (Result Stop Response) × Client × List Event
unfolding take_answer receive
await_answer codec id [] c = (none, c, [])
await_answer codec id (e ∷ es) c =
    returned_or es (await_answer codec id es) (take_answer id (receive codec e c))

-- `_send`; `delivered` says whether an open socket takes the frame. `none` is that it went out.
abbrev pub send : Bool → Client → Option Stop × Client
send delivered c =
    if not c.is_open
    then (some not_open, c)
    else if delivered
    then (none, c)
    else (some transport_error, shut c)

abbrev pub after_send :
    Codec
    → Text
    → List Event
    → Option Stop × Client
    → Option (Result Stop Response) × Client × List Event
after_send codec id events (some stop, c) = (some (err stop), c, events)
after_send codec id events (none, c) = await_answer codec id events c

abbrev pub with_frame :
    Codec
    → Bool
    → List Event
    → Client
    → Text
    → Result Misuse (Dict Text Value × Protocol)
    → Option (Result Stop Response) × Client × List Event
with_frame codec delivered events c id (err e) = (some (err (misuse e)), c, events)
with_frame codec delivered events c id (ok (body, p)) =
    after_send codec id events (send delivered (record c { protocol = p }))

abbrev pub with_id :
    Codec
    → Bool
    → Dict Text Value
    → List Event
    → Client
    → Option (Text × Protocol)
    → Option (Result Stop Response) × Client × List Event
with_id codec delivered body events c none = (none, c, events)
with_id codec delivered body events c (some (id, p)) =
    with_frame codec delivered events (record c { protocol = p }) id
      (encode_request p body (some id))

-- `_exchange` of a request; its result is `none` while it waits.
unfoldable pub exchange :
    Codec
    → Bool
    → Dict Text Value
    → List Event
    → Client
    → Option (Result Stop Response) × Client × List Event
unfolding next_request_id encode_request await_answer
exchange codec delivered body events c =
    with_id codec delivered body events c (next_request_id c.protocol)
