-- ===== src/EventStream.antt =====
-- push/sse.py: the incremental parser of an event stream.
pub mod Scan
pub mod Weight
pub mod Chunks
mod Tests
use jmaplib.Prelude.{
  ℕ, zero, suc, ◌+◌, ◌^◌, Text, codes, Bool, true, false, not, ◌&&◌, ◌||◌, List, [], ◌∷◌, ◌++◌,
  Option, none, some, if◌then◌else◌, ◌==◌, nat_eq, list_eq, list_beq, nat_beq, ltb, leb, length,
  join, all_chars, is_digit, int_of, remove_prefix, Result, ok, err,
}

abbrev pub line_feed : ℕ
line_feed = 10

abbrev pub carriage_return : ℕ
carriage_return = 13

abbrev pub byte_order_mark : ℕ
byte_order_mark = 0xFEFF

abbrev pub max_event_chars : ℕ
max_event_chars = 2 ^ 22

abbrev pub max_retry_digits : ℕ
max_retry_digits = 15

pub record ServerSentEvent : Type 0 where
  pub event_type : Text
  pub content : Text
  pub last_event_id : Text
  pub retry : Option ℕ

-- What of an `SSEParser` the lines change: `_data` is `lines`, `_data_chars` is `line_chars`.
pub record Assembly : Type 0 where
  pub last_event_id : Text
  pub retry : Option ℕ
  pub lines : List Text
  pub line_chars : ℕ
  pub event_type : Text
  pub id_buffer : Text

pub record SseParser : Type 0 where
  pub assembly : Assembly
  pub buffer : Text
  pub pending_cr : Bool
  pub at_stream_start : Bool

-- `SSEParser(last_event_id=…)`, `__post_init__` included.
abbrev pub new_parser : Text → SseParser
new_parser last_event_id = record {
  assembly = record {
    last_event_id = last_event_id;
    retry = none;
    lines = [];
    line_chars = 0;
    event_type = [];
    id_buffer = last_event_id;
  };
  buffer = [];
  pending_cr = false;
  at_stream_start = true;
}

-- `chr(c) in value`
abbrev pub has_char : ℕ → Text → Bool
has_char c [] = false
has_char c (d ∷ s) = nat_beq d c || has_char c s

-- `_is_ascii_digits`
abbrev pub is_ascii_digits : Text → Bool
is_ascii_digits value =
    leb 1 (length value) && (leb (length value) max_retry_digits && all_chars is_digit value)

-- `_field`
unfoldable pub set_field : Text → Text → Assembly → Assembly
unfolding list_beq int_of
set_field name value a =
    if name == codes "event"
    then record a { event_type = value }
    else if name == codes "data"
    then record a { lines = a.lines ++ value ∷ []; line_chars = a.line_chars + (length value + 1) }
    else if name == codes "id" && not (has_char 0 value)
    then record a { id_buffer = value }
    else if name == codes "retry" && is_ascii_digits value
    then record a { retry = some (int_of value) }
    else a

-- `line.partition(":")`, without the separator.
unfoldable pub partition_colon : Text → Text × Text
partition_colon [] = ([], [])
partition_colon (c ∷ s) =
    let rest = partition_colon s in if nat_beq c b':' then ([], s) else (c ∷ rest.0, rest.1)

abbrev or_message : Text → Text
or_message [] = codes "message"
or_message (c ∷ s) = c ∷ s

-- `_dispatch`
unfoldable pub dispatch_event : Assembly → Assembly × Option ServerSentEvent
unfolding join
dispatch_event a = elim a.lines [
  | [] ↦ (record a { last_event_id = a.id_buffer; event_type = [] }, none)
  | first ∷ more ↦ (
    record a { last_event_id = a.id_buffer; lines = []; line_chars = 0; event_type = [] },
    some (record {
      event_type = or_message a.event_type;
      content = join (line_feed ∷ []) (first ∷ more);
      last_event_id = a.id_buffer;
      retry = a.retry;
    }),
  )
]

-- `_consume`
unfoldable pub consume : Text → Assembly → Assembly × Option ServerSentEvent
unfolding dispatch_event set_field partition_colon
consume [] a = dispatch_event a
consume (c ∷ s) a =
    let (name, value) = partition_colon (c ∷ s) in
    if nat_beq c b':' then (a, none) else (set_field name (remove_prefix value b' ') a, none)

abbrev pub is_terminator : ℕ → Bool
is_terminator c = nat_beq c carriage_return || nat_beq c line_feed

-- What the loop of `feed` leaves: the part of the buffer after the last line, whether a CR is held
-- over, and the events.
pub record Scanned : Type 0 where
  pub assembly : Assembly
  pub rest : Text
  pub pending : Bool
  pub events : List ServerSentEvent

abbrev pub ended : Assembly → Text → Bool → Scanned
ended a rest pending = record { assembly = a; rest = rest; pending = pending; events = [] }

abbrev pub event_list : Option ServerSentEvent → List ServerSentEvent
event_list none = []
event_list (some e) = e ∷ []

-- What a line gives, and the loop after it.
abbrev pub and_then : Assembly × Option ServerSentEvent → (Assembly → Scanned) → Scanned
and_then (a, event) next =
    let later = next a in record later { events = event_list event ++ later.events }

-- The loop of `feed`; the second argument is the line so far, from `position` to where the search
-- for its terminator stands.
unfoldable pub scan : Assembly → Text → Text → Scanned
unfolding consume
scan a line [] = ended a line false
scan a line (c ∷ []) = elim (is_terminator c) [
  | false ↦ ended a (line ++ c ∷ []) false
  | true ↦ and_then (consume line a) (λ b. ended b [] (nat_beq c carriage_return))
]
scan a line (c ∷ d ∷ s) = elim (is_terminator c) [
  | false ↦ scan a (line ++ c ∷ []) (d ∷ s)
  | true ↦ elim (nat_beq c carriage_return && nat_beq d line_feed) [
    | true ↦ and_then (consume line a) (λ b. scan b [] s)
    | false ↦ and_then (consume line a) (λ b. scan b [] (d ∷ s))
  ]
]

-- The LF of a CRLF whose CR ended the chunk before.
abbrev pub strip : Bool → Text → Text
strip pending chunk = if pending then remove_prefix chunk line_feed else chunk

abbrev pub strip_mark : Bool → Text → Text
strip_mark start chunk = if start then remove_prefix chunk byte_order_mark else chunk

abbrev pub after_scan : Scanned → SseParser × List ServerSentEvent
after_scan r = (
  record {
    assembly = r.assembly;
    buffer = r.rest;
    pending_cr = r.pending;
    at_stream_start = false;
  },
  r.events,
)

-- `feed`, run to its end: the parser and the events, or the `EventOverflowError`.
unfoldable pub feed : SseParser → Text → Result ℕ (SseParser × List ServerSentEvent)
unfolding scan remove_prefix
feed p [] = ok (p, [])
feed p (c ∷ s) =
    let buffer = p.buffer ++ strip_mark p.at_stream_start (strip p.pending_cr (c ∷ s)) in
    if ltb max_event_chars (length buffer + p.assembly.line_chars)
    then err (length buffer + p.assembly.line_chars)
    else ok (after_scan (scan p.assembly [] buffer))

-- The chunks of a stream, one after the other.
unfoldable pub feed_all : SseParser → List Text → Result ℕ (SseParser × List ServerSentEvent)
unfolding feed
feed_all p [] = ok (p, [])
feed_all p (chunk ∷ chunks) = elim (feed p chunk) [
  | err n ↦ err n
  | ok (q, events) ↦ elim (feed_all q chunks) [
    | err n ↦ err n
    | ok (last, more) ↦ ok (last, events ++ more)
  ]
]
