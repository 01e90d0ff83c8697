-- ===== src/EventStream/Tests.antt =====
-- A stream in one chunk and in three, one of which ends between the CR and the LF.
use jmaplib.Prelude.{
  Text, codes, List, [], ◌∷◌, ◌++◌, false, none, ok, ◌≡◌, refl, nat_eq, list_eq, list_beq,
  remove_prefix, join, int_of,
}
use jmaplib.EventStream.{
  SseParser, ServerSentEvent, new_parser, feed, feed_all, byte_order_mark, scan, consume,
  dispatch_event,
}
use jmaplib.EventStream.Chunks.{feed_all-concat, new_parser-IsBetween}

streamer : Unit {0}
unfolding feed feed_all scan consume dispatch_event list_beq remove_prefix join int_of
streamer = tt

abbrev first : Text
first = byte_order_mark ∷ codes "id: 7" ++ 13 ∷ 10 ∷ codes "da"

abbrev second : Text
second = codes "ta: x" ++ 13 ∷ []

abbrev third : Text
third = 10 ∷ codes "data:y" ++ 10 ∷ 10 ∷ codes "id: 8" ++ 10 ∷ []

abbrev chunks : List Text
chunks = first ∷ second ∷ third ∷ []

-- The cursor is 7: the event that carries the id 8 has not been dispatched.
abbrev after : SseParser
after = record {
  assembly = record {
    last_event_id = codes "7";
    retry = none;
    lines = [];
    line_chars = 0;
    event_type = [];
    id_buffer = codes "8";
  };
  buffer = [];
  pending_cr = false;
  at_stream_start = false;
}

abbrev event : ServerSentEvent
event = record {
  event_type = codes "message";
  content = codes "x" ++ 10 ∷ codes "y";
  last_event_id = codes "7";
  retry = none;
}

fed_whole : feed (new_parser []) (first ++ (second ++ (third ++ []))) ≡ ok (after, event ∷ [])
unfolding streamer
fed_whole = refl

feed_all-concat_example : feed_all (new_parser []) chunks ≡ ok (after, event ∷ [])
feed_all-concat_example =
    feed_all-concat (new_parser []) chunks (after, event ∷ []) (new_parser-IsBetween []) fed_whole
