-- ===== src/EventStream/Chunks.antt =====
-- A stream gives the same events however it is cut into chunks.
use jmaplib.Prelude.{
  ℕ, ◌+◌, ◌≤◌, Text, Bool, true, false, List, [], ◌∷◌, ◌++◌, ◌≡◌, refl, ap, sym, ◌∙◌, arith, ltb,
  ltb_false→le, length, length-append, ok, append_assoc, append-nil, Bool-cases, inl, inr,
  remove_prefix, subst, ok-injective,
}
use jmaplib.EventStream.{
  Assembly, SseParser, Scanned, ServerSentEvent, scan, strip, strip_mark, after_scan, feed,
  feed_all, ended, max_event_chars, new_parser, line_feed,
}
use jmaplib.EventStream.Scan.{scan-append, resume}
use jmaplib.EventStream.Weight.{IsLine, weight-scan, scan-IsLine, scan_line, length-remove_prefix}

-- A parser between two chunks: the buffer holds no whole line, and no CR is held over at the start.
pub record IsBetween (p : SseParser) : Type 0 where
  pub partial : IsLine p.buffer
  pub fresh : p.at_stream_start ≡ true → p.pending_cr ≡ false

abbrev pub concat_text : List Text → Text
concat_text [] = []
concat_text (c ∷ cs) = c ++ concat_text cs

-- What is taken off the front of a chunk is taken off the front of the chunk with more after it.
abbrev front : SseParser → Text → Text
front p chunk = strip_mark p.at_stream_start (strip p.pending_cr chunk)

front-append :
    (p : SseParser) (c : ℕ) (xs ys : Text)
    → IsBetween p
    → front p (c ∷ xs ++ ys) ≡ front p (c ∷ xs) ++ ys
unfolding remove_prefix
front-append p c xs ys h = ground (arith, h.fresh)

-- The scan of a chunk, on what the parser holds.
abbrev chunk_scan : SseParser → Text → Scanned
chunk_scan p chunk = scan p.assembly [] (p.buffer ++ front p chunk)

feed-eq-ok :
    (p : SseParser) (c : ℕ) (s : Text) (out : SseParser × List ServerSentEvent)
    → feed p (c ∷ s) ≡ ok out
    → (length (p.buffer ++ front p (c ∷ s)) + p.assembly.line_chars ≤ max_event_chars)
      × (out ≡ after_scan (chunk_scan p (c ∷ s)))
unfolding feed
feed-eq-ok p c s out h =
    elim (Bool-cases
      (ltb max_event_chars (length (p.buffer ++ front p (c ∷ s)) + p.assembly.line_chars))) [
        | inl over ↦ cc (rw over at h)
        | inr fits ↦ (
          ltb_false→le max_event_chars
              (length (p.buffer ++ front p (c ∷ s)) + p.assembly.line_chars) fits,
          sym (ok-injective (rw fits at h)),
        )
      ]

feed_fits :
    (p : SseParser) (c : ℕ) (s : Text)
    → length (p.buffer ++ front p (c ∷ s)) + p.assembly.line_chars ≤ max_event_chars
    → feed p (c ∷ s) ≡ ok (after_scan (chunk_scan p (c ∷ s)))
unfolding feed
feed_fits p c s h = ground arith

-- A scan begun on a line and one begun on the line as text are the same.
scan_rescan :
    (a : Assembly) (line more : Text) → IsLine line → scan a [] (line ++ more) ≡ scan a line more
scan_rescan a line [] h =
    ap (scan a []) (append-nil line)
    ∙ scan_line a [] line h
    ∙ sym (scan_line a line [] tt ∙ ap (λ l. ended a l false) (append-nil line))
scan_rescan a line (d ∷ more) h =
    scan-append a [] line d more ∙ ap (λ r. resume r (d ∷ more)) (scan_line a [] line h)

after_scan-IsBetween : (r : Scanned) → IsLine r.rest → IsBetween (after_scan r).0
after_scan-IsBetween r h = record { partial = h; fresh = λ e. cc }

-- Two parts that follow each other, each accepted, and what they give together.
abbrev IsSplit : SseParser → Text → Text → SseParser × List ServerSentEvent → Type 0
IsSplit p xs ys out =
    (q : SseParser) × (events : List ServerSentEvent) × (last : SseParser) × (more : List
      ServerSentEvent)
    × (feed p xs ≡ ok (q, events))
    × (feed q ys ≡ ok (last, more))
    × (out ≡ (last, events ++ more))
    × IsBetween q

buffer-append :
    (p : SseParser) (c : ℕ) (xs ys : Text)
    → IsBetween p
    → p.buffer ++ front p (c ∷ xs ++ ys) ≡ (p.buffer ++ front p (c ∷ xs)) ++ ys
buffer-append p c xs ys h =
    ap (λ t. p.buffer ++ t) (front-append p c xs ys h)
    ∙ sym (append_assoc p.buffer (front p (c ∷ xs)) ys)

-- What the two scans of a chunk in two parts are.
scan_parts :
    (p : SseParser) (c : ℕ) (xs : Text) (d : ℕ) (ys : Text)
    → IsBetween p
    → chunk_scan p (c ∷ xs ++ d ∷ ys) ≡ resume (chunk_scan p (c ∷ xs)) (d ∷ ys)
scan_parts p c xs d ys h =
    ap (scan p.assembly []) (buffer-append p c xs (d ∷ ys) h)
    ∙ scan-append p.assembly [] (p.buffer ++ front p (c ∷ xs)) d ys

-- The second part, on what the first has left.
second_scan :
    (r : Scanned) (more : Text)
    → IsLine r.rest
    → chunk_scan (after_scan r).0 more ≡ scan r.assembly r.rest (strip r.pending more)
second_scan r more h = scan_rescan r.assembly r.rest (strip r.pending more) h

length-strip : (pending : Bool) (s : Text) → length (strip pending s) ≤ length s
length-strip true s = length-remove_prefix s line_feed
length-strip false s = omega arith

feed-IsSplit :
    (p : SseParser) (xs ys : Text) (out : SseParser × List ServerSentEvent)
    → IsBetween p
    → feed p (xs ++ ys) ≡ ok out
    → IsSplit p xs ys out
feed-IsSplit p [] ys (last, more) h fed = (p, [], last, more, unfold feed in refl, fed, refl, h)
feed-IsSplit p (c ∷ xs) [] (last, more) h fed =
    let whole : feed p (c ∷ xs) ≡ ok (last, more) = rw (← append-nil (c ∷ xs)) fed in
    let made = (feed-eq-ok p c xs (last, more) whole).1 in
    let line = scan-IsLine p.assembly [] (p.buffer ++ front p (c ∷ xs)) tt in
    (
      last,
      more,
      last,
      [],
      whole,
      unfold feed in refl,
      ap (λ l. (last, l)) (sym (append-nil more)),
      subst (λ o. IsBetween o.0) (sym made) (after_scan-IsBetween (chunk_scan p (c ∷ xs)) line),
    )
feed-IsSplit p (c ∷ xs) (d ∷ ys) out h fed =
    let (fits, made) = feed-eq-ok p c (xs ++ d ∷ ys) out fed in
    let r = chunk_scan p (c ∷ xs) in
    let line = scan-IsLine p.assembly [] (p.buffer ++ front p (c ∷ xs)) tt in
    let later = chunk_scan (after_scan r).0 (d ∷ ys) in
    let total =
      ap length (buffer-append p c xs (d ∷ ys) h)
      ∙ length-append (p.buffer ++ front p (c ∷ xs)) (d ∷ ys) in
    let light = weight-scan p.assembly [] (p.buffer ++ front p (c ∷ xs)) in
    (
      (after_scan r).0,
      r.events,
      (after_scan later).0,
      later.events,
      feed_fits p c xs (omega (arith, total)),
      feed_fits (after_scan r).0 d ys (
          omega (
            arith,
            total,
            light,
            length-append r.rest (strip r.pending (d ∷ ys)),
            length-strip r.pending (d ∷ ys),
          )),
      made
          ∙ ap after_scan (scan_parts p c xs d ys h)
          ∙ ap (λ l. ((after_scan l).0, r.events ++ l.events)) (sym (second_scan r (d ∷ ys) line)),
      after_scan-IsBetween r line,
    )

-- If a stream is accepted as one chunk, it is accepted in any chunks, and gives the same events and
-- leaves the same parser.
pub feed_all-concat :
    (p : SseParser) (chunks : List Text) (out : SseParser × List ServerSentEvent)
    → IsBetween p
    → feed p (concat_text chunks) ≡ ok out
    → feed_all p chunks ≡ ok out
unfolding feed_all
feed_all-concat p [] out h fed = unfold feed in fed
feed_all-concat p (chunk ∷ chunks) out h fed =
    let (q, events, last, more, first, second, made, between) =
      feed-IsSplit p chunk (concat_text chunks) out h fed in
    let rest = feed_all-concat q chunks (last, more) between second in
    ground (arith, first, rest, made)

pub new_parser-IsBetween : (last_event_id : Text) → IsBetween (new_parser last_event_id)
new_parser-IsBetween last_event_id = record { partial = tt; fresh = λ e. refl }
