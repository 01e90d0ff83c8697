-- ===== src/Push/Socket/Exchange.antt =====
-- push/websocket_client.py, `_exchange`: an answer is matched with its request, whatever changes are
-- pushed before it.
use jmaplib.Prelude.{
  ℕ, ◌≡◌, refl, sym, ap, ◌∙◌, arith, Text, true, false, not, ◌&&◌, ◌||◌, List, [], ◌∷◌, ◌++◌, map,
  some, if◌then◌else◌, ◌==◌, nat_eq, list_eq, ok, err, All, append_assoc, append-nil, Bool-cases,
  inl, inr,
}
use jmaplib.Prelude.Dict.{Dict}
use jmaplib.Invocation.{Value}
use jmaplib.Patch.{contains}
use jmaplib.Response.{Response}
use jmaplib.Push.Protocol.{
  Protocol, Codec, StateChange, response_message, state_change, not_in_flight, classify_frame,
  decode, remember, encode_request, encode_with, request_id_of, settle,
}
use jmaplib.Push.Protocol.Numbers.{next_request_id_fresh, contains-discard}
use jmaplib.Push.Socket.{
  Client, Event, frame, violation, receive, take_answer, await_answer, exchange, with_id,
}

-- The frames of changes, each with the change it is read as.
abbrev pub AreChanges : Codec → List (Text × StateChange) → Type 0
AreChanges codec pushes = All (λ tc. classify_frame codec tc.0 ≡ ok (state_change tc.1)) pushes

abbrev pub frames : List (Text × StateChange) → List Event
frames pushes = map (λ tc. frame tc.0) pushes

abbrev pub changes : List (Text × StateChange) → List StateChange
changes pushes = map (λ tc. tc.1) pushes

absorbed : Client → List (Text × StateChange) → Client
absorbed c [] = c
absorbed c (tc ∷ rest) =
    absorbed
      (record c {
        protocol = remember (state_change tc.1) c.protocol;
        pending = c.pending ++ tc.1 ∷ [];
      })
      rest

await_answer-frames :
    (codec : Codec) (id : Text) (pushes : List (Text × StateChange)) (es : List Event) (c : Client)
    → AreChanges codec pushes
    → await_answer codec id (frames pushes ++ es) c ≡ await_answer codec id es (absorbed c pushes)
unfolding absorbed await_answer take_answer receive decode
await_answer-frames codec id [] es c h = refl
await_answer-frames codec id (tc ∷ rest) es c h =
    rw h.0 (await_answer-frames codec id rest es _ h.1)

outstanding-remember :
    (change : StateChange) (p : Protocol)
    → (remember (state_change change) p).outstanding ≡ p.outstanding
outstanding-remember change p = ground arith

pending-absorbed :
    (c : Client) (pushes : List (Text × StateChange))
    → (absorbed c pushes).pending ≡ c.pending ++ changes pushes
unfolding absorbed
pending-absorbed c [] = sym (append-nil c.pending)
pending-absorbed c (tc ∷ rest) =
    pending-absorbed _ rest ∙ append_assoc c.pending (tc.1 ∷ []) (changes rest)

outstanding-absorbed :
    (c : Client) (pushes : List (Text × StateChange))
    → (absorbed c pushes).protocol.outstanding ≡ c.protocol.outstanding
unfolding absorbed
outstanding-absorbed c [] = refl
outstanding-absorbed c (tc ∷ rest) =
    outstanding-absorbed _ rest ∙ outstanding-remember tc.1 c.protocol

is_open-absorbed :
    (c : Client) (pushes : List (Text × StateChange)) → (absorbed c pushes).is_open ≡ c.is_open
unfolding absorbed
is_open-absorbed c [] = refl
is_open-absorbed c (tc ∷ rest) = is_open-absorbed _ rest

-- The client when its request has gone out under the number `n`.
started : Client → Dict Text Value → ℕ → Client
started c body n = record c {
  protocol = (encode_with (record c.protocol { counter = n }) body (request_id_of n)).1;
}

sent :
    (codec : Codec) (c : Client) (body : Dict Text Value) (n : ℕ) (es : List Event)
    → c.is_open ≡ true
    → contains c.protocol.outstanding (request_id_of n) ≡ false
    → with_id codec true body es c (some (request_id_of n, record c.protocol { counter = n }))
      ≡ await_answer codec (request_id_of n) es (started c body n)
unfolding started encode_request
sent codec c body n es h free = rw free (rw h refl)

finished : Text → Text → Client → Client
finished id named c = record c {
  protocol = settle c.protocol (some named);
  is_open = if named == id then c.is_open else false;
}

last_frame :
    (codec : Codec) (id : Text) (c : Client) (text : Text) (r : Response) (named : Text)
    (rest : List Event)
    → classify_frame codec text ≡ ok (response_message r (some named))
    → c.is_open ≡ true
    → await_answer codec id (frame text ∷ rest) c ≡ (
      some (if named == id then ok r else err (violation (not_in_flight named))),
      finished id named c,
      rest,
    )
unfolding await_answer take_answer receive decode finished
last_frame codec id c text r named rest e h = elim (Bool-cases (named == id)) [
  | inl same ↦ rw (e, same) refl
  | inr differ ↦ rw (e, differ) refl
]

is_open-finished :
    (id named : Text) (c : Client)
    → c.is_open ≡ true
    → (finished id named c).is_open ≡ (named == id)
unfolding finished
is_open-finished id named c h = elim (Bool-cases (named == id)) [
  | inl e ↦ rw e h
  | inr e ↦ rw e refl
]

contains-started :
    (c : Client) (body : Dict Text Value) (n : ℕ) (x : Text)
    → contains c.protocol.outstanding (request_id_of n) ≡ false
    → contains (started c body n).protocol.outstanding x
      ≡ (request_id_of n == x || contains c.protocol.outstanding x)
unfolding started encode_request
contains-started c body n x free = rw free (in_front (request_id_of n))
  where
    in_front :
        (id : Text)
        → contains (id ∷ c.protocol.outstanding) x ≡ (id == x || contains c.protocol.outstanding x)
    in_front id = refl

-- On an open socket that takes the frame, a request whose first answer is a response that names
-- an id comes back with it exactly when that is the id of the request, which was not outstanding,
-- and otherwise as a protocol error with the socket closed; every change pushed before the answer
-- is kept in order, and outstanding are the ids from before and that of the request, less the one
-- that the answer names.
pub exchange_matched :
    (codec : Codec) (c : Client) (body : Dict Text Value) (pushes : List (Text × StateChange))
    (text : Text) (r : Response) (named : Text) (rest : List Event)
    → c.is_open ≡ true
    → AreChanges codec pushes
    → classify_frame codec text ≡ ok (response_message r (some named))
    → (id : Text) × (after : Client) × (contains c.protocol.outstanding id ≡ false)
      × (exchange codec true body (frames pushes ++ frame text ∷ rest) c ≡ (
        some (if named == id then ok r else err (violation (not_in_flight named))),
        after,
        rest,
      ))
      × (after.pending ≡ c.pending ++ changes pushes)
      × (after.is_open ≡ (named == id))
      × ((x : Text)
          → contains after.protocol.outstanding x
            ≡ (not (named == x) && (id == x || contains c.protocol.outstanding x)))
unfolding exchange started finished
exchange_matched codec c body pushes text r named rest h hs ht =
    let (n, e, free, lo, hi) = next_request_id_fresh c.protocol in
    let id = request_id_of n in
    let c0 = started c body n in
    let c1 = absorbed c0 pushes in
    (
      id,
      finished id named c1,
      free,
      ap (with_id codec true body (frames pushes ++ frame text ∷ rest) c) e
          ∙ sent codec c body n (frames pushes ++ frame text ∷ rest) h free
          ∙ await_answer-frames codec id pushes (frame text ∷ rest) c0 hs
          ∙ last_frame codec id c1 text r named rest ht (is_open-absorbed c0 pushes ∙ h),
      pending-absorbed c0 pushes,
      is_open-finished id named c1 (is_open-absorbed c0 pushes ∙ h),
      λ x.
          contains-discard named x c1.protocol.outstanding
          ∙ ap (λ ids. not (named == x) && contains ids x) (outstanding-absorbed c0 pushes)
          ∙ ap (λ b. not (named == x) && b) (contains-started c body n x free),
    )
