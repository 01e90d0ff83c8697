-- ===== src/Client/Execute.antt =====
-- client.py, `execute`: the requests of a batch, sent and answered in turn.
use jmaplib.Prelude.{
  ℕ, Text, Bool, true, false, not, ◌||◌, List, [], ◌∷◌, ◌++◌, map, length, Option, none, some,
  if◌then◌else◌, ◌==◌, ==_refl, nat_eq, list_eq, list_beq, Bool-cases, inl, inr, Result, ok, err,
  ◌≡◌, refl, ap, sym, subst, arith, All, All-map,
}
use jmaplib.Json.{Json}
use jmaplib.Invocation.Handles.{Handle, ParsedInvocation}
use jmaplib.Patch.{contains}
use jmaplib.Session.{Session}
use jmaplib.Request.{Calls, Request}
use jmaplib.Request.Plan.{all_calls}
use jmaplib.Response.{Response}
use jmaplib.Response.Routing.{own}
use jmaplib.Batch.{Batch, BatchError}
use jmaplib.Batch.Sending.{absorb, hand_out, finish, plan, pending, pending_in, calls_of}
use jmaplib.Batch.Made.{Made}
use jmaplib.Batch.Planning.{PlanOutcome, plan-PlanOutcome, plan-valid}
use jmaplib.Batch.Settled.{waiting, is_answered, absorb-pending}
use jmaplib.Client.{PostError}

-- What `execute` may raise: from planning, from a request, or what escapes `absorb`.
pub data ExecuteError (D : Type 0) : Type 0 where
  batch_failed : BatchError → ExecuteError D
  post_failed : PostError D → ExecuteError D
  absorb_failed : Text → ExecuteError D

abbrev pub is_empty : Text → Bool
is_empty [] = true
is_empty (c ∷ s) = false

-- `session_is_stale`
unfoldable pub session_is_stale : Session → Text → Bool
unfolding list_beq
session_is_stale session response_state =
    if is_empty response_state || is_empty session.state
    then false
    else not (response_state == session.state)

-- What `execute` changes: the batch and the client's `session_stale`.
pub record Progress (R : Type 0) : Type 0 where
  pub batch : Batch R
  pub session_stale : Bool

module _ {D R : Type 0} (str_of : Json → Text) (session : Session)
    (post : ℕ → Request R → Result (PostError D) Response) where
  -- The rest of a round, with what `absorb` left. `rest` is the rounds after it.
  abbrev pub after_absorb :
      (Progress R → Progress R × Option (ExecuteError D))
      → Bool
      → Response
      → Batch R × Option Text
      → Progress R × Option (ExecuteError D)
  after_absorb rest stale response (batch, some exc) =
      (record { batch = batch; session_stale = stale }, some (absorb_failed exc))
  after_absorb rest stale response (batch, none) = rest (record {
    batch = batch;
    session_stale = stale || session_is_stale session response.session_state;
  })

  abbrev pub after_post :
      (Progress R → Progress R × Option (ExecuteError D))
      → Bool
      → Batch R
      → Result (PostError D) Response
      → Progress R × Option (ExecuteError D)
  after_post rest stale batch (err e) =
      (record { batch = batch; session_stale = stale }, some (post_failed e))
  after_post rest stale batch (ok response) =
      after_absorb rest stale response (absorb str_of response batch)

  -- The loop of `execute`; `post` is also given how many requests are left.
  unfoldable pub send_all : List (Request R) → Progress R → Progress R × Option (ExecuteError D)
  unfolding hand_out absorb session_is_stale
  send_all [] progress = (record progress { batch = finish progress.batch }, none)
  send_all (request ∷ requests) progress =
      let (sent, batch) = hand_out request progress.batch in
      after_post (send_all requests) progress.session_stale batch (post (length requests) sent)

  abbrev pub execute_plan :
      Progress R → Result BatchError (List (Request R)) → Progress R × Option (ExecuteError D)
  execute_plan progress (err e) = (progress, some (batch_failed e))
  execute_plan progress (ok requests) = send_all requests progress

  -- `JMAPClient.execute`
  unfoldable pub execute : List Text → Progress R → Progress R × Option (ExecuteError D)
  unfolding send_all plan
  execute extra_using progress = execute_plan progress (plan progress.batch extra_using)

contains-rest :
    (xs ys : List Text) (t : Text)
    → contains (xs ++ ys) t ≡ true
    → contains xs t ≡ false
    → contains ys t ≡ true
unfolding contains
contains-rest [] ys t h k = h
contains-rest (x ∷ xs) ys t h k = ground (arith, contains-rest xs ys t)

module _ {R : Type 0} where
  abbrev call_ids : Calls R → List Text
  call_ids calls = map (λ c. c.0) calls

  call_ids-append : (xs ys : Calls R) → call_ids (xs ++ ys) ≡ call_ids xs ++ call_ids ys
  call_ids-append [] ys = refl
  call_ids-append (x ∷ xs) ys = ap (◌∷◌ x.0) (call_ids-append xs ys)

  -- Each handle's call is one of these requests.
  abbrev AreDue : List (Request R) → List (Handle R) → Type 0
  AreDue requests hs = All (λ h. contains (call_ids (all_calls requests)) h.call_id ≡ true) hs

  waiting-cons_due :
      (in_flight : List Text) (is : List ParsedInvocation) (h : Handle R) (hs : List (Handle R))
      (P : Handle R → Type 0)
      → All (λ k. P k × (contains in_flight k.call_id ≡ false)) (waiting in_flight is hs)
      → (h.resolved ≡ false → P h)
      → All (λ k. P k × (contains in_flight k.call_id ≡ false)) (waiting in_flight is (h ∷ hs))
  unfolding waiting
  waiting-cons_due in_flight is h hs P rest here =
      elim (Bool-cases
        (h.resolved || (contains in_flight h.call_id || is_answered (own h.call_id is)))) [
          | inl settled ↦ rw settled rest
          | inr waits ↦ rw waits ((here (ground arith), ground arith), rest)
        ]

  waiting-All :
      (in_flight : List Text) (is : List ParsedInvocation) (hs : List (Handle R))
      (P : Handle R → Type 0)
      → All P (pending_in hs)
      → All (λ k. P k × (contains in_flight k.call_id ≡ false)) (waiting in_flight is hs)
  unfolding waiting
  waiting-All in_flight is [] P h = tt
  waiting-All in_flight is (x ∷ xs) P h = elim (Bool-cases x.resolved) [
    | inl done ↦
        waiting-cons_due in_flight is x xs P
          (waiting-All in_flight is xs P (
            subst
              (λ b. All P (elim b as (λ _. List (Handle R)) [
                | true ↦ pending_in xs
                | false ↦ x ∷ pending_in xs
              ]))
              done h))
          (λ unresolved. cc)
    | inr unresolved ↦
        let both =
          subst
            (λ b. All P (elim b as (λ _. List (Handle R)) [
              | true ↦ pending_in xs
              | false ↦ x ∷ pending_in xs
            ]))
            unresolved h in
        waiting-cons_due in_flight is x xs P (waiting-All in_flight is xs P both.1) (λ _. both.0)
  ]

  due_later :
      (request : Request R) (requests : List (Request R)) (is : List ParsedInvocation)
      (hs : List (Handle R))
      → AreDue (request ∷ requests) (pending_in hs)
      → AreDue requests (waiting (call_ids request.method_calls) is hs)
  due_later request requests is hs due =
      All-map _ (λ h. contains (call_ids (all_calls requests)) h.call_id ≡ true)
        (λ h (listed, apart).
          contains-rest (call_ids request.method_calls) (call_ids (all_calls requests)) h.call_id
            (subst (λ ids. contains ids h.call_id ≡ true)
              (call_ids-append request.method_calls (all_calls requests)) listed)
            apart)
        (waiting (call_ids request.method_calls) is hs)
        (waiting-All (call_ids request.method_calls) is hs
          (λ h. contains (call_ids (all_calls (request ∷ requests))) h.call_id ≡ true) due)

  none_due : (hs : List (Handle R)) → AreDue [] hs → hs ≡ []
  unfolding contains
  none_due [] h = refl
  none_due (x ∷ xs) h = cc (h.0)

  pending_in-All : (P : Handle R → Type 0) (hs : List (Handle R)) → All P hs → All P (pending_in hs)
  pending_in-All P [] h = tt
  pending_in-All P (x ∷ xs) h = elim (Bool-cases x.resolved) [
    | inl settled ↦ rw settled (pending_in-All P xs h.1)
    | inr unresolved ↦ rw unresolved (h.0, pending_in-All P xs h.1)
  ]

  contains-calls_of :
      (hs : List (Handle R)) → All (λ h. contains (call_ids (calls_of hs)) h.call_id ≡ true) hs
  unfolding contains
  contains-calls_of [] = tt
  contains-calls_of (x ∷ xs) = (
    ground (arith, ==_refl x.call_id),
    All-map (λ h. contains (call_ids (calls_of xs)) h.call_id ≡ true)
        (λ h. contains (call_ids (calls_of (x ∷ xs))) h.call_id ≡ true) (λ h named. ground arith) xs
        (contains-calls_of xs),
  )

module _ {D R : Type 0} (str_of : Json → Text) (session : Session)
    (post : ℕ → Request R → Result (PostError D) Response) where
  abbrev run : List (Request R) → Progress R → Progress R × Option (ExecuteError D)
  run requests progress = send_all str_of session post requests progress

  abbrev AllSettled : (Progress R × Option (ExecuteError D)) → Type 0
  AllSettled outcome = pending outcome.0.batch ≡ []

  after_absorb-AllSettled :
      (requests : List (Request R)) (stale : Bool) (response : Response)
      (absorbed : Batch R × Option Text)
      → ((progress : Progress R)
          → AreDue requests (pending progress.batch)
          → (run requests progress).1 ≡ none
          → AllSettled (run requests progress))
      → (absorbed.1 ≡ none → AreDue requests (pending absorbed.0))
      → (after_absorb str_of session post (run requests) stale response absorbed).1 ≡ none
      → AllSettled (after_absorb str_of session post (run requests) stale response absorbed)
  after_absorb-AllSettled requests stale response (batch, some exc) later due h = cc h
  after_absorb-AllSettled requests stale response (batch, none) later due h = later _ (due refl) h

  after_post-AllSettled :
      (request : Request R) (requests : List (Request R)) (stale : Bool) (batch : Batch R)
      (posted : Result (PostError D) Response)
      → batch.in_flight ≡ call_ids request.method_calls
      → AreDue (request ∷ requests) (pending batch)
      → ((progress : Progress R)
          → AreDue requests (pending progress.batch)
          → (run requests progress).1 ≡ none
          → AllSettled (run requests progress))
      → (after_post str_of session post (run requests) stale batch posted).1 ≡ none
      → AllSettled (after_post str_of session post (run requests) stale batch posted)
  after_post-AllSettled request requests stale batch (err e) flying due later h = cc h
  after_post-AllSettled request requests stale batch (ok response) flying due later h =
      after_absorb-AllSettled requests stale response (absorb str_of response batch) later
        (λ fine.
          rw (absorb-pending str_of response batch fine, flying)
            (due_later request requests response.method_responses batch.handles due))
        h

  send_all-AllSettled :
      (requests : List (Request R)) (progress : Progress R)
      → AreDue requests (pending progress.batch)
      → (run requests progress).1 ≡ none
      → AllSettled (run requests progress)
  unfolding send_all hand_out
  send_all-AllSettled [] progress due h = none_due (pending progress.batch) due
  send_all-AllSettled (request ∷ requests) progress due h =
      after_post-AllSettled request requests progress.session_stale
        (hand_out request progress.batch).1
        (post (length requests) (hand_out request progress.batch).0) refl due
        (λ p d e. send_all-AllSettled requests p d e) h

  plan_due :
      (extra : List Text) (batch : Batch R) (requests : List (Request R))
      → Made batch
      → plan batch extra ≡ ok requests
      → AreDue requests (pending batch)
  plan_due extra batch requests made h =
      let outcome =
        subst (PlanOutcome batch extra) h
          (plan-PlanOutcome batch extra made (plan-valid batch extra requests h)) in
      pending_in-All _ batch.handles (
        subst (λ calls. All (λ h. contains (call_ids calls) h.call_id ≡ true) batch.handles)
          (sym outcome.1) (contains-calls_of batch.handles))

  -- When `execute` raises nothing, every call of the batch is settled: it has its answer, the error
  -- that the server gave or the error that it was not answered. This holds whatever the server
  -- answers, and however many requests the batch took.
  pub execute-AllSettled :
      (extra : List Text) (progress : Progress R)
      → Made progress.batch
      → (execute str_of session post extra progress).1 ≡ none
      → pending (execute str_of session post extra progress).0.batch ≡ []
  unfolding execute
  execute-AllSettled extra progress made h = planned (plan progress.batch extra) refl h
    where
      planned :
          (r : Result BatchError (List (Request R)))
          → plan progress.batch extra ≡ r
          → (execute_plan str_of session post progress r).1 ≡ none
          → AllSettled (execute_plan str_of session post progress r)
      planned (err e) same h = cc h
      planned (ok requests) same h =
          send_all-AllSettled requests progress (plan_due extra progress.batch requests made same) h
