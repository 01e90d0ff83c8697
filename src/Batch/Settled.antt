-- ===== src/Batch/Settled.antt =====
-- Absorbing a response: which handles are settled, and which still wait.
use jmaplib.Prelude.{
  Text, Bool, true, false, ◌||◌, List, [], ◌∷◌, Option, none, some, if◌then◌else◌, inl, inr, Result,
  ok, err, ok-injective, ◌⊎◌, ◌≡◌, ◌≢◌, refl, ap, sym, ◌∙◌, arith,
}
use jmaplib.Json.{Json}
use jmaplib.Invocation.Handles.{Handle, ParsedInvocation}
use jmaplib.Patch.{contains}
use jmaplib.Response.{Response, resolve_handle}
use jmaplib.Response.Routing.{own, route, dispatch-route}
use jmaplib.Batch.{Batch}
use jmaplib.Batch.Sending.{absorb, after_dispatch, fail_unanswered, pending, pending_in}
use jmaplib.Batch.Numbering.{ids_of}

abbrev pub is_answered : List ParsedInvocation → Bool
is_answered [] = false
is_answered (i ∷ is) = true

module _ {R : Type 0} where
  resolve_handle-id :
      (str_of : Json → Text) (is : List ParsedInvocation) (h k : Handle R)
      → resolve_handle str_of is h ≡ ok k
      → h.call_id ≡ k.call_id
  unfolding resolve_handle
  resolve_handle-id str_of [] h k e = ap (λ h. h.call_id) (ok-injective e)
  resolve_handle-id str_of (i ∷ is) h k e = ground arith

  resolve_handle-resolved :
      (str_of : Json → Text) (i : ParsedInvocation) (is : List ParsedInvocation) (h k : Handle R)
      → resolve_handle str_of (i ∷ is) h ≡ ok k
      → k.resolved ≡ true
  unfolding resolve_handle
  resolve_handle-resolved str_of i is h k e = ground arith

-- The handles that still wait after a response: those not resolved before, not in flight, and
-- with no invocation under their id.
unfoldable pub waiting :
    {R : Type 0} → List Text → List ParsedInvocation → List (Handle R) → List (Handle R)
unfolding contains own
waiting in_flight is [] = []
waiting in_flight is (h ∷ hs) =
    let rest = waiting in_flight is hs in
    if h.resolved || (contains in_flight h.call_id || is_answered (own h.call_id is))
    then rest
    else h ∷ rest

Result-cases {ℓ} :
    {E : Type 0} {A : Type ℓ} (r : Result E A) → (((a : A) × (r ≡ ok a)) ⊎ ((e : E) × (r ≡ err e)))
Result-cases (ok a) = inl (a, refl)
Result-cases (err e) = inr (e, refl)

module _ {R : Type 0} (str_of : Json → Text) (in_flight : List Text) where
  pending-cons :
      (found : List ParsedInvocation) (h k : Handle R) (ks : List (Handle R))
      → resolve_handle str_of found h ≡ ok k
      → pending_in (fail_unanswered in_flight (k ∷ ks)) ≡ (
          if h.resolved || (contains in_flight h.call_id || is_answered found)
          then pending_in (fail_unanswered in_flight ks)
          else h ∷ pending_in (fail_unanswered in_flight ks))
  unfolding fail_unanswered
  pending-cons [] h k ks e =
      let same : h ≡ k = unfold resolve_handle in ok-injective e in rw (← same) (ground arith)
  pending-cons (i ∷ is) h k ks e =
      let settled = resolve_handle-resolved str_of i is h k e in ground arith

  route-ok :
      (is : List ParsedInvocation) (h k : Handle R) (hs : List (Handle R))
      → resolve_handle str_of (own h.call_id is) h ≡ ok k
      → route str_of is (h ∷ hs) ≡ (k ∷ (route str_of is hs).0, (route str_of is hs).1)
  route-ok is h k hs e = rw (e, route) refl

  route-err :
      (is : List ParsedInvocation) (h : Handle R) (hs : List (Handle R)) (exc : Text)
      → resolve_handle str_of (own h.call_id is) h ≡ err exc
      → route str_of is (h ∷ hs) ≡ (h ∷ hs, some exc)
  route-err is h hs exc e = rw (e, route) refl

  waiting-cons :
      (is : List ParsedInvocation) (h : Handle R) (hs : List (Handle R))
      → waiting in_flight is (h ∷ hs) ≡ (
          if h.resolved || (contains in_flight h.call_id || is_answered (own h.call_id is))
          then waiting in_flight is hs
          else h ∷ waiting in_flight is hs)
  unfolding waiting
  waiting-cons is h hs = refl

  route-waiting :
      (is : List ParsedInvocation) (hs : List (Handle R))
      → (route str_of is hs).1 ≡ none
      → pending_in (fail_unanswered in_flight (route str_of is hs).0) ≡ waiting in_flight is hs
  unfolding fail_unanswered waiting
  route-waiting is [] h = refl
  route-waiting is (x ∷ xs) h = elim (Result-cases (resolve_handle str_of (own x.call_id is) x)) [
    | inl (k, e) ↦
        let made = route-ok is x k xs e in
        let more = route-waiting is xs (ap (λ p. p.1) (sym made) ∙ h) in
        ap (λ p. pending_in (fail_unanswered in_flight p.0)) made
        ∙ pending-cons (own x.call_id is) x k (route str_of is xs).0 e
        ∙ ap
            (λ l.
              if x.resolved || (contains in_flight x.call_id || is_answered (own x.call_id is))
              then l
              else x ∷ l)
            more
    | inr (exc, e) ↦ absurd (some-ne-none exc (sym (ap (λ p. p.1) (route-err is x xs exc e)) ∙ h))
  ]
    where
      some-ne-none : (exc : Text) → some exc ≢ none
      some-ne-none exc e = cc e

  route-ids :
      (is : List ParsedInvocation) (hs : List (Handle R))
      → ids_of (route str_of is hs).0 ≡ ids_of hs
  route-ids is [] = refl
  route-ids is (x ∷ xs) = elim (Result-cases (resolve_handle str_of (own x.call_id is) x)) [
    | inl (k, e) ↦
        ap (λ p. ids_of p.0) (route-ok is x k xs e)
        ∙ rw (resolve_handle-id str_of (own x.call_id is) x k e)
            (ap (◌∷◌ k.call_id) (route-ids is xs))
    | inr (exc, e) ↦ ap (λ p. ids_of p.0) (route-err is x xs exc e)
  ]

fail_unanswered-ids :
    {R : Type 0} (in_flight : List Text) (hs : List (Handle R))
    → ids_of (fail_unanswered in_flight hs) ≡ ids_of hs
unfolding fail_unanswered
fail_unanswered-ids in_flight [] = refl
fail_unanswered-ids in_flight (h ∷ hs) = ground (arith, fail_unanswered-ids in_flight hs)

module _ {R : Type 0} (str_of : Json → Text) (response : Response) (batch : Batch R) where
  absorb-route :
      absorb str_of response batch
      ≡ after_dispatch response batch (route str_of response.method_responses batch.handles)
  unfolding absorb
  absorb-route = ap (after_dispatch response batch) (dispatch-route str_of response batch.handles)

  -- Absorbing a response leaves the call ids as they are.
  pub absorb-ids : ids_of (absorb str_of response batch).0.handles ≡ ids_of batch.handles
  absorb-ids =
      ap (λ p. ids_of p.0.handles) absorb-route
      ∙ after-ids (route str_of response.method_responses batch.handles)
      ∙ route-ids str_of [] response.method_responses batch.handles
    where
      after-ids :
          (p : List (Handle R) × Option Text)
          → ids_of (after_dispatch response batch p).0.handles ≡ ids_of p.0
      after-ids (hs, some exc) = refl
      after-ids (hs, none) = fail_unanswered-ids batch.in_flight hs

  -- When no exception escapes, what is pending afterwards is exactly what was pending, was not in
  -- the request that was answered and has no invocation in the response.
  pub absorb-pending :
      (absorb str_of response batch).1 ≡ none
      → pending (absorb str_of response batch).0
        ≡ waiting batch.in_flight response.method_responses batch.handles
  absorb-pending h =
      let routed = route str_of response.method_responses batch.handles in
      let (fine, kept) = after-pending routed (ap (λ p. p.1) (sym absorb-route) ∙ h) in
      ap (λ p. pending p.0) absorb-route
      ∙ kept
      ∙ route-waiting str_of batch.in_flight response.method_responses batch.handles fine
    where
      after-pending :
          (p : List (Handle R) × Option Text)
          → (after_dispatch response batch p).1 ≡ none
          → (p.1 ≡ none)
            × (pending (after_dispatch response batch p).0
                ≡ pending_in (fail_unanswered batch.in_flight p.0))
      after-pending (hs, some exc) h = cc h
      after-pending (hs, none) h = (refl, refl)
