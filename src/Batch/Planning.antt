-- ===== src/Batch/Planning.antt =====
-- What planning a batch gives: requests within the server's limits, or the one error that applies.
use jmaplib.Prelude.{
  ℕ, suc, ◌<◌, ◌≤◌, Text, codes, false, ◌&&◌, List, [], ◌∷◌, length, Option, some, ltb, ◌==◌,
  nat_eq, list_eq, Bool-cases, inl, inr, Result, ok, err, ◌>>=◌, >>=-eq-ok, ok-injective, ◌≡◌, refl,
  ap, sym, arith, All, subst,
}
use jmaplib.Prelude.Dict.{Dict, lookup}
use jmaplib.Json.{Json, int, pos}
use jmaplib.Invocation.Handles.{Handle}
use jmaplib.Session.{core_urn}
use jmaplib.Session.Lookup.{capability_value}
use jmaplib.Limits.{from_capability, uint}
use jmaplib.Request.{
  Calls, Request, PlanError, batch_too_large, plan_requests, validate_references, keep_created,
}
use jmaplib.Request.Plan.{IsSound, all_calls}
use jmaplib.Request.Total.{Planned, plan_requests-Planned}
use jmaplib.Capabilities.{ActiveCapabilities, RegistryError}
use jmaplib.Capabilities.Active.{active_limits, method, using_for}
use jmaplib.Batch.{Batch, BatchError, registry_error, set_too_large, plan_error}
use jmaplib.Batch.Sending.{
  plan, plan_handles, calls_of, check_set_sizes, check_sizes, using, named, is_set, total_named,
  lift_error,
}
use jmaplib.Batch.Made.{Made, Made-HasDistinctIds}

uint-positive : (source : Dict Text Json) (key : Text) (n : ℕ) → 1 ≤ uint source key (suc n)
unfolding uint
uint-positive source key n = found (lookup key source)
  where
    found :
        (o : Option Json) → 1 ≤ elim o as (λ _. ℕ) [ some (int (pos (suc m))) ↦ suc m | _ ↦ suc n ]
    found (some (int (pos (suc m)))) = omega arith
    found _ = omega arith

abbrev pub max_calls : {R : Type 0} → Batch R → ℕ
max_calls batch = (active_limits batch.capabilities).max_calls_in_request

abbrev pub max_set : {R : Type 0} → Batch R → ℕ
max_set batch = (active_limits batch.capabilities).max_objects_in_set

max_calls-positive : {R : Type 0} (batch : Batch R) → 1 ≤ max_calls batch
unfolding active_limits from_capability
max_calls-positive batch =
    uint-positive
      (capability_value batch.capabilities.session core_urn batch.capabilities.account_id)
      (codes "maxCallsInRequest") 15

-- The call is no set that names more objects than the limit.
abbrev pub IsWithinSet : {R : Type 0} → ActiveCapabilities → ℕ → Handle R → Type 0
IsWithinSet active limit h =
    (is_set (method h.call.name active) && ltb limit (total_named h.call.arguments)) ≡ false

abbrev pub PlanOutcome :
    {R : Type 0} → Batch R → List Text → Result BatchError (List (Request R)) → Type 0
PlanOutcome batch extra (ok requests) =
    All (IsSound (max_calls batch)) requests
    × (all_calls requests ≡ calls_of batch.handles)
    × All (IsWithinSet batch.capabilities (max_set batch)) batch.handles
PlanOutcome batch extra (err (registry_error e)) =
    using_for batch.capabilities (named batch) extra ≡ err e
PlanOutcome batch extra (err (set_too_large name limit total)) =
    (limit ≡ max_set batch) × (limit < total)
PlanOutcome batch extra (err (plan_error (batch_too_large ids limit))) =
    (limit ≡ max_calls batch) × (limit < length ids)
PlanOutcome batch extra (err _) = ⊥

abbrev SizeOutcome : ℕ → Result BatchError (Unit {0}) → Type 0
SizeOutcome limit (ok _) = Unit
SizeOutcome limit (err (set_too_large name m total)) = (m ≡ limit) × (limit < total)
SizeOutcome limit (err _) = ⊥

module _ {R : Type 0} (active : ActiveCapabilities) (limit : ℕ) where
  check_sizes-ok :
      (hs : List (Handle R))
      → check_sizes active limit hs ≡ ok tt
      → All (IsWithinSet active limit) hs
  unfolding check_sizes
  check_sizes-ok [] h = tt
  check_sizes-ok (x ∷ xs) h = ground (arith, check_sizes-ok xs)

  check_sizes-SizeOutcome : (hs : List (Handle R)) → SizeOutcome limit (check_sizes active limit hs)
  unfolding check_sizes
  check_sizes-SizeOutcome [] = tt
  check_sizes-SizeOutcome (x ∷ xs) =
      elim (Bool-cases
        (is_set (method x.call.name active) && ltb limit (total_named x.call.arguments))) [
          | inl large ↦ rw large (refl, ground arith)
          | inr fits ↦ rw fits (check_sizes-SizeOutcome xs)
        ]

module _ {R : Type 0} (batch : Batch R) (extra : List Text) where
  -- The outcome after the sizes and the using set are found good.
  lift_error-PlanOutcome :
      (r : Result PlanError (List (Request R)))
      → Planned (max_calls batch) (calls_of batch.handles) r
      → All (IsWithinSet batch.capabilities (max_set batch)) batch.handles
      → PlanOutcome batch extra (lift_error plan_error r)
  lift_error-PlanOutcome (ok requests) h fits = (h.0, h.1, fits)
  lift_error-PlanOutcome (err (batch_too_large ids m)) h fits = (h.0, omega arith)
  lift_error-PlanOutcome (err _) h fits = absurd h

  sizes_outcome :
      (sized : Result BatchError (Unit {0})) (urns : Result RegistryError (List Text))
      (planned : List Text → Result PlanError (List (Request R)))
      → SizeOutcome (max_set batch) sized
      → (sized ≡ ok tt → All (IsWithinSet batch.capabilities (max_set batch)) batch.handles)
      → using_for batch.capabilities (named batch) extra ≡ urns
      → ((us : List Text) → Planned (max_calls batch) (calls_of batch.handles) (planned us))
      → PlanOutcome batch extra (
          sized >>= λ _.
          lift_error registry_error urns >>= λ us. lift_error plan_error (planned us))
  sizes_outcome (err (set_too_large name m total)) urns planned sizes fits e h =
      (sizes.0, omega arith)
  sizes_outcome (err _) urns planned sizes fits e h = absurd sizes
  sizes_outcome (ok _) (err e) planned sizes fits same h = same
  sizes_outcome (ok _) (ok us) planned sizes fits same h =
      lift_error-PlanOutcome (planned us) (h us) (fits refl)

-- Planning a batch, however it was made, whose references are valid: either the requests hold its
-- calls in order, each with at least one and at most the server's limit and with references to its
-- own earlier calls alone, and no set is over the limit; or the using set is refused, a set is over
-- the limit, or calls that must go together are more than the limit. It fails in no other way.
pub plan-PlanOutcome :
    {R : Type 0} (batch : Batch R) (extra : List Text)
    → Made batch
    → validate_references (calls_of batch.handles) ≡ ok tt
    → PlanOutcome batch extra (plan batch extra)
unfolding plan
plan-PlanOutcome {R} batch extra made valid = go batch.handles refl
  where
    go :
        (hs : List (Handle R))
        → hs ≡ batch.handles
        → PlanOutcome batch extra (plan_handles batch extra hs)
    go [] same =
        (tt, ap calls_of same, subst (All (IsWithinSet batch.capabilities (max_set batch))) same tt)
    go (x ∷ xs) same =
        let created = keep_created (some batch.created_ids) in
        sizes_outcome batch extra (check_set_sizes batch)
          (using_for batch.capabilities (named batch) extra)
          (λ us. plan_requests (calls_of (x ∷ xs)) us (max_calls batch) created)
          (check_sizes-SizeOutcome batch.capabilities (max_set batch) batch.handles)
          (check_sizes-ok batch.capabilities (max_set batch) batch.handles) refl
          (λ us.
            subst
              (λ l.
                Planned (max_calls batch) (calls_of batch.handles)
                  (plan_requests (calls_of l) us (max_calls batch) created))
              (sym same)
              (plan_requests-Planned (calls_of batch.handles) us (max_calls batch) created
                (Made-HasDistinctIds batch made) valid (max_calls-positive batch)))

plan_requests-valid :
    {R : Type 0} (calls : Calls R) (us : List Text) (limit : ℕ) (created : Option (Dict Text Text))
    (requests : List (Request R))
    → plan_requests calls us limit created ≡ ok requests
    → validate_references calls ≡ ok tt
unfolding plan_requests
plan_requests-valid [] us limit created requests h = unfold validate_references in refl
plan_requests-valid (c ∷ cs) us limit created requests h = elim (Bool-cases (ltb limit 1)) [
  | inl narrow ↦ cc (rw (narrow, plan_requests) at h)
  | inr wide ↦
      let filled : (length (c ∷ cs) == 0) ≡ false = ground arith in
      let (_, valid, _) =
        >>=-eq-ok (validate_references (c ∷ cs)) _ (rw (wide, filled, plan_requests) at h) in
      valid
]

lift_error-ok {ℓ} :
    {E : Type 0} {A : Type ℓ} (f : E → BatchError) (r : Result E A) (a : A)
    → lift_error f r ≡ ok a
    → r ≡ ok a
lift_error-ok f (ok b) a h = ap ok (ok-injective h)
lift_error-ok f (err e) a h = cc h

-- A batch is planned only if its references are valid.
pub plan-valid :
    {R : Type 0} (batch : Batch R) (extra : List Text) (requests : List (Request R))
    → plan batch extra ≡ ok requests
    → validate_references (calls_of batch.handles) ≡ ok tt
unfolding plan
plan-valid {R} batch extra requests h = go batch.handles h
  where
    go :
        (hs : List (Handle R))
        → plan_handles batch extra hs ≡ ok requests
        → validate_references (calls_of hs) ≡ ok tt
    go [] h = unfold validate_references in refl
    go (x ∷ xs) h =
        let (_, sized, more) = >>=-eq-ok (check_set_sizes batch) _ h in
        let (us, named_urns, rest) = >>=-eq-ok (using batch extra) _ more in
        plan_requests-valid (calls_of (x ∷ xs)) us (max_calls batch)
          (keep_created (some batch.created_ids)) requests
          (lift_error-ok plan_error _ requests rest)
