-- ===== src/Batch/Sending.antt =====
-- batch.py: planning the requests of a batch, absorbing the responses, and what a retry may do.
use jmaplib.Prelude.{
  ℕ, ◌+◌, Text, codes, Bool, true, false, not, ◌&&◌, ◌||◌, List, [], ◌∷◌, map, length, Option, none,
  some, if◌then◌else◌, ltb, nat_eq, list_eq, list_beq, Result, ok, err, ◌>>=◌, ◌>>◌,
}
use jmaplib.Prelude.Dict.{Dict, lookup, insert}
use jmaplib.Json.{Json, str}
use jmaplib.Invocation.{Value}
use jmaplib.Invocation.Handles.{Handle, MethodError, fail}
use jmaplib.Patch.{contains}
use jmaplib.Request.{Calls, Request, plan_requests, keep_created}
use jmaplib.Response.{Response, dispatch}
use jmaplib.Capabilities.{ActiveCapabilities, MethodSpec, MethodKind, set}
use jmaplib.Capabilities.Active.{active_limits, method, using_for, Named}
use jmaplib.Batch.{
  Batch, BatchError, registry_error, set_too_large, plan_error, array, object, entries, is_text,
}
use jmaplib.Batch.Gates.{Arguments}

abbrev pub lift_error {ℓ} :
    {E : Type 0} {A : Type ℓ} → (E → BatchError) → Result E A → Result BatchError A
lift_error f (ok a) = ok a
lift_error f (err e) = err (f e)

abbrev pub is_set : Option MethodSpec → Bool
is_set none = false
is_set (some spec) = set_kind spec.kind
  where
    set_kind : MethodKind → Bool
    set_kind set = true
    set_kind _ = false

-- `len(_object(value) or _array(value) or ())`
abbrev pub literal_size : Option Value → ℕ
literal_size value = elim (object value) [
  | some ms ↦ length (entries ms)
  | none ↦ elim (array value) [ some vs ↦ length vs | none ↦ 0 ]
]

-- The number of objects that the arguments name literally.
unfoldable pub total_named : Arguments → ℕ
unfolding lookup list_beq
total_named args =
    literal_size (lookup (codes "create") args)
    + literal_size (lookup (codes "update") args)
    + literal_size (lookup (codes "destroy") args)

-- `self._created_ids.update(created)`
abbrev pub update_all : Dict Text Text → Dict Text Text → Dict Text Text
update_all d [] = d
update_all d ((k, v) ∷ created) = update_all (insert k v d) created

abbrev pub has_state : Option Text → Bool
has_state (some (c ∷ s)) = true
has_state other = false

module _ {R : Type 0} where
  abbrev pub call_names : List (Handle R) → List Text
  call_names hs = map (λ h. h.call.name) hs

  abbrev pub named : Batch R → Named
  named batch = record {
    methods = call_names batch.handles;
    properties = batch.properties;
    filter_fields = batch.filter_fields;
    sort_options = batch.sort_options;
    type_names = batch.type_names;
  }

  -- `using`
  unfoldable pub using : Batch R → List Text → Result BatchError (List Text)
  unfolding using_for
  using batch extra = lift_error registry_error (using_for batch.capabilities (named batch) extra)

  unfoldable pub check_sizes :
      ActiveCapabilities → ℕ → List (Handle R) → Result BatchError (Unit {0})
  unfolding method total_named
  check_sizes active limit [] = ok tt
  check_sizes active limit (h ∷ hs) =
      let rest = check_sizes active limit hs in
      let total = total_named h.call.arguments in
      if is_set (method h.call.name active) && ltb limit total
      then err (set_too_large h.call.name limit total)
      else rest

  -- `_check_set_sizes`
  unfoldable pub check_set_sizes : Batch R → Result BatchError (Unit {0})
  unfolding check_sizes active_limits
  check_set_sizes batch =
      check_sizes batch.capabilities (active_limits batch.capabilities).max_objects_in_set
        batch.handles

  abbrev pub calls_of : List (Handle R) → Calls R
  calls_of hs = map (λ h. (h.call_id, h.call)) hs

  -- `Batch.plan`, of some handles.
  abbrev pub plan_handles :
      Batch R → List Text → List (Handle R) → Result BatchError (List (Request R))
  plan_handles batch extra [] = ok []
  plan_handles batch extra hs = do
    check_set_sizes batch
    urns ← using batch extra
    lift_error plan_error (
        plan_requests (calls_of hs) urns (active_limits batch.capabilities).max_calls_in_request
          (keep_created (some batch.created_ids)))

  unfoldable pub plan : Batch R → List Text → Result BatchError (List (Request R))
  unfolding check_set_sizes using active_limits plan_requests
  plan batch extra = plan_handles batch extra batch.handles

  -- What `requests` does for one request that it hands out: the request, and the batch.
  unfoldable pub hand_out : Request R → Batch R → Request R × Batch R
  hand_out request batch = (
    record request { created_ids = keep_created (some batch.created_ids) },
    record batch { in_flight = map (λ c. c.0) request.method_calls },
  )

  -- The end of `requests`.
  abbrev pub finish : Batch R → Batch R
  finish batch = record batch { in_flight = [] }

  abbrev pub missing_response : Handle R → MethodError
  missing_response h = record {
    error_type = codes "missingResponse";
    call_id = h.call_id;
    arguments =
        (codes "description", str (codes "the server's response did not answer this call")) ∷ [];
    partial_fail = false;
  }

  unfoldable pub fail_unanswered : List Text → List (Handle R) → List (Handle R)
  unfolding contains
  fail_unanswered in_flight [] = []
  fail_unanswered in_flight (h ∷ hs) =
      (if contains in_flight h.call_id && not h.resolved then fail (missing_response h) h else h)
      ∷ fail_unanswered in_flight hs

  -- The rest of `absorb`, after a dispatch that may have raised.
  abbrev pub after_dispatch :
      Response → Batch R → List (Handle R) × Option Text → Batch R × Option Text
  after_dispatch response batch (handles, some exc) = (record batch { handles = handles }, some exc)
  after_dispatch response batch (handles, none) = (
    record batch {
      handles = fail_unanswered batch.in_flight handles;
      created_ids = update_all batch.created_ids response.created_ids;
      in_flight = [];
    },
    none,
  )

  -- `Batch.absorb`: the batch that it leaves, and the exception.
  unfoldable pub absorb : (Json → Text) → Response → Batch R → Batch R × Option Text
  unfolding dispatch fail_unanswered insert
  absorb str_of response batch =
      after_dispatch response batch (dispatch str_of response batch.handles)

  abbrev pub pending_in : List (Handle R) → List (Handle R)
  pending_in [] = []
  pending_in (h ∷ hs) = elim h.resolved [ true ↦ pending_in hs | false ↦ h ∷ pending_in hs ]

  -- `Batch.pending`
  abbrev pub pending : Batch R → List (Handle R)
  pending batch = pending_in batch.handles

  -- `_is_guarded`
  unfoldable pub is_guarded : Handle R → Bool
  unfolding lookup list_beq
  is_guarded h = has_state (is_text (lookup (codes "ifInState") h.call.arguments))

  abbrev pub mutates : ActiveCapabilities → Handle R → Bool
  mutates active h = elim (method h.call.name active) [ none ↦ false | some spec ↦ spec.mutating ]

  unfoldable pub any_mutates : ActiveCapabilities → List (Handle R) → Bool
  unfolding method
  any_mutates active [] = false
  any_mutates active (h ∷ hs) = mutates active h || any_mutates active hs

  -- `is_mutating`
  unfoldable pub is_mutating : Batch R → ActiveCapabilities → Bool
  unfolding any_mutates
  is_mutating batch active = any_mutates active batch.handles

  unfoldable pub all_guarded : ActiveCapabilities → List (Handle R) → Bool
  unfolding method is_guarded
  all_guarded active [] = true
  all_guarded active (h ∷ hs) = (not (mutates active h) || is_guarded h) && all_guarded active hs

  -- `all_mutations_guarded`
  unfoldable pub all_mutations_guarded : Batch R → ActiveCapabilities → Bool
  unfolding all_guarded
  all_mutations_guarded batch active = all_guarded active batch.handles

  unfoldable pub guarded_ids : ActiveCapabilities → List (Handle R) → List Text
  unfolding method is_guarded
  guarded_ids active [] = []
  guarded_ids active (h ∷ hs) =
      let rest = guarded_ids active hs in
      if mutates active h && is_guarded h then h.call_id ∷ rest else rest

  -- `guarded_call_ids`
  unfoldable pub guarded_call_ids : Batch R → ActiveCapabilities → List Text
  unfolding guarded_ids
  guarded_call_ids batch active = guarded_ids active batch.handles
