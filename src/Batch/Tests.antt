-- ===== src/Batch/Tests.antt =====
-- A batch of two calls: added, planned and answered in part.
use jmaplib.Prelude.{
  Text, codes, true, false, List, [], ◌∷◌, none, some, ok, err, ◌≡◌, refl, nat_eq, list_eq,
  list_beq, decimal, split,
}
use jmaplib.Prelude.Dict.{Dict, lookup, insert, has_key}
use jmaplib.Json.{Json, str}
use jmaplib.Patch.{contains}
use jmaplib.Limits.{from_capability, uint}
use jmaplib.Invocation.{Value, dict, list, Members, end, member, nil, cons}
use jmaplib.Invocation.Handles.{Handle}
use jmaplib.Session.Lookup.{capability_value}
use jmaplib.Request.{
  Request, plan_requests, validate_references, validate_from, check_refs, cut_points, index_from,
  lowest_from, legal_from, min_index, plan_loop, back_off,
}
use jmaplib.Request.Slices.{HasDistinctIds}
use jmaplib.Response.{Response, dispatch, resolve_handle, partition}
use jmaplib.Response.Routing.{own}
use jmaplib.Capabilities.{type_of, unsupported_method}
use jmaplib.Capabilities.Active.{
  method, owner_of, data_type, active_limits, using_for, urns_of_methods, all_needed, missing_from,
  first_type,
}
use jmaplib.Capabilities.Tests.{active, thing_get}
use jmaplib.Batch.{Batch, Objects, new_batch, registry_error}
use jmaplib.Batch.Filter.{condition_names, names_of, walk, push, condition_names-names_of}
use jmaplib.Batch.Gates.{
  gate, require_method, with_account, resolve_account, check_read_only, check_properties,
  check_sort,
}
use jmaplib.Batch.Queue.{add, add_gated, note, queue, split_if_oversized}
use jmaplib.Batch.Sending.{
  plan, check_set_sizes, check_sizes, using, absorb, fail_unanswered, hand_out, pending, calls_of,
}
use jmaplib.Batch.Made.{Made, started, added, Made-HasDistinctIds}
use jmaplib.Batch.Planning.{PlanOutcome, plan-PlanOutcome}
use jmaplib.Batch.Gated.{IsAdmitted, gate-IsAdmitted}
use jmaplib.Batch.Settled.{waiting, absorb-pending}

unfoldable pub batcher : Unit {0}
unfolding add add_gated gate require_method method with_account resolve_account owner_of
    check_read_only check_properties check_sort data_type first_type type_of split note queue
    split_if_oversized decimal lookup insert has_key list_beq contains validate_references
    validate_from check_refs plan check_set_sizes check_sizes using using_for urns_of_methods
    all_needed missing_from active_limits from_capability uint capability_value plan_requests
    cut_points index_from lowest_from legal_from min_index plan_loop back_off absorb fail_unanswered
    hand_out dispatch resolve_handle partition own waiting condition_names walk push names_of
batcher = tt

abbrev objects : Objects
objects = record { str_of = λ v. []; hashable = λ v. true; same = λ a b. false }

abbrev pub str_of : Json → Text
str_of (str s) = s
str_of _ = []

abbrev Answer : Type 0
Answer = Dict Text Json

abbrev nothing : Batch Answer
nothing = new_batch active (some (codes "a")) []

abbrev pub one_call : Batch (Dict Text Json)
one_call = (add objects nothing (codes "Thing/get") [] none (λ spec. ok)).0

abbrev pub two_calls : Batch (Dict Text Json)
two_calls = (add objects one_call (codes "Thing/get") [] none (λ spec. ok)).0

pub two_calls_made : Made two_calls
two_calls_made =
    added objects one_call (codes "Thing/get") [] none (λ spec. ok)
      (added objects nothing (codes "Thing/get") [] none (λ spec. ok)
        (started active (some (codes "a")) []))

unknown_refused :
    add objects one_call (codes "Other/get") [] none (λ spec. ok)
    ≡ (one_call, err (registry_error (unsupported_method (codes "Other/get"))))
unfolding batcher
unknown_refused = refl

abbrev id_list : List (Handle Answer) → List Text
id_list [] = []
id_list (h ∷ hs) = h.call_id ∷ id_list hs

numbered_in_turn : id_list two_calls.handles ≡ codes "c1" ∷ codes "c2" ∷ []
unfolding batcher
numbered_in_turn = refl

Made-HasDistinctIds_example : HasDistinctIds (calls_of two_calls.handles)
Made-HasDistinctIds_example = Made-HasDistinctIds two_calls two_calls_made

two_calls_valid : validate_references (calls_of two_calls.handles) ≡ ok tt
unfolding batcher
two_calls_valid = refl

plan-PlanOutcome_example : PlanOutcome two_calls [] (plan two_calls [])
plan-PlanOutcome_example = plan-PlanOutcome two_calls [] two_calls_made two_calls_valid

-- A filter of two conditions under an operator.
abbrev named_filter : Members
named_filter = member (codes "operator") (jmaplib.Invocation.str (codes "AND")) (
    member (codes "conditions")
      (list (
        cons (dict (member (codes "from") (jmaplib.Invocation.str []) end))
          (cons (dict (member (codes "text") (jmaplib.Invocation.str []) end)) nil)))
      end)

filter_run : condition_names named_filter ≡ some (codes "text" ∷ codes "from" ∷ [])
unfolding batcher
filter_run = refl

condition_names-names_of_example :
    condition_names named_filter ≡ some (names_of (dict named_filter))
condition_names-names_of_example = condition_names-names_of named_filter

abbrev first_request : Request Answer
first_request = record { using = []; method_calls = calls_of one_call.handles; created_ids = none }

abbrev flying : Batch Answer
flying = (hand_out first_request two_calls).1

abbrev pub empty_response : Response
empty_response = record { method_responses = []; created_ids = []; session_state = [] }

absorbed_fine : (absorb str_of empty_response flying).1 ≡ none
unfolding batcher
absorbed_fine = refl

second_waits : id_list (pending (absorb str_of empty_response flying).0) ≡ codes "c2" ∷ []
unfolding batcher
second_waits = refl

absorb-pending_example :
    pending (absorb str_of empty_response flying).0 ≡ waiting flying.in_flight [] flying.handles
absorb-pending_example = absorb-pending str_of empty_response flying absorbed_fine

abbrev account_argument : Dict Text Value
account_argument = (codes "accountId", jmaplib.Invocation.str (codes "a")) ∷ []

gate_run : gate objects nothing (codes "Thing/get") [] none ≡ ok (thing_get, account_argument)
unfolding batcher
gate_run = refl

gate-IsAdmitted_example : IsAdmitted objects active (codes "Thing/get") thing_get account_argument
gate-IsAdmitted_example =
    gate-IsAdmitted objects nothing (codes "Thing/get") [] none thing_get account_argument gate_run
