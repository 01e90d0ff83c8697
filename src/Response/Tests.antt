-- ===== src/Response/Tests.antt =====
-- A response with an implicit invocation, routed to two handles.
use jmaplib.Prelude.{
  Text, codes, List, [], ◌∷◌, ok, ◌≡◌, refl, nat_eq, list_eq, list_beq, map, Bool, true, false,
}
use jmaplib.Prelude.Dict.{Dict, lookup, insert}
use jmaplib.Json.{Json, str}
use jmaplib.Invocation.{MethodCall}
use jmaplib.Invocation.Handles.{ParsedInvocation, Handle, new_handle}
use jmaplib.Response.{Response, dispatch, resolve_handle, partition}
use jmaplib.Response.Routing.{route, own, dispatch-route, IsPartition, partition-IsPartition}

router : Unit {0}
unfolding dispatch resolve_handle own lookup insert list_beq partition
router = tt

abbrev str_of : Json → Text
str_of (str s) = s
str_of _ = []

abbrev submission : MethodCall (Dict Text Json)
submission = record { name = codes "EmailSubmission/set"; arguments = []; parse = ok }

abbrev handles : List (Handle (Dict Text Json))
handles = new_handle (codes "c0") submission ∷ new_handle (codes "c1") submission ∷ []

abbrev implicit : ParsedInvocation
implicit = record { name = codes "Email/set"; arguments = []; method_call_id = codes "c0" }

abbrev answer : ParsedInvocation
answer = record {
  name = codes "EmailSubmission/set";
  arguments = (codes "accountId", str (codes "a")) ∷ [];
  method_call_id = codes "c0";
}

abbrev response : Response
response = record {
  method_responses = implicit ∷ answer ∷ [];
  created_ids = [];
  session_state = [];
}

routed :
    map {B = List ParsedInvocation × Bool}
      (λ h. (h.extra, h.resolved))
      (dispatch str_of response handles).0
    ≡ (implicit ∷ [], true) ∷ ([], false) ∷ []
unfolding router
routed = refl

dispatch-route_example :
    dispatch str_of response handles ≡ route str_of (implicit ∷ answer ∷ []) handles
dispatch-route_example = dispatch-route str_of response handles

partition-IsPartition_example :
    IsPartition (codes "EmailSubmission/set") (implicit ∷ answer ∷ []) answer (implicit ∷ [])
unfolding router
partition-IsPartition_example =
    partition-IsPartition (codes "EmailSubmission/set") implicit (answer ∷ [])
