-- ===== src/Response.antt =====
-- core/response.py: parsing a response and routing it to the handles of the calls.
pub mod Routing
mod Tests
use jmaplib.Prelude.{
  Text, codes, Bool, true, false, ◌||◌, List, [], ◌∷◌, ◌++◌, Option, none, some, if◌then◌else◌,
  ◌==◌, nat_eq, list_eq, list_beq, Result, ok, err, ◌>>=◌,
}
use jmaplib.Prelude.Dict.{Dict, lookup, insert}
use jmaplib.Json.{Json, null, arr, obj, str, items, fields, Items, TypeName, type_name}
use jmaplib.Invocation.{MethodCall, Fault, caught, escaped}
use jmaplib.Invocation.Handles.{
  ParsedInvocation, TripleError, parse_triple, MethodError, Handle, fulfil, fail,
}

pub record Response : Type 0 where
  pub method_responses : List ParsedInvocation
  pub created_ids : Dict Text Text
  pub session_state : Text

-- `MalformedResponseError`, by what it says.
pub data Malformed : Type 0 where
  responses_not_array created_not_object : Malformed
  created_not_string : Text → TypeName → Malformed
  bad_triple : TripleError → Malformed

-- `data.get(key)`, where an absent key and null are both `None`.
abbrev pub get_member : Text → Dict Text Json → Json
get_member key body = elim (lookup key body) [ none ↦ null | some v ↦ v ]

unfoldable pub read_responses : Json → Result Malformed (List Json)
read_responses null = ok []
read_responses (arr xs) = ok (items xs)
read_responses other = err responses_not_array

unfoldable pub read_created : Dict Text Json → Result Malformed (Dict Text Text)
read_created [] = ok []
read_created ((key, str s) ∷ rest) = do ids ← read_created rest; ok ((key, s) ∷ ids)
read_created ((key, v) ∷ rest) = err (created_not_string key (type_name v))

unfoldable pub read_created_value : Json → Result Malformed (Dict Text Text)
unfolding read_created
read_created_value null = ok []
read_created_value (obj fs) = read_created (fields fs)
read_created_value other = err created_not_object

unfoldable pub read_triples : (Json → Text) → List Json → Result Malformed (List ParsedInvocation)
unfolding parse_triple
read_triples str_of [] = ok []
read_triples str_of (t ∷ ts) = elim (parse_triple str_of t) [
  | err e ↦ err (bad_triple e)
  | ok invocation ↦ (read_triples str_of ts >>= λ rest. ok (invocation ∷ rest))
]

-- `str(data.get("sessionState", ""))`
abbrev pub session_state_of : (Json → Text) → Dict Text Json → Text
session_state_of str_of body = elim (lookup (codes "sessionState") body) [
  | none ↦ []
  | some v ↦ str_of v
]

-- `Response.from_wire`: the shapes of both members are checked before the members are read.
unfoldable pub read_response : (Json → Text) → Dict Text Json → Result Malformed Response
unfolding read_responses read_created_value read_triples lookup list_beq
read_response str_of body = do
  triples ← read_responses (get_member (codes "methodResponses") body)
  created_ids ← read_created_value (get_member (codes "createdIds") body)
  invocations ← read_triples str_of triples
  ok (record {
    method_responses = invocations;
    created_ids = created_ids;
    session_state = session_state_of str_of body;
  })

abbrev pub error_response_name : Text
error_response_name = codes "error"

-- `_to_method_error`
abbrev pub to_method_error : (Json → Text) → ParsedInvocation → MethodError
to_method_error str_of invocation =
    let error_type : Text = elim (lookup (codes "type") invocation.arguments) [
      | none ↦ codes "unknownError"
      | some v ↦ str_of v
    ] in
    record {
      error_type = error_type;
      call_id = invocation.method_call_id;
      arguments = invocation.arguments;
      partial_fail = error_type == codes "serverPartialFail";
    }

-- `invocation.name in (expected, ERROR_RESPONSE_NAME)`
abbrev pub answers : Text → ParsedInvocation → Bool
answers expected invocation = invocation.name == expected || invocation.name == error_response_name

-- The first invocation that answers, and the others.
unfoldable pub pick :
    Text → List ParsedInvocation → Option (ParsedInvocation × List ParsedInvocation)
pick expected [] = none
pick expected (i ∷ is) =
    let later = pick expected is in
    if answers expected i
    then some (i, is)
    else elim later [ none ↦ none | some p ↦ some (p.0, i ∷ p.1) ]

-- `_partition`, of a list with a first element.
unfoldable pub partition :
    Text → ParsedInvocation → List ParsedInvocation → ParsedInvocation × List ParsedInvocation
unfolding pick
partition expected first rest = elim (pick expected (first ∷ rest)) [
  | some found ↦ found
  | none ↦ (first, rest)
]

-- `by_call_id.setdefault(invocation.method_call_id, []).append(invocation)`
abbrev pub file_under :
    Text → ParsedInvocation → Dict Text (List ParsedInvocation) → Dict Text (List ParsedInvocation)
file_under k i d = insert k (elim (lookup k d) [ none ↦ i ∷ [] | some filed ↦ filed ++ i ∷ [] ]) d

unfoldable pub group_from :
    Dict Text (List ParsedInvocation) → List ParsedInvocation → Dict Text (List ParsedInvocation)
group_from d [] = d
group_from d (i ∷ is) = group_from (file_under i.method_call_id i d) is

abbrev malformed_result : {R : Type 0} → Handle R → Text → Text → MethodError
malformed_result h name exc = record {
  error_type = codes "malformedResult";
  call_id = h.call_id;
  arguments =
      (
        codes "description",
        str (codes "the " ++ (name ++ (codes " response did not parse: " ++ exc))),
      )
      ∷ [];
  partial_fail = false;
}

-- What the loop of `dispatch` does to one handle, or the exception that ends the loop.
unfoldable pub resolve_handle :
    {R : Type 0} → (Json → Text) → List ParsedInvocation → Handle R → Result Text (Handle R)
unfolding partition
resolve_handle str_of [] h = ok h
resolve_handle str_of (first ∷ rest) h =
    let (primary, extra) = partition h.call.name first rest in
    if primary.name == error_response_name
    then ok (fail (to_method_error str_of primary) h)
    else elim (h.call.parse primary.arguments) [
      | ok parsed ↦ ok (fulfil parsed extra h)
      | err (caught exc) ↦ ok (fail (malformed_result h primary.name exc) h)
      | err (escaped exc) ↦ err exc
    ]

-- `by_call_id.get(call_id)`, where nothing is found as where nothing is filed.
abbrev pub or_nil : Option (List ParsedInvocation) → List ParsedInvocation
or_nil none = []
or_nil (some filed) = filed

-- The loop: the handles as it leaves them, and the exception that ended it.
unfoldable pub dispatch_loop :
    {R : Type 0}
    → (Json → Text)
    → Dict Text (List ParsedInvocation)
    → List (Handle R)
    → List (Handle R) × Option Text
dispatch_loop str_of by_call_id [] = ([], none)
dispatch_loop str_of by_call_id (h ∷ hs) =
    let later = dispatch_loop str_of by_call_id hs in
    elim (resolve_handle str_of (or_nil (lookup h.call_id by_call_id)) h) [
      | ok resolved ↦ (resolved ∷ later.0, later.1)
      | err exc ↦ (h ∷ hs, some exc)
    ]

-- `dispatch`
unfoldable pub dispatch :
    {R : Type 0} → (Json → Text) → Response → List (Handle R) → List (Handle R) × Option Text
unfolding dispatch_loop group_from
dispatch str_of response handles =
    dispatch_loop str_of (group_from [] response.method_responses) handles
