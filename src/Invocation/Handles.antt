-- ===== src/Invocation/Handles.antt =====
-- core/invocation.py and core/errors.py: response triples, and the handle of a queued call.
use jmaplib.Prelude.{
  Text, codes, Bool, true, false, List, [], ◌∷◌, ◌++◌, Option, none, some, Result, ok, err, nat_eq,
  list_eq,
}
use jmaplib.Prelude.Dict.{Dict}
use jmaplib.Json.{Json, arr, obj, nil, cons, fields}
use jmaplib.Invocation.{MethodCall, ResultRef}

pub record ParsedInvocation : Type 0 where
  pub name : Text
  pub arguments : Dict Text Json
  pub method_call_id : Text

-- What `ParsedInvocation.from_wire` refuses.
pub data TripleError : Type 0 where
  not_three : TripleError
  arguments_not_object : TripleError

-- `ParsedInvocation.from_wire`. `str_of` is Python's `str` of a decoded value.
unfoldable pub parse_triple : (str_of : Json → Text) → Json → Result TripleError ParsedInvocation
parse_triple str_of (arr (cons name (cons (obj arguments) (cons call_id nil)))) =
    ok
      (record { name = str_of name; arguments = fields arguments; method_call_id = str_of call_id })
parse_triple str_of (arr (cons name (cons arguments (cons call_id nil)))) = err arguments_not_object
parse_triple str_of other = err not_three

-- `MethodError`; `partial_fail` says that it is a `ServerPartialFailError`.
pub record MethodError : Type 0 where
  pub error_type : Text
  pub call_id : Text
  pub arguments : Dict Text Json
  pub partial_fail : Bool

pub record Handle (R : Type 0) : Type 0 where
  pub call_id : Text
  pub call : MethodCall R
  pub answer : Option R
  pub failure : Option MethodError
  pub extra : List ParsedInvocation
  pub resolved : Bool

abbrev pub new_handle : {R : Type 0} → Text → MethodCall R → Handle R
new_handle call_id call = record {
  call_id = call_id;
  call = call;
  answer = none;
  failure = none;
  extra = [];
  resolved = false;
}

abbrev pub fulfil : {R : Type 0} → R → List ParsedInvocation → Handle R → Handle R
fulfil value extra h = record h { answer = some value; extra = extra; resolved = true }

abbrev pub fail : {R : Type 0} → MethodError → Handle R → Handle R
fail error h = record h { failure = some error; resolved = true }

pub data ResultError : Type 0 where
  not_executed : Text → ResultError
  method_error : MethodError → ResultError

-- `Handle.result`
unfoldable pub result : {R : Type 0} → Handle R → Result ResultError (Option R)
result h = elim h.resolved [
  | false ↦ err (not_executed h.call_id)
  | true ↦ elim h.failure [ some e ↦ err (method_error e) | none ↦ ok h.answer ]
]

-- `Handle.ref` and the references made with it.
abbrev pub ref : {R : Type 0} → Text → Handle R → ResultRef
ref path h = record { result_of = h.call_id; name = h.call.name; path = path }

abbrev pub ref_ids : {R : Type 0} → Handle R → ResultRef
ref_ids h = ref (codes "/ids") h

abbrev pub ref_list : {R : Type 0} → Text → Handle R → ResultRef
ref_list prop h = ref (codes "/list/*/" ++ prop) h

abbrev pub ref_created : {R : Type 0} → Text → Text → Handle R → ResultRef
ref_created creation_key prop h = ref (codes "/created/" ++ (creation_key ++ b'/' ∷ prop)) h

abbrev pub ref_updated : {R : Type 0} → Handle R → ResultRef
ref_updated h = ref (codes "/updated") h

abbrev pub ref_updated_properties : {R : Type 0} → Handle R → ResultRef
ref_updated_properties h = ref (codes "/updatedProperties") h
