-- ===== src/Batch.antt =====
-- batch.py: the calls collected for one or more requests, and what is known of them.
pub mod Gates
pub mod Filter
pub mod Queue
pub mod Sending
pub mod Numbering
pub mod Settled
pub mod Made
pub mod Planning
pub mod Gated
pub mod Tests
use jmaplib.Prelude.{ℕ, Text, codes, Bool, true, false, List, [], ◌∷◌, Option, none, some}
use jmaplib.Prelude.Dict.{Dict}
use jmaplib.Json.{Json}
use jmaplib.Invocation.{
  Value, str, list, dict, jmap_object, mapping, Elements, nil, cons, Members, end, member,
}
use jmaplib.Invocation.Handles.{Handle}
use jmaplib.Request.{PlanError}
use jmaplib.Capabilities.{ActiveCapabilities, RegistryError}

-- What Python gives for a value of an argument: its `str`, whether it can be hashed, and whether
-- it is equal, as a key of a dict, to another.
pub record Objects : Type 0 where
  pub str_of : Value → Text
  pub hashable : Value → Bool
  pub same : Value → Value → Bool

-- What a batch raises. `type_error` is Python's for a value that cannot be hashed, and
-- `index_error` that of the first of no chunks.
pub data BatchError : Type 0 where
  registry_error : RegistryError → BatchError
  no_account : (method urn : Text) → BatchError
  read_only_account : (method : Text) → Value → BatchError
  never_returned : (type_name : Text) → List Text → BatchError
  collation_refused : List Json → Text → BatchError
  sort_refused : (urn field : Text) → (advertised : List Json) → List Text → BatchError
  set_too_large : (method : Text) → (limit total : ℕ) → BatchError
  plan_error : PlanError → BatchError
  type_error index_error : BatchError

pub record Batch (R : Type 0) : Type 0 where
  pub capabilities : ActiveCapabilities
  pub default_account : Option Text
  pub handles : List (Handle R)
  pub in_flight : List Text
  pub properties : List (Text × Text)
  pub filter_fields : List (Text × Text)
  pub sort_options : List (Text × Text)
  pub type_names : List Text
  pub counter : ℕ
  pub created_ids : Dict Text Text

-- `default_account or capabilities.account_id`
abbrev pub or_account : Option Text → Option Text → Option Text
or_account (some (c ∷ s)) other = some (c ∷ s)
or_account empty other = other

-- `Batch.__init__`
abbrev pub new_batch : {R : Type 0} → ActiveCapabilities → Option Text → Dict Text Text → Batch R
new_batch capabilities default_account created_ids = record {
  capabilities = capabilities;
  default_account = or_account default_account capabilities.account_id;
  handles = [];
  in_flight = [];
  properties = [];
  filter_fields = [];
  sort_options = [];
  type_names = [];
  counter = 0;
  created_ids = created_ids;
}

abbrev pub elements : Elements → List Value
elements nil = []
elements (cons v vs) = v ∷ elements vs

abbrev pub entries : Members → Dict Text Value
entries end = []
entries (member k v ms) = (k, v) ∷ entries ms

-- `_array(args.get(key))`, and `or ()`
abbrev pub array : Option Value → Option (List Value)
array (some (list es)) = some (elements es)
array other = none

abbrev pub array_or_empty : Option Value → List Value
array_or_empty (some (list es)) = elements es
array_or_empty other = []

-- `_object`
abbrev pub object : Option Value → Option Members
object (some (dict ms)) = some ms
object (some (jmap_object ms)) = some ms
object (some (mapping ms)) = some ms
object other = none

abbrev pub is_text : Option Value → Option Text
is_text (some (str s)) = some s
is_text other = none
