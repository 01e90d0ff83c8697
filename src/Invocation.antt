-- ===== src/Invocation.antt =====
-- core/invocation.py: argument trees, back-references, method calls and handles.
pub mod Handles
pub mod Wire
mod Tests
use jmaplib.Prelude.{
  ℕ, ◌+◌, Text, codes, Bool, [], ◌∷◌, ◌++◌, nat_eq, list_eq, list_beq, decimal, Result, ok, err,
  ◌>>=◌,
}
use jmaplib.Prelude.Dict.{Dict, insert}
use jmaplib.Json.{ℤ, Json}
use jmaplib.Ids.{CreationRef, show_ref}

pub record ResultRef : Type 0 where
  pub result_of : Text
  pub name : Text
  pub path : Text

-- What may stand in an argument tree. `jmap_object` is a `JMAPObject`, a mapping whose `to_wire()`
-- is a dict of the same members, and `mapping` any other mapping that is no dict; `model` is another
-- value with a `to_wire()` method, given by what that returns, and `collection` a set or other
-- container with none, given by what it holds; `other` is any other object, given by its `repr`. A
-- tuple is a list here, and the keys of a dict are texts, as where the code casts it to
-- `dict[str, object]`.
mutual
  pub data Value : Type 0 where
    null : Value
    bool : Bool → Value
    int : ℤ → Value
    float : Text → Value
    str : Text → Value
    creation : CreationRef → Value
    reference : ResultRef → Value
    dict jmap_object mapping : Members → Value
    list collection : Elements → Value
    model : Value → Value
    other : Text → Value

  pub data Elements : Type 0 where
    nil : Elements
    cons : Value → Elements → Elements

  pub data Members : Type 0 where
    end : Members
    member : Text → Value → Members → Members

-- `NestedResultRefError`
pub record NestedRef : Type 0 where
  pub method : Text
  pub path : Text
  pub ref : ResultRef

unfoldable mutual
  unfolding show_ref decimal

  pub to_wire_value : Value → Text → Text → Result NestedRef Value
  to_wire_value null method path = ok null
  to_wire_value (bool b) method path = ok (bool b)
  to_wire_value (int n) method path = ok (int n)
  to_wire_value (float x) method path = ok (float x)
  to_wire_value (str s) method path = ok (str s)
  to_wire_value (creation r) method path = ok (str (show_ref r))
  to_wire_value (reference r) method path = err (record { method = method; path = path; ref = r })
  to_wire_value (dict ms) method path = do ws ← to_wire_members ms method path; ok (dict ws)
  to_wire_value (jmap_object ms) method path = do ws ← to_wire_members ms method path; ok (dict ws)
  to_wire_value (mapping ms) method path = ok (mapping ms)
  to_wire_value (collection es) method path = ok (collection es)
  to_wire_value (list es) method path = do ws ← to_wire_elements es method path 0; ok (list ws)
  to_wire_value (model v) method path = to_wire_value v method path
  to_wire_value (other o) method path = ok (other o)

  -- The last argument is the index of the first element.
  pub to_wire_elements : Elements → Text → Text → ℕ → Result NestedRef Elements
  to_wire_elements nil method path i = ok nil
  to_wire_elements (cons v vs) method path i = do
    w ← to_wire_value v method (path ++ b'/' ∷ decimal i)
    ws ← to_wire_elements vs method path (i + 1)
    ok (cons w ws)

  pub to_wire_members : Members → Text → Text → Result NestedRef Members
  to_wire_members end method path = ok end
  to_wire_members (member k v ms) method path = do
    w ← to_wire_value v method (path ++ b'/' ∷ k)
    ws ← to_wire_members ms method path
    ok (member k w ws)

-- What `parse` may raise: an exception that `dispatch` catches, or one that escapes it.
pub data Fault : Type 0 where
  caught : Text → Fault
  escaped : Text → Fault

pub record MethodCall (R : Type 0) : Type 0 where
  pub name : Text
  pub arguments : Dict Text Value
  pub parse : Dict Text Json → Result Fault R

-- `split_arguments`, its two dicts.
unfoldable pub plain_arguments : Dict Text Value → Dict Text Value
plain_arguments [] = []
plain_arguments ((key, reference r) ∷ rest) = plain_arguments rest
plain_arguments ((key, v) ∷ rest) = (key, v) ∷ plain_arguments rest

unfoldable pub reference_arguments : Dict Text Value → Dict Text ResultRef
reference_arguments [] = []
reference_arguments ((key, reference r) ∷ rest) = (key, r) ∷ reference_arguments rest
reference_arguments ((key, v) ∷ rest) = reference_arguments rest

abbrev pub refs_of : {R : Type 0} → MethodCall R → Dict Text ResultRef
refs_of call = reference_arguments call.arguments

unfoldable pub split_arguments : {R : Type 0} → MethodCall R → Dict Text Value × Dict Text ResultRef
unfolding plain_arguments reference_arguments
split_arguments call = (plain_arguments call.arguments, reference_arguments call.arguments)

-- `ResultRef.to_wire`
abbrev pub ref_to_wire : ResultRef → Value
ref_to_wire r = dict (
    member (codes "resultOf") (str r.result_of)
      (member (codes "name") (str r.name) (member (codes "path") (str r.path) end)))

unfoldable pub convert_plain : Text → Dict Text Value → Result NestedRef (Dict Text Value)
unfolding to_wire_value
convert_plain method [] = ok []
convert_plain method ((key, v) ∷ rest) = do
  w ← to_wire_value v method (b'/' ∷ key)
  ws ← convert_plain method rest
  ok ((key, w) ∷ ws)

-- `converted["#" + key] = ref.to_wire()` for each reference
unfoldable pub add_refs : Dict Text ResultRef → Dict Text Value → Dict Text Value
unfolding insert list_beq
add_refs [] converted = converted
add_refs ((key, r) ∷ rest) converted = add_refs rest (insert (b'#' ∷ key) (ref_to_wire r) converted)

unfoldable pub to_wire_arguments : {R : Type 0} → MethodCall R → Result NestedRef (Dict Text Value)
unfolding convert_plain add_refs split_arguments
to_wire_arguments call =
    let (plain, refs) = split_arguments call in
    (do converted ← convert_plain call.name plain; ok (add_refs refs converted))
