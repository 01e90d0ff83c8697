-- ===== src/Invocation/Wire.antt =====
-- core/invocation.py: what `to_wire_value` and `to_wire_arguments` leave in a request.
use jmaplib.Prelude.{
  ℕ, ◌+◌, ◌≡◌, Text, ◌∷◌, ◌++◌, decimal, ok, >>=-eq-ok, ok-injective, All, list_eq, nat_eq, subst,
}
use jmaplib.Prelude.Dict.{Dict}
use jmaplib.Invocation.{
  Value, Elements, Members, nil, cons, end, member, to_wire_value, to_wire_elements,
  to_wire_members,
}

-- No back-reference, no creation reference and no object with a `to_wire` method, in the dicts and
-- lists at any depth. A set or a mapping that is no dict is not looked into.
abbrev mutual
  pub IsWire : Value → Type 0
  IsWire (Value.creation _) = ⊥
  IsWire (Value.reference _) = ⊥
  IsWire (Value.model _) = ⊥
  IsWire (Value.jmap_object _) = ⊥
  IsWire (Value.dict ms) = AreWireMembers ms
  IsWire (Value.list es) = AreWire es
  IsWire _ = Unit

  pub AreWire : Elements → Type 0
  AreWire nil = Unit
  AreWire (cons v vs) = IsWire v × AreWire vs

  pub AreWireMembers : Members → Type 0
  AreWireMembers end = Unit
  AreWireMembers (member _ v ms) = IsWire v × AreWireMembers ms

mutual
  unfolding to_wire_value

  value :
      (v : Value) (method path : Text) {w : Value} → to_wire_value v method path ≡ ok w → IsWire w
  value Value.null m p h = subst IsWire (ok-injective h) tt
  value (Value.bool b) m p h = subst IsWire (ok-injective h) tt
  value (Value.int n) m p h = subst IsWire (ok-injective h) tt
  value (Value.float x) m p h = subst IsWire (ok-injective h) tt
  value (Value.str s) m p h = subst IsWire (ok-injective h) tt
  value (Value.creation r) m p h = subst IsWire (ok-injective h) tt
  value (Value.reference r) m p h = cc
  value (Value.dict ms) m p h =
      let (ws, e, k) = >>=-eq-ok (to_wire_members ms m p) _ h in
      subst IsWire (ok-injective k) (members ms m p e)
  value (Value.jmap_object ms) m p h =
      let (ws, e, k) = >>=-eq-ok (to_wire_members ms m p) _ h in
      subst IsWire (ok-injective k) (members ms m p e)
  value (Value.mapping ms) m p h = subst IsWire (ok-injective h) tt
  value (Value.collection es) m p h = subst IsWire (ok-injective h) tt
  value (Value.list es) m p h =
      let (ws, e, k) = >>=-eq-ok (to_wire_elements es m p 0) _ h in
      subst IsWire (ok-injective k) (elements es m p 0 e)
  value (Value.model v) m p h = value v m p h
  value (Value.other o) m p h = subst IsWire (ok-injective h) tt

  elements :
      (vs : Elements) (method path : Text) (i : ℕ) {ws : Elements}
      → to_wire_elements vs method path i ≡ ok ws
      → AreWire ws
  elements nil m p i h = subst AreWire (ok-injective h) tt
  elements (cons v vs) m p i h =
      let (w, e, k) = >>=-eq-ok (to_wire_value v m (p ++ b'/' ∷ decimal i)) _ h in
      let (ws, e', k') = >>=-eq-ok (to_wire_elements vs m p (i + 1)) _ k in
      subst AreWire (ok-injective k') (value v m _ e, elements vs m p (i + 1) e')

  members :
      (ms : Members) (method path : Text) {ws : Members}
      → to_wire_members ms method path ≡ ok ws
      → AreWireMembers ws
  members end m p h = subst AreWireMembers (ok-injective h) tt
  members (member key v ms) m p h =
      let (w, e, k) = >>=-eq-ok (to_wire_value v m (p ++ b'/' ∷ key)) _ h in
      let (ws, e', k') = >>=-eq-ok (to_wire_members ms m p) _ k in
      subst AreWireMembers (ok-injective k') (value v m _ e, members ms m p e')

abbrev pub AreWireArguments : Dict Text Value → Type 0
AreWireArguments args = All (λ kv. IsWire kv.1) args
