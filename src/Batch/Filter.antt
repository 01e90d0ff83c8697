-- ===== src/Batch/Filter.antt =====
-- batch.py, `_condition_names`: the names of a filter tree, walked with a stack.
use jmaplib.Prelude.{
  ℕ, zero, suc, ◌+◌, ◌≤◌, Text, codes, Bool, true, false, List, [], ◌∷◌, ◌++◌, append_assoc,
  append-nil, Option, none, some, Bool-cases, inl, inr, if◌then◌else◌, ◌==◌, nat_eq, list_eq,
  list_beq, ◌≡◌, refl, ap, sym, ◌∙◌, arith,
}
use jmaplib.Prelude.Dict.{lookup, has_key}
use jmaplib.Invocation.{
  Value, dict, jmap_object, mapping, list, Elements, nil, cons, Members, end, member,
}
use jmaplib.Batch.{entries, array_or_empty, elements}

-- The stack with the objects of the conditions on top, the last one first.
unfoldable pub push : List Value → List Members → List Members
push [] pending = pending
push (dict ms ∷ vs) pending = push vs (ms ∷ pending)
push (jmap_object ms ∷ vs) pending = push vs (ms ∷ pending)
push (mapping ms ∷ vs) pending = push vs (ms ∷ pending)
push (v ∷ vs) pending = push vs pending

abbrev pub member_names : Members → List Text
member_names end = []
member_names (member k v ms) = k ∷ member_names ms

abbrev pub is_operator : Members → Bool
is_operator ms = has_key (codes "operator") (entries ms)

abbrev pub conditions : Members → List Value
conditions ms = array_or_empty (lookup (codes "conditions") (entries ms))

-- The loop, with fuel; `none` says that the fuel ran out.
unfoldable pub walk : ℕ → List Members → List Text → Option (List Text)
unfolding push lookup has_key list_beq
walk fuel [] names = some names
walk zero (node ∷ pending) names = none
walk (suc fuel) (node ∷ pending) names =
    let inner = walk fuel (push (conditions node) pending) names in
    let leaf = walk fuel pending (names ++ member_names node) in
    if is_operator node then inner else leaf

-- How many objects, elements and members a value has.
abbrev mutual
  pub size : Value → ℕ
  size (dict ms) = suc (size_members ms)
  size (jmap_object ms) = suc (size_members ms)
  size (mapping ms) = suc (size_members ms)
  size (list es) = size_elements es
  size _ = 0

  pub size_elements : Elements → ℕ
  size_elements nil = 0
  size_elements (cons v vs) = size v + size_elements vs

  pub size_members : Members → ℕ
  size_members end = 0
  size_members (member k v ms) = size v + size_members ms

-- `_condition_names`
unfoldable pub condition_names : Members → Option (List Text)
unfolding walk
condition_names filter = walk (suc (size_members filter)) (filter ∷ []) []

-- The names at one object, given those of its conditions.
abbrev pub names_at : Members → List Text → List Text
names_at ms inner = if is_operator ms then inner else member_names ms

-- The names by recursion: those of the last condition first.
unfoldable mutual
  unfolding lookup has_key list_beq

  pub names_of : Value → List Text
  names_of (dict ms) = names_at ms (names_inside ms)
  names_of (jmap_object ms) = names_at ms (names_inside ms)
  names_of (mapping ms) = names_at ms (names_inside ms)
  names_of _ = []

  -- Of the members of an operator, the first `conditions`.
  pub names_inside : Members → List Text
  names_inside end = []
  names_inside (member k v ms) =
      let later = names_inside ms in
      let here = names_of_list v in if k == codes "conditions" then here else later

  pub names_of_list : Value → List Text
  names_of_list (list es) = names_of_elements es
  names_of_list _ = []

  pub names_of_elements : Elements → List Text
  names_of_elements nil = []
  names_of_elements (cons v vs) = names_of_elements vs ++ names_of v

abbrev names_of_all : List Value → List Text
names_of_all [] = []
names_of_all (v ∷ vs) = names_of_all vs ++ names_of v

names_of_elements_all : (es : Elements) → names_of_elements es ≡ names_of_all (elements es)
unfolding names_of
names_of_elements_all nil = refl
names_of_elements_all (cons v vs) = ap (λ l. l ++ names_of v) (names_of_elements_all vs)

names_of_list_all : (v : Value) → names_of_list v ≡ names_of_all (array_or_empty (some v))
unfolding names_of
names_of_list_all (list es) = names_of_elements_all es
names_of_list_all _ = refl

names_inside-conditions : (ms : Members) → names_inside ms ≡ names_of_all (conditions ms)
unfolding names_of lookup
names_inside-conditions end = refl
names_inside-conditions (member k v ms) = elim (Bool-cases (k == codes "conditions")) [
  | inl here ↦ rw here (names_of_list_all v)
  | inr later ↦ rw later (names_inside-conditions ms)
]

names_of-operator :
    (ms : Members) → is_operator ms ≡ true → names_of (dict ms) ≡ names_of_all (conditions ms)
unfolding names_of
names_of-operator ms h = rw h (names_inside-conditions ms)

names_of-condition : (ms : Members) → is_operator ms ≡ false → names_of (dict ms) ≡ member_names ms
unfolding names_of
names_of-condition ms h = rw h refl

abbrev names_of_stack : List Members → List Text
names_of_stack [] = []
names_of_stack (ms ∷ pending) = names_of (dict ms) ++ names_of_stack pending

names_of_stack-push :
    (vs : List Value) (pending : List Members)
    → names_of_stack (push vs pending) ≡ names_of_all vs ++ names_of_stack pending
unfolding push names_of
names_of_stack-push [] pending = refl
names_of_stack-push (dict ms ∷ vs) pending =
    names_of_stack-push vs (ms ∷ pending)
    ∙ sym (append_assoc (names_of_all vs) (names_of (dict ms)) (names_of_stack pending))
names_of_stack-push (jmap_object ms ∷ vs) pending =
    names_of_stack-push vs (ms ∷ pending)
    ∙ sym (append_assoc (names_of_all vs) (names_of (jmap_object ms)) (names_of_stack pending))
names_of_stack-push (mapping ms ∷ vs) pending =
    names_of_stack-push vs (ms ∷ pending)
    ∙ sym (append_assoc (names_of_all vs) (names_of (mapping ms)) (names_of_stack pending))
names_of_stack-push (v ∷ vs) pending =
    names_of_stack-push vs pending
    ∙ ap (λ l. l ++ names_of_stack pending) (sym (append-nil (names_of_all vs)))

abbrev size_stack : List Members → ℕ
size_stack [] = 0
size_stack (ms ∷ pending) = suc (size_members ms + size_stack pending)

abbrev size_all : List Value → ℕ
size_all [] = 0
size_all (v ∷ vs) = size v + size_all vs

size_stack-push :
    (vs : List Value) (pending : List Members)
    → size_stack (push vs pending) ≤ size_all vs + size_stack pending
unfolding push
size_stack-push [] pending = omega arith
size_stack-push (dict ms ∷ vs) pending = omega (arith, size_stack-push vs (ms ∷ pending))
size_stack-push (jmap_object ms ∷ vs) pending = omega (arith, size_stack-push vs (ms ∷ pending))
size_stack-push (mapping ms ∷ vs) pending = omega (arith, size_stack-push vs (ms ∷ pending))
size_stack-push (v ∷ vs) pending = omega (arith, size_stack-push vs pending)

size_all-elements : (es : Elements) → size_all (elements es) ≡ size_elements es
size_all-elements nil = refl
size_all-elements (cons v vs) = omega (arith, size_all-elements vs)

size_all-array : (v : Value) → size_all (array_or_empty (some v)) ≤ size v
size_all-array (list es) = omega (arith, size_all-elements es)
size_all-array _ = omega arith

size_all-conditions : (ms : Members) → size_all (conditions ms) ≤ size_members ms
unfolding lookup
size_all-conditions end = omega arith
size_all-conditions (member k v ms) = elim (Bool-cases (k == codes "conditions")) [
  | inl here ↦ rw here (omega (arith, size_all-array v))
  | inr later ↦ rw later (omega (arith, size_all-conditions ms))
]

walk-names :
    (fuel : ℕ) (pending : List Members) (names : List Text)
    → size_stack pending ≤ fuel
    → walk fuel pending names ≡ some (names ++ names_of_stack pending)
unfolding walk
walk-names zero [] names h = ap some (sym (append-nil names))
walk-names (suc fuel) [] names h = ap some (sym (append-nil names))
walk-names zero (ms ∷ pending) names h = absurd (omega arith)
walk-names (suc fuel) (ms ∷ pending) names h = elim (Bool-cases (is_operator ms)) [
  | inl inner ↦
      rw (inner, names_of-operator ms inner)
        (walk-names fuel (push (conditions ms) pending) names
            (omega (arith, size_stack-push (conditions ms) pending, size_all-conditions ms))
          ∙ ap (λ l. some (names ++ l)) (names_of_stack-push (conditions ms) pending))
  | inr leaf ↦
      rw (leaf, names_of-condition ms leaf)
        (walk-names fuel pending (names ++ member_names ms) (omega arith)
          ∙ ap some (append_assoc names (member_names ms) (names_of_stack pending)))
]

-- The walk with a stack ends, however deep the filter is, and gives the names that the recursion
-- over the filter gives, in the same order.
pub condition_names-names_of :
    (filter : Members) → condition_names filter ≡ some (names_of (dict filter))
unfolding condition_names
condition_names-names_of filter =
    walk-names (suc (size_members filter)) (filter ∷ []) [] (omega arith)
    ∙ ap some (append-nil (names_of (dict filter)))
