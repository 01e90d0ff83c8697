-- ===== src/Batch/Queue.antt =====
-- batch.py, `Batch.add`: a call is checked, numbered and queued, in chunks if it is too large.
use jmaplib.Prelude.{
  ℕ, suc, ◌+◌, Text, codes, Bool, true, false, not, ◌||◌, List, [], ◌∷◌, ◌++◌, map, length, Option,
  none, some, if◌then◌else◌, leb, nat_eq, list_eq, list_beq, decimal, Result, ok, err,
}
use jmaplib.Prelude.Dict.{Dict, lookup}
use jmaplib.Json.{Json}
use jmaplib.Invocation.{Value, MethodCall, Fault, Members}
use jmaplib.Invocation.Handles.{Handle, new_handle}
use jmaplib.Chunking.{ChunkedHandle, chunk_get_call}
use jmaplib.Capabilities.{MethodSpec, MethodKind, get, type_of}
use jmaplib.Capabilities.Active.{active_limits}
use jmaplib.Batch.{
  Batch, BatchError, Objects, type_error, index_error, array, array_or_empty, object, entries,
  is_text,
}
use jmaplib.Batch.Filter.{condition_names}
use jmaplib.Batch.Gates.{Arguments, all_hashable, gate}

abbrev pub pair_with : Text → List Text → List (Text × Text)
pair_with t names = map (λ name. (t, name)) names

abbrev pub texts_of : Objects → List Value → List Text
texts_of py vs = map (λ v. py.str_of v) vs

-- The names of the walk, which always ends.
abbrev pub walked : Option (List Text) → List Text
walked none = []
walked (some names) = names

abbrev pub filter_names : Option Members → List Text
filter_names none = []
filter_names (some conditions) = walked (condition_names conditions)

-- `spec.filter_type or spec.type_name`
abbrev pub filter_type_of : MethodSpec → Option Text → Text
filter_type_of spec (some (c ∷ s)) = c ∷ s
filter_type_of spec empty = type_of spec

-- The property of each comparator that is an object and names one.
abbrev pub sort_names : List Value → List Text
sort_names [] = []
sort_names (v ∷ vs) = elim (object (some v)) [
  | none ↦ sort_names vs
  | some ms ↦ elim (is_text (lookup (codes "property") (entries ms))) [
    | none ↦ sort_names vs
    | some name ↦ name ∷ sort_names vs
  ]
]

abbrev pub named_types : Objects → Arguments → Option Text → List Text
named_types py args none = []
named_types py args (some key) = texts_of py (array_or_empty (lookup key args))

-- What `add` keeps of the arguments, for the using set.
unfoldable pub note : {R : Type 0} → Objects → MethodSpec → Arguments → Batch R → Batch R
unfolding lookup list_beq type_of condition_names
note py spec args batch = record batch {
  properties =
      batch.properties
      ++ pair_with (type_of spec) (texts_of py (array_or_empty (lookup (codes "properties") args)));
  type_names = batch.type_names ++ named_types py args spec.type_names_argument;
  filter_fields =
      batch.filter_fields
      ++ pair_with (filter_type_of spec spec.filter_type)
          (filter_names (object (lookup (codes "filter") args)));
  sort_options =
      batch.sort_options
      ++ pair_with (type_of spec) (sort_names (array_or_empty (lookup (codes "sort") args)));
}

abbrev pub is_get : MethodKind → Bool
is_get get = true
is_get _ = false

abbrev pub any_same : Objects → Value → List Value → Bool
any_same py v [] = false
any_same py v (w ∷ ws) = py.same w v || any_same py v ws

-- `list(dict.fromkeys(ids))`; the first argument is what the dict holds.
unfoldable pub distinct_from : Objects → List Value → List Value → List Value
distinct_from py held [] = held
distinct_from py held (v ∷ vs) =
    distinct_from py (if any_same py v held then held else held ++ v ∷ []) vs

-- The id of the call that is counted as the `n`th.
abbrev pub call_id_of : ℕ → Text
call_id_of n = b'c' ∷ decimal n

module _ {R : Type 0} where
  abbrev pub split_ids :
      Objects → ℕ → MethodCall R → List Value → Result BatchError (Option (List (MethodCall R)))
  split_ids py limit call ids =
      let kept = distinct_from py [] ids in
      if leb (length ids) limit
      then ok none
      else if not (all_hashable py ids)
      then err type_error
      else if leb (length kept) limit
      then ok none
      else ok (some (chunk_get_call call kept limit))

  -- `_split_if_oversized`
  unfoldable pub split_if_oversized :
      Objects
      → Batch R
      → MethodSpec
      → MethodCall R
      → Result BatchError (Option (List (MethodCall R)))
  unfolding lookup list_beq chunk_get_call distinct_from active_limits
  split_if_oversized py batch spec call =
      if not (is_get spec.kind)
      then ok none
      else elim (array (lookup (codes "ids") call.arguments)) [
        | none ↦ ok none
        | some ids ↦ split_ids py (active_limits batch.capabilities).max_objects_in_get call ids
      ]

  -- The handles of some calls, numbered from `n`.
  abbrev pub numbered : ℕ → List (MethodCall R) → List (Handle R)
  numbered n [] = []
  numbered n (call ∷ calls) = new_handle (call_id_of n) call ∷ numbered (suc n) calls

  -- The batch with some calls more.
  abbrev pub extended : Batch R → List (MethodCall R) → Batch R
  extended batch calls = record batch {
    handles = batch.handles ++ numbered (suc batch.counter) calls;
    counter = batch.counter + length calls;
  }

pub data Added (R : Type 0) : Type 0 where
  single : Handle R → Added R
  in_chunks : ChunkedHandle R → Added R

abbrev pub Parse : Type 0 → Type 0
Parse R = Dict Text Json → Result Fault R

module _ {R : Type 0} where
  -- The end of `add`, by what the split gave. The counter moves by one before the split.
  unfoldable pub queue :
      Batch R
      → MethodCall R
      → Result BatchError (Option (List (MethodCall R)))
      → Batch R × Result BatchError (Added R)
  unfolding decimal
  queue batch call (err e) = (record batch { counter = suc batch.counter }, err e)
  queue batch call (ok none) =
      (extended batch (call ∷ []), ok (single (new_handle (call_id_of (suc batch.counter)) call)))
  queue batch call (ok (some [])) = (record batch { counter = suc batch.counter }, err index_error)
  queue batch call (ok (some (first ∷ others))) = (
    extended batch (first ∷ others),
    ok (
        in_chunks (record {
          first = new_handle (call_id_of (suc batch.counter)) first;
          others = numbered (suc (suc batch.counter)) others;
        })),
  )

  -- `add`, by what the gates gave.
  unfoldable pub add_gated :
      Objects
      → Batch R
      → Text
      → (MethodSpec → Parse R)
      → Result BatchError (MethodSpec × Arguments)
      → Batch R × Result BatchError (Added R)
  unfolding note split_if_oversized queue
  add_gated py batch name parse (err e) = (batch, err e)
  add_gated py batch name parse (ok (spec, args)) =
      let call : MethodCall R = record { name = name; arguments = args; parse = parse spec } in
      queue (note py spec args batch) call (split_if_oversized py batch spec call)

  -- `Batch.add`: the batch that it leaves, and the handle or the exception. `parse` is what
  -- `parser_for` gives for the method.
  unfoldable pub add :
      Objects
      → Batch R
      → Text
      → Arguments
      → Option Text
      → (MethodSpec → Parse R)
      → Batch R × Result BatchError (Added R)
  unfolding gate add_gated
  add py batch name arguments account_id parse =
      add_gated py batch name parse (gate py batch name arguments account_id)
