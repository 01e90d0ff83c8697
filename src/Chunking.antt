-- ===== src/Chunking.antt =====
-- chunking.py: splitting an oversized get across several calls, and merging the results.
pub mod Laws
mod Tests
use jmaplib.Prelude.{
  ℕ, zero, suc, Text, codes, Bool, true, false, ◌&&◌, ◌||◌, not, List, [], ◌∷◌, ◌++◌, map, Option,
  none, some, length, if◌then◌else◌, ◌==◌, nat_eq, list_eq, list_beq, Result, ok, err, ◌>>=◌,
}
use jmaplib.Prelude.Dict.{Dict, insert}
use jmaplib.Invocation.{MethodCall, Value, Elements, nil, cons, list, ResultRef}
use jmaplib.Invocation.Handles.{Handle, MethodError, ResultError, result, ref}
use jmaplib.Limits.{slices}
use jmaplib.Patch.{contains}

abbrev pub of_elements : List Value → Elements
of_elements [] = nil
of_elements (v ∷ vs) = cons v (of_elements vs)

-- One chunk: the call with these ids in place of all.
abbrev pub with_ids : {R : Type 0} → MethodCall R → List Value → MethodCall R
with_ids call ids = record call {
  arguments = insert (codes "ids") (list (of_elements ids)) call.arguments;
}

-- `chunk_get_call`. The slices of `range(0, len(ids), size)`, of a size of at least 1.
unfoldable pub chunk_get_call : {R : Type 0} → MethodCall R → List Value → ℕ → List (MethodCall R)
unfolding slices
chunk_get_call call ids size = map (with_ids call) (slices (length ids) ids size)

-- The parsed response to a get, as far as merging reads it; `rest` is what it carries besides.
pub record GetResult (T A : Type 0) : Type 0 where
  pub rest : A
  pub state : Option Text
  pub items : List T
  pub not_found : List Text

-- What reading a merged result may raise. `results[0]` of an empty list is `index_error`.
pub data ChunkError : Type 0 where
  torn_read : Text → List Text → ChunkError
  index_error : ChunkError
  chunk_failed : ResultError → ChunkError
  chunked_reference : (method : Text) → (chunks : ℕ) → (path : Text) → ChunkError

-- `len(set(states)) > 1`: some state differs from the first.
unfoldable pub all_same : Text → List Text → Bool
unfolding list_beq
all_same s [] = true
all_same s (t ∷ ts) = s == t && all_same s ts

unfoldable pub is_torn : List Text → Bool
unfolding all_same
is_torn [] = false
is_torn (s ∷ ss) = not (all_same s ss)

module _ {T A : Type 0} where
  abbrev pub states : List (GetResult T A) → List Text
  states [] = []
  states (r ∷ rs) = elim r.state [ none ↦ states rs | some s ↦ s ∷ states rs ]

  abbrev pub all_items : List (GetResult T A) → List T
  all_items [] = []
  all_items (r ∷ rs) = r.items ++ all_items rs

  abbrev pub all_not_found : List (GetResult T A) → List Text
  all_not_found [] = []
  all_not_found (r ∷ rs) = r.not_found ++ all_not_found rs

  unfoldable pub merge_get_results : Text → List (GetResult T A) → Result ChunkError (GetResult T A)
  unfolding is_torn
  merge_get_results method [] = err index_error
  merge_get_results method (first ∷ rest) =
      let results = first ∷ rest in
      if is_torn (states results)
      then err (torn_read method (states results))
      else ok (record first { items = all_items results; not_found = all_not_found results })

-- `ChunkedHandle`: the call of the first chunk, and the handles of all.
pub record ChunkedHandle (R : Type 0) : Type 0 where
  pub first : Handle R
  pub others : List (Handle R)

abbrev pub chunk_invariant_paths : List Text
chunk_invariant_paths = codes "/accountId" ∷ codes "/state" ∷ []

module _ {R : Type 0} where
  abbrev pub chunks : ChunkedHandle R → List (Handle R)
  chunks h = h.first ∷ h.others

  abbrev pub refuse : Text → ChunkedHandle R → ChunkError
  refuse path h = chunked_reference h.first.call.name (length (chunks h)) path

  -- `ChunkedHandle.ref`
  unfoldable pub ref_chunked : Text → ChunkedHandle R → Result ChunkError ResultRef
  unfolding contains list_beq
  ref_chunked path h =
      if contains chunk_invariant_paths path then ok (ref path h.first) else err (refuse path h)

  unfoldable pub all_resolved : List (Handle R) → Bool
  all_resolved [] = true
  all_resolved (h ∷ hs) = h.resolved && all_resolved hs

  -- `ChunkedHandle.is_resolved`
  abbrev pub is_resolved : ChunkedHandle R → Bool
  is_resolved h = all_resolved (chunks h)

  unfoldable pub first_error : List (Handle R) → Option MethodError
  first_error [] = none
  first_error (h ∷ hs) = elim h.failure [ some e ↦ some e | none ↦ first_error hs ]

  -- `ChunkedHandle.error`
  abbrev pub chunked_error : ChunkedHandle R → Option MethodError
  chunked_error h = first_error (chunks h)
