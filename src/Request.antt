-- ===== src/Request.antt =====
-- core/request.py: checking back-references and splitting a batch into requests.
pub mod Cuts
pub mod Slices
pub mod Plan
pub mod Total
mod Tests
use jmaplib.Prelude.{
  ℕ, zero, suc, ◌+◌, ◌-◌, Text, codes, Bool, true, false, not, ◌&&◌, List, [], ◌∷◌, ◌++◌, map,
  Option, none, some, ltb, leb, min, if◌then◌else◌, ◌==◌, nat_eq, list_eq, list_beq, length,
  get_elem?, take, drop, Result, ok, err, ◌>>=◌, ◌>>◌,
}
use jmaplib.Prelude.Dict.{Dict, lookup, insert}
use jmaplib.Invocation.{ResultRef, MethodCall, refs_of, reference_arguments}

pub data ReferenceReason : Type 0 where
  not_earlier : Text → ReferenceReason
  wrong_name : (expected target actual : Text) → ReferenceReason

-- What planning may raise: `ValueError` for the limit, `InvalidReferenceError`, `KeyError` and
-- `StopIteration` from the two lookups, `BatchTooLargeError`.
pub data PlanError : Type 0 where
  bad_limit : ℕ → PlanError
  invalid_reference : (source argument : Text) → ReferenceReason → PlanError
  key_error : Text → PlanError
  stop_iteration out_of_fuel : PlanError
  batch_too_large : List Text → ℕ → PlanError

-- The calls of a batch, each with its id.
abbrev pub Calls : Type 0 → Type 0
Calls R = List (Text × MethodCall R)

pub record Request (R : Type 0) : Type 0 where
  pub using : List Text
  pub method_calls : Calls R
  pub created_ids : Option (Dict Text Text)

-- `Request.__init__`: an empty dict is kept as no dict.
abbrev pub keep_created : Option (Dict Text Text) → Option (Dict Text Text)
keep_created (some []) = none
keep_created o = o

-- The references of one call, against the calls seen so far.
unfoldable pub check_refs :
    Text → Dict Text Text → Dict Text ResultRef → Result PlanError (Unit {0})
unfolding lookup list_beq
check_refs call_id seen [] = ok tt
check_refs call_id seen ((argument, r) ∷ rest) =
    let later = check_refs call_id seen rest in
    elim (lookup r.result_of seen) [
      | none ↦ err (invalid_reference call_id argument (not_earlier r.result_of))
      | some target ↦
          if r.name == target
          then later
          else err (invalid_reference call_id argument (wrong_name r.name r.result_of target))
    ]

unfoldable pub validate_from : {R : Type 0} → Dict Text Text → Calls R → Result PlanError (Unit {0})
unfolding check_refs insert reference_arguments
validate_from seen [] = ok tt
validate_from seen ((call_id, call) ∷ rest) =
    check_refs call_id seen (refs_of call) >> validate_from (insert call_id call.name seen) rest

unfoldable pub validate_references : {R : Type 0} → Calls R → Result PlanError (Unit {0})
unfolding validate_from
validate_references calls = validate_from [] calls

-- `{call_id: i for i, (call_id, _) in enumerate(calls)}`
unfoldable pub index_from : {R : Type 0} → ℕ → Dict Text ℕ → Calls R → Dict Text ℕ
unfolding insert
index_from i d [] = d
index_from i d ((call_id, _) ∷ rest) = index_from (i + 1) (insert call_id i d) rest

-- `min((index_of[ref.result_of] for ref in refs.values()), default=i)`
unfoldable pub min_index : Dict Text ℕ → Dict Text ResultRef → Result PlanError (Option ℕ)
unfolding lookup list_beq
min_index index_of [] = ok none
min_index index_of ((_, r) ∷ rest) = elim (lookup r.result_of index_of) [
  | none ↦ err (key_error r.result_of)
  | some j ↦ (min_index index_of rest >>= λ o. ok (some (elim o [ none ↦ j | some k ↦ min j k ])))
]

abbrev pub or_default : ℕ → Option ℕ → ℕ
or_default i none = i
or_default i (some j) = j

-- The list `lowest`.
unfoldable pub lowest_from : {R : Type 0} → Dict Text ℕ → ℕ → Calls R → Result PlanError (List ℕ)
unfolding min_index reference_arguments
lowest_from index_of i [] = ok []
lowest_from index_of i ((_, call) ∷ rest) = do
  o ← min_index index_of (refs_of call)
  ls ← lowest_from index_of (i + 1) rest
  ok (or_default i o ∷ ls)

-- The pass from the end: `reach` before call `i`, and `legal[i:]`. The first argument is `i`, and
-- past the last call `reach` is the number of calls.
unfoldable pub legal_from : ℕ → List ℕ → ℕ × List Bool
legal_from i [] = (i, true ∷ [])
legal_from i (l ∷ ls) =
    let (reach, legal) = legal_from (i + 1) ls in (min reach l, leb i (min reach l) ∷ legal)

-- `_cut_points`
unfoldable pub cut_points : {R : Type 0} → Calls R → Result PlanError (List Bool)
unfolding index_from lowest_from legal_from
cut_points calls = do
  lowest ← lowest_from (index_from 0 [] calls) 0 calls
  ok (legal_from 0 lowest).1

-- `legal[i]`
abbrev pub legal_at : List Bool → ℕ → Bool
legal_at legal i = elim (get_elem? legal i) [ none ↦ false | some b ↦ b ]

-- `while end > start and not legal[end]: end -= 1`
unfoldable pub back_off : List Bool → ℕ → ℕ → ℕ
back_off legal start zero = zero
back_off legal start (suc e) =
    let lower = back_off legal start e in
    if ltb start (suc e) && not (legal_at legal (suc e)) then lower else suc e

-- `next(i for i in range(i, i + count) if legal[i])`
unfoldable pub next_cut : List Bool → ℕ → ℕ → Option ℕ
next_cut legal i zero = none
next_cut legal i (suc count) =
    let later = next_cut legal (i + 1) count in if legal_at legal i then some i else later

abbrev pub slice {ℓ} : {A : Type ℓ} → ℕ → ℕ → List A → List A
slice start end xs = take (end - start) (drop start xs)

module _ {R : Type 0} (calls : Calls R) (legal : List Bool) (limit : ℕ) (using : List Text) where
  -- Where the request that begins at `start` ends.
  abbrev pub request_end : ℕ → ℕ
  request_end start = back_off legal start (min (start + limit) (length calls))

  unfoldable pub refuse : ℕ → Result PlanError (List (Request R))
  unfolding next_cut
  refuse start = elim (next_cut legal (start + 1) (length calls - start)) [
    | none ↦ err stop_iteration
    | some span ↦ err (batch_too_large (map (λ c. c.0) (slice start span calls)) limit)
  ]

  -- The loop, with fuel; `created` is what the next request carries.
  unfoldable pub plan_loop : ℕ → Option (Dict Text Text) → ℕ → Result PlanError (List (Request R))
  unfolding back_off refuse
  plan_loop zero created start = if ltb start (length calls) then err out_of_fuel else ok []
  plan_loop (suc fuel) created start =
      let end = request_end start in
      let rest = plan_loop fuel none end in
      let request : Request R = record {
        using = using;
        method_calls = slice start end calls;
        created_ids = keep_created created;
      } in
      if ltb start (length calls)
      then (if end == start then refuse start else (do requests ← rest; ok (request ∷ requests)))
      else ok []

-- Every round takes a call, so the number of calls is fuel enough.
unfoldable pub plan_requests :
    {R : Type 0}
    → Calls R
    → List Text
    → ℕ
    → Option (Dict Text Text)
    → Result PlanError (List (Request R))
plan_requests calls using limit created =
    if ltb limit 1 then err (bad_limit limit) else if length calls == 0 then ok [] else do
      validate_references calls
      legal ← cut_points calls
      plan_loop calls legal limit using (length calls) created 0
