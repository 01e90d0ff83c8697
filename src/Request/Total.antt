-- ===== src/Request/Total.antt =====
-- Planning a valid batch gives requests, or names a stretch that no request can hold.
use jmaplib.Prelude.{
  ℕ, zero, suc, ◌+◌, ◌-◌, ◌≤◌, ◌<◌, min, Text, Bool, true, false, List, [], ◌∷◌, map, Option, none,
  some, Option-cases, Bool-cases, inl, inr, ltb, ◌==◌, nat_eq, list_eq, length, Result, ok, err,
  ◌>>=◌, ◌≡◌, refl, ap, ◌∙◌, arith, All, >>=-eq-ok, ◌≢◌, ==_iff, subst, nat_beq,
}
use jmaplib.Prelude.Dict.{Dict, lookup, insert, lookup-insert}
use jmaplib.Invocation.{ResultRef, MethodCall, refs_of}
use jmaplib.Request.{
  Calls, Request, PlanError, batch_too_large, legal_at, legal_from, min_index, lowest_from,
  index_from, next_cut, cut_points, request_end, refuse, plan_loop, plan_requests,
  validate_references, validate_from, check_refs, slice, or_default,
}
use jmaplib.Request.Slices.{HasDistinctIds}
use jmaplib.Request.Plan.{IsSound, all_calls, plan_loop-IsSound, refuse_large, end_range}

abbrev Found {ℓ} : {V : Type ℓ} → Dict Text V → Text → Type ℓ
Found {V = V} d id = (v : V) × (lookup id d ≡ some v)

Found-insert : (d : Dict Text ℕ) (k id : Text) (i : ℕ) → Found d id → Found (insert k i d) id
Found-insert d k id i (v, h) = elim (Bool-cases (k == id)) [
  | inl same ↦ (i, lookup-insert k id i d ∙ rw same)
  | inr other ↦ (v, lookup-insert k id i d ∙ rw other h)
]

Found-insert_self : (d : Dict Text ℕ) (k : Text) (i : ℕ) → Found (insert k i d) k
Found-insert_self d k i = (i, ground (arith, lookup-insert k k i d, ==_iff k k))

module _ {R : Type 0} where
  Found-index_from :
      (i : ℕ) (d : Dict Text ℕ) (calls : Calls R) (id : Text)
      → Found d id
      → Found (index_from i d calls) id
  unfolding index_from
  Found-index_from i d [] id h = h
  Found-index_from i d ((k, _) ∷ rest) id h =
      Found-index_from (i + 1) (insert k i d) rest id (Found-insert d k id i h)

  index_from-All :
      (i : ℕ) (d : Dict Text ℕ) (calls : Calls R)
      → All (λ c. Found (index_from i d calls) c.0) calls
  unfolding index_from
  index_from-All i d [] = tt
  index_from-All i d ((k, _) ∷ rest) = (
    Found-index_from (i + 1) (insert k i d) rest k (Found-insert_self d k i),
    index_from-All (i + 1) (insert k i d) rest,
  )

-- Whatever has been seen has an index.
abbrev Covers : Dict Text Text → Dict Text ℕ → Type 0
Covers s d = (id : Text) → Found s id → Found d id

min_index_ok :
    (call_id : Text) (s : Dict Text Text) (d : Dict Text ℕ) (refs : Dict Text ResultRef)
    → Covers s d
    → check_refs call_id s refs ≡ ok tt
    → (o : Option ℕ) × (min_index d refs ≡ ok o)
unfolding min_index check_refs
min_index_ok call_id s d [] covers h = (none, refl)
min_index_ok call_id s d ((k, r) ∷ rest) covers h = elim (Option-cases (lookup r.result_of s)) [
  | inl unseen ↦ cc (rw (unseen, check_refs) at h)
  | inr (target, seen) ↦
      let (j, found) = covers r.result_of (target, seen) in
      let (o, later) = min_index_ok call_id s d rest covers (ground arith) in
      (some (elim o [ none ↦ j | some k ↦ min j k ]), rw (found, later, min_index))
]

module _ {R : Type 0} where
  lowest_from_ok :
      (s : Dict Text Text) (d : Dict Text ℕ) (i : ℕ) (calls : Calls R)
      → Covers s d
      → All (λ c. Found d c.0) calls
      → validate_from s calls ≡ ok tt
      → (ls : List ℕ) × (lowest_from d i calls ≡ ok ls) × (length ls ≡ length calls)
  unfolding lowest_from validate_from
  lowest_from_ok s d i [] covers found h = ([], refl, refl)
  lowest_from_ok s d i ((id, c) ∷ rest) covers found h =
      let (_, checked, later) =
        >>=-eq-ok (check_refs id s (refs_of c)) (λ _. validate_from (insert id c.name s) rest) h in
      let (o, got) = min_index_ok id s d (refs_of c) covers checked in
      let (ls, gots, size) =
        lowest_from_ok (insert id c.name s) d (i + 1) rest
          (covers_insert id c.name s d covers found.0) found.1 later in
      (or_default i o ∷ ls, rw (got, gots), ap suc size)
    where
      covers_insert :
          (id name : Text) (s : Dict Text Text) (d : Dict Text ℕ)
          → Covers s d
          → Found d id
          → Covers (insert id name s) d
      covers_insert id name s d covers here j (v, h) = elim (Bool-cases (id == j)) [
        | inl same ↦ subst (Found d) ((==_iff id j).0 same) here
        | inr other ↦ covers j (v, ground (arith, lookup-insert id j name s))
      ]

legal_from_last : (i : ℕ) (ls : List ℕ) → legal_at (legal_from i ls).1 (length ls) ≡ true
unfolding legal_from
legal_from_last i [] = refl
legal_from_last i (l ∷ ls) = legal_from_last (i + 1) ls

legal_from_first : (ls : List ℕ) → legal_at (legal_from 0 ls).1 0 ≡ true
unfolding legal_from
legal_from_first [] = refl
legal_from_first (l ∷ ls) = ground arith

next_cut_exists :
    (legal : List Bool) (i count j : ℕ)
    → i ≤ j
    → j < i + count
    → legal_at legal j ≡ true
    → next_cut legal i count ≢ none
unfolding next_cut
next_cut_exists legal i zero j lo hi h e = absurd (omega arith)
next_cut_exists legal i (suc count) j lo hi h e = elim (Bool-cases (nat_beq i j)) [
  | inl same ↦ ground arith
  | inr other ↦ ground (arith, next_cut_exists legal (i + 1) count j)
]

-- What planning promises of its outcome: requests that are sound and hold the batch in order, or
-- a stretch of calls too long for one request.
abbrev pub Planned : {R : Type 0} → ℕ → Calls R → Result PlanError (List (Request R)) → Type 0
Planned limit calls (ok requests) = All (IsSound limit) requests × (all_calls requests ≡ calls)
Planned limit calls (err (batch_too_large ids m)) = (m ≡ limit) × (limit < length ids)
Planned limit calls (err _) = ⊥

abbrev NoFault {ℓ} : {A : Type ℓ} → ℕ → Result PlanError A → Type 0
NoFault limit (ok _) = Unit
NoFault limit (err (batch_too_large ids m)) = (m ≡ limit) × (limit < length ids)
NoFault limit (err _) = ⊥

NoFault-bind :
    {A B : Type 0} (limit : ℕ) (m : Result PlanError A) (f : A → B)
    → NoFault limit m
    → NoFault limit (m >>= λ a. ok (f a))
NoFault-bind limit (ok a) f h = tt
NoFault-bind limit (err (batch_too_large ids m)) f h = h
NoFault-bind limit (err _) f h = absurd h

module _ {R : Type 0} (calls : Calls R) (legal : List Bool) (limit : ℕ) (using : List Text)
    (last : legal_at legal (length calls) ≡ true) where
  refuse-NoFault :
      (start : ℕ)
      → start < length calls
      → request_end calls legal limit using start ≡ start
      → NoFault limit (refuse calls legal limit using start)
  refuse-NoFault start room stuck =
      elim (Option-cases (next_cut legal (start + 1) (length calls - start))) [
        | inl missing ↦ absurd (
            next_cut_exists legal (start + 1) (length calls - start) (length calls) (omega arith)
              (omega arith) last missing)
        | inr (j, found) ↦
            let e : refuse calls legal limit using start
                ≡ err (batch_too_large (map (λ c. c.0) (slice start j calls)) limit) =
              unfold refuse in rw (found, refuse) in
            rw e (
              refuse_large calls legal limit using start (map (λ c. c.0) (slice start j calls))
                limit stuck room e)
      ]

  plan_loop-NoFault :
      (fuel : ℕ) (created : Option (Dict Text Text)) (start : ℕ)
      → start ≤ length calls
      → length calls ≤ start + fuel
      → NoFault limit (plan_loop calls legal limit using fuel created start)
  unfolding plan_loop
  plan_loop-NoFault zero created start le enough = elim (Bool-cases (ltb start (length calls))) [
    | inl more ↦ absurd (ground arith)
    | inr done ↦ rw done tt
  ]
  plan_loop-NoFault (suc fuel) created start le enough =
      elim (Bool-cases (ltb start (length calls))) [
        | inr done ↦ rw done tt
        | inl more ↦ elim (Bool-cases (nat_beq (request_end calls legal limit using start) start)) [
          | inl stuck ↦ rw (more, stuck) (refuse-NoFault start (ground arith) (ground arith))
          | inr moved ↦
              let (lo, near, hi) = end_range calls legal limit using start le in
              rw (more, moved)
                (NoFault-bind limit
                  (plan_loop calls legal limit using fuel none
                    (request_end calls legal limit using start))
                  _
                  (plan_loop-NoFault fuel none (request_end calls legal limit using start) hi
                    (ground arith)))
        ]
      ]

Planned-of :
    {R : Type 0} (limit : ℕ) (calls : Calls R) (r : Result PlanError (List (Request R)))
    → NoFault limit r
    → ((requests : List (Request R))
        → r ≡ ok requests
        → All (IsSound limit) requests × (all_calls requests ≡ calls))
    → Planned limit calls r
Planned-of limit calls (ok requests) h sound = sound requests refl
Planned-of limit calls (err (batch_too_large ids m)) h sound = h
Planned-of limit calls (err _) h sound = absurd h

nothing_seen : (d : Dict Text ℕ) → Covers [] d
unfolding lookup
nothing_seen d id h = cc (h.1)

-- With a limit and valid references, planning is the loop over the cuts.
plan_requests_loop :
    {R : Type 0} (c : Text × MethodCall R) (cs : Calls R) (legal : List Bool) (using : List Text)
    (limit : ℕ) (created : Option (Dict Text Text))
    → 1 ≤ limit
    → validate_references (c ∷ cs) ≡ ok tt
    → cut_points (c ∷ cs) ≡ ok legal
    → plan_requests (c ∷ cs) using limit created
      ≡ plan_loop (c ∷ cs) legal limit using (length (c ∷ cs)) created 0
unfolding plan_requests
plan_requests_loop c cs legal using limit created room valid cut =
    let wide : ltb limit 1 ≡ false = ground arith in
    let filled : (length (c ∷ cs) == 0) ≡ false = ground arith in rw (wide, filled, valid, cut)

-- A batch of valid references with distinct ids is planned, for any limit of one call or more:
-- either into requests that hold its calls in order, each with between one call and the limit and
-- with references to its own earlier calls alone, or the planner names more calls than the limit.
-- It fails in no other way, and its fuel suffices.
pub plan_requests-Planned :
    {R : Type 0} (calls : Calls R) (using : List Text) (limit : ℕ)
    (created : Option (Dict Text Text))
    → HasDistinctIds calls
    → validate_references calls ≡ ok tt
    → 1 ≤ limit
    → Planned limit calls (plan_requests calls using limit created)
plan_requests-Planned [] using limit created distinct valid room =
    unfold plan_requests in ground arith
plan_requests-Planned (c ∷ cs) using limit created distinct valid room =
    let calls = c ∷ cs in
    let validated : validate_from [] calls ≡ ok tt = unfold validate_references in valid in
    let (ls, lowest, size) =
      lowest_from_ok [] (index_from 0 [] calls) 0 calls (nothing_seen (index_from 0 [] calls))
        (index_from-All 0 [] calls) validated in
    let legal : List Bool = (legal_from 0 ls).1 in
    let cut : cut_points calls ≡ ok legal = unfold cut_points in rw lowest in
    let last : legal_at legal (length calls) ≡ true =
      subst (λ n. legal_at legal n ≡ true) size (legal_from_last 0 ls) in
    rw (plan_requests_loop c cs legal using limit created room valid cut) (
      Planned-of limit calls _
        (plan_loop-NoFault calls legal limit using last (length calls) created 0 (omega arith)
          (omega arith))
        (λ requests e.
          plan_loop-IsSound calls legal limit using distinct valid cut (length calls) created 0
            requests (omega arith) (legal_from_first ls) e))
