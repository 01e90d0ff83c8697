-- ===== src/Request/Slices.antt =====
-- A stretch of a valid batch that refers to nothing before it is valid by itself.
use jmaplib.Prelude.{
  ℕ, ◌+◌, ◌≤◌, ◌<◌, Text, [], ◌∷◌, ◌++◌, none, some, Option-cases, Bool-cases, inl, inr, ◌==◌,
  nat_eq, list_eq, length, take, drop, ok, ◌≡◌, refl, sym, ◌∙◌, arith, All, All-map, >>=-eq-ok, ◌≢◌,
  ==_iff, subst, Pairs, take-append-drop, length-take,
}
use jmaplib.Prelude.Dict.{Dict, lookup, insert, lookup-insert}
use jmaplib.Invocation.{ResultRef, refs_of}
use jmaplib.Request.{Calls, check_refs, validate_from, validate_references, index_from}
use jmaplib.Request.Cuts.{CallsFrom, RefsFrom}

abbrev pub HasDistinctIds : {R : Type 0} → Calls R → Type 0
HasDistinctIds calls = Pairs (λ a b. a.0 ≢ b.0) calls

-- The dict `seen` after some calls.
abbrev pub seen_after : {R : Type 0} → Dict Text Text → Calls R → Dict Text Text
seen_after seen [] = seen
seen_after seen ((id, call) ∷ rest) = seen_after (insert id call.name seen) rest

abbrev AgreeRefs : Dict Text Text → Dict Text Text → Dict Text ResultRef → Type 0
AgreeRefs s t refs = All (λ e. lookup e.1.result_of s ≡ lookup e.1.result_of t) refs

abbrev Agree : {R : Type 0} → Dict Text Text → Dict Text Text → Calls R → Type 0
Agree s t calls = All (λ c. AgreeRefs s t (refs_of c.1)) calls

check_refs-agree :
    (id : Text) (s t : Dict Text Text) (refs : Dict Text ResultRef)
    → AgreeRefs s t refs
    → check_refs id s refs ≡ check_refs id t refs
unfolding check_refs
check_refs-agree id s t [] h = refl
check_refs-agree id s t ((k, r) ∷ rest) h = ground (arith, check_refs-agree id s t rest, h.0)

AgreeRefs-insert :
    (s t : Dict Text Text) (id name : Text) (refs : Dict Text ResultRef)
    → AgreeRefs s t refs
    → AgreeRefs (insert id name s) (insert id name t) refs
AgreeRefs-insert s t id name [] h = tt
AgreeRefs-insert s t id name ((k, r) ∷ rest) h = (
  ground (arith, h.0, lookup-insert id r.result_of name s, lookup-insert id r.result_of name t),
  AgreeRefs-insert s t id name rest h.1,
)

module _ {R : Type 0} where
  Agree-insert :
      (s t : Dict Text Text) (id name : Text) (calls : Calls R)
      → Agree s t calls
      → Agree (insert id name s) (insert id name t) calls
  Agree-insert s t id name [] h = tt
  Agree-insert s t id name (c ∷ rest) h =
      (AgreeRefs-insert s t id name (refs_of c.1) h.0, Agree-insert s t id name rest h.1)

  -- Validation looks only at what `seen` says of the ids referred to.
  validate_from-Agree :
      (s t : Dict Text Text) (calls : Calls R)
      → Agree s t calls
      → validate_from s calls ≡ validate_from t calls
  unfolding validate_from
  validate_from-Agree s t [] h = refl
  validate_from-Agree s t ((id, c) ∷ rest) h = ground (
    arith,
    check_refs-agree id s t (refs_of c) h.0,
    validate_from-Agree (insert id c.name s) (insert id c.name t) rest
        (Agree-insert s t id c.name rest h.1),
  )

  validate_from-append :
      (s : Dict Text Text) (pre post : Calls R)
      → validate_from s (pre ++ post) ≡ ok tt
      → (validate_from s pre ≡ ok tt) × (validate_from (seen_after s pre) post ≡ ok tt)
  unfolding validate_from
  validate_from-append s [] post h = (refl, h)
  validate_from-append s ((id, c) ∷ pre) post h =
      let (_, checked, rest) =
        >>=-eq-ok (check_refs id s (refs_of c))
          (λ _. validate_from (insert id c.name s) (pre ++ post)) h in
      let (front, back) = validate_from-append (insert id c.name s) pre post rest in
      (ground arith, back)

  abbrev NoId : Text → Calls R → Type 0
  NoId id calls = All (λ c. c.0 ≢ id) calls

  index_from-other :
      (id : Text) (i : ℕ) (d : Dict Text ℕ) (calls : Calls R)
      → NoId id calls
      → lookup id (index_from i d calls) ≡ lookup id d
  unfolding index_from
  index_from-other id i d [] h = refl
  index_from-other id i d ((k, _) ∷ rest) h = ground (
    arith,
    index_from-other id (i + 1) (insert k i d) rest h.1,
    lookup-insert k id i d,
    ==_iff k id,
  )

  NoId-of_distinct :
      (id : Text) (k : Text) (calls : Calls R)
      → k ≡ id
      → All (λ c. (k ≢ c.0) × (c.0 ≢ k)) calls
      → NoId id calls
  NoId-of_distinct id k calls e h =
      All-map (λ c. (k ≢ c.0) × (c.0 ≢ k)) (λ c. c.0 ≢ id) (λ c p q. p.1 (q ∙ sym e)) calls h

  -- An id seen in the first calls has its index among them.
  index_of_seen :
      (id : Text) (i : ℕ) (d : Dict Text ℕ) (s : Dict Text Text) (pre post : Calls R) (name : Text)
      → HasDistinctIds (pre ++ post)
      → lookup id s ≡ none
      → lookup id (seen_after s pre) ≡ some name
      → (j : ℕ) × (lookup id (index_from i d (pre ++ post)) ≡ some j) × (j < i + length pre)
  unfolding index_from
  index_of_seen id i d s [] post name ds out seen = cc
  index_of_seen id i d s ((k, c) ∷ pre) post name ds out seen = elim (Bool-cases (k == id)) [
    | inl same ↦ (
      i,
      ground (
        arith,
        index_from-other id (i + 1) (insert k i d) (pre ++ post)
            (NoId-of_distinct id k (pre ++ post) ((==_iff k id).0 same) ds.0),
        lookup-insert k id i d,
      ),
      omega arith,
    )
    | inr other ↦
        let (j, found, small) =
          index_of_seen id (i + 1) (insert k i d) (insert k c.name s) pre post name ds.1
            (ground (arith, lookup-insert k id c.name s)) seen in
        (j, found, omega arith)
  ]

  unseen_refs :
      (refs : Dict Text ResultRef) (pre post : Calls R) (k : ℕ)
      → HasDistinctIds (pre ++ post)
      → length pre ≤ k
      → RefsFrom (index_from 0 [] (pre ++ post)) k refs
      → AgreeRefs (seen_after [] pre) [] refs
  unseen_refs [] pre post k ds le h = tt
  unseen_refs ((_, r) ∷ rest) pre post k ds le h = (
    elim (Option-cases (lookup r.result_of (seen_after [] pre))) [
      | inl unseen ↦ unseen ∙ sym (unfold lookup in refl)
      | inr (name, seen) ↦
          let (j, found, small) =
            index_of_seen r.result_of 0 [] [] pre post name ds (unfold lookup in refl) seen in
          absurd (ground (arith, h.0.1, h.0.2))
    ],
    unseen_refs rest pre post k ds le h.1,
  )

  unseen_calls :
      (calls pre post : Calls R) (k : ℕ)
      → HasDistinctIds (pre ++ post)
      → length pre ≤ k
      → CallsFrom (index_from 0 [] (pre ++ post)) k calls
      → Agree (seen_after [] pre) [] calls
  unseen_calls [] pre post k ds le h = tt
  unseen_calls (c ∷ rest) pre post k ds le h =
      (unseen_refs (refs_of c.1) pre post k ds le h.0, unseen_calls rest pre post k ds le h.1)

  -- A stretch from a legal cut is valid by itself.
  pub slice_valid :
      (calls : Calls R) (start count : ℕ)
      → HasDistinctIds calls
      → validate_references calls ≡ ok tt
      → CallsFrom (index_from 0 [] calls) start (drop start calls)
      → validate_references (take count (drop start calls)) ≡ ok tt
  unfolding validate_references
  slice_valid calls start count ds valid from =
      let whole = take-append-drop start calls in
      let ds' : HasDistinctIds (take start calls ++ drop start calls) =
        subst HasDistinctIds (sym whole) ds in
      let valid' : validate_from [] (take start calls ++ drop start calls) ≡ ok tt =
        subst (λ l. validate_from [] l ≡ ok tt) (sym whole) valid in
      let from' : CallsFrom (index_from 0 [] (take start calls ++ drop start calls)) start
          (drop start calls) =
        subst (λ l. CallsFrom (index_from 0 [] l) start (drop start calls)) (sym whole) from in
      let agree =
        unseen_calls (drop start calls) (take start calls) (drop start calls) start ds'
          (omega (arith, length-take start calls)) from' in
      let (_, rest) = validate_from-append [] (take start calls) (drop start calls) valid' in
      let alone : validate_from [] (drop start calls) ≡ ok tt =
        sym (validate_from-Agree _ _ (drop start calls) agree) ∙ rest in
      (validate_from-append [] (take count (drop start calls)) (drop count (drop start calls)) (
        subst (λ l. validate_from [] l ≡ ok tt) (sym (take-append-drop count (drop start calls)))
          alone)).0
