-- ===== src/Response/Routing.antt =====
-- Which invocations a handle is resolved from, and which of them is the answer.
use jmaplib.Prelude.{
  Text, true, false, List, [], ◌∷◌, ◌++◌, Option, none, some, if◌then◌else◌, ◌==◌, ==_iff, nat_eq,
  list_eq, ok, err, ◌≡◌, refl, ap, sym, ◌∙◌, arith, All, append_assoc, append-nil, ◌⊎◌, inl, inr,
  Bool-cases,
}
use jmaplib.Prelude.Dict.{Dict, lookup, lookup-insert}
use jmaplib.Json.{Json}
use jmaplib.Invocation.Handles.{ParsedInvocation, Handle}
use jmaplib.Response.{
  or_nil, Response, answers, pick, partition, file_under, group_from, resolve_handle, dispatch_loop,
  dispatch,
}

-- The invocations under one call id, in response order.
unfoldable pub own : Text → List ParsedInvocation → List ParsedInvocation
own k [] = []
own k (i ∷ is) = let rest = own k is in if i.method_call_id == k then i ∷ rest else rest

file_under-append :
    (k : Text) (i : ParsedInvocation) (d : Dict Text (List ParsedInvocation))
    → or_nil (lookup k (file_under i.method_call_id i d)) ≡ or_nil (lookup k d) ++ own k (i ∷ [])
unfolding own
file_under-append k i d =
    let same : (i.method_call_id == k) ≡ true → lookup i.method_call_id d ≡ lookup k d =
      λ h. ap (λ j. lookup j d) ((==_iff i.method_call_id k).0 h) in
    ground (
      arith,
      same,
      append-nil (or_nil (lookup k d)),
      lookup-insert i.method_call_id k
          (elim (lookup i.method_call_id d) [ none ↦ i ∷ [] | some filed ↦ filed ++ i ∷ [] ]) d,
    )

own-append :
    (k : Text) (i : ParsedInvocation) (is : List ParsedInvocation)
    → own k (i ∷ is) ≡ own k (i ∷ []) ++ own k is
unfolding own
own-append k i is = ground arith

group_from-own :
    (k : Text) (d : Dict Text (List ParsedInvocation)) (is : List ParsedInvocation)
    → or_nil (lookup k (group_from d is)) ≡ or_nil (lookup k d) ++ own k is
unfolding group_from own
group_from-own k d [] = sym (append-nil (or_nil (lookup k d)))
group_from-own k d (i ∷ is) =
    group_from-own k (file_under i.method_call_id i d) is
    ∙ ap (λ l. l ++ own k is) (file_under-append k i d)
    ∙ append_assoc (or_nil (lookup k d)) (own k (i ∷ [])) (own k is)
    ∙ ap (λ l. or_nil (lookup k d) ++ l) (sym (own-append k i is))

group_own :
    (k : Text) (is : List ParsedInvocation) → or_nil (lookup k (group_from [] is)) ≡ own k is
unfolding lookup
group_own k is = group_from-own k [] is

-- The routing without the dictionary: each handle from the invocations that carry its id.
abbrev pub route :
    {R : Type 0}
    → (Json → Text)
    → List ParsedInvocation
    → List (Handle R)
    → List (Handle R) × Option Text
route str_of is [] = ([], none)
route str_of is (h ∷ hs) =
    let later = route str_of is hs in
    elim (resolve_handle str_of (own h.call_id is) h) [
      | ok resolved ↦ (resolved ∷ later.0, later.1)
      | err exc ↦ (h ∷ hs, some exc)
    ]

pair_path {ℓ κ} :
    {A : Type ℓ} {B : Type κ} {a c : A} {b d : B} → a ≡ c → b ≡ d → ◌≡◌ {A = A × B} (a, b) (c, d)
pair_path p q = rw (p, q) refl

dispatch_loop-route :
    {R : Type 0} (str_of : Json → Text) (is : List ParsedInvocation) (handles : List (Handle R))
    → dispatch_loop str_of (group_from [] is) handles ≡ route str_of is handles
unfolding dispatch_loop
dispatch_loop-route str_of is [] = refl
dispatch_loop-route {R} str_of is (h ∷ hs) =
    ap
      (λ (found, later).
        elim (resolve_handle str_of found h) as (λ _. List (Handle R) × Option Text) [
          | ok resolved ↦ (resolved ∷ later.0, later.1)
          | err exc ↦ (h ∷ hs, some exc)
        ])
      {x = (
        or_nil (lookup h.call_id (group_from [] is)),
        dispatch_loop str_of (group_from [] is) hs,
      )}
      {y = (own h.call_id is, route str_of is hs)}
      (pair_path (group_own h.call_id is) (dispatch_loop-route str_of is hs))

-- Each handle is resolved from exactly the invocations that carry its call id, in response order.
pub dispatch-route :
    {R : Type 0} (str_of : Json → Text) (response : Response) (handles : List (Handle R))
    → dispatch str_of response handles ≡ route str_of response.method_responses handles
unfolding dispatch
dispatch-route str_of response handles =
    dispatch_loop-route str_of response.method_responses handles

-- No invocation of the list answers the call.
abbrev pub NoneAnswers : Text → List ParsedInvocation → Type 0
NoneAnswers expected is = All (λ i. answers expected i ≡ false) is

-- What `_partition` may return.
pub record IsPartition (expected : Text) (all : List ParsedInvocation) (primary : ParsedInvocation)
    (extra : List ParsedInvocation) : Type 0 where
  pub front : List ParsedInvocation
  pub back : List ParsedInvocation
  pub whole : all ≡ front ++ primary ∷ back
  pub others : extra ≡ front ++ back
  pub first_answer : NoneAnswers expected front
  pub answered : (answers expected primary ≡ true) ⊎ ((front ≡ []) × NoneAnswers expected all)

pick-cases :
    (expected : Text) (is : List ParsedInvocation)
    → ((pick expected is ≡ none) × NoneAnswers expected is)
      ⊎ ((front : List ParsedInvocation) × (primary : ParsedInvocation) × (back : List
            ParsedInvocation)
          × (pick expected is ≡ some (primary, front ++ back))
          × (is ≡ front ++ primary ∷ back)
          × NoneAnswers expected front
          × (answers expected primary ≡ true))
unfolding pick
pick-cases expected [] = inl (refl, tt)
pick-cases expected (i ∷ is) = elim (Bool-cases (answers expected i)) [
  | inl hit ↦ inr ([], i, is, rw hit refl, refl, tt, hit)
  | inr miss ↦ elim (pick-cases expected is) [
    | inl (stuck, rest) ↦ inl (rw (miss, stuck) refl, (miss, rest))
    | inr (front, primary, back, found, parts, before, hit) ↦
        inr (i ∷ front, primary, back, rw (miss, found) refl, ap (◌∷◌ i) parts, (miss, before), hit)
  ]
]

-- The answer of a call is the first invocation under its id that has the name of the call or
-- reports an error, and the first invocation when there is none; the others are kept, in order.
pub partition-IsPartition :
    (expected : Text) (first : ParsedInvocation) (rest : List ParsedInvocation)
    → let (primary, extra) = partition expected first rest in
      IsPartition expected (first ∷ rest) primary extra
unfolding partition
partition-IsPartition expected first rest = elim (pick-cases expected (first ∷ rest)) [
  | inl (stuck, miss) ↦
      rw (partition, stuck)
        (record {
          front = [];
          back = rest;
          whole = refl;
          others = refl;
          first_answer = tt;
          answered = inr (refl, miss);
        })
  | inr (front, primary, back, found, parts, before, hit) ↦
      rw (partition, found)
        (record {
          front = front;
          back = back;
          whole = parts;
          others = refl;
          first_answer = before;
          answered = inl hit;
        })
]
