-- ===== src/Request/Plan.antt =====
-- What the requests of a plan are: the batch in order, cut where no reference is lost.
use jmaplib.Prelude.{
  ℕ, zero, suc, ◌+◌, ◌-◌, ◌≤◌, ◌<◌, min, Text, Bool, true, false, List, [], ◌∷◌, ◌++◌, map, Option,
  none, some, Option-cases, Bool-cases, inl, inr, ltb, leb, ltb_false→le, nat_eq, list_eq, length,
  drop, Result, ok, err, ◌≡◌, ap, sym, ◌∙◌, arith, All, >>=-eq-ok, ok-injective, ◌≢◌, subst,
  take-append-drop, length-take, length-drop, drop-drop, drop_all, length-map, nat_beq, nat_beq_iff,
}
use jmaplib.Prelude.Dict.{Dict}
use jmaplib.Invocation.{MethodCall}
use jmaplib.Request.{
  Calls, Request, PlanError, batch_too_large, legal_at, back_off, next_cut, cut_points, slice,
  request_end, refuse, plan_loop, validate_references, keep_created,
}
use jmaplib.Request.Cuts.{CallsFrom-of_legal}
use jmaplib.Request.Slices.{HasDistinctIds, slice_valid}

-- Where the search for an end stops.
back_off_range :
    (legal : List Bool) (start e : ℕ)
    → start ≤ e
    → (start ≤ back_off legal start e) × (back_off legal start e ≤ e)
unfolding back_off
back_off_range legal start zero h = omega arith
back_off_range legal start (suc e) h = ground (arith, back_off_range legal start e)

back_off_legal :
    (legal : List Bool) (start e : ℕ)
    → start < back_off legal start e
    → legal_at legal (back_off legal start e) ≡ true
unfolding back_off
back_off_legal legal start zero h = absurd (omega arith)
back_off_legal legal start (suc e) h = elim (Bool-cases (legal_at legal (suc e))) [
  | inl good ↦ ground (arith, back_off_legal legal start e)
  | inr bad ↦ ground (arith, back_off_legal legal start e)
]

-- When the search falls back to the start, no cut in reach was legal.
back_off_none :
    (legal : List Bool) (start e j : ℕ)
    → back_off legal start e ≡ start
    → start < j
    → j ≤ e
    → legal_at legal j ≡ false
unfolding back_off
back_off_none legal start zero j h lo hi = absurd (omega arith)
back_off_none legal start (suc e) j h lo hi =
    let blocked : legal_at legal (suc e) ≡ false = elim (Bool-cases (legal_at legal (suc e))) [
      | inl good ↦ absurd (ground arith)
      | inr bad ↦ bad
    ] in
    elim (Bool-cases (nat_beq j (suc e))) [
      | inl last ↦ rw ((nat_beq_iff j (suc e)).0 last) blocked
      | inr before ↦ back_off_none legal start e j (ground arith) lo (ground arith)
    ]

next_cut_found :
    (legal : List Bool) (i count j : ℕ)
    → next_cut legal i count ≡ some j
    → (i ≤ j) × (j < i + count) × (legal_at legal j ≡ true)
unfolding next_cut
next_cut_found legal i zero j h = cc
next_cut_found legal i (suc count) j h = ground (arith, next_cut_found legal (i + 1) count j)

-- The calls of all requests, in order.
abbrev pub all_calls : {R : Type 0} → List (Request R) → Calls R
all_calls [] = []
all_calls (r ∷ rs) = r.method_calls ++ all_calls rs

pub record IsSound {R : Type 0} (limit : ℕ) (r : Request R) : Type 0 where
  pub some_calls : 1 ≤ length r.method_calls
  pub within : length r.method_calls ≤ limit
  pub valid : validate_references r.method_calls ≡ ok tt

slice-append-drop {ℓ} :
    {A : Type ℓ} (start end : ℕ) (xs : List A)
    → start ≤ end
    → slice start end xs ++ drop end xs ≡ drop start xs
slice-append-drop start end xs h =
    ap (λ ys. slice start end xs ++ ys)
      (ap (λ k. drop k xs) (omega arith) ∙ sym (drop-drop (end - start) start xs))
    ∙ take-append-drop (end - start) (drop start xs)

length-slice {ℓ} :
    {A : Type ℓ} (start end : ℕ) (xs : List A)
    → end ≤ length xs
    → length (slice start end xs) ≡ end - start
length-slice start end xs h =
    omega (arith, length-take (end - start) (drop start xs), length-drop start xs)

module _ {R : Type 0} (calls : Calls R) (legal : List Bool) (limit : ℕ) (using : List Text) where
  -- The bounds of a request that begins at `start`.
  pub end_range :
      (start : ℕ)
      → start ≤ length calls
      → (start ≤ request_end calls legal limit using start)
        × (request_end calls legal limit using start ≤ start + limit)
        × (request_end calls legal limit using start ≤ length calls)
  end_range start h =
      let (lo, hi) =
        back_off_range legal start (min (start + limit) (length calls)) (omega arith) in
      (lo, omega arith, omega arith)

  err_size :
      {xs ids : List Text} {m : ℕ}
      → ◌≡◌ {A = Result PlanError (List (Request R))}
          (err (batch_too_large xs limit))
          (err (batch_too_large ids m))
      → limit < length xs
      → limit < length ids
  err_size {xs} {ids} e h = let same : xs ≡ ids = cc in rw (← same) h

  pub refuse_large :
      (start : ℕ) (ids : List Text) (m : ℕ)
      → request_end calls legal limit using start ≡ start
      → start < length calls
      → refuse calls legal limit using start ≡ err (batch_too_large ids m)
      → (m ≡ limit) × (limit < length ids)
  unfolding refuse
  refuse_large start ids m stuck room h =
      elim (Option-cases (next_cut legal (start + 1) (length calls - start))) [
        | inl missing ↦ cc (rw (missing, refuse) at h)
        | inr (j, found) ↦
            let (lo, hi, good) = next_cut_found legal (start + 1) (length calls - start) j found in
            let size = length-slice start j calls (omega arith) in
            let ids_size = length-map (slice start j calls) (λ (c : Text × MethodCall R). c.0) in
            let far : start + limit < j = elim (Bool-cases (leb j (start + limit))) [
              | inl near ↦ absurd (
                  cc (
                    good,
                    back_off_none legal start (min (start + limit) (length calls)) j stuck
                        (omega arith) (ground arith),
                  ))
              | inr beyond ↦ ground arith
            ] in
            let made : err (batch_too_large (map (λ c. c.0) (slice start j calls)) limit)
                ≡ err (batch_too_large ids m) =
              rw (found, refuse) at h in
            (cc (made), err_size made (omega arith))
      ]

  refuse-ne-ok :
      (start : ℕ) (requests : List (Request R)) → refuse calls legal limit using start ≢ ok requests
  unfolding refuse
  refuse-ne-ok start requests h = ground arith

  module _ (distinct : HasDistinctIds calls) (valid : validate_references calls ≡ ok tt)
      (cut : cut_points calls ≡ ok legal) where
    slice-IsSound :
        (start : ℕ) (created : Option (Dict Text Text))
        → start < request_end calls legal limit using start
        → start ≤ length calls
        → legal_at legal start ≡ true
        → IsSound limit (record {
          using = using;
          method_calls = slice start (request_end calls legal limit using start) calls;
          created_ids = created;
        })
    slice-IsSound start created more h here =
        let (lo, near, hi) = end_range start h in
        let size = length-slice start (request_end calls legal limit using start) calls hi in
        record {
          some_calls = omega arith;
          within = omega arith;
          valid =
              slice_valid calls start (request_end calls legal limit using start - start) distinct
                valid (CallsFrom-of_legal calls legal start cut here);
        }

    no_more :
        (start : ℕ) (requests : List (Request R))
        → length calls ≤ start
        → ◌≡◌ {A = Result PlanError (List (Request R))} (ok []) (ok requests)
        → All (IsSound limit) requests × (all_calls requests ≡ drop start calls)
    no_more start requests h e =
        subst (λ rs. All (IsSound limit) rs × (all_calls rs ≡ drop start calls)) (ok-injective e)
          (tt, sym (drop_all start calls h))

    pub plan_loop-IsSound :
        (fuel : ℕ) (created : Option (Dict Text Text)) (start : ℕ) (requests : List (Request R))
        → start ≤ length calls
        → legal_at legal start ≡ true
        → plan_loop calls legal limit using fuel created start ≡ ok requests
        → All (IsSound limit) requests × (all_calls requests ≡ drop start calls)
    unfolding plan_loop
    plan_loop-IsSound zero created start requests le here h =
        elim (Bool-cases (ltb start (length calls))) [
          | inl more ↦ cc (rw (more, plan_loop) at h)
          | inr done ↦
              no_more start requests (ltb_false→le start (length calls) done)
                (rw (done, plan_loop) at h)
        ]
    plan_loop-IsSound (suc fuel) created start requests le here h =
        elim (Bool-cases (ltb start (length calls))) [
          | inr done ↦
              no_more start requests (ltb_false→le start (length calls) done)
                (rw (done, plan_loop) at h)
          | inl more ↦
              elim (Bool-cases (nat_beq (request_end calls legal limit using start) start)) [
                | inl stuck ↦
                    absurd (refuse-ne-ok start requests (rw (more, stuck, plan_loop) at h))
                | inr moved ↦
                    let end = request_end calls legal limit using start in
                    let (lo, near, hi) = end_range start le in
                    let ahead : start < end = ground arith in
                    let request : Request R = record {
                      using = using;
                      method_calls = slice start end calls;
                      created_ids = keep_created created;
                    } in
                    let (rs, got, made) =
                      >>=-eq-ok (plan_loop calls legal limit using fuel none end)
                        (λ rs. ok (request ∷ rs)) (rw (more, moved, plan_loop) at h) in
                    let (sound, order) =
                      plan_loop-IsSound fuel none end rs hi
                        (back_off_legal legal start (min (start + limit) (length calls)) ahead)
                        got in
                    subst (λ rs. All (IsSound limit) rs × (all_calls rs ≡ drop start calls))
                      (ok-injective made)
                      (
                        (slice-IsSound start (keep_created created) ahead le here, sound),
                        ap (λ cs. slice start end calls ++ cs) order
                            ∙ slice-append-drop start end calls lo,
                      )
              ]
        ]
