-- ===== src/Pointer/Flatten.antt =====
-- What `*` yields, against a description that collects every value the pointer reaches.
use mathlib.Core.List.{append-nil, append_assoc}
use jmaplib.Prelude.{
  Text, Bool, true, false, List, [], ◌∷◌, ◌++◌, ◌≡◌, refl, ap, ◌∙◌, sym, Result, ok, err, ◌>>=◌,
  >>=-eq-ok, Option, none, some, ◌==◌, Bool-cases, inl, inr, nat_eq, list_eq, if◌then◌else◌,
  list_beq,
}
use jmaplib.Json.{
  is_list, null, of_items-items, Json, arr, items, of_items, as_list_of, items-of_items,
}
use jmaplib.Pointer.{wildcard, PointerError, step_token, collect, spread, resolve_tokens}

-- The elements of an array.
abbrev elements : Json → Option (List Json)
elements (arr xs) = some (items xs)
elements _ = none

abbrev to_option {ℓ κ} : {E : Type ℓ} {A : Type κ} → Result E A → Option A
to_option (ok a) = some a
to_option (err _) = none

abbrev bind {ℓ κ} : {A : Type ℓ} {B : Type κ} → Option A → (A → Option B) → Option B
bind none f = none
bind (some a) f = f a

abbrev gather : (Json → Option (List Json)) → List Json → Option (List Json)
gather f [] = some []
gather f (x ∷ xs) = bind (f x) (λ ys. bind (gather f xs) (λ zs. some (ys ++ zs)))

-- Every value that the pointer reaches, in document order. A last `*` reaches the array itself.
unfoldable pub targets : Text → List Text → Json → Option (List Json)
unfolding list_beq
targets pointer [] v = some (v ∷ [])
targets pointer (t ∷ []) v =
    if t == wildcard
    then bind (elements v) (λ _. some (v ∷ []))
    else bind (to_option (step_token pointer t v)) (λ w. some (w ∷ []))
targets pointer (t ∷ u ∷ us) v =
    if t == wildcard
    then bind (elements v) (gather (targets pointer (u ∷ us)))
    else bind (to_option (step_token pointer t v)) (targets pointer (u ∷ us))

-- A `*` with tokens behind it.
abbrev pub spreads : List Text → Bool
spreads [] = false
spreads (t ∷ []) = false
spreads (t ∷ u ∷ us) = if t == wildcard then true else spreads (u ∷ us)

-- The values reached, each array among them concatenated one level.
abbrev pub flattened : List Json → List Json
flattened [] = []
flattened (x ∷ xs) = as_list_of x ++ flattened xs

flattened-append : (xs ys : List Json) → flattened (xs ++ ys) ≡ flattened xs ++ flattened ys
flattened-append [] ys = refl
flattened-append (x ∷ xs) ys =
    rw (flattened-append xs ys) (sym (append_assoc (as_list_of x) (flattened xs) (flattened ys)))

abbrev Agrees : Result PointerError Json → Option (List Json) → Type 0
Agrees (err _) none = Unit
Agrees (ok r) (some ts) = as_list_of r ≡ flattened ts
Agrees _ _ = ⊥

abbrev AgreesAll : Result PointerError (List Json) → Option (List Json) → Type 0
AgreesAll (err _) none = Unit
AgreesAll (ok rs) (some ts) = rs ≡ flattened ts
AgreesAll _ _ = ⊥

AgreesAll-cons :
    (r : Result PointerError Json) (o : Option (List Json)) (rs : Result PointerError (List Json))
    (os : Option (List Json))
    → Agrees r o
    → AgreesAll rs os
    → AgreesAll
        (r >>= λ a. rs >>= λ bs. ok (as_list_of a ++ bs))
        (bind o (λ ys. bind os (λ zs. some (ys ++ zs))))
AgreesAll-cons (ok a) (some ys) (ok rs) (some zs) h hs = rw (h, hs, flattened-append ys zs)
AgreesAll-cons (ok a) (some ys) (ok rs) none h hs = hs
AgreesAll-cons (ok a) (some ys) (err e) (some zs) h hs = hs
AgreesAll-cons (ok a) (some ys) (err e) none h hs = tt
AgreesAll-cons (ok a) none rs os h hs = absurd h
AgreesAll-cons (err e) (some ys) rs os h hs = absurd h
AgreesAll-cons (err e) none rs os h hs = tt

Agrees-of_items :
    (rs : Result PointerError (List Json)) (os : Option (List Json))
    → AgreesAll rs os
    → Agrees (rs >>= λ bs. ok (arr (of_items bs))) os
Agrees-of_items (ok rs) (some zs) h = items-of_items rs ∙ h
Agrees-of_items (ok rs) none h = h
Agrees-of_items (err e) (some zs) h = h
Agrees-of_items (err e) none h = tt

module _ (go : Json → Result PointerError Json) (reach : Json → Option (List Json))
    (agrees : (x : Json) → Agrees (go x) (reach x)) where
  collect-gather : (xs : List Json) → AgreesAll (collect go xs) (gather reach xs)
  unfolding collect
  collect-gather [] = refl
  collect-gather (x ∷ xs) =
      AgreesAll-cons (go x) (reach x) (collect go xs) (gather reach xs) (agrees x)
        (collect-gather xs)

  spread-gather :
      (pointer u : Text) (us : List Text) (v : Json)
      → Agrees (spread pointer (u ∷ us) go v) (bind (elements v) (gather reach))
  unfolding spread
  spread-gather pointer u us (arr xs) = Agrees-of_items _ _ (collect-gather (items xs))
  spread-gather pointer u us _ = tt

  step-gather : (r : Result PointerError Json) → Agrees (r >>= go) (bind (to_option r) reach)
  step-gather (ok w) = agrees w
  step-gather (err e) = tt

spread_last :
    (pointer : Text) (go : Json → Result PointerError Json) (v : Json)
    → Agrees (spread pointer [] go v) (bind (elements v) (λ _. some (v ∷ [])))
unfolding spread
spread_last pointer go (arr xs) = sym (append-nil (items xs))
spread_last pointer go _ = tt

resolve_tokens-targets :
    (pointer : Text) (tokens : List Text) (v : Json)
    → Agrees (resolve_tokens pointer tokens v) (targets pointer tokens v)
unfolding resolve_tokens targets
resolve_tokens-targets pointer [] v = sym (append-nil (as_list_of v))
resolve_tokens-targets pointer (t ∷ []) v = elim (Bool-cases (t == wildcard)) [
  | inl star ↦ rw star (spread_last pointer (resolve_tokens pointer []) v)
  | inr plain ↦ rw plain (
      step-gather ok (λ w. some (w ∷ [])) (λ w. sym (append-nil (as_list_of w)))
        (step_token pointer t v))
]
resolve_tokens-targets pointer (t ∷ u ∷ us) v = elim (Bool-cases (t == wildcard)) [
  | inl star ↦ rw star (
      spread-gather (resolve_tokens pointer (u ∷ us)) (targets pointer (u ∷ us))
        (resolve_tokens-targets pointer (u ∷ us)) pointer u us v)
  | inr plain ↦ rw plain (
      step-gather (resolve_tokens pointer (u ∷ us)) (targets pointer (u ∷ us))
        (resolve_tokens-targets pointer (u ∷ us)) (step_token pointer t v))
]

spread-is_list :
    (pointer u : Text) (us : List Text) (go : Json → Result PointerError Json) (v r : Json)
    → spread pointer (u ∷ us) go v ≡ ok r
    → is_list r ≡ true
unfolding spread
spread-is_list pointer u us go (arr xs) r h =
    let (rs, got, made) = >>=-eq-ok (collect go (items xs)) (λ bs. ok (arr (of_items bs))) h in
    cc (made)
spread-is_list pointer u us go v r h = cc

resolve_tokens-is_list :
    (pointer : Text) (tokens : List Text) (v r : Json)
    → spreads tokens ≡ true
    → resolve_tokens pointer tokens v ≡ ok r
    → is_list r ≡ true
unfolding resolve_tokens
resolve_tokens-is_list pointer [] v r s h = cc
resolve_tokens-is_list pointer (t ∷ []) v r s h = cc
resolve_tokens-is_list pointer (t ∷ u ∷ us) v r s h = elim (Bool-cases (t == wildcard)) [
  | inl star ↦ spread-is_list pointer u us (resolve_tokens pointer (u ∷ us)) v r (rw star at h)
  | inr plain ↦
      let (w, stepped, rest) =
        >>=-eq-ok (step_token pointer t v) (resolve_tokens pointer (u ∷ us)) (rw plain at h) in
      resolve_tokens-is_list pointer (u ∷ us) w r (rw plain at s) rest
]

arr_of_list :
    (r : Json) (xs : List Json) → is_list r ≡ true → as_list_of r ≡ xs → r ≡ arr (of_items xs)
arr_of_list (arr ys) xs l h = rw (← h, of_items-items)
arr_of_list null xs l h = cc
arr_of_list _ xs l h = cc

Agrees-ok :
    (m : Result PointerError Json) (o : Option (List Json)) (r : Json)
    → Agrees m o
    → m ≡ ok r
    → (reached : List Json) × (o ≡ some reached) × (as_list_of r ≡ flattened reached)
Agrees-ok (ok a) (some ts) r h e = (ts, refl, cc (h, e))
Agrees-ok (ok a) none r h e = absurd h
Agrees-ok (err x) o r h e = cc

Agrees-some :
    (m : Result PointerError Json) (o : Option (List Json)) (reached : List Json)
    → Agrees m o
    → o ≡ some reached
    → (r : Json) × (m ≡ ok r) × (as_list_of r ≡ flattened reached)
Agrees-some (ok a) (some ts) reached h e = (a, refl, cc (h, e))
Agrees-some (ok a) none reached h e = cc
Agrees-some (err x) (some ts) reached h e = absurd h
Agrees-some (err x) none reached h e = cc

module _ (pointer : Text) (tokens : List Text) (v : Json) (s : spreads tokens ≡ true) where
  flattened_of_ok :
      (r : Json)
      → resolve_tokens pointer tokens v ≡ ok r
      → (reached : List Json) × (targets pointer tokens v ≡ some reached)
        × (r ≡ arr (of_items (flattened reached)))
  flattened_of_ok r h =
      let (reached, found, same) = Agrees-ok _ _ r (resolve_tokens-targets pointer tokens v) h in
      (
        reached,
        found,
        arr_of_list r (flattened reached) (resolve_tokens-is_list pointer tokens v r s h) same,
      )

  ok_of_targets :
      (reached : List Json)
      → targets pointer tokens v ≡ some reached
      → resolve_tokens pointer tokens v ≡ ok (arr (of_items (flattened reached)))
  ok_of_targets reached h =
      let (r, made, same) = Agrees-some _ _ reached (resolve_tokens-targets pointer tokens v) h in
      made
      ∙ ap ok (
          arr_of_list r (flattened reached) (resolve_tokens-is_list pointer tokens v r s made) same)

-- A pointer with a `*` that tokens follow resolves exactly when every value below it can be
-- reached, and then to one flat array: the values reached, in document order, each array among
-- them concatenated one level, however many `*` the pointer holds.
pub resolve_tokens_flattens :
    (pointer : Text) (tokens : List Text) (v : Json)
    → spreads tokens ≡ true
    → ((r : Json)
        → resolve_tokens pointer tokens v ≡ ok r
        → (reached : List Json) × (targets pointer tokens v ≡ some reached)
          × (r ≡ arr (of_items (flattened reached))))
      × ((reached : List Json)
          → targets pointer tokens v ≡ some reached
          → resolve_tokens pointer tokens v ≡ ok (arr (of_items (flattened reached))))
resolve_tokens_flattens pointer tokens v s =
    (flattened_of_ok pointer tokens v s, ok_of_targets pointer tokens v s)
