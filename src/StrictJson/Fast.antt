-- ===== src/StrictJson/Fast.antt =====
-- The fast scan of a document against the recursion that reports what is wrong with it.
use jmaplib.Prelude.{
  ℕ, zero, suc, ◌+◌, ◌≤◌, Text, Bool, true, false, ◌&&◌, List, [], ◌∷◌, ◌++◌, Option, none, some,
  if◌then◌else◌, Bool-cases, inl, inr, decimal, ok, ◌≡◌, refl, ap, sym, ◌∙◌, subst, arith,
}
use jmaplib.Json.{Json, null, bool, int, float, str, arr, obj, Items, nil, cons, Fields, end, field}
use jmaplib.Pointer.{escape_token}
use jmaplib.StrictJson.{
  is_ascii, is_safe_int, check_int, check_string, check_tree, check_items, check_fields,
  is_clean_text, is_missing, find_surrogate, push_fields, push_items, scan_loop, scan_tree,
  validate, trusting, weight, weight_items, weight_fields, refuse_surrogate,
}

-- No number out of range and no unpaired surrogate, by recursion.
abbrev mutual
  pub clean : Json → Bool
  clean (int n) = is_safe_int n
  clean (str s) = is_clean_text s
  clean (arr xs) = clean_items xs
  clean (obj fs) = clean_fields fs
  clean _ = true

  pub clean_items : Items → Bool
  clean_items nil = true
  clean_items (cons v vs) = clean_items vs && clean v

  pub clean_fields : Fields → Bool
  clean_fields end = true
  clean_fields (field k v fs) = is_clean_text k && (clean_fields fs && clean v)

abbrev clean_stack : List Json → Bool
clean_stack [] = true
clean_stack (v ∷ stack) = clean v && clean_stack stack

abbrev weight_stack : List Json → ℕ
weight_stack [] = 0
weight_stack (v ∷ stack) = weight v + weight_stack stack

and_assoc : (a b c : Bool) → (a && (b && c)) ≡ ((a && b) && c)
and_assoc true b c = refl
and_assoc false b c = refl

clean_stack-push_items :
    (xs : Items) (stack : List Json)
    → clean_stack (push_items xs stack) ≡ (clean_items xs && clean_stack stack)
unfolding push_items
clean_stack-push_items nil stack = refl
clean_stack-push_items (cons v vs) stack =
    clean_stack-push_items vs (v ∷ stack) ∙ and_assoc (clean_items vs) (clean v) (clean_stack stack)

weight_stack-push_items :
    (xs : Items) (stack : List Json)
    → weight_stack (push_items xs stack) ≡ weight_items xs + weight_stack stack
unfolding push_items
weight_stack-push_items nil stack = omega arith
weight_stack-push_items (cons v vs) stack = omega (arith, weight_stack-push_items vs (v ∷ stack))

-- What pushing the values of an object gives.
abbrev IsPushed : Fields → List Json → Option (List Json) → Type 0
IsPushed fs stack none = clean_fields fs ≡ false
IsPushed fs stack (some more) =
    (clean_stack more ≡ (clean_fields fs && clean_stack stack))
    × (weight_stack more ≡ weight_fields fs + weight_stack stack)

IsPushed-field :
    (k : Text) (v : Json) (fs : Fields) (stack : List Json) (o : Option (List Json))
    → is_clean_text k ≡ true
    → IsPushed fs (v ∷ stack) o
    → IsPushed (field k v fs) stack o
IsPushed-field k v fs stack none h p = rw (h, p) refl
IsPushed-field k v fs stack (some more) h p =
    (rw h (p.0 ∙ and_assoc (clean_fields fs) (clean v) (clean_stack stack)), omega (arith, p.1))

push_fields-IsPushed : (fs : Fields) (stack : List Json) → IsPushed fs stack (push_fields fs stack)
unfolding push_fields
push_fields-IsPushed end stack = (refl, omega arith)
push_fields-IsPushed (field k v fs) stack = elim (Bool-cases (is_clean_text k)) [
  | inl good ↦
      subst (λ b. IsPushed (field k v fs) stack (if b then push_fields fs (v ∷ stack) else none))
        (sym good)
        (IsPushed-field k v fs stack (push_fields fs (v ∷ stack)) good
          (push_fields-IsPushed fs (v ∷ stack)))
  | inr bad ↦
      subst (λ b. IsPushed (field k v fs) stack (if b then push_fields fs (v ∷ stack) else none))
        (sym bad) (ap (λ b. b && (clean_fields fs && clean v)) bad)
]

if_clean :
    (b c : Bool) (rest : Option Bool)
    → rest ≡ some c
    → (if b then rest else some false) ≡ some (b && c)
if_clean true c rest h = h
if_clean false c rest h = refl

weight-positive : (v : Json) → 1 ≤ weight v
weight-positive (arr xs) = omega arith
weight-positive (obj fs) = omega arith
weight-positive _ = omega arith

scan_loop-clean :
    (fuel : ℕ) (stack : List Json)
    → weight_stack stack ≤ fuel
    → scan_loop fuel stack ≡ some (clean_stack stack)
unfolding scan_loop
scan_loop-clean zero [] h = refl
scan_loop-clean (suc fuel) [] h = refl
scan_loop-clean zero (v ∷ stack) h = absurd (omega (arith, weight-positive v))
scan_loop-clean (suc fuel) (null ∷ stack) h = scan_loop-clean fuel stack (omega arith)
scan_loop-clean (suc fuel) (bool b ∷ stack) h = scan_loop-clean fuel stack (omega arith)
scan_loop-clean (suc fuel) (float x ∷ stack) h = scan_loop-clean fuel stack (omega arith)
scan_loop-clean (suc fuel) (int n ∷ stack) h =
    if_clean (is_safe_int n) (clean_stack stack) (scan_loop fuel stack)
      (scan_loop-clean fuel stack (omega arith))
scan_loop-clean (suc fuel) (str s ∷ stack) h =
    if_clean (is_clean_text s) (clean_stack stack) (scan_loop fuel stack)
      (scan_loop-clean fuel stack (omega arith))
scan_loop-clean (suc fuel) (arr xs ∷ stack) h =
    scan_loop-clean fuel (push_items xs stack) (omega (arith, weight_stack-push_items xs stack))
    ∙ ap some (clean_stack-push_items xs stack)
scan_loop-clean (suc fuel) (obj fs ∷ stack) h =
    go (push_fields fs stack) (push_fields-IsPushed fs stack)
      (λ more fits. scan_loop-clean fuel more fits)
  where
    go :
        (o : Option (List Json))
        → IsPushed fs stack o
        → ((more : List Json)
            → weight_stack more ≤ fuel
            → scan_loop fuel more ≡ some (clean_stack more))
        → ◌≡◌ {A = Option Bool}
            (elim o as (λ _. Option Bool) [ none ↦ some false | some more ↦ scan_loop fuel more ])
            (some (clean_fields fs && clean_stack stack))
    go none p later = rw p refl
    go (some more) p later = later more (omega (arith, p.1)) ∙ ap some p.0

check_string-ok : (s path : Text) → is_clean_text s ≡ true → check_string s path ≡ ok tt
unfolding check_string
check_string-ok s path h = elim (Bool-cases (is_ascii s)) [
  | inl plain ↦ rw plain refl
  | inr other ↦ rw other (nothing_found (find_surrogate 0 s) (rw other at h))
]
  where
    nothing_found : (o : Option (ℕ × ℕ)) → is_missing o ≡ true → refuse_surrogate path o ≡ ok tt
    nothing_found none h = refl
    nothing_found (some found) h = cc h

and_parts : (a b : Bool) → (a && b) ≡ true → (a ≡ true) × (b ≡ true)
and_parts true b h = (refl, h)
and_parts false b h = cc h

mutual
  unfolding check_tree check_int

  check_tree-ok : (v : Json) (path : Text) → clean v ≡ true → check_tree v path ≡ ok tt
  check_tree-ok null path h = refl
  check_tree-ok (bool b) path h = refl
  check_tree-ok (float x) path h = refl
  check_tree-ok (int n) path h = rw h refl
  check_tree-ok (str s) path h = check_string-ok s path h
  check_tree-ok (arr xs) path h = check_items-ok xs path 0 h
  check_tree-ok (obj fs) path h = check_fields-ok fs path h

  check_items-ok :
      (xs : Items) (path : Text) (i : ℕ) → clean_items xs ≡ true → check_items xs path i ≡ ok tt
  check_items-ok nil path i h = refl
  check_items-ok (cons v vs) path i h =
      rw
        (
          check_tree-ok v (path ++ b'/' ∷ decimal i) (ground arith),
          check_items-ok vs path (i + 1) (ground arith),
        )
        refl

  check_fields-ok :
      (fs : Fields) (path : Text) → clean_fields fs ≡ true → check_fields fs path ≡ ok tt
  check_fields-ok end path h = refl
  check_fields-ok (field k v fs) path h =
      let (key, others) = and_parts (is_clean_text k) (clean_fields fs && clean v) h in
      let (later, value) = and_parts (clean_fields fs) (clean v) others in
      rw
        (
          check_string-ok k (path ++ b'/' ∷ escape_token k) key,
          check_tree-ok v (path ++ b'/' ∷ escape_token k) value,
          check_fields-ok fs path later,
        )
        refl

scan_tree-clean : (v : Json) → scan_tree v ≡ some (clean v)
unfolding scan_tree
scan_tree-clean v = scan_loop-clean (weight v) (v ∷ []) (omega arith) ∙ ap some (and_true (clean v))
  where
    and_true : (b : Bool) → (b && true) ≡ b
    and_true true = refl
    and_true false = refl

trusting-check_tree :
    (v : Json) (b : Bool) → (b ≡ true → clean v ≡ true) → trusting v (some b) ≡ check_tree v []
trusting-check_tree v true h = sym (check_tree-ok v [] (h refl))
trusting-check_tree v false h = refl

-- The fast scan of a decoded document ends and says whether the document has no integer out of
-- range and no unpaired surrogate, and a validation that trusts it raises exactly what the recursion
-- that names the member at fault raises.
pub validate-check_tree :
    (v : Json) → (scan_tree v ≡ some (clean v)) × (validate v ≡ check_tree v [])
unfolding validate
validate-check_tree v = (
  scan_tree-clean v,
  ap (trusting v) (scan_tree-clean v) ∙ trusting-check_tree v (clean v) (λ h. h),
)
