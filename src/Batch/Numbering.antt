-- ===== src/Batch/Numbering.antt =====
-- The call ids of a batch: no two calls that were queued have one id, whatever was done to the batch.
use jmaplib.Prelude.{
  ℕ, suc, ◌+◌, ◌<◌, ◌≤◌, Text, List, [], ◌∷◌, ◌++◌, length, int_of, int_of-decimal, ◌≡◌, ◌≢◌, refl,
  ap, sym, ◌∙◌, arith, All, All-append, All-map, Pairs, Option, none, some, Result, ok, err,
}
use jmaplib.Invocation.{MethodCall}
use jmaplib.Invocation.Handles.{Handle}
use jmaplib.Batch.{Batch, BatchError}
use jmaplib.Batch.Queue.{call_id_of, numbered, extended, queue}

abbrev tail : Text → Text
tail [] = []
tail (c ∷ s) = s

call_id_of-injective : (m n : ℕ) → call_id_of m ≡ call_id_of n → m ≡ n
call_id_of-injective m n h = sym (int_of-decimal m) ∙ ap (λ t. int_of (tail t)) h ∙ int_of-decimal n

-- An id that a counter from below `n` gave.
abbrev pub IsCounted : ℕ → Text → Type 0
IsCounted n id = (k : ℕ) × (k < n) × (id ≡ call_id_of k)

abbrev IsAtLeast : ℕ → Text → Type 0
IsAtLeast n id = (k : ℕ) × (n ≤ k) × (id ≡ call_id_of k)

abbrev pub ids_of : {R : Type 0} → List (Handle R) → List Text
ids_of [] = []
ids_of (h ∷ hs) = h.call_id ∷ ids_of hs

abbrev pub Distinct : List Text → Type 0
Distinct ids = Pairs (λ a b. a ≢ b) ids

distinct_parts : (n : ℕ) (a b : Text) → IsCounted n a → IsAtLeast n b → (a ≢ b) × (b ≢ a)
distinct_parts n a b (k, lo, p) (m, hi, q) =
    (λ e. apart (sym p ∙ e ∙ q), λ e. apart (sym p ∙ sym e ∙ q))
  where
    apart : call_id_of k ≢ call_id_of m
    apart e = let same = call_id_of-injective k m e in omega arith

Distinct-append :
    (n : ℕ) (xs ys : List Text)
    → Distinct xs
    → Distinct ys
    → All (IsCounted n) xs
    → All (IsAtLeast n) ys
    → Distinct (xs ++ ys)
Distinct-append n [] ys h k low high = k
Distinct-append n (x ∷ xs) ys h k low high = (
  All-append (λ y. (x ≢ y) × (y ≢ x)) xs ys h.0
      (All-map (IsAtLeast n) (λ y. (x ≢ y) × (y ≢ x)) (λ y p. distinct_parts n x y low.0 p) ys
        high),
  Distinct-append n xs ys h.1 k low.1 high,
)

IsAtLeast-suc : (n : ℕ) (id : Text) → IsAtLeast (suc n) id → IsAtLeast n id
IsAtLeast-suc n id (k, lo, e) = (k, omega arith, e)

module _ {R : Type 0} where
  numbered-IsAtLeast :
      (n : ℕ) (calls : List (MethodCall R)) → All (IsAtLeast n) (ids_of (numbered n calls))
  numbered-IsAtLeast n [] = tt
  numbered-IsAtLeast n (c ∷ cs) = (
    (n, omega arith, refl),
    All-map (IsAtLeast (suc n)) (IsAtLeast n) (IsAtLeast-suc n) (ids_of (numbered (suc n) cs))
        (numbered-IsAtLeast (suc n) cs),
  )

  numbered-Distinct : (n : ℕ) (calls : List (MethodCall R)) → Distinct (ids_of (numbered n calls))
  numbered-Distinct n [] = tt
  numbered-Distinct n (c ∷ cs) = (
    All-map (IsAtLeast (suc n)) (λ y. (call_id_of n ≢ y) × (y ≢ call_id_of n))
        (λ y p. distinct_parts (suc n) (call_id_of n) y (n, omega arith, refl) p)
        (ids_of (numbered (suc n) cs)) (numbered-IsAtLeast (suc n) cs),
    numbered-Distinct (suc n) cs,
  )

  numbered-IsCounted :
      (n m : ℕ) (calls : List (MethodCall R))
      → n + length calls ≤ m
      → All (IsCounted m) (ids_of (numbered n calls))
  numbered-IsCounted n m [] h = tt
  numbered-IsCounted n m (c ∷ cs) h =
      ((n, omega arith, refl), numbered-IsCounted (suc n) m cs (omega arith))

  ids_of-append : (xs ys : List (Handle R)) → ids_of (xs ++ ys) ≡ ids_of xs ++ ids_of ys
  ids_of-append [] ys = refl
  ids_of-append (x ∷ xs) ys = ap (◌∷◌ x.call_id) (ids_of-append xs ys)

-- Distinct ids, each counted.
pub record IsNumbered {R : Type 0} (batch : Batch R) : Type 0 where
  pub distinct : Distinct (ids_of batch.handles)
  pub counted : All (IsCounted (suc batch.counter)) (ids_of batch.handles)

IsCounted-widen :
    (n m : ℕ) → n ≤ m → (ids : List Text) → All (IsCounted n) ids → All (IsCounted m) ids
IsCounted-widen n m h ids =
    All-map (IsCounted n) (IsCounted m) (λ id (k, lo, e). (k, omega arith, e)) ids

module _ {R : Type 0} (batch : Batch R) (numbered_before : IsNumbered batch) where
  extended-IsNumbered : (calls : List (MethodCall R)) → IsNumbered (extended batch calls)
  extended-IsNumbered calls =
      let n = suc batch.counter in
      let more = ids_of (numbered n calls) in
      let split = ids_of-append batch.handles (numbered n calls) in
      record {
        distinct = rw split (
            Distinct-append n (ids_of batch.handles) more numbered_before.distinct
              (numbered-Distinct n calls) numbered_before.counted (numbered-IsAtLeast n calls));
        counted = rw split (
            All-append (IsCounted (suc (batch.counter + length calls))) (ids_of batch.handles) more
              (IsCounted-widen n _ (omega arith) (ids_of batch.handles) numbered_before.counted)
              (numbered-IsCounted n _ calls (omega arith)));
      }

  counted_more : IsNumbered (record batch { counter = suc batch.counter })
  counted_more = record {
    distinct = numbered_before.distinct;
    counted =
        IsCounted-widen (suc batch.counter) _ (omega arith) (ids_of batch.handles)
          numbered_before.counted;
  }

  pub queue-IsNumbered :
      (call : MethodCall R) (split : Result BatchError (Option (List (MethodCall R))))
      → IsNumbered (queue batch call split).0
  unfolding queue
  queue-IsNumbered call (err e) = counted_more
  queue-IsNumbered call (ok none) = extended-IsNumbered (call ∷ [])
  queue-IsNumbered call (ok (some [])) = counted_more
  queue-IsNumbered call (ok (some (first ∷ others))) = extended-IsNumbered (first ∷ others)
