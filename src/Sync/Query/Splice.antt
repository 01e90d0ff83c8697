-- ===== src/Sync/Query/Splice.antt =====
-- The merge pass inserts the additions one by one, and each lands at its index.
use jmaplib.Prelude.{
  subst, ◌≡⟨◌⟩◌, ◌∎, ℕ, zero, suc, ◌-◌, ◌≤◌, Text, List, [], ◌∷◌, ◌++◌, Option, none, some, length,
  take, drop, replicate, ◌≡◌, refl, ap, sym, ◌∙◌, arith, length-append, length-take,
  length-replicate, append_assoc,
}
use jmaplib.Sync.Query.{SparseIds, Addition, place, merge_pass}

-- Insert one id at an index, padding a list that does not reach it.
unfoldable pub insert_at : Addition → SparseIds → SparseIds
insert_at (index, id) ids =
    take index ids ++ (replicate (index - length ids) none ++ some id ∷ drop index ids)

-- The additions one by one, from the first.
unfoldable pub insert_all : List Addition → SparseIds → SparseIds
unfolding insert_at
insert_all [] ids = ids
insert_all (a ∷ additions) ids = insert_all additions (insert_at a ids)

-- The indices rise, from `n` on.
abbrev pub Rising : ℕ → List Addition → Type 0
Rising n [] = Unit
Rising n (a ∷ additions) = (n ≤ a.0) × Rising (suc a.0) additions

module _ {ℓ} {A : Type ℓ} where
  take-append_beyond :
      (n : ℕ) (xs ys : List A) → length xs ≤ n → take n (xs ++ ys) ≡ xs ++ take (n - length xs) ys
  take-append_beyond n [] ys h = ap (λ k. take k ys) (omega arith)
  take-append_beyond zero (x ∷ xs) ys h = absurd (omega arith)
  take-append_beyond (suc n) (x ∷ xs) ys h =
      ap (◌∷◌ x)
        (take-append_beyond n xs ys (omega arith) ∙ ap (λ k. xs ++ take k ys) (omega arith))

  drop-append_beyond :
      (n : ℕ) (xs ys : List A) → length xs ≤ n → drop n (xs ++ ys) ≡ drop (n - length xs) ys
  drop-append_beyond n [] ys h = ap (λ k. drop k ys) (omega arith)
  drop-append_beyond zero (x ∷ xs) ys h = absurd (omega arith)
  drop-append_beyond (suc n) (x ∷ xs) ys h =
      drop-append_beyond n xs ys (omega arith) ∙ ap (λ k. drop k ys) (omega arith)

length-place :
    (a : Addition) (result rest : SparseIds)
    → length result ≤ a.0
    → length (place a result rest) ≡ suc a.0
length-place (index, id) result rest h =
    let grown = result ++ take (index - length result) rest in
    omega (
      arith,
      length-append grown (replicate (index - length grown) none ++ some id ∷ []),
      length-append (replicate {A = Option Text} (index - length grown) none) (some id ∷ []),
      length-replicate {A = Option Text} (index - length grown) none,
      length-append result (take (index - length result) rest),
      length-take (index - length result) rest,
    )

-- One round of the pass is one insertion into what the two lists stand for.
place-insert_at :
    (a : Addition) (result rest : SparseIds)
    → length result ≤ a.0
    → place a result rest ++ drop (a.0 - length result) rest ≡ insert_at a (result ++ rest)
unfolding insert_at
place-insert_at (index, id) result rest h =
    let grown = result ++ take (index - length result) rest in
    let pad = replicate {A = Option Text} (index - length grown) none in
    let tail = drop (index - length result) rest in
    let width : index - length grown ≡ index - length (result ++ rest) = omega (
      arith,
      length-append result (take (index - length result) rest),
      length-take (index - length result) rest,
      length-append result rest,
    ) in
    (grown ++ (pad ++ some id ∷ [])) ++ tail
    ≡⟨ append_assoc grown (pad ++ some id ∷ []) tail ⟩ grown ++ ((pad ++ some id ∷ []) ++ tail)
    ≡⟨ ap (λ l. grown ++ l) (append_assoc pad (some id ∷ []) tail) ⟩
      grown ++ (pad ++ some id ∷ tail)
    ≡⟨ ap (λ l. l ++ (pad ++ some id ∷ tail)) (sym (take-append_beyond index result rest h)) ⟩
      take index (result ++ rest) ++ (pad ++ some id ∷ tail)
    ≡⟨ ap (λ k. take index (result ++ rest) ++ (replicate k none ++ some id ∷ tail)) width ⟩
      take index (result ++ rest)
      ++ (replicate (index - length (result ++ rest)) none ++ some id ∷ tail)
    ≡⟨ ap
        (λ l.
          take index (result ++ rest)
          ++ (replicate (index - length (result ++ rest)) none ++ some id ∷ l))
        (sym (drop-append_beyond index result rest h)) ⟩
      insert_at (index, id) (result ++ rest) ∎

-- The pass and the insertions agree from any point of the pass on.
pub merge_pass-insert_all :
    (result rest : SparseIds) (additions : List Addition)
    → Rising (length result) additions
    → merge_pass result rest additions ≡ insert_all additions (result ++ rest)
unfolding merge_pass insert_all
merge_pass-insert_all result rest [] h = refl
merge_pass-insert_all result rest (a ∷ additions) (here, later) =
    merge_pass-insert_all (place a result rest) (drop (a.0 - length result) rest) additions
      (subst (λ n. Rising n additions) (sym (length-place a result rest here)) later)
    ∙ ap (insert_all additions) (place-insert_at a result rest here)
