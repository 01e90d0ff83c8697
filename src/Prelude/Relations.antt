-- ===== src/Prelude/Relations.antt =====
-- A relation between the elements of a list: over all pairs, and over all ordered pairs.
use mathlib.Core.List.{List, [], ◌∷◌, ◌++◌}
use jmaplib.Prelude.Lists.{All, All-append, All-append_parts, All-map}

pub All-zip {ℓ κ μ} :
    {A : Type ℓ} (P : A → Type κ) (Q : A → Type μ) (xs : List A)
    → All P xs
    → All Q xs
    → All (λ x. P x × Q x) xs
All-zip P Q [] h k = tt
All-zip P Q (x ∷ xs) h k = ((h.0, k.0), All-zip P Q xs h.1 k.1)

module _ {ℓ κ} {A : Type ℓ} where
  -- Every two elements at different places, in both orders.
  abbrev pub Pairs : (A → A → Type κ) → List A → Type κ
  Pairs R [] = Unit
  Pairs R (x ∷ xs) = All (λ y. R x y × R y x) xs × Pairs R xs

  -- Every two elements, an element with itself included.
  abbrev pub Square : (A → A → Type κ) → List A → Type κ
  Square R xs = All (λ x. All (R x) xs) xs

module _ {ℓ κ} {A : Type ℓ} (R : A → A → Type κ) where
  All-cons :
      (x : A) (ys xs : List A)
      → All (λ y. R y x) ys
      → All (λ y. All (R y) xs) ys
      → All (λ y. All (R y) (x ∷ xs)) ys
  All-cons x [] xs h hs = tt
  All-cons x (y ∷ ys) xs h hs = ((h.0, hs.0), All-cons x ys xs h.1 hs.1)

  pub Square-of_Pairs : ((x : A) → R x x) → (xs : List A) → Pairs R xs → Square R xs
  Square-of_Pairs same [] h = tt
  Square-of_Pairs same (x ∷ xs) h = (
    (same x, All-map (λ y. R x y × R y x) (R x) (λ y p. p.0) xs h.0),
    All-cons x xs xs (All-map (λ y. R x y × R y x) (λ y. R y x) (λ y p. p.1) xs h.0)
        (Square-of_Pairs same xs h.1),
  )

  All-both :
      (x : A) (ys xs : List A)
      → All (R x) ys
      → All (λ y. All (R y) (x ∷ xs)) ys
      → All (λ y. R x y × R y x) ys
  All-both x [] xs h hs = tt
  All-both x (y ∷ ys) xs h hs = ((h.0, hs.0.0), All-both x ys xs h.1 hs.1)

  All-tail :
      (x : A) (ys xs : List A) → All (λ y. All (R y) (x ∷ xs)) ys → All (λ y. All (R y) xs) ys
  All-tail x [] xs h = tt
  All-tail x (y ∷ ys) xs h = (h.0.1, All-tail x ys xs h.1)

  pub Pairs-of_Square : (xs : List A) → Square R xs → Pairs R xs
  Pairs-of_Square [] h = tt
  Pairs-of_Square (x ∷ xs) h =
      (All-both x xs xs h.0.1 h.1, Pairs-of_Square xs (All-tail x xs xs h.1))

  pub Pairs-concat :
      (xs : List A) (x : A) → Pairs R xs → All (λ y. R y x × R x y) xs → Pairs R (xs ++ x ∷ [])
  Pairs-concat [] x h hs = (tt, tt)
  Pairs-concat (y ∷ ys) x h hs =
      (All-append (λ z. R y z × R z y) ys (x ∷ []) h.0 (hs.0, tt), Pairs-concat ys x h.1 hs.1)

module _ {ℓ κ} {A : Type ℓ} (R : A → A → Type κ) where
  pub Pairs-concat_parts :
      (xs : List A) (x : A) → Pairs R (xs ++ x ∷ []) → Pairs R xs × All (λ y. R y x × R x y) xs
  Pairs-concat_parts [] x h = (tt, tt)
  Pairs-concat_parts (y ∷ ys) x h =
      let (front, last) = All-append_parts (λ z. R y z × R z y) ys (x ∷ []) h.0 in
      let (pairs, rest) = Pairs-concat_parts ys x h.1 in ((front, pairs), (last.0, rest))

module _ {ℓ κ μ} {A : Type ℓ} (R : A → A → Type κ) (S : A → A → Type μ) where
  pub Pairs-map :
      ((x y : A) → R x y × R y x → S x y × S y x) → (xs : List A) → Pairs R xs → Pairs S xs
  Pairs-map f [] h = tt
  Pairs-map f (x ∷ xs) h =
      (All-map (λ y. R x y × R y x) (λ y. S x y × S y x) (f x) xs h.0, Pairs-map f xs h.1)

module _ {ℓ κ} {A : Type ℓ} (R S T : A → A → Type κ) where
  pub Pairs-join :
      ((x y : A) → R x y × R y x → S x y × S y x → T x y × T y x)
      → (xs : List A) → Pairs R xs
      → Pairs S xs
      → Pairs T xs
  Pairs-join f [] h k = tt
  Pairs-join f (x ∷ xs) h k = (
    All-map (λ y. (R x y × R y x) × (S x y × S y x)) (λ y. T x y × T y x) (λ y p. f x y p.0 p.1) xs
        (All-zip (λ y. R x y × R y x) (λ y. S x y × S y x) xs h.0 k.0),
    Pairs-join f xs h.1 k.1,
  )
