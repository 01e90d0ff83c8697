-- ===== src/Prelude/Equality.antt =====
-- Boolean equality as an instance: numbers, lists (so texts and token lists) and Booleans.
use Prim.Native.Nat.{ℕ}
use mathlib.Core.Path.{◌≡◌, refl}
use mathlib.Core.Logic.{◌↔◌, ◌≢◌}
use mathlib.Core.Bool.{Bool, true, false, ◌&&◌}
use mathlib.Core.List.{List, [], ◌∷◌}
use native.Mathlib.Omega.{arith}
use jmaplib.Prelude.Tests.{nat_beq, nat_beq_iff}

-- A type whose values the program compares with Python's `==`.
pub record Eq {ℓ} (K : Type ℓ) : Type ℓ where
  pub same : (a b : K) → Bool
  pub same_iff : (a b : K) → (same a b ≡ true) ↔ (a ≡ b)

abbrev pub ◌==◌ {ℓ} : {K : Type ℓ} → ⦃inst : Eq K⦄ → (a b : K) → Bool
◌==◌ ⦃inst⦄ a b = inst.same a b

infix 50 ◌==◌
pub ==_iff {ℓ} : {A : Type ℓ} ⦃e : Eq A⦄ (a b : A) → ((a == b) ≡ true) ↔ (a ≡ b)
==_iff ⦃e⦄ a b = e.same_iff a b

pub ==_refl {ℓ} : {A : Type ℓ} ⦃e : Eq A⦄ (a : A) → (a == a) ≡ true
==_refl ⦃e⦄ a = (e.same_iff a a).1 refl

false_of_ne : (b : Bool) → (b ≡ true → ⊥) → b ≡ false
false_of_ne true h = absurd (h refl)
false_of_ne false h = refl

pub ==_ne {ℓ} : {A : Type ℓ} ⦃e : Eq A⦄ (a b : A) → a ≢ b → (a == b) ≡ false
==_ne ⦃e⦄ a b h = false_of_ne (e.same a b) (λ t. h ((e.same_iff a b).0 t))

pub ne_of_==_false {ℓ} : {A : Type ℓ} ⦃e : Eq A⦄ (a b : A) → (a == b) ≡ false → a ≢ b
ne_of_==_false ⦃e⦄ a b h p = cc (h, (e.same_iff a b).1 p)

instance abbrev pub nat_eq : Eq ℕ
nat_eq = record { same = nat_beq; same_iff = nat_beq_iff }

module _ {ℓ} {A : Type ℓ} ⦃e : Eq A⦄ where
  unfoldable pub list_beq : List A → List A → Bool
  list_beq [] [] = true
  list_beq [] (y ∷ ys) = false
  list_beq (x ∷ xs) [] = false
  list_beq (x ∷ xs) (y ∷ ys) = e.same x y && list_beq xs ys

  list_beq_sound : (xs ys : List A) → list_beq xs ys ≡ true → xs ≡ ys
  unfolding list_beq
  list_beq_sound [] [] h = refl
  list_beq_sound [] (y ∷ ys) h = cc
  list_beq_sound (x ∷ xs) [] h = cc
  list_beq_sound (x ∷ xs) (y ∷ ys) h = ground (arith, e.same_iff x y, list_beq_sound xs ys)

  list_beq_refl : (xs : List A) → list_beq xs xs ≡ true
  unfolding list_beq
  list_beq_refl [] = refl
  list_beq_refl (x ∷ xs) = rw ((e.same_iff x x).1 refl) (list_beq_refl xs)

  list_beq_complete : (xs ys : List A) → xs ≡ ys → list_beq xs ys ≡ true
  list_beq_complete xs ys p = rw (← p) (list_beq_refl xs)

  pub list_beq_iff : (xs ys : List A) → (list_beq xs ys ≡ true) ↔ (xs ≡ ys)
  list_beq_iff xs ys = (list_beq_sound xs ys, list_beq_complete xs ys)

instance abbrev pub list_eq {ℓ} : {A : Type ℓ} ⦃e : Eq A⦄ → Eq (List A)
list_eq ⦃e⦄ = record { same = list_beq; same_iff = list_beq_iff }
