-- ===== src/Prelude/Results.antt =====
-- A Python function that may raise returns a `Result`: the value, or the exception it raises.
use mathlib.Core.Logic.{◌⊎◌, inl, inr}
use mathlib.Core.Path.{◌≡◌, refl}

pub data Result {ℓ κ} (E : Type ℓ) (A : Type κ) : Type (ℓ ⊔ κ) where
  ok : A → Result E A
  err : E → Result E A

module _ {ℓ κ μ} {E : Type ℓ} {A : Type κ} {B : Type μ} where
  infixl 5 ◌>>=◌
  -- Go on with the value; an exception ends the function.
  abbrev pub ◌>>=◌ : Result E A → (A → Result E B) → Result E B
  ◌>>=◌ (err raised) next = err raised
  ◌>>=◌ (ok value) next = next value

  -- The value that a chain which succeeds went through.
  pub >>=-eq-ok :
      (first : Result E A) (next : A → Result E B) {out : B}
      → (first >>= next) ≡ ok out
      → (mid : A) × (first ≡ ok mid) × (next mid ≡ ok out)
  >>=-eq-ok (err raised) next h = cc
  >>=-eq-ok (ok value) next h = (value, refl, h)

-- Where a chain that raises has raised.
pub >>=-eq-err {ℓ κ μ} :
    {E : Type ℓ} {A : Type κ} {B : Type μ} (first : Result E A) (next : A → Result E B) {e : E}
    → (first >>= next) ≡ err e
    → (first ≡ err e) ⊎ ((mid : A) × (first ≡ ok mid) × (next mid ≡ err e))
>>=-eq-err (err raised) next h = inl cc
>>=-eq-err (ok value) next h = inr (value, refl, h)

infixl 5 ◌>>◌
abbrev pub ◌>>◌ {ℓ κ} : {E : Type ℓ} {B : Type κ} → Result E (Unit {0}) → Result E B → Result E B
first >> second = first >>= λ _. second

pub ok-injective {ℓ κ} :
    {E : Type ℓ} {A : Type κ} {a b : A} → ◌≡◌ {A = Result E A} (ok a) (ok b) → a ≡ b
ok-injective h = cc
