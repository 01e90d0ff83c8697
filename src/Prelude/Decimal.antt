-- ===== src/Prelude/Decimal.antt =====
-- A number is read back from its decimal digits.
use jmaplib.Prelude.Strings.{Text, int_from, int_of, decimal_from, decimal}
use jmaplib.Prelude.Tests.{ltb, Bool-cases}
use Prim.Native.Nat.{ℕ, zero, suc, ◌+◌, ◌/◌, ◌%◌, ◌<◌}
use mathlib.Core.Path.{◌≡◌, ap, ◌∙◌}
use mathlib.Core.Logic.{inl, inr}
use mathlib.Core.List.{[], ◌∷◌}
use native.Mathlib.Omega.{arith}

int_from-decimal_from :
    (f n : ℕ) (out : Text) → n < f → int_from 0 (decimal_from f n out) ≡ int_from n out
unfolding int_from decimal_from
int_from-decimal_from zero n out h = absurd (omega arith)
int_from-decimal_from (suc f) n out h = elim (Bool-cases (ltb n 10)) [
  | inl small ↦ rw small (ap (λ m. int_from m out) (ground arith))
  | inr large ↦ rw large (
      int_from-decimal_from f (n / 10) ((b'0' + n % 10) ∷ out) (ground arith)
      ∙ ap (λ m. int_from m out) (ground arith))
]

pub int_of-decimal : (n : ℕ) → int_of (decimal n) ≡ n
unfolding int_of decimal int_from
int_of-decimal n = int_from-decimal_from (suc n) n [] (omega arith)
