-- ===== src/Prelude/Dict.antt =====
-- A Python `dict` as an association list in insertion order.
use mathlib.Core.Path.{◌≡◌, refl}
use mathlib.Core.Bool.{Bool, true, false, ◌||◌}
use mathlib.Core.Option.{Option, none, some}
use mathlib.Core.List.{List, [], ◌∷◌}
use native.Mathlib.Omega.{arith}
use jmaplib.Prelude.Tests.{if◌then◌else◌}
use jmaplib.Prelude.Equality.{Eq, ◌==◌}

abbrev pub Dict {ℓ κ} : Type ℓ → Type κ → Type (ℓ ⊔ κ)
Dict K V = List (K × V)

module _ {ℓ κ} {K : Type ℓ} {V : Type κ} ⦃e : Eq K⦄ where
  -- d.get(k)
  unfoldable pub lookup : K → Dict K V → Option V
  lookup k [] = none
  lookup k ((j, v) ∷ d) = if j == k then some v else lookup k d

  -- d[k] = v: a key that is there keeps its place.
  unfoldable pub insert : K → V → Dict K V → Dict K V
  insert k v [] = (k, v) ∷ []
  insert k v ((j, w) ∷ d) = if j == k then (j, v) ∷ d else (j, w) ∷ insert k v d

  -- d.setdefault(k, v), for the dict it leaves
  unfoldable pub set_default : K → V → Dict K V → Dict K V
  set_default k v [] = (k, v) ∷ []
  set_default k v ((j, w) ∷ d) = if j == k then (j, w) ∷ d else (j, w) ∷ set_default k v d

  -- d.pop(k, None), for the dict it leaves
  unfoldable pub remove : K → Dict K V → Dict K V
  remove k [] = []
  remove k ((j, w) ∷ d) = let rest = remove k d in if j == k then rest else (j, w) ∷ rest

  -- k in d
  unfoldable pub has_key : K → Dict K V → Bool
  has_key k [] = false
  has_key k ((j, w) ∷ d) = j == k || has_key k d

  pub lookup-insert :
      (k j : K) (v : V) (d : Dict K V)
      → lookup j (insert k v d) ≡ (if k == j then some v else lookup j d)
  unfolding lookup insert
  lookup-insert k j v [] = refl
  lookup-insert k j v ((i, w) ∷ d) =
      ground (arith, e.same_iff k j, e.same_iff i k, e.same_iff i j, lookup-insert k j v d)

  pub lookup-set_default :
      (k j : K) (v : V) (d : Dict K V)
      → lookup j (set_default k v d)
        ≡ elim (lookup j d) [ some w ↦ some w | none ↦ if k == j then some v else none ]
  unfolding lookup set_default
  lookup-set_default k j v [] = refl
  lookup-set_default k j v ((i, w) ∷ d) =
      ground (arith, e.same_iff k j, e.same_iff i k, e.same_iff i j, lookup-set_default k j v d)

  pub lookup-remove :
      (k j : K) (d : Dict K V) → lookup j (remove k d) ≡ (if k == j then none else lookup j d)
  unfolding lookup remove
  lookup-remove k j [] = ground arith
  lookup-remove k j ((i, w) ∷ d) =
      ground (arith, e.same_iff k j, e.same_iff i k, e.same_iff i j, lookup-remove k j d)

  pub has_key-lookup :
      (k : K) (d : Dict K V) → has_key k d ≡ elim (lookup k d) [ some _ ↦ true | none ↦ false ]
  unfolding lookup has_key
  has_key-lookup k [] = refl
  has_key-lookup k ((j, w) ∷ d) = ground (arith, has_key-lookup k d)
