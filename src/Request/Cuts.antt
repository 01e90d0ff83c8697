-- ===== src/Request/Cuts.antt =====
-- What a legal cut means for the references across it.
use jmaplib.Prelude.{
  ℕ, zero, suc, ◌+◌, ◌≤◌, Text, Bool, true, List, [], ◌∷◌, Option, none, some, Option-cases, inl,
  inr, min, nat_eq, list_eq, drop, Result, ok, ◌≡◌, refl, sym, arith, All, >>=-eq-ok, ok-injective,
  subst,
}
use jmaplib.Prelude.Dict.{Dict, lookup}
use jmaplib.Invocation.{ResultRef, refs_of}
use jmaplib.Request.{
  or_default, Calls, PlanError, min_index, lowest_from, legal_from, legal_at, index_from,
  cut_points,
}

-- Every reference of a call is to an index at or after `s`.
abbrev pub RefsFrom : Dict Text ℕ → ℕ → Dict Text ResultRef → Type 0
RefsFrom d s refs = All (λ e. (j : ℕ) × (lookup e.1.result_of d ≡ some j) × (s ≤ j)) refs

abbrev pub CallsFrom : {R : Type 0} → Dict Text ℕ → ℕ → Calls R → Type 0
CallsFrom d s calls = All (λ c. RefsFrom d s (refs_of c.1)) calls

abbrev AtLeast : ℕ → Option ℕ → Type 0
AtLeast s none = Unit
AtLeast s (some k) = s ≤ k

AtLeast-min :
    (j : ℕ) (o : Option ℕ) (s : ℕ)
    → AtLeast s (some (elim o [ none ↦ j | some k ↦ min j k ]))
    → (s ≤ j) × AtLeast s o
AtLeast-min j none s h = (h, tt)
AtLeast-min j (some k) s h = (omega arith, omega arith)

min_index_bound :
    (d : Dict Text ℕ) (refs : Dict Text ResultRef) (o : Option ℕ) (s : ℕ)
    → min_index d refs ≡ ok o
    → AtLeast s o
    → RefsFrom d s refs
unfolding min_index
min_index_bound d [] o s h b = tt
min_index_bound d ((k, r) ∷ rest) o s h b = elim (Option-cases (lookup r.result_of d)) [
  | inl missing ↦ cc (rw (missing, min_index) at h)
  | inr (j, found) ↦
      let (o', later, made) = >>=-eq-ok (min_index d rest) _ (rw (found, min_index) at h) in
      let (here, there) = AtLeast-min j o' s (subst (AtLeast s) (sym (ok-injective made)) b) in
      ((j, found, here), min_index_bound d rest o' s later there)
]

or_default_bound :
    (d : Dict Text ℕ) (refs : Dict Text ResultRef) (o : Option ℕ) (i s : ℕ)
    → min_index d refs ≡ ok o
    → s ≤ or_default i o
    → RefsFrom d s refs
or_default_bound d refs none i s h b = min_index_bound d refs none s h tt
or_default_bound d refs (some k) i s h b = min_index_bound d refs (some k) s h b

lowest_from_bound :
    {R : Type 0} (d : Dict Text ℕ) (i : ℕ) (calls : Calls R) (ls : List ℕ) (s : ℕ)
    → lowest_from d i calls ≡ ok ls
    → All (λ l. s ≤ l) ls
    → CallsFrom d s calls
unfolding lowest_from
lowest_from_bound d i [] ls s h b = tt
lowest_from_bound d i ((k, c) ∷ rest) ls s h b =
    let (o, got, later) = >>=-eq-ok (min_index d (refs_of c)) _ h in
    let (ls', got', made) =
      >>=-eq-ok (lowest_from d (i + 1) rest) (λ ls. ok (or_default i o ∷ ls)) later in
    let b' : All (λ l. s ≤ l) (or_default i o ∷ ls') =
      subst (All (λ l. s ≤ l)) (sym (ok-injective made)) b in
    (
      or_default_bound d (refs_of c) o i s got b'.0,
      lowest_from_bound d (i + 1) rest ls' s got' b'.1,
    )

legal_from_bound : (i : ℕ) (ls : List ℕ) (s : ℕ) → s ≤ (legal_from i ls).0 → All (λ l. s ≤ l) ls
unfolding legal_from
legal_from_bound i [] s h = tt
legal_from_bound i (l ∷ ls) s h = (omega arith, legal_from_bound (i + 1) ls s (omega arith))

legal_at-legal_from :
    (i : ℕ) (ls : List ℕ) (k : ℕ)
    → legal_at (legal_from i ls).1 k ≡ true
    → All (λ l. i + k ≤ l) (drop k ls)
unfolding legal_from
legal_at-legal_from i [] zero h = tt
legal_at-legal_from i [] (suc k) h = tt
legal_at-legal_from i (l ∷ ls) zero h =
    (ground arith, legal_from_bound (i + 1) ls (i + 0) (ground arith))
legal_at-legal_from i (l ∷ ls) (suc k) h =
    subst (λ n. All (λ l. n ≤ l) (drop k ls)) (omega arith) (legal_at-legal_from (i + 1) ls k h)

lowest_from-drop :
    {R : Type 0} (d : Dict Text ℕ) (i : ℕ) (calls : Calls R) (ls : List ℕ) (k : ℕ)
    → lowest_from d i calls ≡ ok ls
    → (j : ℕ) × (lowest_from d j (drop k calls) ≡ ok (drop k ls))
unfolding lowest_from
lowest_from-drop d i calls ls zero h = (i, h)
lowest_from-drop d i [] ls (suc k) h = (
  i,
  subst (λ l. ◌≡◌ {A = Result PlanError (List ℕ)} (ok []) (ok (drop (suc k) l))) (ok-injective h)
      refl,
)
lowest_from-drop d i ((_, c) ∷ rest) ls (suc k) h =
    let (o, got, later) = >>=-eq-ok (min_index d (refs_of c)) _ h in
    let (ls', got', made) =
      >>=-eq-ok (lowest_from d (i + 1) rest) (λ ls. ok (or_default i o ∷ ls)) later in
    subst (λ l. (j : ℕ) × (lowest_from d j (drop k rest) ≡ ok (drop (suc k) l))) (ok-injective made)
      (lowest_from-drop d (i + 1) rest ls' k got')

-- At a legal cut no later call refers to an index before it.
pub CallsFrom-of_legal :
    {R : Type 0} (calls : Calls R) (legal : List Bool) (k : ℕ)
    → cut_points calls ≡ ok legal
    → legal_at legal k ≡ true
    → CallsFrom (index_from 0 [] calls) k (drop k calls)
unfolding cut_points
CallsFrom-of_legal calls legal k cut h =
    let (ls, got, made) =
      >>=-eq-ok (lowest_from (index_from 0 [] calls) 0 calls) (λ ls. ok (legal_from 0 ls).1) cut in
    let at_k : legal_at (legal_from 0 ls).1 k ≡ true =
      subst (λ l. legal_at l k ≡ true) (sym (ok-injective made)) h in
    let (j, rest) = lowest_from-drop (index_from 0 [] calls) 0 calls ls k got in
    lowest_from_bound (index_from 0 [] calls) j (drop k calls) (drop k ls) k rest
      (subst (λ n. All (λ l. n ≤ l) (drop k ls)) (omega arith) (legal_at-legal_from 0 ls k at_k))
