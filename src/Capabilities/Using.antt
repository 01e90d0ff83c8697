-- ===== src/Capabilities/Using.antt =====
-- The using set: it holds what the methods need, and nothing that the server does not offer.
use jmaplib.Prelude.{
  Text, true, List, [], ◌∷◌, ◌++◌, some, ==_refl, nat_eq, list_eq, ok, >>=-eq-ok, ok-injective, ◌≡◌,
  refl, sym, subst, arith, All, append_assoc, Option-cases, inl, inr,
}
use jmaplib.Prelude.Dict.{lookup}
use jmaplib.Patch.{contains}
use jmaplib.Session.{core_urn}
use jmaplib.Capabilities.{ActiveCapabilities, CapabilitySpec, MethodSpec}
use jmaplib.Capabilities.Active.{
  Named, all_needed, missing_from, refuse_missing, urns_of_methods, using_for,
}

-- Each text of a list is in another.
abbrev pub IsWithin : List Text → List Text → Type 0
IsWithin ts us = All (λ t. contains us t ≡ true) ts

missing_from-nil :
    (advertised ts : List Text) → missing_from advertised ts ≡ [] → IsWithin ts advertised
unfolding missing_from
missing_from-nil advertised [] h = tt
missing_from-nil advertised (t ∷ ts) h = ground (arith, missing_from-nil advertised ts)

refuse_missing-eq-ok :
    (needed missing out : List Text)
    → refuse_missing needed missing ≡ ok out
    → (missing ≡ []) × (out ≡ needed)
refuse_missing-eq-ok needed [] out h = (refl, sym (ok-injective h))
refuse_missing-eq-ok needed (t ∷ ts) out h = cc

-- A method of the batch is one that the account has, and its needs are in the set.
abbrev pub IsServed : ActiveCapabilities → List Text → Text → Type 0
IsServed active using name =
    (owner : CapabilitySpec) × (m : MethodSpec) × (lookup name active.methods ≡ some (owner, m))
    × IsWithin (owner.urn ∷ (owner.requires ++ m.also_requires)) using

contains-append_left :
    (ts us : List Text) (t : Text) → contains ts t ≡ true → contains (ts ++ us) t ≡ true
unfolding contains
contains-append_left [] us t h = cc
contains-append_left (x ∷ ts) us t h = ground (arith, contains-append_left ts us t)

contains-append_right :
    (ts us : List Text) (t : Text) → contains us t ≡ true → contains (ts ++ us) t ≡ true
unfolding contains
contains-append_right [] us t h = h
contains-append_right (x ∷ ts) us t h = ground (arith, contains-append_right ts us t)

contains_here : (t : Text) (ts : List Text) → contains (t ∷ ts) t ≡ true
unfolding contains
contains_here t ts = ground (arith, ==_refl t)

contains_later :
    (x : Text) (ts : List Text) (t : Text) → contains ts t ≡ true → contains (x ∷ ts) t ≡ true
unfolding contains
contains_later x ts t h = ground arith

contains_cons :
    (x : Text) (ts us : List Text) (t : Text)
    → (contains ts t ≡ true → contains us t ≡ true)
    → contains (x ∷ ts) t ≡ true
    → contains (x ∷ us) t ≡ true
unfolding contains
contains_cons x ts us t h k = ground arith

IsWithin-of_contains :
    (ts us : List Text)
    → ((t : Text) → contains ts t ≡ true → contains us t ≡ true)
    → IsWithin ts us
IsWithin-of_contains [] us h = tt
IsWithin-of_contains (t ∷ ts) us h =
    (h t (contains_here t ts), IsWithin-of_contains ts us (λ u k. h u (contains_later t ts u k)))

urns_of_methods-IsServed :
    (active : ActiveCapabilities) (using : List Text) (names us : List Text)
    → urns_of_methods active names ≡ ok us
    → ((t : Text) → contains us t ≡ true → contains using t ≡ true)
    → All (IsServed active using) names
unfolding urns_of_methods
urns_of_methods-IsServed active using [] us h sub = tt
urns_of_methods-IsServed active using (name ∷ names) us h sub =
    elim (Option-cases (lookup name active.methods)) [
      | inl missing ↦ cc (rw (missing, urns_of_methods) at h)
      | inr ((owner, m), found) ↦
          let (rest, later, made) =
            >>=-eq-ok (urns_of_methods active names) _ (rw (found, urns_of_methods) at h) in
          let same = ok-injective made in
          let keep : (t : Text)
              → contains (owner.urn ∷ (owner.requires ++ (m.also_requires ++ rest))) t ≡ true
              → contains using t ≡ true =
            λ t k. sub t (subst (λ l. contains l t ≡ true) same k) in
          (
            (
              owner,
              m,
              found,
              IsWithin-of_contains (owner.urn ∷ (owner.requires ++ m.also_requires)) using (λ t k.
                  keep t (
                    contains_cons owner.urn (owner.requires ++ m.also_requires)
                      (owner.requires ++ (m.also_requires ++ rest)) t
                      (λ c.
                        subst (λ l. contains l t ≡ true)
                          (append_assoc owner.requires m.also_requires rest)
                          (contains-append_left (owner.requires ++ m.also_requires) rest t c))
                      k)),
            ),
            urns_of_methods-IsServed active using names rest later (λ t c. keep t (
                contains_later owner.urn (owner.requires ++ (m.also_requires ++ rest)) t (
                  contains-append_right owner.requires (m.also_requires ++ rest) t
                    (contains-append_right m.also_requires rest t c)))),
          )
    ]

contains-all_needed :
    (active : ActiveCapabilities) (named : Named) (extra us : List Text) (t : Text)
    → contains us t ≡ true
    → contains (all_needed active named extra us) t ≡ true
unfolding all_needed
contains-all_needed active named extra us t h =
    contains_later core_urn (us ++ _) t (contains-append_left us _ t h)

core-all_needed :
    (active : ActiveCapabilities) (named : Named) (extra us : List Text)
    → contains (all_needed active named extra us) core_urn ≡ true
unfolding all_needed
core-all_needed active named extra us = contains_here core_urn _

-- `using_for` gives a set only if the server offers all of it; it has the core capability and,
-- for each method of the batch, the URN of the capability that owns it and all that the two need.
pub using_for-IsUsing :
    (active : ActiveCapabilities) (named : Named) (extra out : List Text)
    → using_for active named extra ≡ ok out
    → IsWithin out active.advertised
      × (contains out core_urn ≡ true)
      × All (IsServed active out) named.methods
unfolding using_for
using_for-IsUsing active named extra out h =
    let (us, methods, rest) = >>=-eq-ok (urns_of_methods active named.methods) _ h in
    let needed = all_needed active named extra us in
    let (offered, made) =
      refuse_missing-eq-ok needed (missing_from active.advertised needed) out rest in
    rw made (
      missing_from-nil active.advertised needed offered,
      core-all_needed active named extra us,
      urns_of_methods-IsServed active needed named.methods us methods
          (contains-all_needed active named extra us),
    )
