-- ===== src/Patch/Builder/Index.antt =====
-- The builder's maps index its keys, and its check agrees with the sweep.
use mathlib.Core.Path.{fun_ext}
use jmaplib.Prelude.{
  subst, Text, false, List, [], ◌∷◌, ◌++◌, Option, none, some, ◌≡◌, refl, sym, ◌∙◌, ◌↔◌, arith,
  ◌==◌, ==_iff, nat_eq, list_eq, All, All-append, Pairs, Pairs-concat, Pairs-concat_parts,
  All-append_parts, if◌then◌else◌, ok,
}
use jmaplib.Prelude.Dict.{lookup, insert, set_default, has_key, lookup-set_default, lookup-insert}
use jmaplib.Patch.{Tokens, Owners, proper_prefixes, no_owner_above, check_overlap}
use jmaplib.Patch.Prefixes.{elem}
use jmaplib.Patch.Overlap.{
  Entry, Apart, IsDisjoint, KeysDiffer, owner_of, unowned_iff, disjoint_parts, check_overlap_iff,
  no_owner_above_iff,
}
use jmaplib.Patch.Builder.{PatchBuilder, check_addition, add_ancestors, file}

abbrev NotBelow : Tokens → Entry → Type 0
NotBelow p f = elem p (proper_prefixes f.1) ≡ false

pub record IsIndexed (b : PatchBuilder) : Type 0 where
  pub owned : (p : Tokens) → lookup p b.owners ≡ owner_of p b.tokens
  pub below :
      (p : Tokens)
      → (lookup p b.ancestors ≡ none) ↔ All (λ f. elem p (proper_prefixes f.1) ≡ false) b.tokens
  pub distinct : Pairs KeysDiffer b.tokens
  pub disjoint : IsDisjoint b.tokens

insert_fresh :
    (path : Text) (t : Tokens) (l : List Entry)
    → has_key path l ≡ false
    → insert path t l ≡ l ++ (path, t) ∷ []
unfolding insert has_key
insert_fresh path t [] h = refl
insert_fresh path t ((k, u) ∷ l) h = ground (arith, insert_fresh path t l)

fresh_differs :
    (path : Text) (t : Tokens) (l : List Entry)
    → has_key path l ≡ false
    → All (λ f. KeysDiffer f (path, t) × KeysDiffer (path, t) f) l
unfolding has_key
fresh_differs path t [] h = tt
fresh_differs path t ((k, u) ∷ l) h = (
  (ground (arith, ==_iff k path), ground (arith, ==_iff k path)),
  fresh_differs path t l (ground arith),
)

owner_of-concat :
    (p : Tokens) (path : Text) (t : Tokens) (l : List Entry)
    → owner_of t l ≡ none
    → owner_of p (l ++ (path, t) ∷ []) ≡ (if t == p then some path else owner_of p l)
unfolding owner_of
owner_of-concat p path t [] h = refl
owner_of-concat p path t ((k, u) ∷ l) h =
    ground (arith, owner_of-concat p path t l, ==_iff u t, ==_iff u p, ==_iff t p)

add_ancestors_iff :
    (p : Tokens) (path : Text) (ps : List Tokens) (o : Owners)
    → (lookup p (add_ancestors path ps o) ≡ none) ↔ ((lookup p o ≡ none) × (elem p ps ≡ false))
unfolding add_ancestors elem
add_ancestors_iff p path [] o = (λ h. (h, refl), λ h. h.0)
add_ancestors_iff p path (q ∷ ps) o = ground (
  arith,
  add_ancestors_iff p path ps (set_default q path o),
  lookup-set_default q p path o,
  ==_iff p q,
  ==_iff q p,
)

unowned_differs :
    (t : Tokens) (l : List Entry) → (owner_of t l ≡ none) ↔ All (λ f. (f.1 == t) ≡ false) l
unfolding owner_of
unowned_differs t [] = (λ h. tt, λ h. refl)
unowned_differs t ((k, u) ∷ l) = ground (arith, unowned_differs t l)

Apart-iff :
    (path : Text) (t : Tokens) (l : List Entry)
    → All (λ f. Apart f (path, t) × Apart (path, t) f) l ↔ (
        All (λ f. (f.1 == t) ≡ false) l
        × All (λ f. elem t (proper_prefixes f.1) ≡ false) l
        × All (λ f. elem f.1 (proper_prefixes t) ≡ false) l)
Apart-iff path t [] = (λ h. (tt, tt, tt), λ h. tt)
Apart-iff path t ((k, u) ∷ l) =
    ground (arith, Apart-iff path t l, disjoint_parts (k, u) (path, t), ==_iff u t, ==_iff t u)

check_addition_parts :
    (path : Text) (t : Tokens) (b : PatchBuilder)
    → (check_addition path t b ≡ ok tt) ↔ (
        (lookup t b.owners ≡ none)
        × (lookup t b.ancestors ≡ none)
        × (no_owner_above b.owners path (proper_prefixes t) ≡ ok tt))
unfolding check_addition
check_addition_parts path t b = ground arith

owners_iff :
    (b : PatchBuilder)
    → IsIndexed b
    → (ps : List Tokens)
    → All (λ p. lookup p b.owners ≡ none) ps ↔ All (λ f. elem f.1 ps ≡ false) b.tokens
owners_iff b v ps =
    subst
      (λ (g : Tokens → Option Text).
        All (λ p. g p ≡ none) ps ↔ All (λ f. elem f.1 ps ≡ false) b.tokens)
      (sym (fun_ext v.owned)) (unowned_iff b.tokens ps)

-- The incremental check passes exactly when the new pointer begins no pointer that is held, and
-- none of them begins it.
pub check_addition_iff :
    (path : Text) (t : Tokens) (b : PatchBuilder)
    → IsIndexed b
    → (check_addition path t b ≡ ok tt) ↔ All (λ f. Apart f (path, t) × Apart (path, t) f) b.tokens
check_addition_iff path t b v = ground (
  arith,
  check_addition_parts path t b,
  Apart-iff path t b.tokens,
  v.owned t,
  unowned_differs t b.tokens,
  v.below t,
  owners_iff b v (proper_prefixes t),
  no_owner_above_iff b.owners path (proper_prefixes t),
)

module _ (path : Text) (t : Tokens) (b : PatchBuilder) (v : IsIndexed b)
    (fresh : has_key path b.tokens ≡ false) where
  -- On a fresh key the incremental check agrees with a full sweep over the keys and the new one.
  pub check_addition-eq-sweep :
      (check_addition path t b ≡ ok tt) ↔ (check_overlap (insert path t b.tokens) ≡ ok tt)
  check_addition-eq-sweep =
      let (to, from) = check_overlap_iff (b.tokens ++ (path, t) ∷ []) (
        Pairs-concat KeysDiffer b.tokens (path, t) v.distinct
          (fresh_differs path t b.tokens fresh)) in
      let (accepted, accepts) = check_addition_iff path t b v in
      rw (insert_fresh path t b.tokens fresh) (
        λ h. from (Pairs-concat Apart b.tokens (path, t) v.disjoint (accepted h)),
        λ h. accepts (Pairs-concat_parts Apart b.tokens (path, t) (to h)).1,
      )

  pub file-IsIndexed : check_addition path t b ≡ ok tt → IsIndexed (file path t b)
  unfolding file
  file-IsIndexed accepted =
      let (free, _, _) = (check_addition_parts path t b).0 accepted in
      record {
        owned = λ p.
            rw
              (
                insert_fresh path t b.tokens fresh,
                owner_of-concat p path t b.tokens (sym (v.owned t) ∙ free),
                lookup-insert,
              )
              (rw (v.owned p));
        below = λ p. rw (insert_fresh path t b.tokens fresh) (
          λ h.
              let (before, out) = (add_ancestors_iff p path (proper_prefixes t) b.ancestors).0 h in
              All-append (NotBelow p) b.tokens ((path, t) ∷ []) ((v.below p).0 before) (out, tt),
          λ h.
              let (before, last) = All-append_parts (NotBelow p) b.tokens ((path, t) ∷ []) h in
              (add_ancestors_iff p path (proper_prefixes t) b.ancestors).1
                ((v.below p).1 before, last.0),
        );
        distinct = rw (insert_fresh path t b.tokens fresh) (
            Pairs-concat KeysDiffer b.tokens (path, t) v.distinct
              (fresh_differs path t b.tokens fresh));
        disjoint = rw (insert_fresh path t b.tokens fresh) (
            Pairs-concat Apart b.tokens (path, t) v.disjoint
              ((check_addition_iff path t b v).0 accepted));
      }
