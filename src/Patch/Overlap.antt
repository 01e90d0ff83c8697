-- ===== src/Patch/Overlap.antt =====
-- What the sweep of `_check_overlap` accepts.
use mathlib.Core.Path.{fun_ext}
use jmaplib.Prelude.{
  Pairs-join, subst, Text, false, List, [], ◌∷◌, Option, none, some, ◌≡◌, refl, sym, ◌≢◌, ◌↔◌,
  arith, ◌==◌, ==_iff, nat_eq, list_eq, list_beq, All, Pairs, Pairs-map, Square, Square-of_Pairs,
  Pairs-of_Square, if◌then◌else◌, ok, ◌>>=◌, >>=-eq-ok,
}
use jmaplib.Prelude.Dict.{lookup, set_default, lookup-set_default}
use jmaplib.Patch.{
  Tokens, Owners, proper_prefixes, own_all, owner_or, none_above, no_owner_above, check_overlap,
}
use jmaplib.Patch.Prefixes.{is_prefix, elem, is_prefix-eq_or_proper, elem-map_cons}

abbrev pub Entry : Type 0
Entry = Text × Tokens

-- The key of the first entry with these tokens.
unfoldable pub owner_of : Tokens → List Entry → Option Text
unfolding list_beq
owner_of p [] = none
owner_of p ((k, t) ∷ l) = if t == p then some k else owner_of p l

abbrev or_else : Option Text → Option Text → Option Text
or_else (some k) o = some k
or_else none o = o

-- After the first loop a pointer's owner is the first entry that has it.
lookup-own_all :
    (o : Owners) (l : List Entry) (o' : Owners) (p : Tokens)
    → own_all o l ≡ ok o'
    → lookup p o' ≡ or_else (lookup p o) (owner_of p l)
unfolding own_all owner_of
lookup-own_all o [] o' p h = ground arith
lookup-own_all o ((k, t) ∷ l) o' p h =
    ground
      (arith, lookup-own_all (set_default t k o) l o' p, lookup-set_default t p k o, ==_iff t p)

-- What the first loop asks of two entries, and the second of an entry and the one above it.
abbrev pub SameNot : Entry → Entry → Type 0
SameNot e f = (e.1 == f.1) ≡ false

abbrev pub NotAbove : Entry → Entry → Type 0
NotAbove e f = elem f.1 (proper_prefixes e.1) ≡ false

-- No two entries address the same pointer, and none addresses an ancestor of another's.
abbrev pub IsDisjoint : List Entry → Type 0
IsDisjoint = Pairs (λ e f. is_prefix e.1 f.1 ≡ false)

abbrev pub KeysDiffer : Entry → Entry → Type 0
KeysDiffer e f = e.0 ≢ f.0

-- Entries that `own_all` meets after it has filed one: unowned, and their keys not in use.
abbrev IsFree : Owners → Entry → Type 0
IsFree o e = (lookup e.1 o ≡ none) × ((p : Tokens) → lookup p o ≢ some e.0)

set_default-IsFree :
    (o : Owners) (k : Text) (t : Tokens) (l : List Entry)
    → lookup t o ≡ none
    → All (IsFree o) l
    → All (λ f. KeysDiffer (k, t) f × KeysDiffer f (k, t)) l
    → All (λ f. SameNot (k, t) f × SameNot f (k, t)) l
    → All (IsFree (set_default t k o)) l
set_default-IsFree o k t [] h hs ks ds = tt
set_default-IsFree o k t ((j, u) ∷ l) h hs ks ds = (
  (
    ground (arith, lookup-set_default t u k o),
    λ p e. ground (arith, lookup-set_default t p k o, hs.0.1 p, ks.0.0),
  ),
  set_default-IsFree o k t l h hs.1 ks.1 ds.1,
)

own_all_accepts :
    (o : Owners) (l : List Entry)
    → Pairs KeysDiffer l
    → All (IsFree o) l
    → Pairs SameNot l
    → (o' : Owners) × (own_all o l ≡ ok o')
unfolding own_all
own_all_accepts o [] ks hs ds = (o, refl)
own_all_accepts o ((k, t) ∷ l) ks hs ds =
    let (o', made) =
      own_all_accepts (set_default t k o) l ks.1 (set_default-IsFree o k t l hs.0.0 hs.1 ks.0 ds.0)
        ds.1 in
    (o', ground (arith, ==_iff k k))

abbrev IsUnused : Owners → Entry → Type 0
IsUnused o e = (p : Tokens) → lookup p o ≢ some e.0

set_default-IsUnused :
    (o : Owners) (k : Text) (t : Tokens) (l : List Entry)
    → All (IsUnused o) l
    → All (λ f. KeysDiffer (k, t) f × KeysDiffer f (k, t)) l
    → All (IsUnused (set_default t k o)) l
set_default-IsUnused o k t [] hs ks = tt
set_default-IsUnused o k t ((j, u) ∷ l) hs ks = (
  λ p e. ground (arith, lookup-set_default t p k o, hs.0 p, ks.0.0),
  set_default-IsUnused o k t l hs.1 ks.1,
)

abbrev IsUnowned : Owners → Entry → Type 0
IsUnowned o e = lookup e.1 o ≡ none

-- What a pointer unowned after a filing says of the dict before it, and of the pointer filed.
IsUnowned-before :
    (o : Owners) (k : Text) (t : Tokens) (l : List Entry)
    → lookup t o ≡ none
    → All (IsUnowned (set_default t k o)) l
    → All (IsUnowned o) l × All (λ f. SameNot (k, t) f × SameNot f (k, t)) l
IsUnowned-before o k t [] h hs = (tt, tt)
IsUnowned-before o k t ((j, u) ∷ l) h hs =
    let (rest, differ) = IsUnowned-before o k t l h hs.1 in
    (
      (ground (arith, lookup-set_default t u k o), rest),
      (
        (
          ground (arith, lookup-set_default t u k o),
          ground (arith, lookup-set_default t u k o, ==_iff t u, ==_iff u t),
        ),
        differ,
      ),
    )

own_all_sound :
    (o : Owners) (l : List Entry) (o' : Owners)
    → Pairs KeysDiffer l
    → All (IsUnused o) l
    → own_all o l ≡ ok o'
    → All (IsUnowned o) l × Pairs SameNot l
unfolding own_all
own_all_sound o [] o' ks hs e = (tt, tt)
own_all_sound o ((k, t) ∷ l) o' ks hs e =
    let free : lookup t o ≡ none = ground (arith, hs.0 t, ==_iff (owner_or k (lookup t o)) k) in
    let (later, differ) =
      own_all_sound (set_default t k o) l o' ks.1 (set_default-IsUnused o k t l hs.1 ks.0)
        (ground arith) in
    let (rest, apart) = IsUnowned-before o k t l free later in ((free, rest), (apart, differ))

pub no_owner_above_iff :
    (o : Owners) (key : Text) (ps : List Tokens)
    → (no_owner_above o key ps ≡ ok tt) ↔ All (λ p. lookup p o ≡ none) ps
unfolding no_owner_above
no_owner_above_iff o key [] = (λ e. tt, λ h. refl)
no_owner_above_iff o key (p ∷ ps) = ground (arith, no_owner_above_iff o key ps)

abbrev NoneAbove : Owners → Entry → Type 0
NoneAbove o e = All (λ p. lookup p o ≡ none) (proper_prefixes e.1)

none_above_iff : (o : Owners) (l : List Entry) → (none_above o l ≡ ok tt) ↔ All (NoneAbove o) l
unfolding none_above
none_above_iff o [] = (λ e. tt, λ h. refl)
none_above_iff o ((k, t) ∷ l) =
    ground (arith, none_above_iff o l, no_owner_above_iff o k (proper_prefixes t))

unowned-cons :
    (k : Text) (t : Tokens) (l : List Entry) (ps : List Tokens)
    → All (λ p. owner_of p ((k, t) ∷ l) ≡ none) ps
      ↔ ((elem t ps ≡ false) × All (λ p. owner_of p l ≡ none) ps)
unfolding owner_of elem
unowned-cons k t l [] = (λ h. (refl, tt), λ h. tt)
unowned-cons k t l (p ∷ ps) = ground (arith, unowned-cons k t l ps, ==_iff t p)

-- Nothing owns any of the pointers exactly when no entry's pointer is among them.
unowned_none : (ps : List Tokens) → All (λ p. owner_of p [] ≡ none) ps
unfolding owner_of
unowned_none [] = tt
unowned_none (p ∷ ps) = (refl, unowned_none ps)

pub unowned_iff :
    (l : List Entry) (ps : List Tokens)
    → All (λ p. owner_of p l ≡ none) ps ↔ All (λ f. elem f.1 ps ≡ false) l
unowned_iff [] ps = (λ h. tt, λ h. unowned_none ps)
unowned_iff ((k, t) ∷ l) ps =
    let (to, from) = unowned-cons k t l ps in
    let (down, up) = unowned_iff l ps in (λ h. ((to h).0, down (to h).1), λ h. from (h.0, up h.1))

All-unowned_iff :
    (l xs : List Entry)
    → All (λ e. All (λ p. owner_of p l ≡ none) (proper_prefixes e.1)) xs
      ↔ All (λ e. All (λ f. NotAbove e f) l) xs
All-unowned_iff l [] = (λ h. tt, λ h. tt)
All-unowned_iff l (e ∷ xs) =
    let (to, from) = unowned_iff l (proper_prefixes e.1) in
    let (down, up) = All-unowned_iff l xs in (λ h. (to h.0, down h.1), λ h. (from h.0, up h.1))

not_in_own_prefixes : (ts : Tokens) → elem ts (proper_prefixes ts) ≡ false
unfolding elem list_beq
not_in_own_prefixes [] = refl
not_in_own_prefixes (t ∷ ts) =
    ground (arith, elem-map_cons t t ts (proper_prefixes ts), not_in_own_prefixes ts)

pub disjoint_parts :
    (e f : Entry)
    → ((is_prefix e.1 f.1 ≡ false) × (is_prefix f.1 e.1 ≡ false))
      ↔ ((SameNot e f × SameNot f e) × (NotAbove e f × NotAbove f e))
disjoint_parts (k, s) (j, t) =
    ground (arith, is_prefix-eq_or_proper s t, is_prefix-eq_or_proper t s, ==_iff s t, ==_iff t s)

abbrev pub Apart : Entry → Entry → Type 0
Apart e f = is_prefix e.1 f.1 ≡ false

IsDisjoint-iff : (l : List Entry) → IsDisjoint l ↔ (Pairs SameNot l × Square NotAbove l)
IsDisjoint-iff l = (
  λ h. (
    Pairs-map Apart SameNot (λ e f p. ((disjoint_parts e f).0 p).0) l h,
    Square-of_Pairs NotAbove (λ e. not_in_own_prefixes e.1) l
        (Pairs-map Apart NotAbove (λ e f p. ((disjoint_parts e f).0 p).1) l h),
  ),
  λ h.
      Pairs-join SameNot NotAbove Apart (λ e f p q. (disjoint_parts e f).1 (p, q)) l h.0
        (Pairs-of_Square NotAbove l h.1),
)

module _ (l : List Entry) (differ : Pairs KeysDiffer l) where
  IsUnused-at_start : (xs : List Entry) → All (IsUnused []) xs
  unfolding lookup
  IsUnused-at_start [] = tt
  IsUnused-at_start (x ∷ xs) = (λ p e. cc (e), IsUnused-at_start xs)

  IsFree-at_start : (xs : List Entry) → All (IsFree []) xs
  unfolding lookup
  IsFree-at_start [] = tt
  IsFree-at_start (x ∷ xs) = ((refl, λ p e. cc (e)), IsFree-at_start xs)

  owners_after :
      (o : Owners)
      → own_all [] l ≡ ok o
      → ◌≡◌ {A = Tokens → Option Text} (λ p. lookup p o) (λ p. owner_of p l)
  unfolding lookup
  owners_after o made = fun_ext (λ p. lookup-own_all [] l o p made)

  NoneAbove-Square : (o : Owners) → own_all [] l ≡ ok o → All (NoneAbove o) l ↔ Square NotAbove l
  NoneAbove-Square o made =
      subst
        (λ (f : Tokens → Option Text).
          All (λ e. All (λ p. f p ≡ none) (proper_prefixes e.1)) l ↔ Square NotAbove l)
        (sym (owners_after o made)) (All-unowned_iff l l)

  -- The sweep accepts entries with distinct keys exactly when no pointer begins another.
  pub check_overlap_iff : (check_overlap l ≡ ok tt) ↔ IsDisjoint l
  unfolding check_overlap
  check_overlap_iff = (accepted, accepts)
    where
      accepted : (own_all [] l >>= λ o. none_above o l) ≡ ok tt → IsDisjoint l
      accepted e =
          let (o, made, none_there) = >>=-eq-ok (own_all [] l) (λ o. none_above o l) e in
          (IsDisjoint-iff l).1 (
            (own_all_sound [] l o differ (IsUnused-at_start l) made).1,
            (NoneAbove-Square o made).0 ((none_above_iff o l).0 none_there),
          )

      accepts : IsDisjoint l → (own_all [] l >>= λ o. none_above o l) ≡ ok tt
      accepts h =
          let (same, above) = (IsDisjoint-iff l).0 h in
          let (o, made) = own_all_accepts [] l differ (IsFree-at_start l) same in
          rw made ((none_above_iff o l).1 ((NoneAbove-Square o made).1 above))
