-- ===== src/Patch.antt =====
-- core/patch.py: the rules for one patch key, and the sweep that looks for overlaps.
pub mod Prefixes
pub mod Overlap
pub mod Builder
mod Tests
use jmaplib.Prelude.{
  ℕ, Text, codes, Bool, true, false, not, ◌&&◌, ◌||◌, List, [], ◌∷◌, ◌++◌, map, Option, none, some,
  leb, if◌then◌else◌, ◌==◌, nat_eq, list_eq, list_beq, starts_with, all_chars, is_digit, join,
  Result, ok, err, ◌>>=◌, ◌>>◌,
}
use jmaplib.Prelude.Dict.{Dict, lookup, set_default, insert}
use jmaplib.Pointer.{PointerError, split_pointer, escape_token}

pub record DialectRules : Type 0 where
  pub name : Text
  pub allow_array_index : Bool
  pub allow_whole_object : Bool

abbrev pub jmap : DialectRules
jmap = record { name = codes "JMAP"; allow_array_index = false; allow_whole_object = false }

abbrev pub jscalendar_10 : DialectRules
jscalendar_10 = record {
  name = codes "JSCalendar 1.0";
  allow_array_index = false;
  allow_whole_object = false;
}

abbrev pub jscalendar_20 : DialectRules
jscalendar_20 = record {
  name = codes "JSCalendar 2.0";
  allow_array_index = true;
  allow_whole_object = false;
}

pub data PatchReason : Type 0 where
  leading_slash same_property prefix_of_other added_and_removed : PatchReason
  no_whole_object : Text → PatchReason
  inside_array : (token dialect : Text) → PatchReason

-- `invalid_patch` is `InvalidPatchError` with its `keys`.
pub data PatchError : Type 0 where
  invalid_patch : List Text → PatchReason → PatchError
  bad_pointer : PointerError → PatchError

abbrev pub Tokens : Type 0
Tokens = List Text

-- `_ARRAY_TOKEN_RE`: `0`, `[1-9][0-9]*` or `-`.
unfoldable pub is_array_token : Text → Bool
is_array_token [] = false
is_array_token (c ∷ []) = is_digit c || c == b'-'
is_array_token (c ∷ d ∷ s) = (leb b'1' c && leb c b'9') && all_chars is_digit (d ∷ s)

unfoldable pub contains : List Text → Text → Bool
unfolding list_beq
contains [] t = false
contains (x ∷ xs) t = x == t || contains xs t

-- `position and tokens[position - 1] in map_properties`
abbrev pub after_map : List Text → Option Text → Bool
after_map props none = false
after_map props (some t) = contains props t

-- The loop over the tokens; the second argument is the token before.
unfoldable pub scan_tokens :
    Text → DialectRules → List Text → Option Text → Tokens → Result PatchError (Unit {0})
unfolding is_array_token contains
scan_tokens key dialect props before [] = ok tt
scan_tokens key dialect props before (t ∷ ts) =
    let rest = scan_tokens key dialect props (some t) ts in
    if not (is_array_token t)
    then rest
    else if after_map props before
    then rest
    else err (invalid_patch (key ∷ []) (inside_array t dialect.name))

abbrev pub lift_pointer {ℓ} : {A : Type ℓ} → Result PointerError A → Result PatchError A
lift_pointer (ok a) = ok a
lift_pointer (err e) = err (bad_pointer e)

abbrev pub is_empty : Text → Bool
is_empty [] = true
is_empty (_ ∷ _) = false

-- `_key_tokens`
unfoldable pub key_tokens : Text → DialectRules → List Text → Result PatchError Tokens
unfolding scan_tokens starts_with split_pointer
key_tokens key dialect props =
    if starts_with key (codes "/")
    then err (invalid_patch (key ∷ []) leading_slash)
    else if is_empty key && not dialect.allow_whole_object
    then err (invalid_patch (key ∷ []) (no_whole_object dialect.name))
    else do
      tokens ← lift_pointer (split_pointer key false)
      (if not dialect.allow_array_index then scan_tokens key dialect props none tokens else ok tt)
      ok tokens

abbrev pub Owners : Type 0
Owners = Dict Tokens Text

abbrev pub owner_or : Text → Option Text → Text
owner_or key none = key
owner_or key (some k) = k

-- The first loop of `_check_overlap`.
unfoldable pub own_all : Owners → List (Text × Tokens) → Result PatchError Owners
unfolding lookup set_default list_beq
own_all owners [] = ok owners
own_all owners ((key, tokens) ∷ l) =
    let owner = owner_or key (lookup tokens owners) in
    if owner == key
    then own_all (set_default tokens key owners) l
    else err (invalid_patch (owner ∷ key ∷ []) same_property)

-- `tokens[:length] for length in range(len(tokens))`
abbrev pub proper_prefixes : Tokens → List Tokens
proper_prefixes [] = []
proper_prefixes (t ∷ ts) = [] ∷ map (◌∷◌ t) (proper_prefixes ts)

unfoldable pub no_owner_above : Owners → Text → List Tokens → Result PatchError (Unit {0})
unfolding lookup list_beq
no_owner_above owners key [] = ok tt
no_owner_above owners key (p ∷ ps) = elim (lookup p owners) [
  | some shorter ↦ err (invalid_patch (shorter ∷ key ∷ []) prefix_of_other)
  | none ↦ no_owner_above owners key ps
]

-- The second loop of `_check_overlap`.
unfoldable pub none_above : Owners → List (Text × Tokens) → Result PatchError (Unit {0})
unfolding no_owner_above
none_above owners [] = ok tt
none_above owners ((key, tokens) ∷ l) =
    no_owner_above owners key (proper_prefixes tokens) >> none_above owners l

-- `_check_overlap`
unfoldable pub check_overlap : List (Text × Tokens) → Result PatchError (Unit {0})
unfolding own_all none_above
check_overlap entries = do owners ← own_all [] entries; none_above owners entries

-- `{key: _key_tokens(key, …) for key in patch}`; the keys of a mapping are distinct.
unfoldable pub tokens_by_key :
    {V : Type 0} → DialectRules → List Text → Dict Text V → Result PatchError (List (Text × Tokens))
unfolding key_tokens
tokens_by_key dialect props [] = ok []
tokens_by_key dialect props ((key, _) ∷ patch) = do
  tokens ← key_tokens key dialect props
  rest ← tokens_by_key dialect props patch
  ok ((key, tokens) ∷ rest)

unfoldable pub validate_patch :
    {V : Type 0} → Dict Text V → DialectRules → List Text → Result PatchError (Unit {0})
unfolding tokens_by_key check_overlap
validate_patch patch dialect props = do
  entries ← tokens_by_key dialect props patch
  check_overlap entries

unfoldable pub patch_key : List Text → Text
unfolding join escape_token
patch_key tokens = join (codes "/") (map escape_token tokens)
