-- ===== src/StrictJson.antt =====
-- core/ijson.py: the checks of I-JSON on a decoded document.
pub mod Fast
mod Tests
use jmaplib.Prelude.{
  ℕ, zero, suc, ◌+◌, ◌-◌, ◌^◌, Text, codes, Bool, true, false, ◌&&◌, ◌||◌, List, [], ◌∷◌, ◌++◌,
  Option, none, some, if◌then◌else◌, ltb, leb, ◌==◌, nat_eq, list_eq, list_beq, decimal, all_chars,
  Result, ok, err, ◌>>=◌, ◌>>◌,
}
use jmaplib.Prelude.Dict.{Dict, has_key, insert}
use jmaplib.Json.{
  ℤ, pos, negsuc, Json, null, bool, int, float, str, arr, obj, Items, nil, cons, Fields, end, field,
}
use jmaplib.Ids.{is_surrogate}
use jmaplib.Patch.{contains}
use jmaplib.Pointer.{escape_token}

abbrev pub max_safe_int : ℕ
max_safe_int = 2 ^ 53 - 1

-- What the checks raise, with the pointer to the member at fault.
pub data IjsonError : Type 0 where
  integer_range : ℤ → Text → IjsonError
  unpaired_surrogate : (code index : ℕ) → Text → IjsonError

abbrev pub is_safe_int : ℤ → Bool
is_safe_int (pos n) = leb n max_safe_int
is_safe_int (negsuc n) = ltb n max_safe_int

-- `check_int`, of an `Int`.
unfoldable pub check_int : ℤ → Text → Result IjsonError (Unit {0})
check_int n path = if is_safe_int n then ok tt else err (integer_range n path)

abbrev pub is_ascii : Text → Bool
is_ascii s = all_chars (λ c. ltb c 128) s

-- `_SURROGATE_RE.search`: the index of the first surrogate, counted from `i`, and what it is.
unfoldable pub find_surrogate : ℕ → Text → Option (ℕ × ℕ)
find_surrogate i [] = none
find_surrogate i (c ∷ s) =
    let later = find_surrogate (suc i) s in if is_surrogate c then some (i, c) else later

abbrev pub refuse_surrogate : Text → Option (ℕ × ℕ) → Result IjsonError (Unit {0})
refuse_surrogate path none = ok tt
refuse_surrogate path (some (i, c)) = err (unpaired_surrogate c i path)

-- `check_string`
unfoldable pub check_string : Text → Text → Result IjsonError (Unit {0})
unfolding find_surrogate
check_string s path = if is_ascii s then ok tt else refuse_surrogate path (find_surrogate 0 s)

-- `_check_tree`
unfoldable mutual
  unfolding check_int check_string escape_token decimal

  pub check_tree : Json → Text → Result IjsonError (Unit {0})
  check_tree null path = ok tt
  check_tree (bool b) path = ok tt
  check_tree (float x) path = ok tt
  check_tree (int n) path = check_int n path
  check_tree (str s) path = check_string s path
  check_tree (arr xs) path = check_items xs path 0
  check_tree (obj fs) path = check_fields fs path

  -- The last argument is the index of the first item.
  pub check_items : Items → Text → ℕ → Result IjsonError (Unit {0})
  check_items nil path i = ok tt
  check_items (cons v vs) path i =
      check_tree v (path ++ b'/' ∷ decimal i) >> check_items vs path (i + 1)

  pub check_fields : Fields → Text → Result IjsonError (Unit {0})
  check_fields end path = ok tt
  check_fields (field k v fs) path =
      check_string k (path ++ b'/' ∷ escape_token k)
      >> (check_tree v (path ++ b'/' ∷ escape_token k) >> check_fields fs path)

abbrev pub is_missing : Option (ℕ × ℕ) → Bool
is_missing none = true
is_missing (some found) = false

-- `node.isascii() or search(node) is None`
abbrev pub is_clean_text : Text → Bool
is_clean_text s = is_ascii s || is_missing (find_surrogate 0 s)

-- The stack with the values of an object on top, the last one first; `none` for a key that is not
-- clean.
unfoldable pub push_fields : Fields → List Json → Option (List Json)
unfolding find_surrogate
push_fields end stack = some stack
push_fields (field k v fs) stack =
    let pushed = push_fields fs (v ∷ stack) in if is_clean_text k then pushed else none

unfoldable pub push_items : Items → List Json → List Json
push_items nil stack = stack
push_items (cons v vs) stack = push_items vs (v ∷ stack)

-- The loop of `_scan`, with fuel; `none` says that the fuel ran out.
unfoldable pub scan_loop : ℕ → List Json → Option Bool
unfolding push_fields push_items find_surrogate
scan_loop fuel [] = some true
scan_loop zero (node ∷ stack) = none
scan_loop (suc fuel) (null ∷ stack) = scan_loop fuel stack
scan_loop (suc fuel) (bool b ∷ stack) = scan_loop fuel stack
scan_loop (suc fuel) (float x ∷ stack) = scan_loop fuel stack
scan_loop (suc fuel) (int n ∷ stack) =
    let rest = scan_loop fuel stack in if is_safe_int n then rest else some false
scan_loop (suc fuel) (str s ∷ stack) =
    let rest = scan_loop fuel stack in if is_clean_text s then rest else some false
scan_loop (suc fuel) (arr xs ∷ stack) = scan_loop fuel (push_items xs stack)
scan_loop (suc fuel) (obj fs ∷ stack) = elim (push_fields fs stack) [
  | none ↦ some false
  | some more ↦ scan_loop fuel more
]

-- The number of values in a document.
abbrev mutual
  pub weight : Json → ℕ
  weight (arr xs) = suc (weight_items xs)
  weight (obj fs) = suc (weight_fields fs)
  weight _ = 1

  pub weight_items : Items → ℕ
  weight_items nil = 0
  weight_items (cons v vs) = weight v + weight_items vs

  pub weight_fields : Fields → ℕ
  weight_fields end = 0
  weight_fields (field k v fs) = weight v + weight_fields fs

-- `_scan`
unfoldable pub scan_tree : Json → Option Bool
unfolding scan_loop
scan_tree v = scan_loop (weight v) (v ∷ [])

-- What the scan leaves to be checked.
abbrev pub trusting : Json → Option Bool → Result IjsonError (Unit {0})
trusting v (some true) = ok tt
trusting v _ = check_tree v []

-- `_validate`
unfoldable pub validate : Json → Result IjsonError (Unit {0})
unfolding scan_tree check_tree
validate v = trusting v (scan_tree v)
