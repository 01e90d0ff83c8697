-- ===== src/Pointer.antt =====
-- core/pointer.py: JSON pointers with JMAP's `*`.
pub mod Escape
pub mod Split
pub mod Flatten
mod Tests
use jmaplib.Prelude.{
  ℕ, zero, suc, ◌+◌, ◌≤◌, Text, codes, Bool, true, false, not, ◌&&◌, ◌||◌, List, [], ◌∷◌, ◌++◌, map,
  Option, none, some, ltb, leb, if◌then◌else◌, ◌==◌, nat_eq, list_eq, list_beq, length, get_elem?,
  split, join, starts_with, remove_prefix, replace_char, replace_pair, int_of, all_chars, is_digit,
  Result, ok, err, ◌>>=◌,
}
use jmaplib.Prelude.Dict.{lookup}
use jmaplib.Json.{
  Json, null, arr, obj, items, of_items, fields, as_list_of, TypeName, type_name, is_list,
}

abbrev pub wildcard : Text
wildcard = codes "*"

pub data Reason : Type 0 where
  no_leading_slash dash_index : Reason
  bad_index : Text → Reason
  out_of_range : (index length : ℕ) → Reason
  not_an_array : TypeName → Reason
  no_property : Text → Reason
  cannot_traverse : Text → TypeName → Reason

pub record PointerError : Type 0 where
  pub pointer : Text
  pub reason : Reason

-- `~1` becomes `/` before `~0` becomes `~`.
unfoldable pub unescape_token : Text → Text
unfolding replace_pair
unescape_token token = replace_pair b'~' b'0' b'~' (replace_pair b'~' b'1' b'/' token)

unfoldable pub escape_token : Text → Text
unfolding replace_char
escape_token token = replace_char b'/' b'~' b'1' (replace_char b'~' b'~' b'0' token)

abbrev pub body_tokens : Text → List Text
body_tokens body = map unescape_token (split b'/' body)

-- `leading_slash_required` is the second argument.
unfoldable pub split_pointer : Text → Bool → Result PointerError (List Text)
unfolding unescape_token split starts_with remove_prefix
split_pointer [] required = ok []
split_pointer (c ∷ s) true =
    if starts_with (c ∷ s) (codes "/")
    then ok (body_tokens s)
    else err (record { pointer = c ∷ s; reason = no_leading_slash })
split_pointer (c ∷ s) false = ok (body_tokens (remove_prefix (c ∷ s) b'/'))

-- `token.isascii() and token.isdigit()`
abbrev pub is_ascii_digits : Text → Bool
is_ascii_digits [] = false
is_ascii_digits (c ∷ s) = all_chars is_digit (c ∷ s)

-- `len(token) > 1 and token[0] == "0"`
abbrev pub has_leading_zero : Text → Bool
has_leading_zero [] = false
has_leading_zero (c ∷ []) = false
has_leading_zero (c ∷ d ∷ s) = c == b'0'

unfoldable pub index_array : List Json → Text → Text → Result PointerError Json
unfolding int_of list_beq
index_array xs token pointer =
    if token == codes "-"
    then err (record { pointer = pointer; reason = dash_index })
    else if not (is_ascii_digits token) || (has_leading_zero token || ltb 15 (length token))
    then err (record { pointer = pointer; reason = bad_index token })
    else elim (get_elem? xs (int_of token)) [
      | some x ↦ ok x
      | none ↦ err (record { pointer = pointer; reason = out_of_range (int_of token) (length xs) })
    ]

-- One token that is not `*`.
unfoldable pub step_token : Text → Text → Json → Result PointerError Json
unfolding index_array lookup
step_token pointer token (obj fs) = elim (lookup token (fields fs)) [
  | some v ↦ ok v
  | none ↦ err (record { pointer = pointer; reason = no_property token })
]
step_token pointer token (arr xs) = index_array (items xs) token pointer
step_token pointer token v =
    err (record { pointer = pointer; reason = cannot_traverse token (type_name v) })

-- The loop over the elements: an array is concatenated one level, another value is appended.
unfoldable pub collect :
    (Json → Result PointerError Json) → List Json → Result PointerError (List Json)
collect go [] = ok []
collect go (x ∷ xs) = do r ← go x; rs ← collect go xs; ok (as_list_of r ++ rs)

-- The token `*`, with the tokens that follow it and what they do to one element.
unfoldable pub spread :
    Text → List Text → (Json → Result PointerError Json) → Json → Result PointerError Json
unfolding collect
spread pointer [] go (arr xs) = ok (arr xs)
spread pointer (t ∷ rest) go (arr xs) = do rs ← collect go (items xs); ok (arr (of_items rs))
spread pointer rest go v = err (record { pointer = pointer; reason = not_an_array (type_name v) })

unfoldable pub resolve_tokens : Text → List Text → Json → Result PointerError Json
unfolding step_token spread
resolve_tokens pointer [] value = ok value
resolve_tokens pointer (token ∷ rest) value =
    if token == wildcard
    then spread pointer rest (resolve_tokens pointer rest) value
    else (step_token pointer token value >>= resolve_tokens pointer rest)

unfoldable pub resolve : Json → Text → Result PointerError Json
unfolding split_pointer resolve_tokens
resolve document pointer = do
  tokens ← split_pointer pointer true
  resolve_tokens pointer tokens document

unfoldable pub resolve_or_default : Json → Text → Json → Json
unfolding resolve
resolve_or_default document pointer default = elim (resolve document pointer) [
  | ok v ↦ v
  | err _ ↦ default
]

unfoldable pub build_pointer : List Text → Text
unfolding escape_token list_beq
build_pointer [] = []
build_pointer (t ∷ ts) = b'/' ∷ ((if t == wildcard then t else escape_token t) ++ build_pointer ts)
