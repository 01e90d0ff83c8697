-- ===== src/Ids.antt =====
-- core/ids.py: record ids and creation references.
pub mod Laws
mod Tests
use jmaplib.Prelude.{
  ℕ, ◌+◌, Text, codes, Bool, true, false, ◌&&◌, ◌||◌, List, [], ◌∷◌, ltb, leb, if◌then◌else◌, ◌==◌,
  nat_eq, length, starts_with, all_chars, is_digit, Result, ok, err, ◌>>=◌,
}

abbrev pub max_id_octets : ℕ
max_id_octets = 255

abbrev pub creation_prefix : Text
creation_prefix = codes "#"

pub data IdReason : Type 0 where
  empty reserved too_long bad_charset : IdReason

-- `surrogates` is the `UnicodeEncodeError` of `str.encode`, which `parse_id` does not catch.
pub data IdError : Type 0 where
  invalid_id : Text → IdReason → IdError
  surrogates : Text → IdError

-- [A-Za-z0-9_-]
unfoldable pub is_id_char : ℕ → Bool
is_id_char c =
    (leb b'A' c && leb c b'Z')
    || ((leb b'a' c && leb c b'z') || (is_digit c || (c == b'_' || c == b'-')))

unfoldable pub is_valid_id : Text → Bool
unfolding is_id_char
is_valid_id value =
    leb 1 (length value) && (leb (length value) max_id_octets && all_chars is_id_char value)

-- The octets of one code point in UTF-8.
abbrev pub utf8_width : ℕ → ℕ
utf8_width c = if ltb c 0x80 then 1 else if ltb c 0x800 then 2 else if ltb c 0x10000 then 3 else 4

abbrev pub utf8_length : Text → ℕ
utf8_length [] = 0
utf8_length (c ∷ s) = utf8_width c + utf8_length s

abbrev pub is_surrogate : ℕ → Bool
is_surrogate c = leb 0xD800 c && ltb c 0xE000

abbrev pub any_char : (ℕ → Bool) → Text → Bool
any_char p [] = false
any_char p (c ∷ s) = p c || any_char p s

unfoldable pub parse_id : Text → Result IdError Text
unfolding is_valid_id starts_with
parse_id [] = err (invalid_id [] empty)
parse_id (c ∷ s) =
    let value = c ∷ s in
    if starts_with value creation_prefix
    then err (invalid_id value reserved)
    else if any_char is_surrogate value
    then err (surrogates value)
    else if ltb max_id_octets (utf8_length value)
    then err (invalid_id value too_long)
    else if is_valid_id value
    then ok value
    else err (invalid_id value bad_charset)

pub record CreationRef : Type 0 where
  pub creation_id : Text

unfoldable pub creation_ref : Text → Result IdError CreationRef
unfolding parse_id
creation_ref creation_id = do id ← parse_id creation_id; ok (record { creation_id = id })

-- `CreationRef.__str__`
unfoldable pub show_ref : CreationRef → Text
show_ref r = b'#' ∷ r.creation_id
