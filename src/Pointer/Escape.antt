-- ===== src/Pointer/Escape.antt =====
-- Escaping is inverse to unescaping, and building a pointer to splitting it.
use jmaplib.Prelude.{
  Text, false, [], ◌∷◌, ◌++◌, ◌≡◌, refl, ◌≢◌, arith, split, replace_char, replace_pair_from,
  replace_pair, All,
}
use jmaplib.Pointer.{unescape_token, escape_token}

decode_slashes :
    (s : Text)
    → replace_pair_from b'~' b'1' b'/' false
        (replace_char b'/' b'~' b'1' (replace_char b'~' b'~' b'0' s))
      ≡ replace_char b'~' b'~' b'0' s
unfolding replace_char replace_pair_from
decode_slashes [] = refl
decode_slashes (x ∷ s) = ground (arith, decode_slashes s)

decode_tildes :
    (s : Text) → replace_pair_from b'~' b'0' b'~' false (replace_char b'~' b'~' b'0' s) ≡ s
unfolding replace_char replace_pair_from
decode_tildes [] = refl
decode_tildes (x ∷ s) = ground (arith, decode_tildes s)

-- Unescaping undoes escaping, whatever the token.
pub unescape_token-escape_token : (token : Text) → unescape_token (escape_token token) ≡ token
unfolding unescape_token escape_token replace_pair
unescape_token-escape_token token = rw decode_slashes (decode_tildes token)

abbrev pub NoSlash : Text → Type 0
NoSlash s = All (λ c. c ≢ b'/') s

replace_slash-NoSlash : (s : Text) → NoSlash (replace_char b'/' b'~' b'1' s)
unfolding replace_char
replace_slash-NoSlash [] = tt
replace_slash-NoSlash (x ∷ s) = ground (arith, replace_slash-NoSlash s)

pub escape_token-NoSlash : (token : Text) → NoSlash (escape_token token)
unfolding escape_token
escape_token-NoSlash token = replace_slash-NoSlash (replace_char b'~' b'~' b'0' token)

-- A piece with no separator in it is split off whole.
pub split-append_sep : (s t : Text) → NoSlash s → split b'/' (s ++ b'/' ∷ t) ≡ s ∷ split b'/' t
unfolding split
split-append_sep [] t h = refl
split-append_sep (c ∷ s) t h = ground (arith, split-append_sep s t h.1)

pub split_single : (s : Text) → NoSlash s → split b'/' s ≡ s ∷ []
unfolding split
split_single [] h = refl
split_single (c ∷ s) h = ground (arith, split_single s h.1)
