-- ===== src/Ids/Laws.antt =====
-- Which texts are ids.
use jmaplib.Prelude.{Text, true, false, [], ◌∷◌, ◌≡◌, refl, ◌↔◌, arith, length, all_chars, ok}
use jmaplib.Ids.{
  is_id_char, is_valid_id, parse_id, utf8_length, utf8_width, any_char, is_surrogate,
  creation_prefix, creation_ref, show_ref, max_id_octets,
}

utf8_length-id : (s : Text) → all_chars is_id_char s ≡ true → utf8_length s ≡ length s
unfolding is_id_char
utf8_length-id [] h = refl
utf8_length-id (c ∷ s) h = ground (arith, utf8_length-id s)

no_surrogates : (s : Text) → all_chars is_id_char s ≡ true → any_char is_surrogate s ≡ false
unfolding is_id_char
no_surrogates [] h = refl
no_surrogates (c ∷ s) h = ground (arith, no_surrogates s)

parse_id-of_valid : (s : Text) → is_valid_id s ≡ true → parse_id s ≡ ok s
unfolding parse_id
parse_id-of_valid [] h = cc
parse_id-of_valid (c ∷ s) h = ground (arith, utf8_length-id (c ∷ s), no_surrogates (c ∷ s))

valid_of_parse_id : (s r : Text) → parse_id s ≡ ok r → (is_valid_id s ≡ true) × (r ≡ s)
unfolding parse_id
valid_of_parse_id [] r h = cc
valid_of_parse_id (c ∷ s) r h = ground arith

-- `parse_id` accepts exactly the texts that `is_valid_id` accepts, and returns them unchanged.
pub parse_id_iff : (s r : Text) → (parse_id s ≡ ok r) ↔ ((is_valid_id s ≡ true) × (r ≡ s))
parse_id_iff s r = (valid_of_parse_id s r, λ h. ground (arith, parse_id-of_valid s h.0))

-- The text of a creation reference is never itself an id.
pub show_ref-not_id :
    (s : Text) {r : jmaplib.Ids.CreationRef}
    → creation_ref s ≡ ok r
    → is_valid_id (show_ref r) ≡ false
unfolding show_ref is_valid_id
show_ref-not_id s h = ground arith
