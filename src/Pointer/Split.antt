-- ===== src/Pointer/Split.antt =====
-- Splitting a pointer gives back the tokens that it was built from.
use jmaplib.Prelude.{
  Text, true, List, [], ◌∷◌, ◌++◌, map, ◌≡◌, refl, ap, split, ok, ==_iff, ◌==◌, Bool-cases, inl,
  inr, nat_eq, list_eq, append-nil,
}
use jmaplib.Pointer.{wildcard, escape_token, unescape_token, split_pointer, build_pointer}
use jmaplib.Pointer.Escape.{
  unescape_token-escape_token, escape_token-NoSlash, split-append_sep, split_single,
}

build_pointer-cons :
    (t : Text) (ts : List Text)
    → build_pointer (t ∷ ts) ≡ b'/' ∷ (escape_token t ++ build_pointer ts)
unfolding build_pointer
build_pointer-cons t ts = elim (Bool-cases (t == wildcard)) [
  | inl same ↦ rw ((==_iff t wildcard).0 same)
  | inr other ↦ rw other
]

abbrev build_body : Text → List Text → Text
build_body t ts = escape_token t ++ build_pointer ts

split-build_body :
    (t : Text) (ts : List Text) → map unescape_token (split b'/' (build_body t ts)) ≡ t ∷ ts
split-build_body t [] =
    unfold build_pointer in
    rw (
      append-nil,
      split_single (escape_token t) (escape_token-NoSlash t),
      unescape_token-escape_token,
    )
split-build_body t (u ∷ us) =
    rw
      (
        build_pointer-cons u us,
        split-append_sep (escape_token t) (build_body u us) (escape_token-NoSlash t),
      )
      (rw unescape_token-escape_token (ap (◌∷◌ t) (split-build_body u us)))

-- Splitting a built pointer gives its tokens back, whatever they hold: slashes, tildes, wildcards
-- and empty tokens included.
pub split_pointer-build_pointer :
    (tokens : List Text) → split_pointer (build_pointer tokens) true ≡ ok tokens
split_pointer-build_pointer [] = unfold split_pointer build_pointer in refl
split_pointer-build_pointer (t ∷ ts) =
    rw build_pointer-cons (unfold split_pointer in ap ok (split-build_body t ts))
