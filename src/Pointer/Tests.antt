-- ===== src/Pointer/Tests.antt =====
-- Runs of the pointer functions, and their theorems at concrete pointers.
use Prim.Native.String.{String}
use jmaplib.Prelude.{
  Text, codes, true, List, [], ◌∷◌, ok, err, ◌≡◌, refl, some, nat_eq, list_eq, list_beq,
}
use jmaplib.Json.{Json, str, arr, obj, nil, cons, end, field, of_items}
use jmaplib.Pointer.{
  resolve, resolve_tokens, split_pointer, build_pointer, unescape_token, wildcard, bad_index,
  resolve_or_default,
}
use jmaplib.Pointer.Split.{split_pointer-build_pointer}
use jmaplib.Pointer.Flatten.{resolve_tokens_flattens, targets, flattened}

pointers : Unit {0}
unfolding resolve build_pointer resolve_or_default targets
pointers = tt

abbrev text : String → Json
text s = str (codes s)

-- {"list": [{"ids": ["a", "b"]}, {"ids": ["c"]}]}
abbrev document : Json
document = obj (
    field (codes "list")
      (arr (
        cons (obj (field (codes "ids") (arr (cons (text "a") (cons (text "b") nil))) end))
          (cons (obj (field (codes "ids") (arr (cons (text "c") nil)) end)) nil)))
      end)

flattens :
    resolve document (codes "/list/*/ids")
    ≡ ok (arr (cons (text "a") (cons (text "b") (cons (text "c") nil))))
unfolding pointers
flattens = refl

indexes : resolve document (codes "/list/1/ids/0") ≡ ok (text "c")
unfolding pointers
indexes = refl

leading_zero :
    resolve document (codes "/list/01")
    ≡ err (record { pointer = codes "/list/01"; reason = bad_index (codes "01") })
unfolding pointers
leading_zero = refl

escapes : unescape_token (codes "~01") ≡ codes "~1"
unfolding pointers
escapes = refl

split_pointer-build_pointer_example :
    split_pointer (build_pointer (codes "a/b" ∷ codes "*" ∷ codes "" ∷ codes "~1" ∷ [])) true
    ≡ ok (codes "a/b" ∷ codes "*" ∷ codes "" ∷ codes "~1" ∷ [])
split_pointer-build_pointer_example =
    split_pointer-build_pointer (codes "a/b" ∷ codes "*" ∷ codes "" ∷ codes "~1" ∷ [])

abbrev tokens : List Text
tokens = codes "list" ∷ wildcard ∷ codes "ids" ∷ []

resolve_tokens_flattens_example :
    ((r : Json)
      → resolve_tokens [] tokens document ≡ ok r
      → (reached : List Json) × (targets [] tokens document ≡ some reached)
        × (r ≡ arr (of_items (flattened reached))))
    × ((reached : List Json)
        → targets [] tokens document ≡ some reached
        → resolve_tokens [] tokens document ≡ ok (arr (of_items (flattened reached))))
unfolding list_beq
resolve_tokens_flattens_example = resolve_tokens_flattens [] tokens document refl
