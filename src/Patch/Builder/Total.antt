-- ===== src/Patch/Builder/Total.antt =====
-- `build` never raises, whatever was set, removed or merged before it.
use jmaplib.Prelude.{
  Text, List, [], ◌∷◌, Option, none, some, ◌≡◌, refl, arith, Bool, true, false, Bool-cases, inl,
  inr, Result, ok, err, ◌>>=◌, >>=-eq-ok, ok-injective, subst, nat_eq, list_eq,
}
use jmaplib.Prelude.Dict.{Dict, has_key}
use jmaplib.Json.{Json}
use jmaplib.Patch.{DialectRules, PatchError, key_tokens, check_overlap}
use jmaplib.Patch.Overlap.{check_overlap_iff}
use jmaplib.Patch.Builder.{
  PatchBuilder, new_builder, add, merge, build, set_edit, file, check_addition,
}
use jmaplib.Patch.Builder.Index.{IsIndexed, file-IsIndexed}

pub new_builder-IsIndexed :
    (dialect : DialectRules) (props : List Text) → IsIndexed (new_builder dialect props)
unfolding new_builder jmaplib.Patch.Overlap.owner_of jmaplib.Prelude.Dict.lookup
new_builder-IsIndexed dialect props = record {
  owned = λ p. refl;
  below = λ p. (λ h. tt, λ h. refl);
  distinct = tt;
  disjoint = tt;
}

set_edit-IsIndexed :
    (path : Text) (value : Json) (b : PatchBuilder)
    → IsIndexed b
    → IsIndexed (set_edit path value b)
unfolding set_edit
set_edit-IsIndexed path value b v = record {
  owned = v.owned;
  below = v.below;
  distinct = v.distinct;
  disjoint = v.disjoint;
}

-- Each accepted edit keeps the maps an index of the keys.
pub add-IsIndexed :
    (path : Text) (value : Json) (b b' : PatchBuilder)
    → IsIndexed b
    → add path value b ≡ ok b'
    → IsIndexed b'
unfolding add
add-IsIndexed path value b b' v e =
    let (t, decoded, rest) = >>=-eq-ok (key_tokens path b.dialect b.map_properties) _ e in
    elim (Bool-cases (has_key path b.tokens)) [
      | inl held ↦
          subst IsIndexed (ok-injective (rw held at rest)) (set_edit-IsIndexed path value b v)
      | inr fresh ↦
          let (_, accepted, made) =
            >>=-eq-ok (check_addition path t b) (λ _. ok (set_edit path value (file path t b)))
              (rw fresh at rest) in
          subst IsIndexed (ok-injective made) (
            set_edit-IsIndexed path value (file path t b)
              (file-IsIndexed path t b v fresh accepted))
    ]

merge_after :
    Result PatchError PatchBuilder
    → List (Text × Json)
    → PatchBuilder
    → PatchBuilder × Option PatchError
merge_after r patch b = elim r [ ok b' ↦ merge patch b' | err e ↦ (b, some e) ]

merge_after-IsIndexed :
    (r : Result PatchError PatchBuilder) (patch : List (Text × Json)) (b : PatchBuilder)
    → IsIndexed b
    → ((b' : PatchBuilder) → r ≡ ok b' → IsIndexed (merge patch b').0)
    → IsIndexed (merge_after r patch b).0
unfolding merge_after
merge_after-IsIndexed (ok b') patch b v keep = keep b' refl
merge_after-IsIndexed (err e) patch b v keep = v

merge-IsIndexed :
    (patch : List (Text × Json)) (b : PatchBuilder) → IsIndexed b → IsIndexed (merge patch b).0
unfolding merge merge_after
merge-IsIndexed [] b v = v
merge-IsIndexed ((path, value) ∷ patch) b v =
    merge_after-IsIndexed (add path value b) patch b v
      (λ b' e. merge-IsIndexed patch b' (add-IsIndexed path value b b' v e))

-- The builder after a list of merges; each goes on from what the one before left, also after an
-- error. `set` and `remove` are merges of one edit.
abbrev pub merge_all : List (List (Text × Json)) → PatchBuilder → PatchBuilder
merge_all [] b = b
merge_all (patch ∷ patches) b = merge_all patches (merge patch b).0

pub merge_all-IsIndexed :
    (patches : List (List (Text × Json))) (b : PatchBuilder)
    → IsIndexed b
    → IsIndexed (merge_all patches b)
merge_all-IsIndexed [] b v = v
merge_all-IsIndexed (patch ∷ patches) b v =
    merge_all-IsIndexed patches (merge patch b).0 (merge-IsIndexed patch b v)

pub build_of_IsIndexed : (b : PatchBuilder) → IsIndexed b → build b ≡ ok b.edits
unfolding build
build_of_IsIndexed b v = rw ((check_overlap_iff b.tokens v.distinct).1 v.disjoint)

-- After any merges into a new builder, failed ones included, `build` returns the edits.
pub build-merge_all :
    (dialect : DialectRules) (props : List Text) (patches : List (List (Text × Json)))
    → build (merge_all patches (new_builder dialect props))
      ≡ ok (merge_all patches (new_builder dialect props)).edits
build-merge_all dialect props patches =
    build_of_IsIndexed _ (merge_all-IsIndexed patches _ (new_builder-IsIndexed dialect props))
