-- ===== src/Patch/Tests.antt =====
-- Runs of the patch rules and of the builder, and their theorems at concrete patches.
use jmaplib.Prelude.{
  Text, codes, true, List, [], ◌∷◌, ◌++◌, ok, err, ◌≡◌, refl, ◌↔◌, arith, nat_eq, list_eq,
}
use jmaplib.Prelude.Dict.{insert}
use jmaplib.Json.{Json, bool, null}
use jmaplib.Patch.{jmap, validate_patch, check_overlap, invalid_patch, prefix_of_other}
use jmaplib.Patch.Overlap.{Entry, IsDisjoint, check_overlap_iff}
use jmaplib.Patch.Builder.{PatchBuilder, new_builder, build, merge, check_addition}
use jmaplib.Patch.Builder.Index.{check_addition-eq-sweep}
use jmaplib.Patch.Builder.Total.{
  merge_all, build-merge_all, new_builder-IsIndexed, merge_all-IsIndexed,
}

patches : Unit {0}
unfolding validate_patch merge build new_builder
patches = tt

abbrev moved : List (Text × Json)
moved = (codes "mailboxIds/new", bool true) ∷ (codes "mailboxIds/old", null) ∷ []

abbrev clash : List (Text × Json)
clash =
    (codes "keywords/$seen", bool true) ∷ (codes "mailboxIds", null) ∷ (codes "subject", null) ∷ []

validates : validate_patch moved jmap [] ≡ ok tt
unfolding patches
validates = refl

overlaps :
    validate_patch (moved ++ clash) jmap []
    ≡ err (invalid_patch (codes "mailboxIds" ∷ codes "mailboxIds/new" ∷ []) prefix_of_other)
unfolding patches
overlaps = refl

-- The first edit of a failed merge stays.
merge_stops :
    (merge_all (moved ∷ clash ∷ []) (new_builder jmap [])).edits
    ≡ moved ++ (codes "keywords/$seen", bool true) ∷ []
unfolding patches
merge_stops = refl

build-merge_all_example :
    build (merge_all (moved ∷ clash ∷ []) (new_builder jmap []))
    ≡ ok (merge_all (moved ∷ clash ∷ []) (new_builder jmap [])).edits
build-merge_all_example = build-merge_all jmap [] (moved ∷ clash ∷ [])

abbrev entries : List Entry
entries =
    (codes "a/b", codes "a" ∷ codes "b" ∷ []) ∷ (codes "a/bc", codes "a" ∷ codes "bc" ∷ []) ∷ []

check_overlap_iff_example : (check_overlap entries ≡ ok tt) ↔ IsDisjoint entries
check_overlap_iff_example = check_overlap_iff entries (ground arith)

abbrev held : PatchBuilder
held = merge_all (moved ∷ []) (new_builder jmap [])

check_addition-eq-sweep_example :
    (check_addition (codes "mailboxIds") (codes "mailboxIds" ∷ []) held ≡ ok tt)
    ↔ (check_overlap (insert (codes "mailboxIds") (codes "mailboxIds" ∷ []) held.tokens) ≡ ok tt)
unfolding patches
check_addition-eq-sweep_example =
    check_addition-eq-sweep (codes "mailboxIds") (codes "mailboxIds" ∷ []) held
      (merge_all-IsIndexed (moved ∷ []) (new_builder jmap []) (new_builder-IsIndexed jmap [])) refl
