-- ===== src/Patch/Builder.antt =====
-- core/patch.py, class PatchBuilder.
pub mod Index
pub mod Total
use jmaplib.Prelude.{
  Text, Bool, true, false, List, [], ◌∷◌, Option, none, some, if◌then◌else◌, ◌==◌, nat_eq, list_eq,
  list_beq, Result, ok, err, ◌>>=◌, ◌>>◌,
}
use jmaplib.Prelude.Dict.{Dict, lookup, insert, set_default, has_key}
use jmaplib.Json.{Json, null}
use jmaplib.Patch.{
  DialectRules, PatchError, invalid_patch, same_property, prefix_of_other, Tokens, Owners,
  key_tokens, proper_prefixes, no_owner_above, check_overlap,
}

pub record PatchBuilder : Type 0 where
  pub dialect : DialectRules
  pub map_properties : List Text
  pub edits : Dict Text Json
  pub tokens : Dict Text Tokens
  pub owners : Owners
  pub ancestors : Owners

unfoldable pub new_builder : DialectRules → List Text → PatchBuilder
new_builder dialect props = record {
  dialect = dialect;
  map_properties = props;
  edits = [];
  tokens = [];
  owners = [];
  ancestors = [];
}

-- `_check_addition`
unfoldable pub check_addition : Text → Tokens → PatchBuilder → Result PatchError (Unit {0})
unfolding lookup no_owner_above
check_addition path tokens b = elim (lookup tokens b.owners) [
  | some owner ↦ err (invalid_patch (owner ∷ path ∷ []) same_property)
  | none ↦ elim (lookup tokens b.ancestors) [
    | some descendant ↦ err (invalid_patch (path ∷ descendant ∷ []) prefix_of_other)
    | none ↦ no_owner_above b.owners path (proper_prefixes tokens)
  ]
]

-- `self._ancestors.setdefault(tokens[:length], path)` for each proper prefix
unfoldable pub add_ancestors : Text → List Tokens → Owners → Owners
unfolding set_default list_beq
add_ancestors path [] ancestors = ancestors
add_ancestors path (p ∷ ps) ancestors = add_ancestors path ps (set_default p path ancestors)

-- The part of `_add` that runs for a key that is not held yet.
unfoldable pub file : Text → Tokens → PatchBuilder → PatchBuilder
unfolding insert add_ancestors
file path tokens b = record b {
  tokens = insert path tokens b.tokens;
  owners = insert tokens path b.owners;
  ancestors = add_ancestors path (proper_prefixes tokens) b.ancestors;
}

unfoldable pub set_edit : Text → Json → PatchBuilder → PatchBuilder
unfolding insert
set_edit path value b = record b { edits = insert path value b.edits }

-- `_add`: an error is raised before anything is changed.
unfoldable pub add : Text → Json → PatchBuilder → Result PatchError PatchBuilder
unfolding key_tokens check_addition file set_edit has_key
add path value b = do
  tokens ← key_tokens path b.dialect b.map_properties
  if has_key path b.tokens
      then ok (set_edit path value b)
      else do check_addition path tokens b; ok (set_edit path value (file path tokens b))

unfoldable pub set : Text → Json → PatchBuilder → Result PatchError PatchBuilder
unfolding add
set path value b = add path value b

unfoldable pub remove : Text → PatchBuilder → Result PatchError PatchBuilder
unfolding add
remove path b = add path null b

-- `merge`: the builder that it leaves, and the error if one was raised. What was folded in before
-- an error stays.
unfoldable pub merge : List (Text × Json) → PatchBuilder → PatchBuilder × Option PatchError
unfolding add
merge [] b = (b, none)
merge ((path, value) ∷ patch) b = elim (add path value b) [
  | ok b' ↦ merge patch b'
  | err e ↦ (b, some e)
]

unfoldable pub build : PatchBuilder → Result PatchError (Dict Text Json)
unfolding check_overlap
build b = check_overlap b.tokens >> ok b.edits
