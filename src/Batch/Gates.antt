-- ===== src/Batch/Gates.antt =====
-- batch.py: the local gates of `Batch.add`.
use jmaplib.Prelude.{
  Text, codes, Bool, true, false, not, ◌&&◌, ◌||◌, List, [], ◌∷◌, Option, none, some, if◌then◌else◌,
  ◌==◌, nat_eq, list_eq, list_beq, Result, ok, err, ◌>>=◌, ◌>>◌,
}
use jmaplib.Prelude.Dict.{Dict, lookup, insert, has_key}
use jmaplib.Json.{Json, arr, str, items}
use jmaplib.Invocation.{Value, str, null, Members, end}
use jmaplib.Session.{Account, Session, core_urn}
use jmaplib.Session.Lookup.{capability_value, primary_account_for}
use jmaplib.Capabilities.{
  ActiveCapabilities, CapabilitySpec, MethodSpec, unsupported_method, type_of, sorted,
}
use jmaplib.Capabilities.Active.{method, owner_of, data_type}
use jmaplib.Batch.{
  Batch, BatchError, Objects, registry_error, no_account, read_only_account, never_returned,
  collation_refused, sort_refused, type_error, array, array_or_empty, object, entries, is_text,
}

abbrev pub Arguments : Type 0
Arguments = Dict Text Value

-- `_require_method`
unfoldable pub require_method : ActiveCapabilities → Text → Result BatchError MethodSpec
unfolding method
require_method active name = elim (method name active) [
  | none ↦ err (registry_error (unsupported_method name))
  | some spec ↦ ok spec
]

abbrev pub urn_of : Option CapabilitySpec → Text
urn_of none = []
urn_of (some owner) = owner.urn

abbrev pub primary_or_refuse : Text → Text → Option Text → Result BatchError Text
primary_or_refuse name urn none = err (no_account name urn)
primary_or_refuse name urn (some primary) = ok primary

-- `_resolve_account`
unfoldable pub resolve_account :
    {R : Type 0} → Batch R → Text → Option Text → Result BatchError Text
unfolding owner_of lookup
resolve_account batch name (some explicit) = ok explicit
resolve_account batch name none = elim batch.default_account [
  | some account ↦ ok account
  | none ↦
      let urn = urn_of (owner_of name batch.capabilities) in
      primary_or_refuse name urn (primary_account_for urn batch.capabilities.session)
]

abbrev pub given_account : Option Text → Arguments → Arguments
given_account none args = args
given_account (some id) args = insert (codes "accountId") (str id) args

-- The arguments with their account.
unfoldable pub with_account :
    {R : Type 0}
    → Batch R
    → Text
    → MethodSpec
    → Arguments
    → Option Text
    → Result BatchError Arguments
unfolding resolve_account has_key insert list_beq
with_account batch name spec args account_id =
    if spec.account_scoped && not (has_key (codes "accountId") args)
    then (resolve_account batch name account_id >>= λ id.
        ok (insert (codes "accountId") (str id) args))
    else ok (given_account account_id args)

module _ (py : Objects) where
  -- `accounts.get(value)`, whether the account found is read-only.
  abbrev pub marks_read_only : Value → Dict Text Account → Bool
  marks_read_only v [] = false
  marks_read_only v ((id, account) ∷ accounts) =
      if py.same v (str id) then account.is_read_only else marks_read_only v accounts

  abbrev pub refuse_read_only : Session → Text → Option Value → Result BatchError (Unit {0})
  refuse_read_only session name none = ok tt
  refuse_read_only session name (some null) = ok tt
  refuse_read_only session name (some v) =
      if not (py.hashable v)
      then err type_error
      else if marks_read_only v session.accounts
      then err (read_only_account name v)
      else ok tt

  -- `_check_read_only`
  unfoldable pub check_read_only :
      ActiveCapabilities → Text → MethodSpec → Arguments → Result BatchError (Unit {0})
  unfolding lookup list_beq
  check_read_only active name spec args =
      if not spec.mutating
      then ok tt
      else refuse_read_only active.session name (lookup (codes "accountId") args)

  abbrev pub all_hashable : List Value → Bool
  all_hashable [] = true
  all_hashable (v ∷ vs) = py.hashable v && all_hashable vs

  abbrev pub asks_for : List Value → Text → Bool
  asks_for [] name = false
  asks_for (v ∷ vs) name = py.same v (str name) || asks_for vs name

  -- `never_request_properties.intersection(requested)`
  unfoldable pub forbidden : List Text → List Value → List Text
  forbidden [] requested = []
  forbidden (name ∷ names) requested =
      let rest = forbidden names requested in if asks_for requested name then name ∷ rest else rest

  abbrev pub refuse_properties : Text → List Text → Result BatchError (Unit {0})
  refuse_properties type_name [] = ok tt
  refuse_properties type_name (p ∷ ps) = err (never_returned type_name (p ∷ ps))

  -- `_check_properties`
  unfoldable pub check_properties :
      ActiveCapabilities → MethodSpec → Arguments → Result BatchError (Unit {0})
  unfolding lookup list_beq data_type type_of forbidden sorted
  check_properties active spec args = elim (array (lookup (codes "properties") args)) [
    | none ↦ ok tt
    | some requested ↦ elim (data_type (type_of spec) active) [
      | none ↦ ok tt
      | some found ↦
          if all_hashable requested
          then refuse_properties (type_of spec)
              (sorted (forbidden found.never_request_properties requested))
          else err type_error
    ]
  ]

-- The comparators that are objects with some member.
abbrev pub comparators : List Value → List Members
comparators [] = []
comparators (v ∷ vs) = elim (object (some v)) [
  | none ↦ comparators vs
  | some end ↦ comparators vs
  | some ms ↦ ms ∷ comparators vs
]

-- `_array(core.get(key))`, of decoded values.
abbrev pub advertised_array : Option Json → Option (List Json)
advertised_array (some (arr xs)) = some (items xs)
advertised_array other = none

abbrev pub offers : List Json → Text → Bool
offers [] s = false
offers (str t ∷ vs) s = t == s || offers vs s
offers (v ∷ vs) s = offers vs s

abbrev pub text_of : Text → Members → Option Text
text_of key ms = is_text (lookup key (entries ms))

unfoldable pub refuse_collations : List Json → List Members → Result BatchError (Unit {0})
unfolding lookup list_beq
refuse_collations advertised [] = ok tt
refuse_collations advertised (c ∷ cs) =
    let rest = refuse_collations advertised cs in
    elim (text_of (codes "collation") c) [
      | none ↦ rest
      | some collation ↦
          if offers advertised collation then rest else err (collation_refused advertised collation)
    ]

-- `_check_collations`
unfoldable pub check_collations : ActiveCapabilities → List Members → Result BatchError (Unit {0})
unfolding refuse_collations capability_value lookup
check_collations active cs =
    elim (advertised_array
      (lookup (codes "collationAlgorithms") (capability_value active.session core_urn none))) [
        | none ↦ ok tt
        | some advertised ↦ refuse_collations advertised cs
      ]

unfoldable pub unsupported_sorts : List Json → List Members → List Text
unfolding lookup list_beq
unsupported_sorts advertised [] = []
unsupported_sorts advertised (c ∷ cs) =
    let rest = unsupported_sorts advertised cs in
    elim (text_of (codes "property") c) [
      | none ↦ rest
      | some wanted ↦ if offers advertised wanted then rest else wanted ∷ rest
    ]

abbrev pub refuse_sorts : Text → Text → List Json → List Text → Result BatchError (Unit {0})
refuse_sorts urn field advertised [] = ok tt
refuse_sorts urn field advertised (p ∷ ps) = err (sort_refused urn field advertised (p ∷ ps))

-- The list that the server gives for the field, for the account that the call names.
abbrev pub advertised_sorts : ActiveCapabilities → Text → Text → Arguments → Option (List Json)
advertised_sorts active urn field args =
    advertised_array (
      lookup field
        (capability_value active.session urn (is_text (lookup (codes "accountId") args))))

-- `_check_sort_options`
unfoldable pub check_sort_options :
    ActiveCapabilities → Text → MethodSpec → Arguments → List Members → Result BatchError (Unit {0})
unfolding data_type type_of owner_of unsupported_sorts capability_value lookup
check_sort_options active name spec args cs = elim (data_type (type_of spec) active) [
  | none ↦ ok tt
  | some found ↦ elim found.sort_options_field [
    | none ↦ ok tt
    | some field ↦ elim (owner_of name active) [
      | none ↦ ok tt
      | some owner ↦ elim (advertised_sorts active owner.urn field args) [
        | none ↦ ok tt
        | some advertised ↦
            refuse_sorts owner.urn field advertised (unsupported_sorts advertised cs)
      ]
    ]
  ]
]

-- `_check_sort`
unfoldable pub check_sort :
    ActiveCapabilities → Text → MethodSpec → Arguments → Result BatchError (Unit {0})
unfolding check_collations check_sort_options lookup list_beq
check_sort active name spec args =
    sort_with (comparators (array_or_empty (lookup (codes "sort") args)))
  where
    sort_with : List Members → Result BatchError (Unit {0})
    sort_with [] = ok tt
    sort_with (c ∷ cs) =
        check_collations active (c ∷ cs) >> check_sort_options active name spec args (c ∷ cs)

-- Every check of `add`, in its order: the method and the arguments with their account.
unfoldable pub gate :
    {R : Type 0}
    → Objects
    → Batch R
    → Text
    → Arguments
    → Option Text
    → Result BatchError (MethodSpec × Arguments)
unfolding require_method with_account check_read_only check_properties check_sort
gate py batch name arguments account_id = do
  spec ← require_method batch.capabilities name
  args ← with_account batch name spec arguments account_id
  (check_read_only py batch.capabilities name spec args
      >> (check_properties py batch.capabilities spec args
          >> (check_sort batch.capabilities name spec args >> ok (spec, args))))
