-- ===== src/Capabilities/Active.antt =====
-- capabilities/registry.py, ActiveCapabilities: the lookups, and the using set of a batch.
use jmaplib.Prelude.{
  Text, List, [], ◌∷◌, ◌++◌, Option, none, some, if◌then◌else◌, nat_eq, list_eq, Result, ok, err,
  ◌>>=◌,
}
use jmaplib.Prelude.Dict.{Dict, lookup}
use jmaplib.Limits.{Limits, from_capability}
use jmaplib.Patch.{contains}
use jmaplib.Session.{core_urn}
use jmaplib.Session.Lookup.{capability_value, values}
use jmaplib.Capabilities.{
  ActiveCapabilities, CapabilitySpec, DataTypeSpec, MethodSpec, RegistryError, unsupported_method,
  not_supported, data_type_in, text_lt,
}

unfoldable pub active_limits : ActiveCapabilities → Limits
unfolding capability_value from_capability
active_limits active = from_capability (capability_value active.session core_urn active.account_id)

unfoldable pub method : Text → ActiveCapabilities → Option MethodSpec
unfolding lookup
method name active = elim (lookup name active.methods) [ none ↦ none | some (owner, m) ↦ some m ]

unfoldable pub owner_of : Text → ActiveCapabilities → Option CapabilitySpec
unfolding lookup
owner_of name active = elim (lookup name active.methods) [
  | none ↦ none
  | some (owner, m) ↦ some owner
]

unfoldable pub first_type : Text → List CapabilitySpec → Option DataTypeSpec
unfolding data_type_in
first_type name [] = none
first_type name (spec ∷ specs) = elim (data_type_in name spec.data_types) [
  | some found ↦ some found
  | none ↦ first_type name specs
]

-- `data_type`
unfoldable pub data_type : Text → ActiveCapabilities → Option DataTypeSpec
unfolding first_type
data_type name active = first_type name (values active.specs)

-- `require`
unfoldable pub require : Text → ActiveCapabilities → Result RegistryError (Unit {0})
unfolding lookup
require urn active = elim (lookup urn active.specs) [
  | none ↦ err (not_supported urn)
  | some spec ↦ ok tt
]

abbrev pub type_names : List DataTypeSpec → List Text
type_names [] = []
type_names (t ∷ ts) = t.name ∷ type_names ts

abbrev pub names_of_types : List CapabilitySpec → List Text
names_of_types [] = []
names_of_types (spec ∷ specs) = type_names spec.data_types ++ names_of_types specs

abbrev pub push_types : ActiveCapabilities → List Text
push_types active = names_of_types (values active.specs)

unfoldable pub first_owning : Text → Dict Text CapabilitySpec → Option Text
unfolding data_type_in
first_owning name [] = none
first_owning name ((urn, spec) ∷ rest) = elim (data_type_in name spec.data_types) [
  | some found ↦ some urn
  | none ↦ first_owning name rest
]

-- `urn_owning`
unfoldable pub urn_owning : Text → ActiveCapabilities → Option Text
unfolding first_owning
urn_owning name active = first_owning name active.specs

abbrev pub option_list {ℓ} : {A : Type ℓ} → Option A → List A
option_list none = []
option_list (some a) = a ∷ []

-- `_urns_adding`, for the attribute that `mapping` reads.
unfoldable pub urns_adding :
    (DataTypeSpec → Dict Text Text) → Text × Text → List CapabilitySpec → List Text
unfolding data_type_in lookup
urns_adding mapping pair [] = []
urns_adding mapping pair (spec ∷ specs) = elim (data_type_in pair.0 spec.data_types) [
  | none ↦ urns_adding mapping pair specs
  | some found ↦ option_list (lookup pair.1 (mapping found)) ++ urns_adding mapping pair specs
]

unfoldable pub all_urns_adding :
    (DataTypeSpec → Dict Text Text) → List (Text × Text) → List CapabilitySpec → List Text
unfolding urns_adding
all_urns_adding mapping [] specs = []
all_urns_adding mapping (pair ∷ pairs) specs =
    urns_adding mapping pair specs ++ all_urns_adding mapping pairs specs

-- What `using_for` needs for the methods.
unfoldable pub urns_of_methods : ActiveCapabilities → List Text → Result RegistryError (List Text)
unfolding lookup
urns_of_methods active [] = ok []
urns_of_methods active (name ∷ names) = elim (lookup name active.methods) [
  | none ↦ err (unsupported_method name)
  | some (owner, m) ↦
      (urns_of_methods active names >>= λ rest.
      ok (owner.urn ∷ (owner.requires ++ (m.also_requires ++ rest))))
]

unfoldable pub urns_of_types : ActiveCapabilities → List Text → List Text
unfolding urn_owning
urns_of_types active [] = []
urns_of_types active (name ∷ names) =
    option_list (urn_owning name active) ++ urns_of_types active names

unfoldable pub missing_from : List Text → List Text → List Text
unfolding contains
missing_from advertised [] = []
missing_from advertised (t ∷ ts) =
    let rest = missing_from advertised ts in if contains advertised t then rest else t ∷ rest

-- `sorted(missing)[0]`
abbrev pub least : Text → List Text → Text
least t [] = t
least t (u ∷ us) = least (if text_lt u t then u else t) us

-- What a batch names, from which its using set is derived.
pub record Named : Type 0 where
  pub methods : List Text
  pub properties : List (Text × Text)
  pub filter_fields : List (Text × Text)
  pub sort_options : List (Text × Text)
  pub type_names : List Text

-- All that `using_for` needs, and the error for the first of what is missing.
unfoldable pub all_needed : ActiveCapabilities → Named → List Text → List Text → List Text
unfolding urns_of_types all_urns_adding
all_needed active named extra of_methods =
    let specs = values active.specs in
    core_urn
    ∷ (of_methods
        ++ (urns_of_types active named.type_names
            ++ (all_urns_adding (λ t. t.adds_properties) named.properties specs
                ++ (all_urns_adding (λ t. t.adds_filter_fields) named.filter_fields specs
                    ++ (all_urns_adding (λ t. t.adds_sort_options) named.sort_options specs
                        ++ extra)))))

abbrev pub refuse_missing : List Text → List Text → Result RegistryError (List Text)
refuse_missing needed [] = ok needed
refuse_missing needed (t ∷ ts) = err (not_supported (least t ts))

-- `using_for`
unfoldable pub using_for : ActiveCapabilities → Named → List Text → Result RegistryError (List Text)
unfolding urns_of_methods missing_from
using_for active named extra = do
  of_methods ← urns_of_methods active named.methods
  refuse_missing (all_needed active named extra of_methods)
      (missing_from active.advertised (all_needed active named extra of_methods))
