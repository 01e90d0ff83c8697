-- ===== src/Capabilities.antt =====
-- capabilities/spec.py and capabilities/registry.py: what the library can speak, and what one
-- server and account support of it.
pub mod Active
pub mod Using
pub mod Tests
use jmaplib.Prelude.{
  ℕ, Text, codes, Bool, true, false, not, ◌&&◌, ◌||◌, List, [], ◌∷◌, ◌++◌, map, Option, none, some,
  if◌then◌else◌, ◌==◌, nat_eq, list_eq, list_beq, ltb, nat_beq, split, Result, ok, err, ◌>>=◌,
}
use jmaplib.Prelude.Dict.{Dict, lookup, insert, set_default}
use jmaplib.Json.{Json}
use jmaplib.Limits.{Limits, from_capability}
use jmaplib.Patch.{contains}
use jmaplib.Session.{Session, core_urn}
use jmaplib.Session.Lookup.{advertised_for, capability_value, values}

pub data MethodKind : Type 0 where
  get changes set query query_changes copy custom : MethodKind

-- `rest` stands for the fields that parsers and messages read: all that `==` compares besides.
pub record MethodSpec : Type 0 where
  pub name : Text
  pub kind : MethodKind
  pub account_scoped : Bool
  pub mutating : Bool
  pub also_requires : List Text
  pub type_names_argument : Option Text
  pub filter_type : Option Text
  pub rest : Text

-- `self.name.split("/", 1)[0]`
abbrev pub first_of : List Text → Text
first_of [] = []
first_of (t ∷ ts) = t

unfoldable pub type_of : MethodSpec → Text
unfolding split
type_of spec = first_of (split b'/' spec.name)

pub record DataTypeSpec : Type 0 where
  pub name : Text
  pub never_request_properties : List Text
  pub adds_properties : Dict Text Text
  pub adds_filter_fields : Dict Text Text
  pub adds_sort_options : Dict Text Text
  pub sort_options_field : Option Text

pub record CapabilitySpec : Type 0 where
  pub urn : Text
  pub data_types : List DataTypeSpec
  pub methods : List MethodSpec
  pub requires : List Text
  pub experimental : Bool
  pub matches : Option (Dict Text Json → Bool)

-- `CapabilitySpec.data_type`: the index by name holds the last type of a name.
unfoldable pub data_type_in : Text → List DataTypeSpec → Option DataTypeSpec
unfolding list_beq
data_type_in name [] = none
data_type_in name (t ∷ ts) = elim (data_type_in name ts) [
  | some later ↦ some later
  | none ↦ if t.name == name then some t else none
]

abbrev pub Registry : Type 0
Registry = Dict Text (List CapabilitySpec)

abbrev pub specs_for : Text → Registry → List CapabilitySpec
specs_for urn registry = elim (lookup urn registry) [ none ↦ [] | some specs ↦ specs ]

abbrev pub is_none {ℓ} : {A : Type ℓ} → Option A → Bool
is_none none = true
is_none (some a) = false

abbrev pub any_unmatched : List CapabilitySpec → Bool
any_unmatched [] = false
any_unmatched (s ∷ ss) = is_none s.matches || any_unmatched ss

abbrev pub non_empty {ℓ} : {A : Type ℓ} → List A → Bool
non_empty [] = false
non_empty (x ∷ xs) = true

-- What the registry raises.
pub data RegistryError : Type 0 where
  duplicate_capability : Text → RegistryError
  conflicting_method : (method first second : Text) → RegistryError
  unsupported_method : Text → RegistryError
  not_supported : Text → RegistryError

-- `Registry.register`
unfoldable pub register : CapabilitySpec → Registry → Result RegistryError Registry
register spec registry =
    let existing = specs_for spec.urn registry in
    if non_empty existing && (is_none spec.matches || any_unmatched existing)
    then err (duplicate_capability spec.urn)
    else ok (insert spec.urn (existing ++ spec ∷ []) registry)

abbrev pub accepts : CapabilitySpec → Dict Text Json → Bool
accepts spec value = elim spec.matches [ none ↦ false | some matches ↦ matches value ]

unfoldable pub first_match : Dict Text Json → List CapabilitySpec → Option CapabilitySpec
first_match value [] = none
first_match value (s ∷ ss) =
    let later = first_match value ss in if accepts s value then some s else later

abbrev pub choose_from : Dict Text Json → List CapabilitySpec → Option CapabilitySpec
choose_from value [] = none
choose_from value (s ∷ []) = some s
choose_from value (s ∷ t ∷ ss) = first_match value (s ∷ t ∷ ss)

-- `Registry._choose`
unfoldable pub choose : Text → Dict Text Json → Registry → Option CapabilitySpec
unfolding first_match lookup
choose urn value registry = choose_from value (specs_for urn registry)

-- `<` on texts: by code points.
abbrev pub text_lt : Text → Text → Bool
text_lt s [] = false
text_lt [] (d ∷ t) = true
text_lt (c ∷ s) (d ∷ t) = ltb c d || (nat_beq c d && text_lt s t)

unfoldable pub insert_sorted : Text → List Text → List Text
unfolding list_beq
insert_sorted t [] = t ∷ []
insert_sorted t (u ∷ us) =
    let later = insert_sorted t us in
    if t == u then u ∷ us else if text_lt t u then t ∷ u ∷ us else u ∷ later

-- `sorted` of a set that a list, with repetitions, stands for.
unfoldable pub sorted : List Text → List Text
unfolding insert_sorted
sorted [] = []
sorted (t ∷ ts) = insert_sorted t (sorted ts)

-- The first loop of `resolve`: the specs chosen and the URNs that are unknown.
unfoldable pub choose_all :
    Registry → Session → Option Text → Bool → List Text → Dict Text CapabilitySpec × List Text
unfolding choose capability_value
choose_all registry session account_id experimental [] = ([], [])
choose_all registry session account_id experimental (urn ∷ urns) =
    let (resolved, unknown) = choose_all registry session account_id experimental urns in
    elim (choose urn (capability_value session urn account_id) registry) [
      | none ↦ (resolved, urn ∷ unknown)
      | some spec ↦
          if spec.experimental && not experimental
          then (resolved, urn ∷ unknown)
          else ((urn, spec) ∷ resolved, unknown)
    ]

abbrev pub kind_number : MethodKind → ℕ
kind_number get = 0
kind_number changes = 1
kind_number set = 2
kind_number query = 3
kind_number query_changes = 4
kind_number copy = 5
kind_number custom = 6

abbrev pub same_bool : Bool → Bool → Bool
same_bool true b = b
same_bool false b = not b

abbrev pub same_option : Option Text → Option Text → Bool
same_option none none = true
same_option (some s) (some t) = s == t
same_option _ _ = false

abbrev pub is_subset : List Text → List Text → Bool
is_subset [] ts = true
is_subset (s ∷ ss) ts = contains ts s && is_subset ss ts

-- `==` of two method specs.
unfoldable pub same_method : MethodSpec → MethodSpec → Bool
unfolding list_beq contains
same_method a b =
    a.name == b.name
    && kind_number a.kind == kind_number b.kind
    && same_bool a.account_scoped b.account_scoped
    && same_bool a.mutating b.mutating
    && is_subset a.also_requires b.also_requires
    && is_subset b.also_requires a.also_requires
    && same_option a.type_names_argument b.type_names_argument
    && same_option a.filter_type b.filter_type
    && a.rest == b.rest

abbrev pub Owned : Type 0
Owned = CapabilitySpec × MethodSpec

-- The second loop of `resolve`.
unfoldable pub add_methods :
    CapabilitySpec → List MethodSpec → Dict Text Owned → Result RegistryError (Dict Text Owned)
unfolding lookup
add_methods spec [] methods = ok methods
add_methods spec (m ∷ ms) methods =
    let added = add_methods spec ms (set_default m.name (spec, m) methods) in
    elim (lookup m.name methods) [
      | none ↦ added
      | some (owner, clash) ↦
          if same_method clash m then added else err (conflicting_method m.name owner.urn spec.urn)
    ]

unfoldable pub add_specs :
    List CapabilitySpec → Dict Text Owned → Result RegistryError (Dict Text Owned)
unfolding add_methods
add_specs [] methods = ok methods
add_specs (spec ∷ specs) methods = do
  more ← add_methods spec spec.methods methods
  add_specs specs more

pub record ActiveCapabilities : Type 0 where
  pub session : Session
  pub account_id : Option Text
  pub advertised : List Text
  pub specs : Dict Text CapabilitySpec
  pub unknown_urns : List Text
  pub methods : Dict Text Owned

-- `Registry.resolve`
unfoldable pub resolve :
    Registry → Session → Option Text → Bool → Result RegistryError ActiveCapabilities
unfolding choose_all add_specs sorted advertised_for
resolve registry session account_id experimental =
    let advertised = advertised_for session account_id in
    let (specs, unknown) =
      choose_all registry session account_id experimental (sorted advertised) in
    (do
      methods ← add_specs (values specs) []
      ok (record {
        session = session;
        account_id = account_id;
        advertised = advertised;
        specs = specs;
        unknown_urns = unknown;
        methods = methods;
      }))
