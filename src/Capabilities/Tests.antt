-- ===== src/Capabilities/Tests.antt =====
-- A registry of two capabilities, a session that offers them, and the using set of a batch.
use jmaplib.Prelude.{
  Text, codes, true, false, List, [], ◌∷◌, none, ok, err, ◌≡◌, refl, nat_eq, list_eq, list_beq, All,
  split,
}
use jmaplib.Prelude.Dict.{lookup, insert, set_default}
use jmaplib.Json.{obj, end}
use jmaplib.Patch.{contains}
use jmaplib.Session.{Session, core_urn}
use jmaplib.Session.Lookup.{capability_value, advertised_for}
use jmaplib.Capabilities.{
  CapabilitySpec, MethodSpec, ActiveCapabilities, Registry, get, register, resolve, choose,
  choose_all, add_specs, add_methods, sorted, insert_sorted, type_of, duplicate_capability,
}
use jmaplib.Capabilities.Active.{
  Named, using_for, urns_of_methods, urns_of_types, urn_owning, first_owning, urns_adding,
  all_urns_adding, all_needed, missing_from,
}
use jmaplib.Capabilities.Using.{IsWithin, IsServed, using_for-IsUsing}

resolver : Unit {0}
unfolding resolve choose_all choose add_specs add_methods sorted insert_sorted capability_value
    advertised_for lookup insert list_beq contains register using_for urns_of_methods urns_of_types
    urn_owning first_owning urns_adding all_urns_adding all_needed missing_from set_default
resolver = tt

abbrev pub thing_urn : Text
thing_urn = codes "urn:ietf:params:jmap:thing"

abbrev pub thing_get : MethodSpec
thing_get = record {
  name = codes "Thing/get";
  kind = get;
  account_scoped = true;
  mutating = false;
  also_requires = [];
  type_names_argument = none;
  filter_type = none;
  rest = [];
}

abbrev thing : CapabilitySpec
thing = record {
  urn = thing_urn;
  data_types = [];
  methods = thing_get ∷ [];
  requires = core_urn ∷ [];
  experimental = false;
  matches = none;
}

abbrev registry : Registry
registry = (thing_urn, thing ∷ []) ∷ []

abbrev session : Session
session = record {
  capabilities = (core_urn, obj end) ∷ (thing_urn, obj end) ∷ [];
  accounts = [];
  primary_accounts = [];
  username = [];
  api_url = [];
  download_url = [];
  upload_url = [];
  event_source_url = [];
  state = [];
}

abbrev pub active : ActiveCapabilities
active = record {
  session = session;
  account_id = none;
  advertised = core_urn ∷ thing_urn ∷ [];
  specs = (thing_urn, thing) ∷ [];
  unknown_urns = core_urn ∷ [];
  methods = (codes "Thing/get", (thing, thing_get)) ∷ [];
}

registered : register thing [] ≡ ok registry
unfolding resolver
registered = refl

registered_twice : register thing registry ≡ err (duplicate_capability thing_urn)
unfolding resolver
registered_twice = refl

resolved : resolve registry session none false ≡ ok active
unfolding resolver
resolved = refl

type_of_thing : type_of thing_get ≡ codes "Thing"
unfolding type_of split
type_of_thing = refl

abbrev batch : Named
batch = record {
  methods = codes "Thing/get" ∷ [];
  properties = [];
  filter_fields = [];
  sort_options = [];
  type_names = [];
}

abbrev using : List Text
using = core_urn ∷ thing_urn ∷ core_urn ∷ []

using_run : using_for active batch [] ≡ ok using
unfolding resolver
using_run = refl

using_for-IsUsing_example :
    IsWithin using active.advertised
    × (contains using core_urn ≡ true)
    × All (IsServed active using) batch.methods
using_for-IsUsing_example = using_for-IsUsing active batch [] using using_run
