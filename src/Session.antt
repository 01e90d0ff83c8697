-- ===== src/Session.antt =====
-- core/session.py: the session resource, its endpoints and how capabilities are looked up in it.
pub mod Lookup
pub mod Endpoints
pub mod Implied
mod Tests
use jmaplib.Prelude.{
  ℕ, suc, zero, Text, codes, Bool, true, false, not, ◌&&◌, ◌||◌, List, [], ◌∷◌, ◌++◌, map, Option,
  none, some, if◌then◌else◌, ◌==◌, nat_eq, list_eq, list_beq, Result, ok, err, ◌>>=◌, ◌>>◌,
}
use jmaplib.Prelude.Dict.{Dict, lookup, insert, has_key}
use jmaplib.Json.{
  Json, null, bool, int, float, str, arr, obj, pos, negsuc, fields, nil, cons, end, TypeName,
  type_name,
}
use jmaplib.Limits.{Limits, from_capability}
use jmaplib.Patch.{contains}

-- What Python gives: `str(value)` of a decoded value, and whether a float is 0.0.
pub record Python : Type 0 where
  pub str_of : Json → Text
  pub is_zero : Text → Bool

-- `urllib.parse`: the scheme and the lower-cased host (or "") of a URL, and `urljoin`.
pub record Urls : Type 0 where
  pub scheme : Text → Text
  pub host : Text → Text
  pub join : Text → Text → Text

-- `bool(value)`
abbrev pub truthy : Python → Json → Bool
truthy py null = false
truthy py (bool b) = b
truthy py (int (pos zero)) = false
truthy py (int n) = true
truthy py (float x) = not (py.is_zero x)
truthy py (str []) = false
truthy py (str s) = true
truthy py (arr nil) = false
truthy py (arr xs) = true
truthy py (obj end) = false
truthy py (obj fs) = true

abbrev pub core_urn : Text
core_urn = codes "urn:ietf:params:jmap:core"

abbrev pub loopback_hosts : List Text
loopback_hosts = codes "127.0.0.1" ∷ codes "::1" ∷ codes "localhost" ∷ []

abbrev pub secure_schemes : List Text
secure_schemes = codes "https" ∷ codes "wss" ∷ []

abbrev pub clear_schemes : List Text
clear_schemes = codes "http" ∷ codes "ws" ∷ []

-- `_is_downgrade`
unfoldable pub is_downgrade : Urls → Text → Text → Bool
unfolding contains list_beq
is_downgrade urls url base_scheme =
    let scheme = urls.scheme url in
    if contains secure_schemes scheme || scheme == []
    then false
    else not (contains clear_schemes scheme)
      || (base_scheme == codes "https"
          && contains clear_schemes scheme
          && not (contains loopback_hosts (urls.host url)))

-- The part of the document that is not the shape it must be.
pub data Part : Type 0 where
  accounts_part primary_part capabilities_part : Part
  account_part account_capabilities_part primary_entry : Text → Part

pub data Endpoint : Type 0 where
  api download upload event_source : Endpoint
  named : Text → Endpoint

pub data SessionError : Type 0 where
  malformed : Part → TypeName → SessionError
  insecure_endpoint : Endpoint → Text → SessionError
  insecure_redirect : Text → SessionError

-- `_check_endpoint_scheme`
unfoldable pub check_endpoint_scheme :
    Urls → Endpoint → Text → Text → Result SessionError (Unit {0})
check_endpoint_scheme urls field url base_scheme =
    if is_downgrade urls url base_scheme then err (insecure_endpoint field url) else ok tt

unfoldable pub check_endpoint : Urls → Text → Text → Text → Result SessionError (Unit {0})
unfolding check_endpoint_scheme
check_endpoint urls field url base_url =
    check_endpoint_scheme urls (named field) url (urls.scheme base_url)

unfoldable pub check_hops : Urls → Text → List Text → Result SessionError (Unit {0})
check_hops urls scheme [] = ok tt
check_hops urls scheme (hop ∷ hops) =
    let rest = check_hops urls scheme hops in
    if is_downgrade urls hop scheme then err (insecure_redirect hop) else rest

-- `check_session_redirects`
unfoldable pub check_session_redirects : Urls → Text → List Text → Result SessionError (Unit {0})
unfolding check_hops
check_session_redirects urls requested_url hops = check_hops urls (urls.scheme requested_url) hops

pub record Account : Type 0 where
  pub id : Text
  pub name : Text
  pub is_personal : Bool
  pub is_read_only : Bool
  pub account_capabilities : Dict Text Json

pub record Session : Type 0 where
  pub capabilities : Dict Text Json
  pub accounts : Dict Text Account
  pub primary_accounts : Dict Text Text
  pub username : Text
  pub api_url : Text
  pub download_url : Text
  pub upload_url : Text
  pub event_source_url : Text
  pub state : Text

-- `data.get(key) or {}`, as a mapping.
abbrev pub mapping_value : Python → Part → Json → Result SessionError (Dict Text Json)
mapping_value py part (obj fs) = ok (fields fs)
mapping_value py part value =
    if truthy py value then err (malformed part (type_name value)) else ok []

abbrev pub member_of : Text → Dict Text Json → Json
member_of key body = elim (lookup key body) [ none ↦ null | some v ↦ v ]

-- `str(data.get(key, ""))`
abbrev pub text_member : Python → Text → Dict Text Json → Text
text_member py key body = elim (lookup key body) [ none ↦ [] | some v ↦ py.str_of v ]

-- `Account.from_wire`
unfoldable pub read_account : Python → Text → Dict Text Json → Result SessionError Account
unfolding lookup list_beq
read_account py account_id body = do
  capabilities ←
      mapping_value py (account_capabilities_part account_id)
        (member_of (codes "accountCapabilities") body)
  ok (record {
    id = account_id;
    name = text_member py (codes "name") body;
    is_personal = truthy py (member_of (codes "isPersonal") body);
    is_read_only = truthy py (member_of (codes "isReadOnly") body);
    account_capabilities = capabilities;
  })

unfoldable pub read_accounts :
    Python → Dict Text Account → Dict Text Json → Result SessionError (Dict Text Account)
unfolding read_account insert
read_accounts py accounts [] = ok accounts
read_accounts py accounts ((id, obj fs) ∷ rest) = do
  account ← read_account py id (fields fs)
  read_accounts py (insert id account accounts) rest
read_accounts py accounts ((id, value) ∷ rest) = err (malformed (account_part id) (type_name value))

unfoldable pub read_primary : Dict Text Text → Dict Text Json → Result SessionError (Dict Text Text)
unfolding insert
read_primary primary [] = ok primary
read_primary primary ((urn, str id) ∷ rest) = read_primary (insert urn id primary) rest
read_primary primary ((urn, value) ∷ rest) = err (malformed (primary_entry urn) (type_name value))

-- `absolute(field, value)`, of a document fetched from `base_url`, or from nowhere known ("").
unfoldable pub admit : Urls → Text → Endpoint → Text → Result SessionError Text
unfolding check_endpoint_scheme
admit urls base_url field resolved =
    let base_scheme = if base_url == [] then [] else urls.scheme base_url in
    if base_scheme == [] || resolved == []
    then ok resolved
    else (check_endpoint_scheme urls field resolved base_scheme >> ok resolved)

unfoldable pub absolute : Python → Urls → Text → Endpoint → Json → Result SessionError Text
absolute py urls base_url field value =
    let text = if truthy py value then py.str_of value else [] in
    admit urls base_url field (if base_url == [] then text else urls.join base_url text)

-- `Session.from_wire`
unfoldable pub read_session : Python → Urls → Text → Dict Text Json → Result SessionError Session
unfolding read_accounts read_primary
read_session py urls base_url body = do
  raw_accounts ← mapping_value py accounts_part (member_of (codes "accounts") body)
  raw_primary ← mapping_value py primary_part (member_of (codes "primaryAccounts") body)
  capabilities ← mapping_value py capabilities_part (member_of (codes "capabilities") body)
  accounts ← read_accounts py [] raw_accounts
  primary ← read_primary [] raw_primary
  api_url ← absolute py urls base_url api (member_of (codes "apiUrl") body)
  download_url ← absolute py urls base_url download (member_of (codes "downloadUrl") body)
  upload_url ← absolute py urls base_url upload (member_of (codes "uploadUrl") body)
  event_source_url ←
      absolute py urls base_url event_source (member_of (codes "eventSourceUrl") body)
  ok (record {
    capabilities = capabilities;
    accounts = accounts;
    primary_accounts = primary;
    username = text_member py (codes "username") body;
    api_url = api_url;
    download_url = download_url;
    upload_url = upload_url;
    event_source_url = event_source_url;
    state = text_member py (codes "state") body;
  })
