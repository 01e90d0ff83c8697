-- ===== src/Session/Lookup.antt =====
-- core/session.py: which capabilities a session offers to an account, and which account is meant.
use jmaplib.Prelude.{
  Text, Bool, true, false, ◌&&◌, List, [], ◌∷◌, ◌++◌, Option, none, some, if◌then◌else◌, ◌==◌,
  nat_eq, list_eq,
}
use jmaplib.Prelude.Dict.{Dict, lookup, has_key}
use jmaplib.Json.{Json, obj, fields}
use jmaplib.Limits.{Limits, from_capability}
use jmaplib.Session.{Account, Session, Python, truthy, core_urn}

abbrev pub keys {ℓ κ} : {K : Type ℓ} {V : Type κ} → Dict K V → List K
keys [] = []
keys ((k, v) ∷ d) = k ∷ keys d

abbrev pub values {ℓ κ} : {K : Type ℓ} {V : Type κ} → Dict K V → List V
values [] = []
values ((k, v) ∷ d) = v ∷ values d

-- The object, or an empty one for what is none or absent.
abbrev pub object_or_empty : Option Json → Dict Text Json
object_or_empty (some (obj fs)) = fields fs
object_or_empty other = []

-- `limits`; `none` is the `AttributeError` of a value that is true and no object.
unfoldable pub limits : Python → Session → Option Limits
unfolding lookup
limits py session = elim (lookup core_urn session.capabilities) [
  | none ↦ some (from_capability [])
  | some (obj fs) ↦ some (from_capability (fields fs))
  | some value ↦ if truthy py value then none else some (from_capability [])
]

abbrev pub account_of : Session → Option Text → Option Account
account_of session none = none
account_of session (some id) = lookup id session.accounts

abbrev pub capabilities_of : Option Account → Dict Text Json
capabilities_of none = []
capabilities_of (some account) = account.account_capabilities

-- `advertised_for`: the set, as a list that may name a URN twice.
unfoldable pub advertised_for : Session → Option Text → List Text
unfolding lookup
advertised_for session account_id =
    keys session.capabilities ++ keys (capabilities_of (account_of session account_id))

-- `capability_value`
unfoldable pub capability_value : Session → Text → Option Text → Dict Text Json
unfolding lookup
capability_value session urn account_id =
    elim (lookup urn (capabilities_of (account_of session account_id))) [
      | some (obj fs) ↦ fields fs
      | other ↦ object_or_empty (lookup urn session.capabilities)
    ]

-- `account_capability_value`
unfoldable pub account_capability_value : Session → Text → Option Text → Dict Text Json
unfolding lookup
account_capability_value session urn account_id =
    object_or_empty (lookup urn (capabilities_of (account_of session account_id)))

abbrev pub primary_account_for : Text → Session → Option Text
primary_account_for urn session = lookup urn session.primary_accounts

abbrev pub all_are : Text → List Text → Bool
all_are id [] = true
all_are id (j ∷ ids) = j == id && all_are id ids

abbrev pub only_account : Dict Text Account → Option Text
only_account ((id, account) ∷ []) = some id
only_account other = none

-- `implied_account`, of the ids of `primary_accounts` and the accounts.
unfoldable pub implied_by : List Text → Dict Text Account → Option Text
unfolding has_key
implied_by [] accounts = only_account accounts
implied_by (id ∷ ids) accounts =
    if all_are id ids && has_key id accounts then some id else only_account accounts

unfoldable pub implied_account : Session → Option Text
unfolding implied_by
implied_account session = implied_by (values session.primary_accounts) session.accounts

-- `a or b`, of an optional id: an empty id is false.
abbrev pub or_account : Option Text → Option Text → Option Text
or_account (some (c ∷ s)) other = some (c ∷ s)
or_account id other = other

-- `capability_account`
unfoldable pub capability_account : Session → Text → Option Text → Option Text
unfolding implied_account lookup
capability_account session urn (some id) = some id
capability_account session urn none =
    or_account (primary_account_for urn session) (implied_account session)

abbrev pub with_capability : Text → Dict Text Account → List Text
with_capability urn [] = []
with_capability urn ((id, account) ∷ rest) =
    let more = with_capability urn rest in
    if has_key urn account.account_capabilities then id ∷ more else more

-- `accounts_with`
unfoldable pub accounts_with : Session → Text → List Text
unfolding has_key
accounts_with session urn = with_capability urn session.accounts

unfoldable pub is_read_only : Session → Text → Bool
unfolding lookup
is_read_only session id = elim (lookup id session.accounts) [
  | none ↦ false
  | some account ↦ account.is_read_only
]
