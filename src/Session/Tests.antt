-- ===== src/Session/Tests.antt =====
-- A session document read from its URL, and the account that it implies.
use jmaplib.Prelude.{
  Text, codes, Bool, true, false, [], ◌∷◌, ◌++◌, some, ok, err, ◌≡◌, ◌↔◌, refl, arith, nat_eq,
  list_eq, list_beq, if◌then◌else◌, nat_beq, All,
}
use jmaplib.Prelude.Dict.{Dict, lookup, insert, has_key}
use jmaplib.Json.{Json, str, obj, field, end}
use jmaplib.Patch.{contains}
use jmaplib.Session.{
  Session, Account, Python, Urls, is_downgrade, read_session, read_accounts, read_primary, absolute,
  admit, check_session_redirects, check_hops, insecure_endpoint, api,
}
use jmaplib.Session.Lookup.{implied_account, values}
use jmaplib.Session.Implied.{Implies, implied_account-Implies}
use jmaplib.Session.Endpoints.{IsAllowed, IsSafe, read_session-IsSafe, check_session_redirects_iff}

reader : Unit {0}
unfolding read_session read_accounts read_primary absolute admit is_downgrade
    check_session_redirects check_hops implied_account lookup insert has_key contains list_beq
reader = tt

abbrev python : Python
python = record { str_of = text_of; is_zero = λ x. false }
  where
    text_of : Json → Text
    text_of (str s) = s
    text_of other = []

-- What stands before the first colon, or nothing where there is none.
abbrev scheme_of : Text → Text
scheme_of [] = []
scheme_of (c ∷ s) = if nat_beq c b':' then [] else before s (c ∷ [])
  where
    before : Text → Text → Text
    before [] seen = []
    before (d ∷ t) seen =
        let rest = before t (seen ++ d ∷ []) in if nat_beq d b':' then seen else rest

-- An absolute URL joins to itself, and a path to the base in front of it.
abbrev urls : Urls
urls = record {
  scheme = scheme_of;
  host = λ url. [];
  join = λ base url. if is_path url then base ++ url else url;
}
  where
    is_path : Text → Bool
    is_path [] = true
    is_path (c ∷ s) = nat_beq c b'/'

abbrev base : Text
base = codes "https://h"

abbrev document : Text → Dict Text Json
document api_url =
    (codes "apiUrl", str api_url)
    ∷ (codes "accounts", obj (field (codes "a") (obj end) end))
    ∷ (codes "primaryAccounts", obj (field (codes "urn:x") (str (codes "a")) end))
    ∷ []

abbrev account : Account
account = record {
  id = codes "a";
  name = [];
  is_personal = false;
  is_read_only = false;
  account_capabilities = [];
}

abbrev session : Session
session = record {
  capabilities = [];
  accounts = (codes "a", account) ∷ [];
  primary_accounts = (codes "urn:x", codes "a") ∷ [];
  username = [];
  api_url = codes "https://h/jmap";
  download_url = base;
  upload_url = base;
  event_source_url = base;
  state = [];
}

session_read : read_session python urls base (document (codes "/jmap")) ≡ ok session
unfolding reader
session_read = refl

downgrade_refused :
    read_session python urls base (document (codes "http://h"))
    ≡ err (insecure_endpoint api (codes "http://h"))
unfolding reader
downgrade_refused = refl

read_session-IsSafe_example :
    IsSafe urls base (codes "https://h/jmap")
    × IsSafe urls base base
    × IsSafe urls base base
    × IsSafe urls base base
read_session-IsSafe_example =
    read_session-IsSafe python urls base (document (codes "/jmap")) session (ground arith)
      (ground arith) session_read

check_session_redirects_iff_example :
    (check_session_redirects urls base (codes "http://h" ∷ []) ≡ ok tt)
    ↔ All (IsAllowed urls (codes "https")) (codes "http://h" ∷ [])
check_session_redirects_iff_example = check_session_redirects_iff urls base (codes "http://h" ∷ [])

implied_run : implied_account session ≡ some (codes "a")
unfolding reader
implied_run = refl

implied_account-Implies_example :
    Implies (values session.primary_accounts) session.accounts (implied_account session)
implied_account-Implies_example = implied_account-Implies session
