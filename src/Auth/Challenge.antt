-- ===== src/Auth/Challenge.antt =====
-- auth/challenge.py (`Challenge`, `find_challenge`) and the reading of an answer in
-- auth/credentials.py (`_refuse_insufficient_scope`, `OAuth2Auth._should_retry`). The challenges of
-- an answer stand here already parsed from its `WWW-Authenticate` values.
use jmaplib.Prelude.{
  ℕ, Bool, true, false, not, ◌||◌, Option, none, some, List, [], ◌∷◌, Text, codes, ◌==◌,
  if◌then◌else◌, Result, ok, err, ◌>>=◌, nat_eq, list_eq,
}
use jmaplib.Prelude.Dict.{Dict, lookup}

pub record Challenge : Type 0 where
  -- in lower case
  pub scheme : Text
  pub params : Dict Text Text

-- `Challenge.error`
abbrev pub error : Challenge → Option Text
error c = lookup (codes "error") c.params

-- The first challenge for a scheme, which is given in lower case.
unfoldable pub find_challenge : List Challenge → Text → Option Challenge
find_challenge [] scheme = none
find_challenge (c ∷ cs) scheme = if c.scheme == scheme then some c else find_challenge cs scheme

pub record Answer : Type 0 where
  pub status_code : ℕ
  pub challenges : List Challenge

-- `InsufficientScopeError`
pub data ScopeError : Type 0 where
  insufficient_scope : ScopeError

abbrev pub names_scope : Option Challenge → Bool
names_scope none = false
names_scope (some c) = elim (error c) [ none ↦ false | some e ↦ e == codes "insufficient_scope" ]

abbrev is_some : Option Challenge → Bool
is_some none = false
is_some (some _) = true

-- `_refuse_insufficient_scope`
unfoldable pub refuse_insufficient_scope : Answer → Result ScopeError (Unit {0})
refuse_insufficient_scope a =
    if not (a.status_code == 401 || a.status_code == 403)
    then ok tt
    else if names_scope (find_challenge a.challenges (codes "bearer"))
    then err insufficient_scope
    else ok tt

-- `_should_retry`; the first argument says whether the credential was made with a `refresh`.
unfoldable pub should_retry : Bool → Answer → Result ScopeError Bool
should_retry refreshable a = refuse_insufficient_scope a >>= λ _.
    if not (a.status_code == 401) || not refreshable
    then ok false
    else ok (is_some (find_challenge a.challenges (codes "bearer")))
