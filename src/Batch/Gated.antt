-- ===== src/Batch/Gated.antt =====
-- What the gates of `Batch.add` promise of every call that is queued.
use jmaplib.Prelude.{
  Text, codes, Bool, true, false, not, ◌&&◌, ◌||◌, [], ◌∷◌, Option, none, some, Option-cases,
  ==_refl, nat_eq, list_eq, Bool-cases, inl, inr, ok, >>=-eq-ok, ok-injective, ◌≡◌, refl, ap, ◌∙◌,
  subst, arith,
}
use jmaplib.Prelude.Dict.{lookup, insert, has_key}
use jmaplib.Invocation.{Value, str, null}
use jmaplib.Session.{Session}
use jmaplib.Capabilities.{ActiveCapabilities, MethodSpec}
use jmaplib.Capabilities.Active.{method}
use jmaplib.Batch.{Batch, Objects}
use jmaplib.Batch.Gates.{
  Arguments, gate, require_method, with_account, given_account, check_read_only, check_properties,
  check_sort, resolve_account, refuse_read_only, marks_read_only,
}

-- The account of the arguments is one that the session marks read-only.
abbrev pub is_read_only_target : Objects → Session → Option Value → Bool
is_read_only_target py session none = false
is_read_only_target py session (some null) = false
is_read_only_target py session (some v) = marks_read_only py v session.accounts

-- The method is one of the account's, a scoped call names its account, and none that changes
-- something names a read-only one.
pub record IsAdmitted (py : Objects) (active : ActiveCapabilities) (name : Text) (spec : MethodSpec)
    (args : Arguments) : Type 0 where
  pub known : method name active ≡ some spec
  pub scoped : (not spec.account_scoped || has_key (codes "accountId") args) ≡ true
  pub writable :
      (spec.mutating && is_read_only_target py active.session (lookup (codes "accountId") args))
      ≡ false

require_method-ok :
    (active : ActiveCapabilities) (name : Text) (spec : MethodSpec)
    → require_method active name ≡ ok spec
    → method name active ≡ some spec
unfolding require_method
require_method-ok active name spec h = elim (Option-cases (method name active)) [
  | inl missing ↦ cc (rw (missing, require_method) at h)
  | inr (found, e) ↦ e ∙ ap some (ok-injective (rw (e, require_method) at h))
]

has_key-insert : (k : Text) (v : Value) (d : Arguments) → has_key k (insert k v d) ≡ true
unfolding has_key insert
has_key-insert k v [] = ground (arith, ==_refl k)
has_key-insert k v ((j, w) ∷ d) = ground (arith, has_key-insert k v d)

module _ {R : Type 0} (batch : Batch R) (name : Text) (spec : MethodSpec) (args : Arguments) where
  given_account-key :
      (account_id : Option Text)
      → (spec.account_scoped && not (has_key (codes "accountId") args)) ≡ false
      → (not spec.account_scoped || has_key (codes "accountId") (given_account account_id args))
        ≡ true
  given_account-key none h = ground arith
  given_account-key (some id) h = ground (arith, has_key-insert (codes "accountId") (str id) args)

  with_account-key :
      (account_id : Option Text) (full : Arguments)
      → with_account batch name spec args account_id ≡ ok full
      → (not spec.account_scoped || has_key (codes "accountId") full) ≡ true
  unfolding with_account
  with_account-key account_id full h =
      elim (Bool-cases (spec.account_scoped && not (has_key (codes "accountId") args))) [
        | inl open_account ↦
            let (id, got, made) =
              >>=-eq-ok (resolve_account batch name account_id) _
                (rw (open_account, with_account) at h) in
            let there : (not spec.account_scoped
                  || has_key (codes "accountId") (insert (codes "accountId") (str id) args))
                ≡ true =
              ground (arith, has_key-insert (codes "accountId") (str id) args) in
            subst (λ d. (not spec.account_scoped || has_key (codes "accountId") d) ≡ true)
              (ok-injective made) there
        | inr given ↦
            subst (λ d. (not spec.account_scoped || has_key (codes "accountId") d) ≡ true)
              (ok-injective (rw (given, with_account) at h)) (given_account-key account_id given)
      ]

refuse_read_only-ok :
    (py : Objects) (session : Session) (name : Text) (o : Option Value)
    → refuse_read_only py session name o ≡ ok tt
    → is_read_only_target py session o ≡ false
refuse_read_only-ok py session name none h = refl
refuse_read_only-ok py session name (some null) h = refl
refuse_read_only-ok py session name (some v) h = ground arith

check_read_only-ok :
    (py : Objects) (active : ActiveCapabilities) (name : Text) (spec : MethodSpec)
    (args : Arguments)
    → check_read_only py active name spec args ≡ ok tt
    → (spec.mutating && is_read_only_target py active.session (lookup (codes "accountId") args))
      ≡ false
unfolding check_read_only
check_read_only-ok py active name spec args h = elim (Bool-cases spec.mutating) [
  | inr reads ↦ rw reads refl
  | inl changes ↦ rw changes (
      refuse_read_only-ok py active.session name (lookup (codes "accountId") args)
        (rw (changes, check_read_only) at h))
]

-- A call passes the checks of `add` only if the account has its method, it names its account where
-- the method is scoped to one, and it does not change anything in a read-only account.
pub gate-IsAdmitted :
    {R : Type 0} (py : Objects) (batch : Batch R) (name : Text) (arguments : Arguments)
    (account_id : Option Text) (spec : MethodSpec) (args : Arguments)
    → gate py batch name arguments account_id ≡ ok (spec, args)
    → IsAdmitted py batch.capabilities name spec args
unfolding gate
gate-IsAdmitted {R} py batch name arguments account_id spec args h =
    let (found, got, after) = >>=-eq-ok (require_method batch.capabilities name) _ h in
    let (full, account, checks) =
      >>=-eq-ok (with_account batch name found arguments account_id) _ after in
    let (_, readable, rest) =
      >>=-eq-ok (check_read_only py batch.capabilities name found full) _ checks in
    let (_, allowed, last) = >>=-eq-ok (check_properties py batch.capabilities found full) _ rest in
    let (_, sorted_well, same) = >>=-eq-ok (check_sort batch.capabilities name found full) _ last in
    let admitted : IsAdmitted py batch.capabilities name found full = record {
      known = require_method-ok batch.capabilities name found got;
      scoped = with_account-key batch name found arguments account_id full account;
      writable = check_read_only-ok py batch.capabilities name found full readable;
    } in
    subst (λ (p : MethodSpec × Arguments). IsAdmitted py batch.capabilities name p.0 p.1)
      (ok-injective same) admitted
