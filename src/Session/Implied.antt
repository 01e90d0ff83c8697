-- ===== src/Session/Implied.antt =====
-- Which account a session implies, and when it implies none.
use jmaplib.Prelude.{
  Text, true, false, ◌&&◌, List, [], ◌∷◌, Option, none, some, ==_iff, nat_eq, list_eq, ◌≡◌, subst,
  sym, ap, ◌∙◌, ◌≢◌, ◌⊎◌, inl, inr, refl, arith, All, Bool-cases,
}
use jmaplib.Prelude.Dict.{Dict, has_key}
use jmaplib.Session.{Session, Account}
use jmaplib.Session.Lookup.{values, all_are, only_account, implied_by, implied_account}

-- The server names one account, which it lists, for every kind of data that it names one for.
abbrev pub IsUnanimous : List Text → Dict Text Account → Text → Type 0
IsUnanimous ids accounts id = (ids ≢ []) × All (λ j. j ≡ id) ids × (has_key id accounts ≡ true)

abbrev pub IsOnly : Dict Text Account → Text → Type 0
IsOnly accounts id = (account : Account) × (accounts ≡ (id, account) ∷ [])

all_are-All : (id : Text) (ids : List Text) → all_are id ids ≡ true → All (λ j. j ≡ id) ids
all_are-All id [] h = tt
all_are-All id (j ∷ ids) h = ground (arith, ==_iff j id, all_are-All id ids)

All-all_are : (id : Text) (ids : List Text) → All (λ j. j ≡ id) ids → all_are id ids ≡ true
All-all_are id [] h = refl
All-all_are id (j ∷ ids) h = ground (arith, ==_iff j id, All-all_are id ids)

-- What `implied_account` answers: an account that the server names unanimously; otherwise the only
-- account; and none where neither is there.
abbrev pub Implies : List Text → Dict Text Account → Option Text → Type 0
Implies ids accounts (some id) =
    IsUnanimous ids accounts id
    ⊎ (IsOnly accounts id × ((j : Text) → IsUnanimous ids accounts j → ⊥))
Implies ids accounts none = (j : Text) → IsUnanimous ids accounts j ⊎ IsOnly accounts j → ⊥

only_account-Implies :
    (ids : List Text) (accounts : Dict Text Account)
    → ((j : Text) → IsUnanimous ids accounts j → ⊥)
    → Implies ids accounts (only_account accounts)
only_account-Implies ids [] h = λ j s. elim s [ inl u ↦ h j u | inr (account, p) ↦ cc ]
only_account-Implies ids ((id, account) ∷ []) h = inr ((account, refl), h)
only_account-Implies ids (x ∷ y ∷ rest) h = λ j s. elim s [ inl u ↦ h j u | inr (account, p) ↦ cc ]

unanimous_tested :
    (id : Text) (ids : List Text) (accounts : Dict Text Account)
    → (all_are id ids && has_key id accounts) ≡ false
    → (j : Text) → IsUnanimous (id ∷ ids) accounts j
    → ⊥
unanimous_tested id ids accounts h j (some_named, (same, others), listed) =
    let all = All-all_are id ids (subst (λ k. All (λ i. i ≡ k) ids) (sym same) others) in
    let key = ap (λ k. has_key k accounts) same ∙ listed in cc (all, key, h)

implied_by-Implies :
    (ids : List Text) (accounts : Dict Text Account)
    → Implies ids accounts (implied_by ids accounts)
unfolding implied_by
implied_by-Implies [] accounts = only_account-Implies [] accounts (λ j u. u.0 refl)
implied_by-Implies (id ∷ ids) accounts = elim (Bool-cases (all_are id ids && has_key id accounts)) [
  | inl both ↦ rw both (inl ((λ p. cc), (refl, all_are-All id ids (ground arith)), ground arith))
  | inr neither ↦
      rw neither
        (only_account-Implies (id ∷ ids) accounts (unanimous_tested id ids accounts neither))
]

-- The account that a session implies is one that the server lists and names for all that it names
-- an account for; where there is none such, the only account; and else none.
pub implied_account-Implies :
    (session : Session)
    → Implies (values session.primary_accounts) session.accounts (implied_account session)
unfolding implied_account
implied_account-Implies session =
    implied_by-Implies (values session.primary_accounts) session.accounts
