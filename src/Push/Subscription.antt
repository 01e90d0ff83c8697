-- ===== src/Push/Subscription.antt =====
-- push/subscription.py: `PendingVerification` and `check_push_url`.
use jmaplib.Prelude.{
  ℕ, suc, ◌≤◌, ◌≡◌, arith, refl, Text, codes, not, ◌&&◌, [], ◌∷◌, length, Option, none, some,
  if◌then◌else◌, leb, ◌==◌, nat_eq, list_eq, list_beq, starts_with, Bool-cases, inl, inr, ==_refl,
}
use jmaplib.Prelude.Dict.{Dict, lookup, insert, remove, has_key, lookup-insert}

-- `MAX_PENDING`
abbrev pub max_pending : ℕ
max_pending = 64

-- `_codes`, the oldest first.
abbrev pub PendingVerification : Type 0
PendingVerification = Dict Text Text

abbrev pub without_oldest : PendingVerification → PendingVerification
without_oldest [] = []
without_oldest (oldest ∷ others) = others

-- The eviction that makes room for a subscription that holds no code.
unfoldable pub evict : Text → PendingVerification → PendingVerification
unfolding has_key list_beq
evict id held =
    if not (has_key id held) && leb max_pending (length held) then without_oldest held else held

-- `record` of a push with its subscription and its code.
unfoldable pub record_code : Option Text → Option Text → PendingVerification → PendingVerification
unfolding evict insert
record_code (some id) (some code) held = insert id code (evict id held)
record_code _ _ held = held

-- `claim`
unfoldable pub claim : Text → PendingVerification → Option Text × PendingVerification
unfolding lookup remove
claim id held = (lookup id held, remove id held)

-- `check_push_url`: the URL that is refused.
unfoldable pub check_push_url : Text → Option Text
unfolding starts_with
check_push_url url = if not (starts_with (codes "https://") url) then some url else none

length-insert :
    (id code : Text) (held : PendingVerification)
    → length (insert id code held) ≡ (if has_key id held then length held else suc (length held))
unfolding insert has_key
length-insert id code [] = refl
length-insert id code ((j, w) ∷ held) = elim (Bool-cases (j == id)) [
  | inl e ↦ rw e refl
  | inr e ↦ rw e (ground (arith, length-insert id code held))
]

insert-evict_bounded :
    (id code : Text) (held : PendingVerification)
    → length held ≤ max_pending
    → length (insert id code (evict id held)) ≤ max_pending
unfolding evict
insert-evict_bounded id code [] h = ground (arith, length-insert id code [])
insert-evict_bounded id code (first ∷ held) h =
    ground (arith, length-insert id code (first ∷ held), length-insert id code held)

-- Recording a code keeps the bound on the codes held, and the subscription can claim it.
pub claim-record_code :
    (id code : Text) (held : PendingVerification)
    → length held ≤ max_pending
    → (length (record_code (some id) (some code) held) ≤ max_pending)
      × ((claim id (record_code (some id) (some code) held)).0 ≡ some code)
unfolding record_code claim
claim-record_code id code held h = (
  insert-evict_bounded id code held h,
  rw (lookup-insert id id code (evict id held), ==_refl id) refl,
)
