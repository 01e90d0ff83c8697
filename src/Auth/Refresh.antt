-- ===== src/Auth/Refresh.antt =====
-- auth/credentials.py: `OAuth2Token`, `_lead_for` and `OAuth2Auth` with its methods
-- `_refresh_if_expiring`, `_refresh_once`, `_apply_token` and `sync_auth_flow`, as moves of threads.
-- Instants are natural numbers of one unit; a lead is counted in halves of that unit, so that the
-- half of a life is exact.
pub mod Fine
pub mod Moves
pub mod Others
pub mod Progress
pub mod Single
use jmaplib.Prelude.{
  ℕ, suc, ◌+◌, ◌-◌, ◌*◌, min, ◌≡◌, Bool, true, false, not, ◌||◌, Option, none, some, List, [], ◌∷◌,
  Text, ◌==◌, leb, ok, err, if◌then◌else◌, nat_eq,
}
use jmaplib.Auth.Challenge.{Answer, ScopeError, should_retry}

pub record OAuth2Token : Type 0 where
  pub access_token : Text
  pub refresh_token : Option Text
  pub expires_at : Option ℕ
  pub scope : Option Text

-- `OAuth2Token.expires_within`, the time given in halves.
unfoldable pub expires_within : OAuth2Token → ℕ → ℕ → Bool
expires_within t halves now = elim t.expires_at [
  | none ↦ false
  | some deadline ↦ leb (2 * deadline) (2 * now + halves)
]

-- Thirty seconds in milliseconds.
abbrev pub refresh_ahead : ℕ
refresh_ahead = 30000

-- `_lead_for`, in halves: `-` stops at 0 as `max(0.0, ...)` does.
unfoldable pub lead_for : OAuth2Token → ℕ → ℕ
lead_for t now = elim t.expires_at [
  | none ↦ 0
  | some deadline ↦ min (2 * refresh_ahead) (deadline - now)
]

-- The shared credential. The code never reads `adopted` and `exchanged`: they record the tokens
-- that the credential has held, the present one first, and the tokens that a call of `refresh` has
-- answered with a new one, the latest first.
pub record Credential : Type 0 where
  pub token : OAuth2Token
  pub lead : ℕ
  pub generation : ℕ
  pub refreshable : Bool
  pub has_store : Bool
  pub lock : Option ℕ
  pub refreshing : Option ℕ
  pub adopted : List OAuth2Token
  pub exchanged : List OAuth2Token

-- Who calls `_refresh_once`, with the generation that it has seen.
pub data Call : Type 0 where
  ahead : ℕ → Call
  again : ℕ → Call

abbrev pub seen_of : Call → ℕ
seen_of (ahead g) = g
seen_of (again g) = g

-- Where a thread stands. A `Bool` says whether `_refresh_once` is to return (or else to raise).
pub data Pc : Type 0 where
  start expiring reading finished raised : Pc
  called waiting owner renewing : Call → Pc
  saving : Call → OAuth2Token → Pc
  saved : Call → OAuth2Token → Bool → Pc
  swapped led clearing leaving : Call → Bool → Pc
  applying resending : ℕ → Pc
  sent resent : ℕ → OAuth2Token → Pc
  -- in `refresh`, which is sending a request through this same credential
  within : Call → Pc → Pc

abbrev pub is_thread : ℕ → Option ℕ → Bool
is_thread i none = false
is_thread i (some j) = j == i

-- The test of `_refresh_if_expiring`: whether it goes on to `_refresh_once`.
unfoldable pub renews_ahead : ℕ → Credential → ℕ → Bool
renews_ahead i c now =
    not (not c.refreshable || is_thread i c.refreshing || not (expires_within c.token c.lead now))

-- Where the caller goes on when `_refresh_once` has returned or raised.
abbrev pub resumed : Call → Bool → Pc
resumed k false = raised
resumed (ahead g) true = reading
resumed (again g) true = resending g

-- One step of thread `i`.
pub data Move (i : ℕ) : Credential → Pc → Credential → Pc → Type 0 where
  -- `_refresh_if_expiring`, at some instant
  current : (c : Credential) (now : ℕ) → renews_ahead i c now ≡ false → Move i c start c reading
  expires : (c : Credential) (now : ℕ) → renews_ahead i c now ≡ true → Move i c start c expiring
  look : (c : Credential) → Move i c expiring c (called (ahead c.generation))
  -- `_refresh_once`
  idle :
      (c : Credential) (k : Call) → c.refreshable ≡ false → Move i c (called k) c (resumed k true)
  barred :
      (c : Credential) (k : Call)
      → c.refreshable ≡ true
      → is_thread i c.refreshing ≡ true
      → Move i c (called k) c raised
  queue :
      (c : Credential) (k : Call)
      → c.refreshable ≡ true
      → is_thread i c.refreshing ≡ false
      → Move i c (called k) c (waiting k)
  acquire :
      (c : Credential) (k : Call)
      → c.lock ≡ none
      → Move i c (waiting k) (record c { lock = some i }) (owner k)
  superseded :
      (c : Credential) (k : Call)
      → (c.generation == seen_of k) ≡ false
      → Move i c (owner k) c (leaving k true)
  mark :
      (c : Credential) (k : Call)
      → (c.generation == seen_of k) ≡ true
      → Move i c (owner k) (record c { refreshing = some i }) (renewing k)
  -- A request that the callable sends through the credential goes through the same flow in the
  -- same thread; its end or its exception comes back to the callable.
  enter : (c : Credential) (k : Call) → Move i c (renewing k) c (within k start)
  inner :
      {c c' : Credential} {p p' : Pc} (k : Call)
      → Move i c p c' p'
      → Move i c (within k p) c' (within k p')
  back : (c : Credential) (k : Call) → Move i c (within k finished) c (renewing k)
  caught : (c : Credential) (k : Call) → Move i c (within k raised) c (renewing k)
  refused : (c : Credential) (k : Call) → Move i c (renewing k) c (clearing k false)
  answered :
      (c : Credential) (k : Call) (t : OAuth2Token)
      → Move i c (renewing k) (record c { exchanged = c.token ∷ c.exchanged }) (saving k t)
  -- `_apply_token`; only a store that there is can raise
  save :
      (c : Credential) (k : Call) (t : OAuth2Token) (stored : Bool)
      → (stored || c.has_store) ≡ true
      → Move i c (saving k t) c (saved k t stored)
  swap :
      (c : Credential) (k : Call) (t : OAuth2Token) (r : Bool)
      → Move i c (saved k t r) (record c { token = t; adopted = t ∷ c.adopted }) (swapped k r)
  relead :
      (c : Credential) (k : Call) (r : Bool) (now : ℕ)
      → Move i c (swapped k r) (record c { lead = lead_for c.token now }) (led k r)
  bump :
      (c : Credential) (k : Call) (r : Bool)
      → Move i c (led k r) (record c { generation = suc c.generation }) (clearing k r)
  -- the two `finally` parts of `_refresh_once`
  clear :
      (c : Credential) (k : Call) (r : Bool)
      → Move i c (clearing k r) (record c { refreshing = none }) (leaving k r)
  release :
      (c : Credential) (k : Call) (r : Bool)
      → Move i c (leaving k r) (record c { lock = none }) (resumed k r)
  -- `sync_auth_flow` around them
  observe : (c : Credential) → Move i c reading c (applying c.generation)
  apply : (c : Credential) (g : ℕ) → Move i c (applying g) c (sent g c.token)
  retry :
      (c : Credential) (g : ℕ) (t : OAuth2Token) (a : Answer)
      → should_retry c.refreshable a ≡ ok true
      → Move i c (sent g t) c (called (again g))
  accept :
      (c : Credential) (g : ℕ) (t : OAuth2Token) (a : Answer)
      → should_retry c.refreshable a ≡ ok false
      → Move i c (sent g t) c finished
  refuse :
      (c : Credential) (g : ℕ) (t : OAuth2Token) (a : Answer) {e : ScopeError}
      → should_retry c.refreshable a ≡ err e
      → Move i c (sent g t) c raised
  reapply : (c : Credential) (g : ℕ) → Move i c (resending g) c (resent g c.token)
  finish : (c : Credential) (g : ℕ) (t : OAuth2Token) → Move i c (resent g t) c finished

pub record System : Type 0 where
  pub credential : Credential
  pub pc : ℕ → Pc

abbrev pub update : (ℕ → Pc) → ℕ → Pc → ℕ → Pc
update f i p j = if i == j then p else f j

pub data Step (s : System) : System → Type 0 where
  pick :
      (i : ℕ) {c : Credential} {p : Pc}
      → Move i s.credential (s.pc i) c p
      → Step s (record { credential = c; pc = update s.pc i p })

-- `OAuth2Auth.__init__`, at some instant, and every thread before its request.
abbrev pub made : OAuth2Token → Bool → Bool → ℕ → Credential
made t refreshable has_store now = record {
  token = t;
  lead = lead_for t now;
  generation = 0;
  refreshable = refreshable;
  has_store = has_store;
  lock = none;
  refreshing = none;
  adopted = t ∷ [];
  exchanged = [];
}

pub data Reach (c : Credential) : System → Type 0 where
  here : Reach c (record { credential = c; pc = λ _. start })
  next : {s u : System} → Reach c s → Step s u → Reach c u
