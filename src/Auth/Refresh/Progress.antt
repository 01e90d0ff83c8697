-- ===== src/Auth/Refresh/Progress.antt =====
-- auth/credentials.py: whoever holds the lock of `OAuth2Auth` can go on, and does not wait for it.
use jmaplib.Prelude.{
  ℕ, ◌≡◌, ◌==◌, nat_eq, list_eq, Bool, true, false, Bool-cases, inl, inr, refl, [], ok,
}
use jmaplib.Auth.Challenge.{Answer, should_retry, refuse_insufficient_scope}
use jmaplib.Auth.Refresh.{
  Credential, Call, seen_of, is_thread, renews_ahead, Pc, start, reading, finished, raised, called,
  waiting, owner, renewing, within, saving, saved, swapped, led, clearing, leaving, applying,
  resending, sent, resent, Move,
}
use jmaplib.Auth.Refresh.Fine.{owns, calm, orderly}

-- Waiting for the lock, be it with a request that the `refresh` callable has sent.
abbrev pub waits : Pc → Bool
waits (waiting _) = true
waits (within _ p) = waits p
waits _ = false

calm-waits : (p : Pc) → calm p ≡ true → waits p ≡ false
calm-waits (waiting k) h = cc
calm-waits (within k p) h = cc
calm-waits _ h = refl

pub owns-waits : (p : Pc) → owns p ≡ true → orderly p ≡ true → waits p ≡ false
owns-waits (waiting k) h o = cc
owns-waits (within k p) h o = calm-waits p o
owns-waits _ h o = refl

abbrev accepted_answer : Answer
accepted_answer = record { status_code = 200; challenges = [] }

accepts_answer : (refreshable : Bool) → should_retry refreshable accepted_answer ≡ ok false
unfolding should_retry refuse_insufficient_scope
accepts_answer refreshable = refl

abbrev HasMove : ℕ → Credential → Pc → Type 0
HasMove j c p = (c' : Credential) × (p' : Pc) × Move j c p c' p'

called_moves : (j : ℕ) (c : Credential) (k : Call) → HasMove j c (called k)
called_moves j c k = elim (Bool-cases c.refreshable) [
  | inr none ↦ (_, _, Move.idle c k none)
  | inl some ↦ elim (Bool-cases (is_thread j c.refreshing)) [
    | inl mine ↦ (_, _, Move.barred c k some mine)
    | inr other ↦ (_, _, Move.queue c k some other)
  ]
]

start_moves : (j : ℕ) (c : Credential) → HasMove j c start
start_moves j c = elim (Bool-cases (renews_ahead j c 0)) [
  | inl soon ↦ (_, _, Move.expires c 0 soon)
  | inr later ↦ (_, _, Move.current c 0 later)
]

inside : (j : ℕ) (c : Credential) (k : Call) (p : Pc) → HasMove j c p → HasMove j c (within k p)
inside j c k p (c', p', m) = (c', within k p', Move.inner k m)

-- A request that the callable has sent goes on, and comes back to it.
within_moves :
    (j : ℕ) (c : Credential) (k : Call) (p : Pc) → calm p ≡ true → HasMove j c (within k p)
within_moves j c k finished h = (_, _, Move.back c k)
within_moves j c k raised h = (_, _, Move.caught c k)
within_moves j c k start h = inside j c k start (start_moves j c)
within_moves j c k reading h = inside j c k reading (_, _, Move.observe c)
within_moves j c k (applying g) h = inside j c k (applying g) (_, _, Move.apply c g)
within_moves j c k (sent g t) h =
    inside j c k (sent g t) (_, _, Move.accept c g t accepted_answer (accepts_answer c.refreshable))
within_moves j c k (called n) h = inside j c k (called n) (called_moves j c n)
within_moves j c k (resending g) h = inside j c k (resending g) (_, _, Move.reapply c g)
within_moves j c k (resent g t) h = inside j c k (resent g t) (_, _, Move.finish c g t)
within_moves j c k _ h = absurd (cc)

-- There is a move for whoever holds the lock.
pub owner_moves :
    (j : ℕ) (c : Credential) (p : Pc)
    → owns p ≡ true
    → orderly p ≡ true
    → (c' : Credential) × (p' : Pc) × Move j c p c' p'
owner_moves j c (owner k) h o = elim (Bool-cases (c.generation == seen_of k)) [
  | inl e ↦ (_, _, Move.mark c k e)
  | inr e ↦ (_, _, Move.superseded c k e)
]
owner_moves j c (renewing k) h o = (_, _, Move.refused c k)
owner_moves j c (within k p) h o = within_moves j c k p o
owner_moves j c (saving k t) h o = (_, _, Move.save c k t true refl)
owner_moves j c (saved k t r) h o = (_, _, Move.swap c k t r)
owner_moves j c (swapped k r) h o = (_, _, Move.relead c k r 0)
owner_moves j c (led k r) h o = (_, _, Move.bump c k r)
owner_moves j c (clearing k r) h o = (_, _, Move.clear c k r)
owner_moves j c (leaving k r) h o = (_, _, Move.release c k r)
owner_moves j c _ h o = absurd (cc)
