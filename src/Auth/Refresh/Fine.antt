-- ===== src/Auth/Refresh/Fine.antt =====
-- auth/credentials.py: what holds of `OAuth2Auth` however its threads interleave.
use jmaplib.Prelude.{
  refl, ℕ, suc, ◌≤◌, ◌≡◌, Bool, true, false, none, List, ◌∷◌, length, nat_eq, arith, if◌then◌else◌,
}
use jmaplib.Auth.Refresh.{
  within, start, reading, finished, raised, OAuth2Token, Credential, Call, ahead, again, seen_of,
  is_thread, resumed, Pc, expiring, called, waiting, owner, renewing, saving, saved, swapped, led,
  clearing, leaving, applying, resending, sent, resent,
}

-- Inside the `with self._lock` block.
abbrev pub owns : Pc → Bool
owns (owner _) = true
owns (renewing _) = true
owns (within _ _) = true
owns (saving _ _) = true
owns (saved _ _ _) = true
owns (swapped _ _) = true
owns (led _ _) = true
owns (clearing _ _) = true
owns (leaving _ _) = true
owns _ = false

-- While `_refreshing` names the thread.
abbrev pub marks : Pc → Bool
marks (renewing _) = true
marks (within _ _) = true
marks (saving _ _) = true
marks (saved _ _ _) = true
marks (swapped _ _) = true
marks (led _ _) = true
marks (clearing _ _) = true
marks _ = false

-- From the call of `refresh` until its answer is counted.
abbrev pub refreshes : Pc → Bool
refreshes (renewing _) = true
refreshes (within _ _) = true
refreshes (saving _ _) = true
refreshes (saved _ _ _) = true
refreshes (swapped _ _) = true
refreshes (led _ _) = true
refreshes _ = false

-- Where the change of the token stands: not begun or done, answered, written.
pub data Stage : Type 0 where
  steady received written : Stage

abbrev pub stage : Pc → Stage
stage (saving _ _) = received
stage (saved _ _ _) = received
stage (swapped _ _) = written
stage (led _ _) = written
stage _ = steady

abbrev pub Log : Stage → OAuth2Token → ℕ → List OAuth2Token → List OAuth2Token → Type 0
Log steady t g held gone = (held ≡ t ∷ gone) × (length gone ≡ g)
Log received t g held gone = (held ≡ gone) × (length gone ≡ suc g)
Log written t g held gone = (held ≡ t ∷ gone) × (length gone ≡ suc g)

-- The least generation that there is while a thread stands at `p`.
abbrev pub reached : Call → Bool → ℕ
reached k r = if r then suc (seen_of k) else seen_of k

abbrev pub least : Pc → ℕ
least (called k) = seen_of k
least (waiting k) = seen_of k
least (owner k) = seen_of k
least (renewing k) = seen_of k
least (within k _) = seen_of k
least (saving k _) = seen_of k
least (saved k _ _) = seen_of k
least (swapped k _) = seen_of k
least (led k _) = seen_of k
least (clearing k r) = reached k r
least (leaving k r) = reached k r
least (applying g) = g
least (sent g _) = g
least (resending g) = suc g
least (resent g _) = suc g
least _ = 0

-- Whether a thread there may still come to `_refresh_once`.
abbrev pub asks : Pc → Bool
asks expiring = true
asks (called _) = true
asks _ = false

-- Where a request of the `refresh` callable may stand: neither in nor before the lock.
abbrev pub calm : Pc → Bool
calm start = true
calm reading = true
calm (applying _) = true
calm (sent _ _) = true
calm (called _) = true
calm (resending _) = true
calm (resent _ _) = true
calm finished = true
calm raised = true
calm _ = false

abbrev pub orderly : Pc → Bool
orderly (within _ p) = calm p
orderly _ = true

-- What is known of thread `i`, which stands at `p`.
pub record Fine (i : ℕ) (c : Credential) (p : Pc) : Type 0 where
  pub owner_lem : owns p ≡ is_thread i c.lock
  pub marker_lem : marks p ≡ is_thread i c.refreshing
  pub log_lem : owns p ≡ true → Log (stage p) c.token c.generation c.adopted c.exchanged
  pub least_lem : least p ≤ c.generation
  pub current_lem : refreshes p ≡ true → least p ≡ c.generation
  pub asks_lem : asks p ≡ true → c.refreshable ≡ true
  pub orderly_lem : orderly p ≡ true

abbrev pub Steady : Credential → Type 0
Steady c = c.lock ≡ none → Log steady c.token c.generation c.adopted c.exchanged

pub resumed-Fine :
    (i : ℕ) (c : Credential) (k : Call) (r : Bool)
    → c.lock ≡ none
    → is_thread i c.refreshing ≡ false
    → reached k r ≤ c.generation
    → Fine i c (resumed k r)
resumed-Fine i c k false l m g = record {
  owner_lem = ground arith;
  marker_lem = ground arith;
  log_lem = λ h. cc;
  least_lem = omega arith;
  current_lem = λ h. cc;
  asks_lem = λ h. cc;
  orderly_lem = refl;
}
resumed-Fine i c (ahead s) true l m g = record {
  owner_lem = ground arith;
  marker_lem = ground arith;
  log_lem = λ h. cc;
  least_lem = omega arith;
  current_lem = λ h. cc;
  asks_lem = λ h. cc;
  orderly_lem = refl;
}
resumed-Fine i c (again s) true l m g = record {
  owner_lem = ground arith;
  marker_lem = ground arith;
  log_lem = λ h. cc;
  least_lem = omega arith;
  current_lem = λ h. cc;
  asks_lem = λ h. cc;
  orderly_lem = refl;
}
