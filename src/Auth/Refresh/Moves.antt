-- ===== src/Auth/Refresh/Moves.antt =====
-- auth/credentials.py: each move of a thread keeps what is known of it.
use jmaplib.Prelude.{
  subst, ℕ, ◌≡◌, Bool, true, false, none, nat_eq, refl, sym, arith, ==_iff, ==_refl, ok,
}
use jmaplib.Auth.Challenge.{Answer, should_retry, refuse_insufficient_scope}
use jmaplib.Auth.Refresh.{is_thread, ahead, again, Credential, seen_of, Pc, Move, renews_ahead}
use jmaplib.Auth.Refresh.Fine.{calm, Fine, Steady, resumed-Fine}

renews_ahead-refreshable :
    (i : ℕ) (c : Credential) (now : ℕ) → renews_ahead i c now ≡ true → c.refreshable ≡ true
unfolding renews_ahead
renews_ahead-refreshable i c now h = ground arith

should_retry-refreshable : (b : Bool) (a : Answer) → should_retry b a ≡ ok true → b ≡ true
unfolding should_retry refuse_insufficient_scope
should_retry-refreshable true a h = refl
should_retry-refreshable false a h = ground arith

-- In the thread that refreshes, a request of the callable changes nothing, and the guard keeps it
-- from the lock.
pub Move-calm :
    {i : ℕ} {c c' : Credential} {p p' : Pc}
    → Move i c p c' p'
    → is_thread i c.refreshing ≡ true
    → calm p ≡ true
    → (calm p' ≡ true) × (c' ≡ c)
unfolding renews_ahead
Move-calm (Move.observe c) h n = (refl, refl)
Move-calm (Move.apply c g) h n = (refl, refl)
Move-calm (Move.accept c g t a e) h n = (refl, refl)
Move-calm (Move.refuse c g t a e) h n = (refl, refl)
Move-calm (Move.reapply c g) h n = (refl, refl)
Move-calm (Move.finish c g t) h n = (refl, refl)
Move-calm (Move.retry c g t a e) h n = (refl, refl)
Move-calm (Move.current c now e) h n = (refl, refl)
Move-calm (Move.barred c k e b) h n = (refl, refl)
Move-calm (Move.idle c (ahead g) e) h n = (refl, refl)
Move-calm (Move.idle c (again g) e) h n = (refl, refl)
Move-calm (Move.expires c now e) h n = absurd (ground arith)
Move-calm (Move.queue c k e b) h n = absurd (ground arith)
Move-calm (Move.look c) h n = absurd (cc)
Move-calm (Move.acquire c k e) h n = absurd (cc)
Move-calm (Move.superseded c k e) h n = absurd (cc)
Move-calm (Move.mark c k e) h n = absurd (cc)
Move-calm (Move.enter c k) h n = absurd (cc)
Move-calm (Move.inner k m) h n = absurd (cc)
Move-calm (Move.back c k) h n = absurd (cc)
Move-calm (Move.caught c k) h n = absurd (cc)
Move-calm (Move.refused c k) h n = absurd (cc)
Move-calm (Move.answered c k t) h n = absurd (cc)
Move-calm (Move.save c k t r e) h n = absurd (cc)
Move-calm (Move.swap c k t r) h n = absurd (cc)
Move-calm (Move.relead c k r now) h n = absurd (cc)
Move-calm (Move.bump c k r) h n = absurd (cc)
Move-calm (Move.clear c k r) h n = absurd (cc)
Move-calm (Move.release c k r) h n = absurd (cc)

pub Move-Fine :
    {i : ℕ} {c c' : Credential} {p p' : Pc}
    → Move i c p c' p'
    → Fine i c p
    → Steady c
    → Fine i c' p'
Move-Fine (Move.current c now e) f s = record {
  owner_lem = f.owner_lem;
  marker_lem = f.marker_lem;
  log_lem = λ h. cc;
  least_lem = omega arith;
  current_lem = λ h. cc;
  asks_lem = λ h. cc;
  orderly_lem = refl;
}
Move-Fine (Move.expires c now e) f s = record {
  owner_lem = f.owner_lem;
  marker_lem = f.marker_lem;
  log_lem = λ h. cc;
  least_lem = omega arith;
  current_lem = λ h. cc;
  asks_lem = λ h. renews_ahead-refreshable _ c now e;
  orderly_lem = refl;
}
Move-Fine (Move.look c) f s = record {
  owner_lem = f.owner_lem;
  marker_lem = f.marker_lem;
  log_lem = λ h. cc;
  least_lem = omega arith;
  current_lem = λ h. cc;
  asks_lem = λ h. f.asks_lem refl;
  orderly_lem = refl;
}
Move-Fine (Move.idle c k e) f s = absurd (ground (arith, f.asks_lem refl))
Move-Fine (Move.barred c k e b) f s = record {
  owner_lem = f.owner_lem;
  marker_lem = f.marker_lem;
  log_lem = λ h. cc;
  least_lem = omega arith;
  current_lem = λ h. cc;
  asks_lem = λ h. cc;
  orderly_lem = refl;
}
Move-Fine (Move.queue c k e b) f s = record {
  owner_lem = f.owner_lem;
  marker_lem = f.marker_lem;
  log_lem = λ h. cc;
  least_lem = omega (arith, f.least_lem);
  current_lem = λ h. cc;
  asks_lem = λ h. cc;
  orderly_lem = refl;
}
Move-Fine {i} (Move.acquire c k e) f s = record {
  owner_lem = sym (==_refl i);
  marker_lem = f.marker_lem;
  log_lem = λ h. s e;
  least_lem = f.least_lem;
  current_lem = λ h. cc;
  asks_lem = λ h. cc;
  orderly_lem = refl;
}
Move-Fine (Move.superseded c k e) f s = record {
  owner_lem = f.owner_lem;
  marker_lem = f.marker_lem;
  log_lem = λ h. f.log_lem refl;
  least_lem = ground (arith, f.least_lem, ==_iff c.generation (seen_of k));
  current_lem = λ h. cc;
  asks_lem = λ h. cc;
  orderly_lem = refl;
}
Move-Fine {i} (Move.mark c k e) f s = record {
  owner_lem = f.owner_lem;
  marker_lem = sym (==_refl i);
  log_lem = λ h. f.log_lem refl;
  least_lem = f.least_lem;
  current_lem = λ h. sym ((==_iff c.generation (seen_of k)).0 e);
  asks_lem = λ h. cc;
  orderly_lem = refl;
}
Move-Fine (Move.enter c k) f s = record {
  owner_lem = f.owner_lem;
  marker_lem = f.marker_lem;
  log_lem = λ h. f.log_lem refl;
  least_lem = f.least_lem;
  current_lem = λ h. f.current_lem refl;
  asks_lem = λ h. cc;
  orderly_lem = refl;
}
Move-Fine (Move.back c k) f s = record {
  owner_lem = f.owner_lem;
  marker_lem = f.marker_lem;
  log_lem = λ h. f.log_lem refl;
  least_lem = f.least_lem;
  current_lem = λ h. f.current_lem refl;
  asks_lem = λ h. cc;
  orderly_lem = refl;
}
Move-Fine (Move.caught c k) f s = record {
  owner_lem = f.owner_lem;
  marker_lem = f.marker_lem;
  log_lem = λ h. f.log_lem refl;
  least_lem = f.least_lem;
  current_lem = λ h. f.current_lem refl;
  asks_lem = λ h. cc;
  orderly_lem = refl;
}
Move-Fine {i} {c} {p' = p'} (Move.inner k m) f s =
    let (still_calm, same) = Move-calm m (sym f.marker_lem) f.orderly_lem in
    subst (λ x. Fine i x p') (sym same)
      (record {
        owner_lem = f.owner_lem;
        marker_lem = f.marker_lem;
        log_lem = λ h. f.log_lem refl;
        least_lem = f.least_lem;
        current_lem = λ h. f.current_lem refl;
        asks_lem = λ h. cc;
        orderly_lem = still_calm;
      })
Move-Fine (Move.refused c k) f s = record {
  owner_lem = f.owner_lem;
  marker_lem = f.marker_lem;
  log_lem = λ h. f.log_lem refl;
  least_lem = omega (arith, f.least_lem);
  current_lem = λ h. cc;
  asks_lem = λ h. cc;
  orderly_lem = refl;
}
Move-Fine (Move.answered c k t) f s = record {
  owner_lem = f.owner_lem;
  marker_lem = f.marker_lem;
  log_lem = λ h. ground (arith, f.log_lem refl);
  least_lem = omega (arith, f.least_lem);
  current_lem = λ h. f.current_lem refl;
  asks_lem = λ h. cc;
  orderly_lem = refl;
}
Move-Fine (Move.save c k t r e) f s = record {
  owner_lem = f.owner_lem;
  marker_lem = f.marker_lem;
  log_lem = λ h. f.log_lem refl;
  least_lem = omega (arith, f.least_lem);
  current_lem = λ h. f.current_lem refl;
  asks_lem = λ h. cc;
  orderly_lem = refl;
}
Move-Fine (Move.swap c k t r) f s = record {
  owner_lem = f.owner_lem;
  marker_lem = f.marker_lem;
  log_lem = λ h. ground (arith, f.log_lem refl);
  least_lem = omega (arith, f.least_lem);
  current_lem = λ h. f.current_lem refl;
  asks_lem = λ h. cc;
  orderly_lem = refl;
}
Move-Fine (Move.relead c k r now) f s = record {
  owner_lem = f.owner_lem;
  marker_lem = f.marker_lem;
  log_lem = λ h. f.log_lem refl;
  least_lem = omega (arith, f.least_lem);
  current_lem = λ h. f.current_lem refl;
  asks_lem = λ h. cc;
  orderly_lem = refl;
}
Move-Fine (Move.bump c k r) f s = record {
  owner_lem = f.owner_lem;
  marker_lem = f.marker_lem;
  log_lem = λ h. ground (arith, f.log_lem refl);
  least_lem = ground (arith, f.least_lem);
  current_lem = λ h. cc;
  asks_lem = λ h. cc;
  orderly_lem = refl;
}
Move-Fine (Move.clear c k r) f s = record {
  owner_lem = f.owner_lem;
  marker_lem = refl;
  log_lem = λ h. f.log_lem refl;
  least_lem = f.least_lem;
  current_lem = λ h. cc;
  asks_lem = λ h. cc;
  orderly_lem = refl;
}
Move-Fine (Move.release c k r) f s =
    resumed-Fine _ (record c { lock = none }) k r refl (sym f.marker_lem) f.least_lem
Move-Fine (Move.observe c) f s = record {
  owner_lem = f.owner_lem;
  marker_lem = f.marker_lem;
  log_lem = λ h. cc;
  least_lem = omega arith;
  current_lem = λ h. cc;
  asks_lem = λ h. cc;
  orderly_lem = refl;
}
Move-Fine (Move.apply c g) f s = record {
  owner_lem = f.owner_lem;
  marker_lem = f.marker_lem;
  log_lem = λ h. cc;
  least_lem = omega (arith, f.least_lem);
  current_lem = λ h. cc;
  asks_lem = λ h. cc;
  orderly_lem = refl;
}
Move-Fine (Move.retry c g t a e) f s = record {
  owner_lem = f.owner_lem;
  marker_lem = f.marker_lem;
  log_lem = λ h. cc;
  least_lem = omega (arith, f.least_lem);
  current_lem = λ h. cc;
  asks_lem = λ h. should_retry-refreshable c.refreshable a e;
  orderly_lem = refl;
}
Move-Fine (Move.accept c g t a e) f s = record {
  owner_lem = f.owner_lem;
  marker_lem = f.marker_lem;
  log_lem = λ h. cc;
  least_lem = omega arith;
  current_lem = λ h. cc;
  asks_lem = λ h. cc;
  orderly_lem = refl;
}
Move-Fine (Move.refuse c g t a e) f s = record {
  owner_lem = f.owner_lem;
  marker_lem = f.marker_lem;
  log_lem = λ h. cc;
  least_lem = omega arith;
  current_lem = λ h. cc;
  asks_lem = λ h. cc;
  orderly_lem = refl;
}
Move-Fine (Move.reapply c g) f s = record {
  owner_lem = f.owner_lem;
  marker_lem = f.marker_lem;
  log_lem = λ h. cc;
  least_lem = omega (arith, f.least_lem);
  current_lem = λ h. cc;
  asks_lem = λ h. cc;
  orderly_lem = refl;
}
Move-Fine (Move.finish c g t) f s = record {
  owner_lem = f.owner_lem;
  marker_lem = f.marker_lem;
  log_lem = λ h. cc;
  least_lem = omega arith;
  current_lem = λ h. cc;
  asks_lem = λ h. cc;
  orderly_lem = refl;
}
