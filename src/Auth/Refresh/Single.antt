-- ===== src/Auth/Refresh/Single.antt =====
-- auth/credentials.py: what holds of the credential and of its threads in every state that they reach.
use jmaplib.Prelude.{
  ℕ, ◌≤◌, ◌<◌, ◌≡◌, ◌≢◌, Bool, true, Option, none, some, ◌∷◌, length, ◌==◌, nat_eq, refl, sym, ap,
  subst, arith, ==_iff, ==_refl, Bool-cases, inl, inr, ◌∙◌, ◌⊎◌,
}
use jmaplib.Auth.Refresh.{
  OAuth2Token, Credential, Pc, resending, Move, System, Step, pick, Reach, here, next, made,
}
use jmaplib.Auth.Refresh.Fine.{owns, refreshes, Fine, Steady, least}
use jmaplib.Auth.Refresh.Progress.{waits, owns-waits, owner_moves}
use jmaplib.Auth.Refresh.Moves.{Move-Fine}
use jmaplib.Auth.Refresh.Others.{Move-Fine_other, Move-Steady, is_thread-eq, refreshes-marks}

record Inv (s : System) : Type 0 where
  steady_lem : Steady s.credential
  threads : (i : ℕ) → Fine i s.credential (s.pc i)

Step-Inv : {s u : System} → Step s u → Inv s → Inv u
Step-Inv {s} (pick i {c} {p} m) v = record {
  steady_lem = Move-Steady m (v.threads i) v.steady_lem;
  threads = λ j. elim (Bool-cases (i == j)) [
    | inl e ↦
        rw e (subst (λ k. Fine k c p) ((==_iff i j).0 e) (Move-Fine m (v.threads i) v.steady_lem))
    | inr e ↦ rw e (Move-Fine_other (λ h. cc (==_refl j)) m (v.threads i) (v.threads j))
  ];
}

module _ (t : OAuth2Token) (refreshable has_store : Bool) (now : ℕ) where
  Reach-Inv : {s : System} → Reach (made t refreshable has_store now) s → Inv s
  Reach-Inv here = record {
    steady_lem = λ _. (refl, refl);
    threads = λ i. record {
      owner_lem = refl;
      marker_lem = refl;
      log_lem = λ h. cc;
      least_lem = omega arith;
      current_lem = λ h. cc;
      asks_lem = λ h. cc;
      orderly_lem = refl;
    };
  }
  Reach-Inv (next r st) = Step-Inv st (Reach-Inv r)

  -- However the threads that share an OAuth2Auth interleave, at most one of them at a time stands
  -- between its call of refresh and the new generation, and the generation is then the one that
  -- this thread brought to _refresh_once.
  pub single_flight :
      {s : System}
      → Reach (made t refreshable has_store now) s
      → (i j : ℕ) → refreshes (s.pc i) ≡ true
      → refreshes (s.pc j) ≡ true
      → (i ≡ j) × (least (s.pc i) ≡ s.credential.generation)
  single_flight {s} r i j h k = (
    is_thread-eq i j s.credential.refreshing
        (sym (refreshes-marks (s.pc i) h) ∙ (v.threads i).marker_lem)
        (sym (refreshes-marks (s.pc j) k) ∙ (v.threads j).marker_lem),
    (v.threads i).current_lem h,
  )
    where
      v : Inv s
      v = Reach-Inv r

  -- However the threads interleave, whenever the lock is free the tokens that a refresh has
  -- replaced are exactly the tokens held before the present one, each once and in the order they
  -- were held, also where the store raised, and the generation is their number.
  pub exchanged_once :
      {s : System}
      → Reach (made t refreshable has_store now) s
      → s.credential.lock ≡ none
      → (s.credential.adopted ≡ s.credential.token ∷ s.credential.exchanged)
        × (length s.credential.exchanged ≡ s.credential.generation)
  exchanged_once r h = (Reach-Inv r).steady_lem h

  -- However the threads interleave, the generation is above the one that a thread read before it
  -- made its request whenever the thread is to send it again.
  pub resent_newer :
      {s : System}
      → Reach (made t refreshable has_store now) s
      → (i g : ℕ) → s.pc i ≡ resending g
      → g < s.credential.generation
  resent_newer {s} r i g h =
      subst (λ p. least p ≤ s.credential.generation) h ((Reach-Inv r).threads i).least_lem

abbrev Progress : System → ℕ → Type 0
Progress s i =
    (j : ℕ) × (j ≢ i)
    × (s.credential.lock ≡ some j)
    × (c : Credential) × (p : Pc) × Move j s.credential (s.pc j) c p

progress_of :
    (s : System) (i : ℕ)
    → Inv s
    → waits (s.pc i) ≡ true
    → (x : Option ℕ) → x ≡ s.credential.lock
    → (s.credential.lock ≡ none) ⊎ Progress s i
progress_of s i v h none e = inl (sym e)
progress_of s i v h (some j) e =
    let m = owner_moves j s.credential (s.pc j) mine (v.threads j).orderly_lem in
    inr (j, apart, sym e, m.0, m.1, m.2)
  where
    mine : owns (s.pc j) ≡ true
    mine = (v.threads j).owner_lem ∙ rw (← e) (==_refl j)

    apart : j ≢ i
    apart same =
        cc (owns-waits (s.pc j) mine (v.threads j).orderly_lem, ap (λ n. waits (s.pc n)) same, h)

module _ (t : OAuth2Token) (refreshable has_store : Bool) (now : ℕ) where
  -- However the threads interleave, while a thread waits for the lock, be it with a request that its
  -- own call of refresh has sent through the credential, the lock is free or another thread holds it
  -- and has a move.
  pub no_deadlock :
      {s : System}
      → Reach (made t refreshable has_store now) s
      → (i : ℕ) → waits (s.pc i) ≡ true
      → (s.credential.lock ≡ none)
        ⊎ ((j : ℕ) × (j ≢ i)
            × (s.credential.lock ≡ some j)
            × (c : Credential) × (p : Pc) × Move j s.credential (s.pc j) c p)
  no_deadlock {s} r i h =
      progress_of s i (Reach-Inv t refreshable has_store now r) h s.credential.lock refl
