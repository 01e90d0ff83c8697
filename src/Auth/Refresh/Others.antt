-- ===== src/Auth/Refresh/Others.antt =====
-- auth/credentials.py: a move of one thread keeps what is known of the others, and the log.
use jmaplib.Prelude.{
  subst, ℕ, ◌≡◌, ◌≢◌, true, false, Option, none, some, nat_eq, refl, sym, arith, ==_iff, ==_ne,
  Bool-cases, inl, inr, ◌∙◌,
}
use jmaplib.Auth.Refresh.{
  within, Credential, is_thread, Pc, renewing, saving, saved, swapped, led, clearing, Move,
}
use jmaplib.Auth.Refresh.Moves.{Move-calm}
use jmaplib.Auth.Refresh.Fine.{owns, marks, refreshes, Fine, Steady}

-- One thread at most is named by the lock, or by `_refreshing`.
pub is_thread-eq : (i j : ℕ) (x : Option ℕ) → true ≡ is_thread i x → true ≡ is_thread j x → i ≡ j
is_thread-eq i j none h k = cc
is_thread-eq i j (some n) h k = sym ((==_iff n i).0 (sym h)) ∙ (==_iff n j).0 (sym k)

is_thread-ne : {i j : ℕ} (x : Option ℕ) → j ≢ i → true ≡ is_thread i x → is_thread j x ≡ false
is_thread-ne {i} {j} x ne h = elim (Bool-cases (is_thread j x)) [
  | inl e ↦ absurd (ne (is_thread-eq j i x (sym e) h))
  | inr e ↦ e
]

pub marks-owns : (p : Pc) → marks p ≡ true → owns p ≡ true
marks-owns (renewing _) h = refl
marks-owns (within _ _) h = refl
marks-owns (saving _ _) h = refl
marks-owns (saved _ _ _) h = refl
marks-owns (swapped _ _) h = refl
marks-owns (led _ _) h = refl
marks-owns (clearing _ _) h = refl
marks-owns _ h = cc

pub refreshes-marks : (p : Pc) → refreshes p ≡ true → marks p ≡ true
refreshes-marks (renewing _) h = refl
refreshes-marks (within _ _) h = refl
refreshes-marks (saving _ _) h = refl
refreshes-marks (saved _ _ _) h = refl
refreshes-marks (swapped _ _) h = refl
refreshes-marks (led _ _) h = refl
refreshes-marks _ h = cc

module _ {i j : ℕ} {c : Credential} {q : Pc} (ne : j ≢ i) (o : Fine j c q)
    (mine : true ≡ is_thread i c.lock) where
  outside : owns q ≡ false
  outside = o.owner_lem ∙ is_thread-ne c.lock ne mine

  unmarked : marks q ≡ false
  unmarked = elim (Bool-cases (marks q)) [ inl e ↦ cc (marks-owns q e, outside) | inr e ↦ e ]

  still : refreshes q ≡ false
  still = elim (Bool-cases (refreshes q)) [ inl e ↦ cc (refreshes-marks q e, unmarked) | inr e ↦ e ]

-- A move of one thread changes the log only inside the lock, and the counters only upwards.
pub Move-Fine_other :
    {i j : ℕ} {c c' : Credential} {p p' q : Pc}
    → j ≢ i
    → Move i c p c' p'
    → Fine i c p
    → Fine j c q
    → Fine j c' q
Move-Fine_other ne (Move.current c now e) f o = o
Move-Fine_other ne (Move.expires c now e) f o = o
Move-Fine_other ne (Move.look c) f o = o
Move-Fine_other ne (Move.idle c k e) f o = o
Move-Fine_other ne (Move.barred c k e b) f o = o
Move-Fine_other ne (Move.queue c k e b) f o = o
Move-Fine_other ne (Move.acquire c k e) f o = record {
  owner_lem = ground (arith, o.owner_lem, ==_ne _ _ (λ e. ne (sym e)));
  marker_lem = o.marker_lem;
  log_lem = λ h. o.log_lem h;
  least_lem = o.least_lem;
  current_lem = λ h. o.current_lem h;
  asks_lem = λ h. o.asks_lem h;
  orderly_lem = o.orderly_lem;
}
Move-Fine_other ne (Move.mark c k e) f o = record {
  owner_lem = o.owner_lem;
  marker_lem = unmarked ne o f.owner_lem ∙ sym (==_ne _ _ (λ e. ne (sym e)));
  log_lem = λ h. o.log_lem h;
  least_lem = o.least_lem;
  current_lem = λ h. o.current_lem h;
  asks_lem = λ h. o.asks_lem h;
  orderly_lem = o.orderly_lem;
}
Move-Fine_other ne (Move.superseded c k e) f o = o
Move-Fine_other ne (Move.enter c k) f o = o
Move-Fine_other ne (Move.back c k) f o = o
Move-Fine_other ne (Move.caught c k) f o = o
Move-Fine_other {j} {q} ne (Move.inner k m) f o =
    subst (λ x. Fine j x q) (sym (Move-calm m (sym f.marker_lem) f.orderly_lem).1) o
Move-Fine_other ne (Move.refused c k) f o = o
Move-Fine_other ne (Move.answered c k t) f o = record {
  owner_lem = o.owner_lem;
  marker_lem = o.marker_lem;
  log_lem = λ h. absurd (cc (outside ne o f.owner_lem));
  least_lem = o.least_lem;
  current_lem = λ h. o.current_lem h;
  asks_lem = λ h. o.asks_lem h;
  orderly_lem = o.orderly_lem;
}
Move-Fine_other ne (Move.save c k t r e) f o = o
Move-Fine_other ne (Move.swap c k t r) f o = record {
  owner_lem = o.owner_lem;
  marker_lem = o.marker_lem;
  log_lem = λ h. absurd (cc (outside ne o f.owner_lem));
  least_lem = o.least_lem;
  current_lem = λ h. o.current_lem h;
  asks_lem = λ h. o.asks_lem h;
  orderly_lem = o.orderly_lem;
}
Move-Fine_other ne (Move.relead c k r now) f o = record {
  owner_lem = o.owner_lem;
  marker_lem = o.marker_lem;
  log_lem = λ h. o.log_lem h;
  least_lem = o.least_lem;
  current_lem = λ h. o.current_lem h;
  asks_lem = λ h. o.asks_lem h;
  orderly_lem = o.orderly_lem;
}
Move-Fine_other ne (Move.bump c k r) f o = record {
  owner_lem = o.owner_lem;
  marker_lem = o.marker_lem;
  log_lem = λ h. absurd (cc (outside ne o f.owner_lem));
  least_lem = omega (arith, o.least_lem);
  current_lem = λ h. absurd (cc (still ne o f.owner_lem));
  asks_lem = λ h. o.asks_lem h;
  orderly_lem = o.orderly_lem;
}
Move-Fine_other ne (Move.clear c k r) f o = record {
  owner_lem = o.owner_lem;
  marker_lem = o.marker_lem ∙ is_thread-ne c.refreshing ne f.marker_lem;
  log_lem = λ h. o.log_lem h;
  least_lem = o.least_lem;
  current_lem = λ h. o.current_lem h;
  asks_lem = λ h. o.asks_lem h;
  orderly_lem = o.orderly_lem;
}
Move-Fine_other ne (Move.release c k r) f o = record {
  owner_lem = outside ne o f.owner_lem;
  marker_lem = o.marker_lem;
  log_lem = λ h. o.log_lem h;
  least_lem = o.least_lem;
  current_lem = λ h. o.current_lem h;
  asks_lem = λ h. o.asks_lem h;
  orderly_lem = o.orderly_lem;
}
Move-Fine_other ne (Move.observe c) f o = o
Move-Fine_other ne (Move.apply c g) f o = o
Move-Fine_other ne (Move.retry c g t a e) f o = o
Move-Fine_other ne (Move.accept c g t a e) f o = o
Move-Fine_other ne (Move.refuse c g t a e) f o = o
Move-Fine_other ne (Move.reapply c g) f o = o
Move-Fine_other ne (Move.finish c g t) f o = o

held : (i : ℕ) (x : Option ℕ) → true ≡ is_thread i x → x ≢ none
held i none h e = cc
held i (some n) h e = cc

-- The log is complete whenever the lock is free.
pub Move-Steady :
    {i : ℕ} {c c' : Credential} {p p' : Pc} → Move i c p c' p' → Fine i c p → Steady c → Steady c'
Move-Steady (Move.current c now e) f s = s
Move-Steady (Move.expires c now e) f s = s
Move-Steady (Move.look c) f s = s
Move-Steady (Move.idle c k e) f s = s
Move-Steady (Move.barred c k e b) f s = s
Move-Steady (Move.queue c k e b) f s = s
Move-Steady (Move.acquire c k e) f s = λ l. cc
Move-Steady (Move.superseded c k e) f s = s
Move-Steady (Move.mark c k e) f s = s
Move-Steady (Move.enter c k) f s = s
Move-Steady (Move.back c k) f s = s
Move-Steady (Move.caught c k) f s = s
Move-Steady (Move.inner k m) f s =
    subst Steady (sym (Move-calm m (sym f.marker_lem) f.orderly_lem).1) s
Move-Steady (Move.refused c k) f s = s
Move-Steady (Move.answered c k t) f s = λ l. absurd (held _ c.lock f.owner_lem l)
Move-Steady (Move.save c k t r e) f s = s
Move-Steady (Move.swap c k t r) f s = λ l. absurd (held _ c.lock f.owner_lem l)
Move-Steady (Move.relead c k r now) f s = s
Move-Steady (Move.bump c k r) f s = λ l. absurd (held _ c.lock f.owner_lem l)
Move-Steady (Move.clear c k r) f s = s
Move-Steady (Move.release c k r) f s = λ _. f.log_lem refl
Move-Steady (Move.observe c) f s = s
Move-Steady (Move.apply c g) f s = s
Move-Steady (Move.retry c g t a e) f s = s
Move-Steady (Move.accept c g t a e) f s = s
Move-Steady (Move.refuse c g t a e) f s = s
Move-Steady (Move.reapply c g) f s = s
Move-Steady (Move.finish c g t) f s = s
