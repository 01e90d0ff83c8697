-- ===== src/Auth/Tests.antt =====
-- Runs of the shared credential, and the theorems about it at their states.
use jmaplib.Prelude.{
  ℕ, ◌<◌, ◌≡◌, ◌≢◌, true, false, none, some, [], ◌∷◌, length, codes, refl, arith, ok, ◌⊎◌, list_beq,
}
use jmaplib.Auth.Challenge.{Answer, should_retry, refuse_insufficient_scope, find_challenge}
use jmaplib.Prelude.Dict
use jmaplib.Auth.Refresh
use jmaplib.Auth.Refresh.{
  OAuth2Token, Credential, Call, ahead, again, Pc, Move, System, Step, pick, Reach, here, next,
  made, renews_ahead, expires_within, lead_for, resending, waiting,
}
use jmaplib.Auth.Refresh.Fine.{least}
use jmaplib.Auth.Refresh.Single.{single_flight, exchanged_once, resent_newer, no_deadlock}

abbrev old_token : OAuth2Token
old_token = record {
  access_token = codes "old";
  refresh_token = some (codes "r");
  expires_at = none;
  scope = none;
}

abbrev new_token : OAuth2Token
new_token = record {
  access_token = codes "new";
  refresh_token = some (codes "s");
  expires_at = none;
  scope = none;
}

abbrev refused_answer : Answer
refused_answer = record {
  status_code = 401;
  challenges = record { scheme = codes "bearer"; params = [] } ∷ [];
}

retried : should_retry true refused_answer ≡ ok true
unfolding should_retry refuse_insufficient_scope find_challenge list_beq Dict.lookup
retried = refl

record Run : Type 0 where
  state : System
  reach : Reach (made old_token true true 0) state

abbrev begin : Run
begin = record {
  state = record { credential = made old_token true true 0; pc = λ _. Pc.start };
  reach = here;
}

abbrev go :
    (r : Run) (i : ℕ) {c : Credential} {p : Pc} → Move i r.state.credential (r.state.pc i) c p → Run
go r i {c} {p} m = record {
  state = record { credential = c; pc = Refresh.update r.state.pc i p };
  reach = next r.reach (pick i m);
}

fresh : (i : ℕ) (c : Credential) → c.token ≡ old_token → renews_ahead i c 0 ≡ false
unfolding renews_ahead expires_within
fresh i c h = ground (arith, h)

-- A thread sends its request and is refused.
abbrev first_sent : Run
first_sent =
    go (go (go begin 0 (Move.current _ 0 (fresh 0 _ refl))) 0 (Move.observe _)) 0 (Move.apply _ _)

abbrev both_sent : Run
both_sent =
    go (go (go first_sent 1 (Move.current _ 0 (fresh 1 _ refl))) 1 (Move.observe _)) 1
      (Move.apply _ _)

abbrev both_refused : Run
both_refused =
    go
      (go
        (go (go both_sent 0 (Move.retry _ _ _ refused_answer retried)) 0 (Move.queue _ _ refl refl))
        1 (Move.retry _ _ _ refused_answer retried))
      1 (Move.queue _ _ refl refl)

abbrev refreshing_run : Run
refreshing_run = go (go both_refused 0 (Move.acquire _ _ refl)) 0 (Move.mark _ _ refl)

abbrev refreshed_run : Run
refreshed_run =
    go
      (go
        (go
          (go
            (go
              (go (go refreshing_run 0 (Move.answered _ _ new_token)) 0 (Move.save _ _ _ true refl))
              0 (Move.swap _ _ _ _))
            0 (Move.relead _ _ _ 0))
          0 (Move.bump _ _ _))
        0 (Move.clear _ _ _))
      0 (Move.release _ _ _)

-- The second thread finds the token renewed and sends again without another refresh.
abbrev second_run : Run
second_run =
    go (go (go refreshed_run 1 (Move.acquire _ _ refl)) 1 (Move.superseded _ _ refl)) 1
      (Move.release _ _ _)

-- The callable of the first thread sends a request through the same credential, and it is refused.
abbrev nested_run : Run
nested_run =
    go
      (go
        (go
          (go
            (go (go refreshing_run 0 (Move.enter _ _)) 0
              (Move.inner _ (Move.current _ 0 (fresh 0 _ refl))))
            0 (Move.inner _ (Move.observe _)))
          0 (Move.inner _ (Move.apply _ _)))
        0 (Move.inner _ (Move.retry _ _ _ refused_answer retried)))
      0 (Move.inner _ (Move.barred _ _ refl refl))

nested_raises : nested_run.state.pc 0 ≡ Pc.within (again 0) Pc.raised
nested_raises = refl

single_flight_example :
    (◌≡◌ {A = ℕ} 0 0)
    × (least (refreshing_run.state.pc 0) ≡ refreshing_run.state.credential.generation)
single_flight_example = single_flight old_token true true 0 refreshing_run.reach 0 0 refl refl

exchanged_once_example :
    (second_run.state.credential.adopted
      ≡ second_run.state.credential.token ∷ second_run.state.credential.exchanged)
    × (length second_run.state.credential.exchanged ≡ second_run.state.credential.generation)
exchanged_once_example = exchanged_once old_token true true 0 second_run.reach refl

resent_newer_example : 0 < second_run.state.credential.generation
resent_newer_example = resent_newer old_token true true 0 second_run.reach 1 0 refl

no_deadlock_example :
    (refreshing_run.state.credential.lock ≡ none)
    ⊎ ((j : ℕ) × (j ≢ 1)
        × (refreshing_run.state.credential.lock ≡ some j)
        × (c : Credential) × (p : Pc) × Move j refreshing_run.state.credential
            (refreshing_run.state.pc j)
            c
            p)
no_deadlock_example = no_deadlock old_token true true 0 refreshing_run.reach 1 refl

exchanges : second_run.state.credential.exchanged ≡ old_token ∷ []
exchanges = refl
