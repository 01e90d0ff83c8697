-- ===== src/Sync/Changes/Ends.antt =====
-- `catch_up` ends: with a server that moves among finitely many states, the fuel is enough.
use jmaplib.Prelude.{
  ℕ, zero, suc, ◌≤◌, ◌<◌, Text, true, false, List, [], ◌∷◌, Option, none, some, if◌then◌else◌, ◌==◌,
  ==_iff, ==_refl, nat_eq, list_eq, length, Result, ok, err, ◌>>=◌, ◌≡◌, ◌≢◌, ap, sym, ◌∙◌, arith,
  Bool-cases, inl, inr, >>=-eq-err,
}
use jmaplib.Prelude.Dict.{lookup}
use jmaplib.Patch.{contains}
use jmaplib.Sync.Query.{or_empty}
use jmaplib.Sync.Changes.{
  settle, since_held, empty_changes, Store, ChangesResponse, ChangeSet, absorb, or_else,
  StreamError, out_of_fuel, Server, fetch, advance, collect, catch_up,
}
use jmaplib.Sync.Changes.Walk.{fetch-eq-ok, advance-eq-ok, go_on}

-- How many of the states the walk has not resumed from.
unfoldable unvisited : List Text → List Text → ℕ
unvisited [] visited = 0
unvisited (s ∷ states) visited =
    let rest = unvisited states visited in if contains visited s then rest else suc rest

unvisited_falls :
    (states visited : List Text) (a : Text)
    → unvisited states (a ∷ visited) ≤ unvisited states visited
unfolding unvisited contains
unvisited_falls [] visited a = omega arith
unvisited_falls (s ∷ states) visited a = ground (arith, unvisited_falls states visited a)

unvisited_drops :
    (states visited : List Text) (a : Text)
    → contains states a ≡ true
    → contains visited a ≡ false
    → unvisited states (a ∷ visited) < unvisited states visited
unfolding unvisited contains
unvisited_drops [] visited a h k = cc
unvisited_drops (s ∷ states) visited a h k = elim (Bool-cases (s == a)) [
  | inl same ↦
      let found : contains visited s ≡ false = ap (contains visited) ((==_iff s a).0 same) ∙ k in
      ground (arith, unvisited_falls states visited a, (==_iff a s).1 (sym ((==_iff s a).0 same)))
  | inr other ↦ ground (arith, unvisited_drops states visited a)
]

unvisited_bound : (states visited : List Text) → unvisited states visited ≤ length states
unfolding unvisited
unvisited_bound [] visited = omega arith
unvisited_bound (s ∷ states) visited = ground (arith, unvisited_bound states visited)

-- Every state that the server's pages lead to is one of `states`.
abbrev pub StaysIn : Server → List Text → Type 0
StaysIn server states =
    (n : ℕ) (since : Text) (r : ChangesResponse)
    → server n since ≡ ok r
    → contains states (or_empty r.new_state) ≡ true

contradiction : true ≡ false → ⊥
contradiction h = cc

contains_head : (a : Text) (xs : List Text) → contains (a ∷ xs) a ≡ true
unfolding contains
contains_head a xs = ground (arith, ==_refl a)

-- A state that the walk has not resumed from is one that the page names.
named :
    (visited : List Text) (s since next : Text)
    → contains visited since ≡ true
    → next ≡ or_else s since
    → contains visited next ≡ false
    → next ≡ s
named visited [] since next h leads fresh =
    absurd (contradiction (sym h ∙ ap (contains visited) (sym leads) ∙ fresh))
named visited (c ∷ s) since next h leads fresh = leads

fetch_ends : (server : Server) (n : ℕ) (since : Text) → fetch server n since ≢ err out_of_fuel
unfolding fetch
fetch_ends server n since h = ground arith

advance_ends :
    (r : ChangesResponse) (since : Text) (visited : List Text)
    → advance r since visited ≢ err out_of_fuel
unfolding advance
advance_ends r since visited h = ground arith

go_on_ends :
    (server : Server) (fuel n : ℕ) (visited : List Text) (changes : ChangeSet) (r : ChangesResponse)
    (next : Text)
    → (r.has_more_changes ≡ true
        → collect server fuel (suc n) next (next ∷ visited) (absorb r changes) ≢ err out_of_fuel)
    → go_on server fuel n visited changes r next ≢ err out_of_fuel
unfolding absorb
go_on_ends server fuel n visited changes r next later h = elim (Bool-cases r.has_more_changes) [
  | inl more ↦ later more (rw more at h)
  | inr done ↦ cc (rw done at h)
]

collect_ends :
    (server : Server) (states : List Text)
    → StaysIn server states
    → (fuel n : ℕ) (since : Text) (visited : List Text) (changes : ChangeSet)
    → unvisited states visited < fuel
    → contains visited since ≡ true
    → collect server fuel n since visited changes ≢ err out_of_fuel
unfolding collect
collect_ends server states stays zero n since visited changes low h e = absurd (omega arith)
collect_ends server states stays (suc fuel) n since visited changes low h e =
    elim (>>=-eq-err (fetch server n since) _ e) [
      | inl failed ↦ fetch_ends server n since failed
      | inr (r, fetched, e') ↦
          elim (>>=-eq-err (advance r since visited) (go_on server fuel n visited changes r) e') [
            | inl failed ↦ advance_ends r since visited failed
            | inr (next, advanced, e'') ↦
                let (leads, fresh) = advance-eq-ok r since visited next advanced in
                let known = stays n since r (fetch-eq-ok server n since r fetched) in
                go_on_ends server fuel n visited changes r next
                  (λ more.
                    let new = fresh more in
                    let at = named visited (or_empty r.new_state) since next h leads new in
                    collect_ends server states stays fuel (suc n) next (next ∷ visited)
                      (absorb r changes)
                      (omega (
                        arith,
                        unvisited_drops states visited next (ap (contains states) at ∙ known) new,
                      ))
                      (contains_head next visited))
                  e''
          ]
    ]

settle_out_of_fuel :
    (key : Text) (store : Store) (end : Result StreamError (Text × ChangeSet))
    → (settle key store end).1 ≡ err out_of_fuel
    → end ≡ err out_of_fuel
settle_out_of_fuel key store (err e) h = cc
settle_out_of_fuel key store (ok end) h = cc

settle_ends :
    (server : Server) (states : List Text) (fuel : ℕ) (key : Text) (store : Store)
    (found : Option Text)
    → StaysIn server states
    → length states < fuel
    → (settle key store
        (since_held found >>= λ since. collect server fuel 0 since (since ∷ []) empty_changes)).1
      ≢ err out_of_fuel
settle_ends server states fuel key store none stays enough h = cc
settle_ends server states fuel key store (some since) stays enough h =
    collect_ends server states stays fuel 0 since (since ∷ []) empty_changes
      (omega (arith, unvisited_bound states (since ∷ []))) (contains_head since [])
      (settle_out_of_fuel key store (collect server fuel 0 since (since ∷ []) empty_changes) h)

-- With a server whose pages lead to states of a finite list, fuel for one call more than the list
-- is long is enough: `catch_up` does not run out of it.
pub catch_up_ends :
    (server : Server) (states : List Text) (fuel : ℕ) (key : Text) (store : Store)
    → StaysIn server states
    → length states < fuel
    → (catch_up server fuel key store).1 ≢ err out_of_fuel
unfolding catch_up
catch_up_ends server states fuel key store stays enough =
    settle_ends server states fuel key store (lookup key store) stays enough
