-- ===== src/Sync/Changes/Walk.antt =====
-- `catch_up` follows the pages to their end, keeps all of them, and ends.
use jmaplib.Prelude.{
  ℕ, zero, suc, Text, true, false, List, [], ◌∷◌, Option, none, some, nat_eq, list_eq, Result, ok,
  err, ◌>>=◌, ◌≡◌, refl, ap, sym, ◌∙◌, arith, Bool-cases, inl, inr, >>=-eq-ok, ok-injective, subst,
}
use jmaplib.Prelude.Dict.{lookup}
use jmaplib.Patch.{contains}
use jmaplib.Sync.Query.{or_empty}
use jmaplib.Sync.Changes.{
  settle, since_held, Store, get, set, ChangesResponse, ChangeSet, empty_changes, absorb, or_else,
  StreamError, Server, fetch, advance, collect, catch_up,
}

-- The state that a page leads to.
abbrev pub next_state : ChangesResponse → Text → Text
next_state response since = or_else (or_empty response.new_state) since

-- The pages that a server gives from its n-th call on, from a state, to the page that is the last.
pub data Followed (server : Server) : ℕ → Text → List ChangesResponse → Text → Type 0 where
  last_page :
      {n : ℕ} {since : Text} {r : ChangesResponse}
      → server n since ≡ ok r
      → r.has_more_changes ≡ false
      → Followed server n since (r ∷ []) (next_state r since)
  more_pages :
      {n : ℕ} {since last : Text} {r : ChangesResponse} {rs : List ChangesResponse}
      → server n since ≡ ok r
      → r.has_more_changes ≡ true
      → Followed server (suc n) (next_state r since) rs last
      → Followed server n since (r ∷ rs) last

abbrev pub absorb_all : List ChangesResponse → ChangeSet → ChangeSet
absorb_all [] changes = changes
absorb_all (r ∷ rs) changes = absorb_all rs (absorb r changes)

pub fetch-eq-ok :
    (server : Server) (n : ℕ) (since : Text) (r : ChangesResponse)
    → fetch server n since ≡ ok r
    → server n since ≡ ok r
unfolding fetch
fetch-eq-ok server n since r h = ground arith

pub advance-eq-ok :
    (r : ChangesResponse) (since : Text) (visited : List Text) (out : Text)
    → advance r since visited ≡ ok out
    → (out ≡ next_state r since) × (r.has_more_changes ≡ true → contains visited out ≡ false)
unfolding advance
advance-eq-ok r since visited out h = ground arith

-- What the walk does after a page, as `collect` writes it.
abbrev pub go_on :
    Server
    → (fuel n : ℕ) → List Text
    → ChangeSet
    → ChangesResponse
    → Text
    → Result StreamError (Text × ChangeSet)
go_on server fuel n visited changes r next = elim r.has_more_changes [
  | true ↦ collect server fuel (suc n) next (next ∷ visited) (absorb r changes)
  | false ↦ ok (next, absorb r changes)
]

-- The pages that a successful walk has followed, and what it has made of them.
abbrev IsWalk : Server → ℕ → Text → ChangeSet → Text → ChangeSet → Type 0
IsWalk server n since changes last out =
    (pages : List ChangesResponse) × Followed server n since pages last
    × (out ≡ absorb_all pages changes)

go_on-IsWalk :
    (server : Server) (fuel n : ℕ) (since : Text) (visited : List Text) (changes out : ChangeSet)
    (last : Text) (r : ChangesResponse) (next : Text)
    → server n since ≡ ok r
    → next_state r since ≡ next
    → (collect server fuel (suc n) next (next ∷ visited) (absorb r changes) ≡ ok (last, out)
        → IsWalk server (suc n) next (absorb r changes) last out)
    → go_on server fuel n visited changes r next ≡ ok (last, out)
    → IsWalk server n since changes last out
go_on-IsWalk server fuel n since visited changes out last r next answered leads later h =
    elim (Bool-cases r.has_more_changes) [
      | inl more ↦
          let (pages, followed, kept) = later (
            sym (
              ap
                (λ b. elim b as (λ _. Result StreamError (Text × ChangeSet)) [
                  | true ↦ collect server fuel (suc n) next (next ∷ visited) (absorb r changes)
                  | false ↦ ok (next, absorb r changes)
                ])
                more)
            ∙ h) in
          (
            r ∷ pages,
            more_pages answered more
                (subst (λ s. Followed server (suc n) s pages last) (sym leads) followed),
            kept,
          )
      | inr done ↦
          let ended : ◌≡◌ {A = Result StreamError (Text × ChangeSet)} (ok (next, absorb r changes))
              (ok (last, out)) =
            sym (
              ap
                (λ b. elim b as (λ _. Result StreamError (Text × ChangeSet)) [
                  | true ↦ collect server fuel (suc n) next (next ∷ visited) (absorb r changes)
                  | false ↦ ok (next, absorb r changes)
                ])
                done)
            ∙ h in
          let at_end : next_state r since ≡ last = leads ∙ ap (λ p. p.0) (ok-injective ended) in
          (
            r ∷ [],
            subst (Followed server n since (r ∷ [])) at_end (last_page answered done),
            sym (ap (λ p. p.1) (ok-injective ended)),
          )
    ]

collect-IsWalk :
    (server : Server) (fuel n : ℕ) (since : Text) (visited : List Text) (changes out : ChangeSet)
    (last : Text)
    → collect server fuel n since visited changes ≡ ok (last, out)
    → IsWalk server n since changes last out
unfolding collect
collect-IsWalk server zero n since visited changes out last h = cc
collect-IsWalk server (suc fuel) n since visited changes out last h =
    let (r, fetched, h') = >>=-eq-ok (fetch server n since) _ h in
    let (next, advanced, h'') =
      >>=-eq-ok (advance r since visited) (go_on server fuel n visited changes r) h' in
    go_on-IsWalk server fuel n since visited changes out last r next
      (fetch-eq-ok server n since r fetched) (sym (advance-eq-ok r since visited next advanced).0)
      (collect-IsWalk server fuel (suc n) next (next ∷ visited) (absorb r changes) out last) h''

-- What `catch_up` may leave: on an error the store as it was; otherwise all pages from the stored
-- cursor to the last one, folded into the result, and the state of the last page as the cursor.
abbrev pub Outcome : Server → Text → Store → Store × Result StreamError ChangeSet → Type 0
Outcome server key store (after, err e) = after ≡ store
Outcome server key store (after, ok changes) =
    (since : Text) × (last : Text) × (pages : List ChangesResponse) × (get key store ≡ some since)
    × Followed server 0 since pages last
    × (changes ≡ absorb_all pages empty_changes)
    × (after ≡ set key last store)

from_cursor :
    (server : Server) (key : Text) (store : Store) (since : Text)
    → lookup key store ≡ some since
    → (end : Result StreamError (Text × ChangeSet))
    → ((out : ChangeSet) (last : Text)
        → end ≡ ok (last, out)
        → IsWalk server 0 since empty_changes last out)
    → Outcome server key store (settle key store end)
from_cursor server key store since held (err e) walk = refl
from_cursor server key store since held (ok (last, out)) walk =
    let (pages, followed, kept) = walk out last refl in
    (since, last, pages, held, followed, kept, refl)

from_lookup :
    (server : Server) (fuel : ℕ) (key : Text) (store : Store) (found : Option Text)
    → lookup key store ≡ found
    → Outcome server key store (
        settle key store
          (since_held found >>= λ since. collect server fuel 0 since (since ∷ []) empty_changes))
from_lookup server fuel key store none h = refl
from_lookup server fuel key store (some since) h =
    from_cursor server key store since h (collect server fuel 0 since (since ∷ []) empty_changes)
      (collect-IsWalk server fuel 0 since (since ∷ []) empty_changes)

-- Whatever the server answers, `catch_up` either fails and leaves the stored cursor, or it has
-- followed every page from the stored cursor to the last, holds all of them, and stores its state.
pub catch_up-Outcome :
    (server : Server) (fuel : ℕ) (key : Text) (store : Store)
    → Outcome server key store (catch_up server fuel key store)
unfolding catch_up
catch_up-Outcome server fuel key store = from_lookup server fuel key store (lookup key store) refl
