-- ===== src/Sync/Changes/Pages.antt =====
-- `pages` hands over each page at least once: the stored cursor never passes a page that the
-- consumer has not asked to go beyond.
use jmaplib.Prelude.{
  ℕ, zero, suc, Text, Bool, true, false, List, [], ◌∷◌, ◌++◌, none, some, if◌then◌else◌, ==_refl,
  nat_eq, list_eq, Result, ok, err, ◌≡◌, ◌≢◌, refl, ap, sym, subst, ◌∙◌, inl, inr, ◌⊎◌,
}
use jmaplib.Prelude.Dict.{lookup, lookup-insert}
use jmaplib.Sync.Changes.{
  Store, set, ChangesResponse, StreamError, Server, Taken, fetch, advance, hand_over, go_beyond,
  pages_from, pages, since_held, from_cursor,
}
use jmaplib.Sync.Changes.Walk.{next_state, advance-eq-ok}

-- The cursor after the pages of a list have been gone beyond.
abbrev pub beyond : List ChangesResponse → Text → Text
beyond [] since = since
beyond (r ∷ rs) since = beyond rs (next_state r since)

-- The last page of a list ends the walk.
abbrev pub Ended : List ChangesResponse → Type 0
Ended [] = ⊥
Ended (r ∷ []) = r.has_more_changes ≡ false
Ended (r ∷ s ∷ rs) = Ended (s ∷ rs)

-- The stored cursor is that of a run of the pages that were handed over: of all of them, and then
-- an exception or the last page has ended the walk, or of all but the last of them.
abbrev pub IsAtLeastOnce : Text → Text → Taken → Type 0
IsAtLeastOnce key since taken =
    (done : List ChangesResponse) × (lookup key taken.1.0 ≡ some (beyond done since))
    × (((taken.0 ≡ done) × ((taken.1.1 ≢ none) ⊎ Ended done))
        ⊎ ((r : ChangesResponse) × (taken.0 ≡ done ++ r ∷ [])))

Ended-cons : (r : ChangesResponse) (rs : List ChangesResponse) → Ended rs → Ended (r ∷ rs)
Ended-cons r [] h = absurd h
Ended-cons r (s ∷ rs) h = h

lookup-set : (key a : Text) (store : Store) → lookup key (set key a store) ≡ some a
lookup-set key a store =
    lookup-insert key key a store ∙ ap (λ b. if b then some a else lookup key store) (==_refl key)

hand_over-IsAtLeastOnce :
    (key since : Text) (store : Store) (next : ChangesResponse → Taken)
    (found : Result StreamError ChangesResponse)
    → lookup key store ≡ some since
    → ((r : ChangesResponse) → IsAtLeastOnce key since (next r))
    → IsAtLeastOnce key since (hand_over store next found)
hand_over-IsAtLeastOnce key since store next (err e) held h = ([], held, inl (refl, inl (λ p. cc)))
hand_over-IsAtLeastOnce key since store next (ok r) held h = h r

cons-IsAtLeastOnce :
    (key since a : Text) (r : ChangesResponse) (rest : Taken)
    → a ≡ next_state r since
    → IsAtLeastOnce key a rest
    → IsAtLeastOnce key since (r ∷ rest.0, rest.1)
cons-IsAtLeastOnce key since a r rest leads (done, held, inl (all, inl raised)) =
    (r ∷ done, held ∙ ap (λ s. some (beyond done s)) leads, inl (ap (◌∷◌ r) all, inl raised))
cons-IsAtLeastOnce key since a r rest leads (done, held, inl (all, inr ended)) = (
  r ∷ done,
  held ∙ ap (λ s. some (beyond done s)) leads,
  inl (ap (◌∷◌ r) all, inr (Ended-cons r done ended)),
)
cons-IsAtLeastOnce key since a r rest leads (done, held, inr (last, all)) =
    (r ∷ done, held ∙ ap (λ s. some (beyond done s)) leads, inr (last, ap (◌∷◌ r) all))

more_or_last :
    (key since : Text) (x y : Taken) (more : Bool)
    → IsAtLeastOnce key since x
    → (more ≡ false → IsAtLeastOnce key since y)
    → IsAtLeastOnce key since (elim more [ true ↦ x | false ↦ y ])
more_or_last key since x y true h k = h
more_or_last key since x y false h k = k refl

go_beyond-IsAtLeastOnce :
    (key since : Text) (visited : List Text) (store : Store) (rest : Text → Taken)
    (r : ChangesResponse) (adv : Result StreamError Text)
    → lookup key store ≡ some since
    → advance r since visited ≡ adv
    → ((a : Text) → IsAtLeastOnce key a (rest a))
    → IsAtLeastOnce key since (go_beyond rest key store r adv)
go_beyond-IsAtLeastOnce key since visited store rest r (err e) held h later =
    ([], held, inr (r, refl))
go_beyond-IsAtLeastOnce key since visited store rest r (ok a) held h later =
    let leads = (advance-eq-ok r since visited a h).0 in
    more_or_last key since (r ∷ (rest a).0, (rest a).1) (r ∷ [], (set key a store, none))
      r.has_more_changes (cons-IsAtLeastOnce key since a r (rest a) leads (later a))
      (λ over. (r ∷ [], lookup-set key a store ∙ ap some leads, inl (refl, inr over)))

-- For any number of pages asked for, at least one, from any point of the walk on.
pages_from-IsAtLeastOnce :
    (server : Server) (count n : ℕ) (key since : Text) (visited : List Text) (store : Store)
    → lookup key store ≡ some since
    → IsAtLeastOnce key since (pages_from server (suc count) n key since visited store)
unfolding pages_from
pages_from-IsAtLeastOnce server zero n key since visited store held =
    hand_over-IsAtLeastOnce key since store _ (fetch server n since) held
      (λ r. ([], held, inr (r, refl)))
pages_from-IsAtLeastOnce server (suc count) n key since visited store held =
    hand_over-IsAtLeastOnce key since store _ (fetch server n since) held (λ r.
      go_beyond-IsAtLeastOnce key since visited store _ r (advance r since visited) held refl (λ a.
        pages_from-IsAtLeastOnce server count (suc n) key a (a ∷ visited) (set key a store)
          (lookup-set key a store)))

-- From a stored cursor, whatever the server answers, after at least one page was asked for: the
-- stored cursor is that of all pages handed over, and then an exception or the last page has ended
-- the walk, or it is that of all but the last of them.
pub pages-IsAtLeastOnce :
    (server : Server) (count : ℕ) (key since : Text) (store : Store)
    → lookup key store ≡ some since
    → IsAtLeastOnce key since (pages server (suc count) key store)
unfolding pages
pages-IsAtLeastOnce server count key since store held =
    subst
      (λ found.
        IsAtLeastOnce key since (from_cursor server (suc count) key store (since_held found)))
      (sym held) (pages_from-IsAtLeastOnce server count 0 key since (since ∷ []) store held)
