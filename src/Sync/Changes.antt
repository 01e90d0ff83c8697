-- ===== src/Sync/Changes.antt =====
-- sync/state.py and sync/changes.py: following a type's changes from a stored cursor.
-- The store is the in-memory one. The client is `server n since`: what the n-th call of
-- `Foo/changes` since `since` gives, so that a server may answer differently each time.
pub mod Walk
pub mod Ends
pub mod Pages
mod Tests
use jmaplib.Prelude.{
  ℕ, zero, suc, ◌+◌, Text, Bool, true, false, not, ◌&&◌, List, [], ◌∷◌, ◌++◌, Option, none, some,
  if◌then◌else◌, ◌==◌, nat_eq, list_eq, list_beq, length, Result, ok, err, ◌>>=◌,
}
use jmaplib.Prelude.Dict.{Dict, lookup, insert, remove, has_key}
use jmaplib.Patch.{contains}
use jmaplib.Sync.Query.{or_empty}

-- `InMemoryStateStore`
abbrev pub Store : Type 0
Store = Dict Text Text

abbrev pub get : Text → Store → Option Text
get key store = lookup key store

abbrev pub set : Text → Text → Store → Store
set key state store = insert key state store

abbrev pub delete : Text → Store → Store
delete key store = remove key store

pub record ChangesResponse : Type 0 where
  pub created : List Text
  pub updated : List Text
  pub destroyed : List Text
  pub new_state : Option Text
  pub has_more_changes : Bool

-- A list of ids and the set `_seen` of what it holds.
pub record Listed : Type 0 where
  pub ids : List Text
  pub seen : List Text

pub record ChangeSet : Type 0 where
  pub created : Listed
  pub updated : Listed
  pub destroyed : Listed
  pub new_state : Text
  pub pages : ℕ

abbrev pub nothing : Listed
nothing = record { ids = []; seen = [] }

-- `ChangeSet(type_name)`
abbrev pub empty_changes : ChangeSet
empty_changes = record {
  created = nothing;
  updated = nothing;
  destroyed = nothing;
  new_state = [];
  pages = 0;
}

-- The inner loop of `absorb`.
unfoldable pub absorb_ids : Listed → List Text → Listed
unfolding contains
absorb_ids listed [] = listed
absorb_ids listed (id ∷ ids) =
    let skipped = absorb_ids listed ids in
    let added = absorb_ids (record { ids = listed.ids ++ id ∷ []; seen = id ∷ listed.seen }) ids in
    if contains listed.seen id then skipped else added

-- `a or b`, of texts.
abbrev pub or_else : Text → Text → Text
or_else [] b = b
or_else (c ∷ s) b = c ∷ s

unfoldable pub absorb : ChangesResponse → ChangeSet → ChangeSet
unfolding absorb_ids
absorb response changes = record {
  created = absorb_ids changes.created response.created;
  updated = absorb_ids changes.updated response.updated;
  destroyed = absorb_ids changes.destroyed response.destroyed;
  new_state = or_else (or_empty response.new_state) changes.new_state;
  pages = changes.pages + 1;
}

abbrev pub is_empty : ChangeSet → Bool
is_empty changes = elim (changes.created.ids ++ (changes.updated.ids ++ changes.destroyed.ids)) [
  | [] ↦ true
  | _ ∷ _ ↦ false
]

-- `touched`: the created ids, then the updated ones, each once.
unfoldable pub touched : ChangeSet → List Text
unfolding absorb_ids
touched changes = (absorb_ids (absorb_ids nothing changes.created.ids) changes.updated.ids).ids

-- `len(changes)`
abbrev pub change_count : ChangeSet → ℕ
change_count changes =
    length changes.created.ids + length changes.updated.ids + length changes.destroyed.ids

-- What the client's call raises: a `MethodError` of a type, or anything else.
pub data CallError : Type 0 where
  method_error : Text → CallError
  other_error : Text → CallError

abbrev pub cannot_calculate_changes : Text
cannot_calculate_changes = jmaplib.Prelude.codes "cannotCalculateChanges"

pub data StreamError : Type 0 where
  resync_required : Text → StreamError
  stuck : Text → StreamError
  raised : CallError → StreamError
  out_of_fuel : StreamError

abbrev pub Server : Type 0
Server = ℕ → Text → Result CallError ChangesResponse

abbrev pub is_resync_error : CallError → Bool
is_resync_error (method_error t) = t == cannot_calculate_changes
is_resync_error (other_error _) = false

-- `_fetch`
unfoldable pub fetch : Server → ℕ → Text → Result StreamError ChangesResponse
fetch server n since = elim (server n since) [
  | ok response ↦ ok response
  | err e ↦ if is_resync_error e then err (resync_required since) else err (raised e)
]

abbrev pub since_held : Option Text → Result StreamError Text
since_held none = err (resync_required [])
since_held (some since) = ok since

-- `_cursor`
unfoldable pub cursor : Text → Store → Result StreamError Text
cursor key store = since_held (get key store)

-- `_advance`: the state to resume from, which the caller adds to `visited`.
unfoldable pub advance : ChangesResponse → Text → List Text → Result StreamError Text
unfolding contains
advance response since visited =
    let advanced = or_else (or_empty response.new_state) since in
    if response.has_more_changes && contains visited advanced
    then err (stuck advanced)
    else ok advanced

-- The loop of `catch_up`.
unfoldable pub collect :
    Server → (fuel n : ℕ) → Text → List Text → ChangeSet → Result StreamError (Text × ChangeSet)
unfolding fetch advance absorb
collect server zero n since visited changes = err out_of_fuel
collect server (suc fuel) n since visited changes = fetch server n since >>= λ response.
    advance response since visited >>= λ advanced. elim response.has_more_changes [
      | true ↦ collect server fuel (suc n) advanced (advanced ∷ visited) (absorb response changes)
      | false ↦ ok (advanced, absorb response changes)
    ]

-- What `catch_up` does with the end of its loop.
abbrev pub settle :
    Text → Store → Result StreamError (Text × ChangeSet) → Store × Result StreamError ChangeSet
settle key store (err e) = (store, err e)
settle key store (ok (last, changes)) = (set key last store, ok changes)

-- `catch_up`, with the store as it leaves it.
unfoldable pub catch_up : Server → ℕ → Text → Store → Store × Result StreamError ChangeSet
unfolding collect cursor
catch_up server fuel key store =
    settle key store
      (cursor key store >>= λ since. collect server fuel 0 since (since ∷ []) empty_changes)

-- What a consumer has of `pages`: the pages it got, the store then, and the exception that ended
-- the walk.
abbrev pub Taken : Type 0
Taken = List ChangesResponse × (Store × Option StreamError)

abbrev pub hand_over :
    Store → (ChangesResponse → Taken) → Result StreamError ChangesResponse → Taken
hand_over store next (err e) = ([], (store, some e))
hand_over store next (ok response) = next response

-- The part of the loop after the `yield`; `rest` is the walk from the state it leads to.
abbrev pub go_beyond :
    (Text → Taken) → Text → Store → ChangesResponse → Result StreamError Text → Taken
go_beyond rest key store response (err e) = (response ∷ [], (store, some e))
go_beyond rest key store response (ok advanced) = elim response.has_more_changes [
  | true ↦ (response ∷ (rest advanced).0, (rest advanced).1)
  | false ↦ (response ∷ [], (set key advanced store, none))
]

-- The loop of `pages`, when the consumer asks for `count` pages. The part after a `yield` runs only
-- when the next page is asked for.
unfoldable pub pages_from : Server → (count n : ℕ) → Text → Text → List Text → Store → Taken
unfolding fetch advance
pages_from server zero n key since visited store = ([], (store, none))
pages_from server (suc zero) n key since visited store =
    hand_over store (λ response. (response ∷ [], (store, none))) (fetch server n since)
pages_from server (suc (suc count)) n key since visited store =
    hand_over store
      (λ response.
        go_beyond
          (λ advanced.
            pages_from server (suc count) (suc n) key advanced (advanced ∷ visited)
              (set key advanced store))
          key store response (advance response since visited))
      (fetch server n since)

-- `pages`: nothing runs, the reading of the cursor included, before a first page is asked for.
abbrev pub from_cursor : Server → ℕ → Text → Store → Result StreamError Text → Taken
from_cursor server count key store (err e) = ([], (store, some e))
from_cursor server count key store (ok since) =
    pages_from server count 0 key since (since ∷ []) store

unfoldable pub pages : Server → ℕ → Text → Store → Taken
unfolding pages_from cursor
pages server zero key store = ([], (store, none))
pages server (suc count) key store = from_cursor server (suc count) key store (cursor key store)
