-- ===== src/Sync/Changes/Tests.antt =====
-- Catching up over two pages, and a server that goes round in circles.
use jmaplib.Prelude.{
  zero, suc, Text, codes, List, [], ◌∷◌, some, Bool, true, false, ok, err, ◌≡◌, ◌≢◌, refl, arith,
  nat_eq, list_eq, list_beq,
}
use jmaplib.Prelude.Dict.{lookup, insert}
use jmaplib.Patch.{contains}
use jmaplib.Sync.Changes.{Server, Store, ChangesResponse, catch_up, stuck, out_of_fuel, pages}
use jmaplib.Sync.Changes.Walk.{Outcome, catch_up-Outcome}
use jmaplib.Sync.Changes.Pages.{IsAtLeastOnce, pages-IsAtLeastOnce}
use jmaplib.Sync.Changes.Ends.{StaysIn, catch_up_ends}

walker : Unit {0}
unfolding catch_up pages lookup insert list_beq contains
walker = tt

-- Two pages, and the state "c" at the end of both.
abbrev page : List Text → Bool → ChangesResponse
page created more = record {
  created = created;
  updated = [];
  destroyed = [];
  new_state = some (codes "c");
  has_more_changes = more;
}

abbrev server : Server
server zero since = ok (page (codes "x" ∷ []) true)
server (suc n) since = ok (page (codes "x" ∷ codes "y" ∷ []) false)

abbrev circling : Server
circling n since = ok (page [] true)

abbrev store : Store
store = (codes "k", codes "a") ∷ []

store_held : lookup (codes "k") store ≡ some (codes "a")
unfolding walker
store_held = refl

caught_up : (catch_up server 2 (codes "k") store).0 ≡ (codes "k", codes "c") ∷ []
unfolding walker
caught_up = refl

circled : catch_up circling 3 (codes "k") store ≡ (store, err (stuck (codes "c")))
unfolding walker
circled = refl

catch_up-Outcome_example : Outcome server (codes "k") store (catch_up server 2 (codes "k") store)
catch_up-Outcome_example = catch_up-Outcome server 2 (codes "k") store

server_stays : StaysIn server (codes "c" ∷ [])
unfolding contains list_beq
server_stays zero since r h = ground arith
server_stays (suc n) since r h = ground arith

catch_up_ends_example : (catch_up server 2 (codes "k") store).1 ≢ err out_of_fuel
catch_up_ends_example =
    catch_up_ends server (codes "c" ∷ []) 2 (codes "k") store server_stays (omega arith)

-- Two pages are handed over, and the first is gone beyond.
two_taken : (pages server 2 (codes "k") store).1.0 ≡ (codes "k", codes "c") ∷ []
unfolding walker
two_taken = refl

pages-IsAtLeastOnce_example :
    IsAtLeastOnce (codes "k") (codes "a") (pages server 2 (codes "k") store)
pages-IsAtLeastOnce_example = pages-IsAtLeastOnce server 1 (codes "k") (codes "a") store store_held
