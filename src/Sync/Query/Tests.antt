-- ===== src/Sync/Query/Tests.antt =====
-- A splice run, and its theorems at it.
use jmaplib.Prelude.{
  Text, codes, List, [], ◌∷◌, none, some, ok, ◌≡◌, refl, arith, nat_eq, list_eq, list_beq,
  get_elem?, All,
}
use jmaplib.Json.{pos}
use jmaplib.Sync.Query.{
  AddedItem, Addition, SparseIds, check_additions, splice, sort_additions, survivors,
}
use jmaplib.Sync.Query.Splice.{insert_all}
use jmaplib.Sync.Query.Order.{splice-insert_all, splice-Placed}

splicer : Unit {0}
unfolding splice check_additions insert_all list_beq
splicer = tt

abbrev held : SparseIds
held = some (codes "a") ∷ none ∷ some (codes "b") ∷ []

abbrev added : List AddedItem
added = record { id = codes "y"; index = pos 4 } ∷ record { id = codes "x"; index = pos 0 } ∷ []

abbrev additions : List Addition
additions = (4, codes "y") ∷ (0, codes "x") ∷ []

abbrev gone : List Text
gone = codes "a" ∷ []

abbrev spliced : SparseIds
spliced = some (codes "x") ∷ none ∷ some (codes "b") ∷ none ∷ some (codes "y") ∷ []

splice_run : splice held gone added none ≡ ok spliced
unfolding splicer
splice_run = refl

additions_checked : check_additions added ≡ ok additions
unfolding splicer
additions_checked = refl

splice-insert_all_example :
    splice held gone added none ≡ ok (insert_all (sort_additions additions) (survivors gone held))
splice-insert_all_example =
    splice-insert_all held gone added additions additions_checked ((ground arith, tt), (tt, tt))

splice-Placed_example : All (λ a. get_elem? spliced a.0 ≡ some (some a.1)) additions
splice-Placed_example =
    splice-Placed held gone added additions spliced additions_checked ((ground arith, tt), (tt, tt))
      splice_run
