-- ===== src/Sync/Query.antt =====
-- sync/query.py: splicing a delta into a cached, sparse query result.
pub mod Splice
pub mod Order
mod Tests
use jmaplib.Prelude.{
  ℕ, suc, ◌+◌, ◌-◌, Text, Bool, true, false, not, List, [], ◌∷◌, ◌++◌, map, Option, none, some, ltb,
  leb, max, if◌then◌else◌, ◌==◌, nat_eq, list_eq, length, take, drop, replicate, Result, ok, err,
  ◌>>=◌, ◌>>◌,
}
use jmaplib.Json.{ℤ, pos, negsuc}
use jmaplib.Patch.{contains}

-- `None` marks a position that exists and was never fetched.
abbrev pub SparseIds : Type 0
SparseIds = List (Option Text)

abbrev pub max_view_length : ℕ
max_view_length = 1_000_000

pub data What : Type 0 where
  position_value total_value added_index : What

pub data ViewError : Type 0 where
  too_large : What → ℤ → ViewError
  stale : (expected received : Text) → ViewError
  uncacheable : Text → ViewError

-- `_checked_position`
unfoldable pub checked_position : ℤ → What → Result ViewError ℕ
checked_position (negsuc n) what = err (too_large what (negsuc n))
checked_position (pos n) what = if ltb max_view_length n then err (too_large what (pos n)) else ok n

-- `_checked_total`
unfoldable pub checked_total : ℤ → Result ViewError ℕ
checked_total (negsuc n) = err (too_large total_value (negsuc n))
checked_total (pos n) = ok n

pub record AddedItem : Type 0 where
  pub id : Text
  pub index : ℤ

-- The ids that stay: what was never fetched, and what is not removed.
unfoldable pub survivors : List Text → SparseIds → SparseIds
unfolding contains
survivors doomed [] = []
survivors doomed (none ∷ ids) = none ∷ survivors doomed ids
survivors doomed (some id ∷ ids) =
    let rest = survivors doomed ids in if contains doomed id then rest else some id ∷ rest

abbrev pub Addition : Type 0
Addition = ℕ × Text

unfoldable pub check_additions : List AddedItem → Result ViewError (List Addition)
unfolding checked_position
check_additions [] = ok []
check_additions (item ∷ items) = do
  index ← checked_position item.index added_index
  rest ← check_additions items
  ok ((index, item.id) ∷ rest)

-- `sorted(…, key=lambda pair: pair[0])`, which is stable.
unfoldable pub insert_addition : Addition → List Addition → List Addition
insert_addition a [] = a ∷ []
insert_addition a (b ∷ bs) = if leb a.0 b.0 then a ∷ b ∷ bs else b ∷ insert_addition a bs

unfoldable pub sort_additions : List Addition → List Addition
unfolding insert_addition
sort_additions [] = []
sort_additions (a ∷ rest) = insert_addition a (sort_additions rest)

-- What one addition makes of `result` and of the survivors that are left.
abbrev pub place : Addition → SparseIds → SparseIds → SparseIds
place (index, id) result rest =
    let grown = result ++ take (index - length result) rest in
    grown ++ (replicate (index - length grown) none ++ some id ∷ [])

-- The merge pass.
unfoldable pub merge_pass : SparseIds → SparseIds → List Addition → SparseIds
merge_pass result rest [] = result ++ rest
merge_pass result rest (a ∷ additions) =
    merge_pass (place a result rest) (drop (a.0 - length result) rest) additions

unfoldable pub fit_total : Option ℤ → SparseIds → Result ViewError SparseIds
unfolding checked_position
fit_total none result = ok result
fit_total (some value) result = do
  n ← checked_position value total_value
  ok (if ltb n (length result) then take n result else result ++ replicate (n - length result) none)

unfoldable pub splice :
    SparseIds → List Text → List AddedItem → Option ℤ → Result ViewError SparseIds
unfolding survivors check_additions sort_additions merge_pass fit_total
splice ids removed added total = do
  additions ← check_additions added
  fit_total total (merge_pass [] (survivors removed ids) (sort_additions additions))

-- `QuerySpec`, its filter and its sort as the keys they are serialised to.
pub record QuerySpec : Type 0 where
  pub type_name : Text
  pub account_id : Text
  pub filter_key : Text
  pub sort_key : Text
  pub collapse_threads : Bool

pub record QueryResponse : Type 0 where
  pub ids : List Text
  pub query_state : Option Text
  pub position : ℤ
  pub total : Option ℤ
  pub can_calculate_changes : Bool

pub record QueryChangesResponse : Type 0 where
  pub old_query_state : Option Text
  pub new_query_state : Option Text
  pub total : Option ℤ
  pub removed : List Text
  pub added : List AddedItem

pub record QueryView : Type 0 where
  pub spec : QuerySpec
  pub ids : SparseIds
  pub query_state : Text
  pub total : Option ℕ
  pub can_calculate_changes : Bool

-- `state or ""`
abbrev pub or_empty : Option Text → Text
or_empty none = []
or_empty (some s) = s

unfoldable pub check_optional_total : Option ℤ → Result ViewError (Option ℕ)
unfolding checked_total
check_optional_total none = ok none
check_optional_total (some value) = do n ← checked_total value; ok (some n)

unfoldable pub from_query : QuerySpec → QueryResponse → Result ViewError QueryView
unfolding checked_position check_optional_total
from_query spec response = do
  start ← checked_position response.position position_value
  total ← check_optional_total response.total
  ok (record {
    spec = spec;
    ids = replicate start none ++ map some response.ids;
    query_state = or_empty response.query_state;
    total = total;
    can_calculate_changes = response.can_calculate_changes;
  })

abbrev known : SparseIds → List Text
known [] = []
known (none ∷ ids) = known ids
known (some id ∷ ids) = id ∷ known ids

unfoldable pub known_ids : QueryView → List Text
known_ids view = known view.ids

-- The last id of a list that is held.
abbrev last_known : SparseIds → Option Text
last_known [] = none
last_known (none ∷ ids) = last_known ids
last_known (some id ∷ ids) = elim (last_known ids) [ none ↦ some id | some later ↦ some later ]

unfoldable pub up_to_id : QueryView → Option Text
up_to_id view = last_known view.ids

-- `del ids[total:]`
abbrev pub cut_to : Option ℕ → SparseIds → SparseIds
cut_to none ids = ids
cut_to (some n) ids = take n ids

-- `QueryView.apply`: an error is raised before anything is changed.
unfoldable pub apply : QueryChangesResponse → QueryView → Result ViewError QueryView
unfolding splice check_optional_total
apply response view =
    let old_state = or_empty response.old_query_state in
    if not view.can_calculate_changes
    then err (uncacheable view.spec.type_name)
    else if not (old_state == view.query_state)
    then err (stale view.query_state old_state)
    else do
      ids ← splice view.ids response.removed response.added none
      total ← check_optional_total response.total
      ok (record view {
        ids = cut_to total ids;
        total = total;
        query_state = or_empty response.new_query_state;
      })

unfoldable pub reset : QueryResponse → QueryView → Result ViewError QueryView
unfolding from_query
reset response view = do
  refreshed ← from_query view.spec response
  ok (record view {
    ids = refreshed.ids;
    query_state = refreshed.query_state;
    total = refreshed.total;
    can_calculate_changes = refreshed.can_calculate_changes;
  })

-- `len(view)`
unfoldable pub view_length : QueryView → ℕ
view_length view = max (length view.ids) (elim view.total [ none ↦ 0 | some n ↦ n ])
