-- ===== src/Sync/Query/Order.antt =====
-- What `splice` does with additions at distinct indices.
use jmaplib.Prelude.{
  ℕ, zero, suc, ◌-◌, ◌≤◌, ◌<◌, Text, List, [], ◌∷◌, ◌++◌, Option, none, some, length, take, drop,
  replicate, get_elem?, ok, ◌≡◌, refl, ap, sym, ◌∙◌, arith, All, length-append, length-take,
  length-replicate, ◌≢◌, append_assoc, ok-injective,
}
use jmaplib.Sync.Query.{
  SparseIds, Addition, AddedItem, insert_addition, sort_additions, survivors, check_additions,
  fit_total, splice,
}
use jmaplib.Sync.Query.Splice.{insert_at, insert_all, Rising, merge_pass-insert_all}

abbrev pub HasDistinctIndices : List Addition → Type 0
HasDistinctIndices [] = Unit
HasDistinctIndices (a ∷ additions) = All (λ b. a.0 ≢ b.0) additions × HasDistinctIndices additions

insert_addition-All {ℓ} :
    (P : Addition → Type ℓ) (a : Addition) (bs : List Addition)
    → P a
    → All P bs
    → All P (insert_addition a bs)
unfolding insert_addition
insert_addition-All P a [] h k = (h, k)
insert_addition-All P a (b ∷ bs) h (here, k) = ground (arith, insert_addition-All P a bs h k)

insert_addition-All_parts {ℓ} :
    (P : Addition → Type ℓ) (a : Addition) (bs : List Addition)
    → All P (insert_addition a bs)
    → P a × All P bs
unfolding insert_addition
insert_addition-All_parts P a [] h = h
insert_addition-All_parts P a (b ∷ bs) h = ground (arith, insert_addition-All_parts P a bs)

sort_additions-All {ℓ} :
    (P : Addition → Type ℓ) (xs : List Addition) → All P xs → All P (sort_additions xs)
unfolding sort_additions
sort_additions-All P [] h = h
sort_additions-All P (a ∷ xs) h =
    insert_addition-All P a (sort_additions xs) h.0 (sort_additions-All P xs h.1)

sort_additions-All_parts {ℓ} :
    (P : Addition → Type ℓ) (xs : List Addition) → All P (sort_additions xs) → All P xs
unfolding sort_additions
sort_additions-All_parts P [] h = h
sort_additions-All_parts P (a ∷ xs) h =
    let (here, rest) = insert_addition-All_parts P a (sort_additions xs) h in
    (here, sort_additions-All_parts P xs rest)

insert_addition-Rising :
    (n : ℕ) (a : Addition) (bs : List Addition)
    → n ≤ a.0
    → All (λ b. a.0 ≢ b.0) bs
    → Rising n bs
    → Rising n (insert_addition a bs)
unfolding insert_addition
insert_addition-Rising n a [] h k r = (h, tt)
insert_addition-Rising n a (b ∷ bs) h (ne, k) (low, r) =
    ground (arith, insert_addition-Rising (suc b.0) a bs)

sort_additions-Rising : (xs : List Addition) → HasDistinctIndices xs → Rising 0 (sort_additions xs)
unfolding sort_additions
sort_additions-Rising [] h = tt
sort_additions-Rising (a ∷ xs) (fresh, h) =
    insert_addition-Rising 0 a (sort_additions xs) (omega arith)
      (sort_additions-All (λ b. a.0 ≢ b.0) xs fresh) (sort_additions-Rising xs h)

-- When the additions pass their checks, their indices differ and no total is passed, the merge pass is
-- the textbook splice: the survivors, with the additions inserted one by one from the lowest index on.
pub splice-insert_all :
    (ids : SparseIds) (removed : List Text) (added : List AddedItem) (additions : List Addition)
    → check_additions added ≡ ok additions
    → HasDistinctIndices additions
    → splice ids removed added none
      ≡ ok (insert_all (sort_additions additions) (survivors removed ids))
unfolding splice fit_total
splice-insert_all ids removed added additions checked distinct = rw checked (
    ap ok (
      merge_pass-insert_all [] (survivors removed ids) (sort_additions additions)
        (sort_additions-Rising additions distinct)))

module _ {ℓ} {A : Type ℓ} where
  get_elem?-append_before :
      (i : ℕ) (xs ys : List A) → i < length xs → get_elem? (xs ++ ys) i ≡ get_elem? xs i
  get_elem?-append_before i [] ys h = absurd (omega arith)
  get_elem?-append_before zero (x ∷ xs) ys h = refl
  get_elem?-append_before (suc i) (x ∷ xs) ys h = get_elem?-append_before i xs ys (omega arith)

  get_elem?-append_at :
      (i : ℕ) (xs : List A) (y : A) (ys : List A)
      → i ≡ length xs
      → get_elem? (xs ++ y ∷ ys) i ≡ some y
  get_elem?-append_at zero [] y ys h = refl
  get_elem?-append_at (suc i) [] y ys h = absurd (omega arith)
  get_elem?-append_at zero (x ∷ xs) y ys h = absurd (omega arith)
  get_elem?-append_at (suc i) (x ∷ xs) y ys h = get_elem?-append_at i xs y ys (omega arith)

  get_elem?_bound : (i : ℕ) (xs : List A) (x : A) → get_elem? xs i ≡ some x → i < length xs
  get_elem?_bound i [] x h = cc
  get_elem?_bound zero (y ∷ xs) x h = omega arith
  get_elem?_bound (suc i) (y ∷ xs) x h = omega (arith, get_elem?_bound i xs x h)

  get_elem?-take : (i n : ℕ) (xs : List A) → i < n → get_elem? (take n xs) i ≡ get_elem? xs i
  get_elem?-take i zero xs h = absurd (omega arith)
  get_elem?-take i (suc n) [] h = refl
  get_elem?-take zero (suc n) (x ∷ xs) h = refl
  get_elem?-take (suc i) (suc n) (x ∷ xs) h = get_elem?-take i n xs (omega arith)

get_elem?-insert_at :
    (a : Addition) (ids : SparseIds) → get_elem? (insert_at a ids) a.0 ≡ some (some a.1)
unfolding insert_at
get_elem?-insert_at (index, id) ids =
    let pad = replicate {A = Option Text} (index - length ids) none in
    ap (λ l. get_elem? l index) (sym (append_assoc (take index ids) pad (some id ∷ drop index ids)))
    ∙ get_elem?-append_at index (take index ids ++ pad) (some id) (drop index ids) (
        omega (
          arith,
          length-append (take index ids) pad,
          length-take index ids,
          length-replicate {A = Option Text} (index - length ids) none,
        ))

get_elem?-insert_at_before :
    (i : ℕ) (a : Addition) (ids : SparseIds) (held : Option Text)
    → i < a.0
    → get_elem? ids i ≡ some held
    → get_elem? (insert_at a ids) i ≡ some held
unfolding insert_at
get_elem?-insert_at_before i (index, id) ids held low h =
    get_elem?-append_before i (take index ids)
      (replicate (index - length ids) none ++ some id ∷ drop index ids)
      (omega (arith, length-take index ids, get_elem?_bound i ids held h))
    ∙ get_elem?-take i index ids low
    ∙ h

-- A position that later insertions are all beyond keeps what it holds.
get_elem?-insert_all_before :
    (i n : ℕ) (additions : List Addition) (ids : SparseIds) (held : Option Text)
    → i < n
    → Rising n additions
    → get_elem? ids i ≡ some held
    → get_elem? (insert_all additions ids) i ≡ some held
unfolding insert_all
get_elem?-insert_all_before i n [] ids held low rising h = h
get_elem?-insert_all_before i n (a ∷ additions) ids held low (here, rising) h =
    get_elem?-insert_all_before i (suc a.0) additions (insert_at a ids) held (omega arith) rising
      (get_elem?-insert_at_before i a ids held (omega arith) h)

insert_all-Placed :
    (n : ℕ) (additions : List Addition) (ids : SparseIds)
    → Rising n additions
    → All (λ a. get_elem? (insert_all additions ids) a.0 ≡ some (some a.1)) additions
unfolding insert_all
insert_all-Placed n [] ids rising = tt
insert_all-Placed n (a ∷ additions) ids (low, rising) = (
  get_elem?-insert_all_before a.0 (suc a.0) additions (insert_at a ids) (some a.1) (omega arith)
      rising (get_elem?-insert_at a ids),
  insert_all-Placed (suc a.0) additions (insert_at a ids) rising,
)

-- When the additions pass their checks, their indices differ and no total is passed, each added id
-- stands at its own index of the spliced list.
pub splice-Placed :
    (ids : SparseIds) (removed : List Text) (added : List AddedItem) (additions : List Addition)
    (out : SparseIds)
    → check_additions added ≡ ok additions
    → HasDistinctIndices additions
    → splice ids removed added none ≡ ok out
    → All (λ a. get_elem? out a.0 ≡ some (some a.1)) additions
splice-Placed ids removed added additions out checked distinct h =
    let same =
      ok-injective (sym h ∙ splice-insert_all ids removed added additions checked distinct) in
    rw same (
      sort_additions-All_parts
        (λ a.
          get_elem? (insert_all (sort_additions additions) (survivors removed ids)) a.0
          ≡ some (some a.1))
        additions
        (insert_all-Placed 0 (sort_additions additions) (survivors removed ids)
          (sort_additions-Rising additions distinct)))
