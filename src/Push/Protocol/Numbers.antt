-- ===== src/Push/Protocol/Numbers.antt =====
-- push/websocket.py, `next_request_id`: the loop ends, and the id is not in use.
use jmaplib.Prelude.{
  ℕ, zero, suc, ◌+◌, ◌≤◌, ◌<◌, ◌≡◌, ◌≢◌, refl, sym, ap, ◌∙◌, arith, Text, true, false, not, ◌&&◌,
  List, [], ◌∷◌, length, some, ◌==◌, nat_eq, list_eq, int_of, int_of-decimal, Bool-cases, inl, inr,
  ==_iff, ==_ne,
}
use jmaplib.Patch.{contains}
use jmaplib.Push.Protocol.{
  Protocol, request_id_of, next_number, next_request_id, with_number, discard,
}

abbrev number_of : Text → ℕ
number_of [] = 0
number_of (c ∷ s) = int_of s

request_id_of-injective : (m n : ℕ) → request_id_of m ≡ request_id_of n → m ≡ n
request_id_of-injective m n h = sym (int_of-decimal m) ∙ ap number_of h ∙ int_of-decimal n

length-discard : (id : Text) (ids : List Text) → length (discard id ids) ≤ length ids
unfolding discard
length-discard id [] = omega arith
length-discard id (x ∷ xs) = ground (arith, length-discard id xs)

length-discard_of_contains :
    (id : Text) (ids : List Text) → contains ids id ≡ true → length (discard id ids) < length ids
unfolding discard contains
length-discard_of_contains id [] h = cc
length-discard_of_contains id (x ∷ xs) h = elim (Bool-cases (x == id)) [
  | inl e ↦ rw e (omega (arith, length-discard id xs))
  | inr e ↦ rw e (omega (arith, length-discard_of_contains id xs (rw e at h)))
]

pub contains-discard :
    (id x : Text) (ids : List Text)
    → contains (discard id ids) x ≡ (not (id == x) && contains ids x)
unfolding contains discard
contains-discard id x [] = ground arith
contains-discard id x (y ∷ ys) = elim (Bool-cases (y == id)) [
  | inl e ↦ rw (e, (==_iff y id).0 e) (ground (arith, contains-discard id x ys))
  | inr e ↦ rw e (ground (arith, contains-discard id x ys, ==_iff id x, ==_iff y x, ==_iff y id))
]

contains-discard_ne :
    (id sought : Text) (ids : List Text)
    → id ≢ sought
    → contains (discard id ids) sought ≡ contains ids sought
contains-discard_ne id sought ids ne = rw (contains-discard id sought ids, ==_ne id sought ne) refl

-- The ids from a counter on that are in use all stand in `left`.
next_number_total :
    (fuel counter : ℕ) (ids left : List Text)
    → ((n : ℕ)
        → counter < n
        → contains ids (request_id_of n) ≡ true
        → contains left (request_id_of n) ≡ true)
    → length left < fuel
    → (n : ℕ) × (next_number fuel counter ids ≡ some n)
      × (contains ids (request_id_of n) ≡ false)
      × (counter < n)
      × (n ≤ counter + fuel)
unfolding next_number
next_number_total zero counter ids left h lt = absurd (omega arith)
next_number_total (suc fuel) counter ids left h lt =
    elim (Bool-cases (contains ids (request_id_of (suc counter)))) [
      | inr free ↦ (suc counter, rw free refl, free, omega arith, omega arith)
      | inl used ↦
          let id = request_id_of (suc counter) in
          let (n, e, free, lo, hi) =
            next_number_total fuel (suc counter) ids (discard id left)
              (λ n lt' u.
                contains-discard_ne id (request_id_of n) left (λ same. absurd (apart n lt' same))
                ∙ h n (omega arith) u)
              (omega
                (arith, length-discard_of_contains id left (h (suc counter) (omega arith) used))) in
          (n, rw used e, free, omega arith, omega arith)
    ]
  where
    apart : (n : ℕ) → suc counter < n → request_id_of (suc counter) ≢ request_id_of n
    apart n lt' same = let e = request_id_of-injective (suc counter) n same in omega arith

-- The loop that takes a request id ends within one round more than there are outstanding ids,
-- gives an id that is not outstanding, and leaves the counter at its number, above where it was.
pub next_request_id_fresh :
    (p : Protocol)
    → (n : ℕ) × (next_request_id p ≡ some (request_id_of n, record p { counter = n }))
      × (contains p.outstanding (request_id_of n) ≡ false)
      × (p.counter < n)
      × (n ≤ p.counter + suc (length p.outstanding))
unfolding next_request_id
next_request_id_fresh p =
    let (n, e, free, lo, hi) =
      next_number_total (suc (length p.outstanding)) p.counter p.outstanding p.outstanding
        (λ n lt u. u) (omega arith) in
    (n, ap (with_number p) e, free, lo, hi)
