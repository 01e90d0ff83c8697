-- ===== src/Chunking/Laws.antt =====
-- A get that is split gives what it gives unsplit.
use jmaplib.Prelude.{Text, List, [], ◌∷◌, ◌++◌, some, nat_eq, list_eq, Pairs, ◌≢◌}
use jmaplib.Invocation.{Value}
use jmaplib.Chunking.{GetResult}

abbrev pub concat_map {ℓ κ} : {A : Type ℓ} {B : Type κ} → (A → List B) → List A → List B
concat_map f [] = []
concat_map f (x ∷ xs) = f x ++ concat_map f xs

-- No id is named twice.
abbrev pub AreDistinct : List Value → Type 0
AreDistinct ids = Pairs (λ a b. a ≢ b) ids

module _ {T A : Type 0} (rest : A) (state : Text) (found : Value → List T)
    (missing : Value → List Text) where
  -- What a server that holds still answers to ids of which none is repeated: for each its record, or
  -- that it is not found.
  abbrev pub answer : List Value → GetResult T A
  answer ids = record {
    rest = rest;
    state = some state;
    items = concat_map found ids;
    not_found = concat_map missing ids;
  }
