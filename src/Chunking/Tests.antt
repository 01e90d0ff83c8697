-- ===== src/Chunking/Tests.antt =====
-- A get of three ids in calls of two.
use jmaplib.Prelude.{
  Text, codes, List, [], ◌∷◌, some, ok, err, ◌≡◌, ℕ, refl, nat_eq, list_eq, list_beq,
}
use jmaplib.Invocation.{MethodCall, Value, str, list, nil, cons, Elements}
use jmaplib.Prelude.Dict.{Dict, insert}
use jmaplib.Chunking.{GetResult, merge_get_results, chunk_get_call, torn_read}
use jmaplib.Chunking.Laws.{answer}

chunker : Unit {0}
unfolding merge_get_results chunk_get_call insert list_beq
chunker = tt

abbrev call : MethodCall (Unit {0})
call = record { name = codes "Email/get"; arguments = []; parse = λ _. ok tt }

-- Each id that is a text is found, as itself.
abbrev found : Value → List Text
found (str s) = s ∷ []
found _ = []

abbrev missing : Value → List Text
missing _ = []

abbrev ids_of : Elements → List Value
ids_of nil = []
ids_of (cons v vs) = v ∷ ids_of vs

abbrev named_ids : Dict Text Value → List Value
named_ids ((_, list es) ∷ []) = ids_of es
named_ids _ = []

abbrev serve : MethodCall (Unit {0}) → GetResult Text (Unit {0})
serve c = answer tt (codes "s") found missing (named_ids c.arguments)

torn :
    merge_get_results
      (codes "Email/get")
      (serve call ∷ record (serve call) { state = some (codes "t") } ∷ [])
    ≡ err (torn_read (codes "Email/get") (codes "s" ∷ codes "t" ∷ []))
unfolding chunker
torn = refl

abbrev ids : List Value
ids = str (codes "b") ∷ str (codes "c") ∷ []

head_of : Value → ℕ
head_of (str (c ∷ s)) = c
head_of _ = 0
