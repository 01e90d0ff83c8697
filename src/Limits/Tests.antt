-- ===== src/Limits/Tests.antt =====
-- Chunking by an advertised limit.
use jmaplib.Prelude.{codes, ℕ, List, [], ◌∷◌, ok, ◌≡◌, refl, Text, nat_eq, list_eq}
use jmaplib.Prelude.Dict.{Dict}
use jmaplib.Json.{Json, int, pos}
use jmaplib.Limits.{get_objects, from_capability, chunk_size, chunked}
use jmaplib.Limits.Laws.{AreChunks, chunked_by_capability}

abbrev advertised : Dict Text Json
advertised = (codes "maxObjectsInGet", int (pos 2)) ∷ (codes "maxObjectsInSet", int (pos 0)) ∷ []

advertised_size : chunk_size get_objects (from_capability advertised) ≡ 2
unfolding from_capability
advertised_size = refl

abbrev numbers : List ℕ
numbers = 1 ∷ 2 ∷ 3 ∷ []

three_cut_by_two : chunked numbers 2 ≡ ok ((1 ∷ 2 ∷ []) ∷ (3 ∷ []) ∷ [])
unfolding chunked
three_cut_by_two = refl

chunked_by_capability_example :
    (chunks : List (List ℕ)) × (chunked numbers
        (chunk_size get_objects (from_capability advertised))
      ≡ ok chunks)
    × AreChunks numbers (chunk_size get_objects (from_capability advertised)) chunks
chunked_by_capability_example = chunked_by_capability advertised get_objects numbers
