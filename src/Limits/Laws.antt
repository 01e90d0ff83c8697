-- ===== src/Limits/Laws.antt =====
-- Chunks hold what was given, and every limit read from a server lets the chunking end.
use jmaplib.Prelude.{
  codes, ℕ, zero, suc, ◌≤◌, Text, List, [], ◌∷◌, ◌++◌, take, drop, length, ok, ◌≡◌, refl, ap, ◌∙◌,
  arith, All, take-append-drop, length-take, length-drop,
}
use jmaplib.Prelude.Dict.{Dict}
use jmaplib.Json.{Json}
use jmaplib.Limits.{
  min_objects_in_get, min_objects_in_set, min_calls_in_request, min_size_upload, min_size_request,
  LimitKey, get_objects, set_objects, calls_in_request, upload_size, request_size, uint,
  from_capability, chunk_size, chunked, slices,
}

abbrev pub concat {ℓ} : {A : Type ℓ} → List (List A) → List A
concat [] = []
concat (xs ∷ xss) = xs ++ concat xss

module _ {ℓ} {A : Type ℓ} where
  -- The chunks of `xs`: their concatenation is `xs`, and each has between one and `size` items.
  pub record AreChunks (xs : List A) (size : ℕ) (chunks : List (List A)) : Type ℓ where
    pub whole : concat chunks ≡ xs
    pub sizes : All (λ c. (1 ≤ length c) × (length c ≤ size)) chunks

  pub slices-AreChunks :
      (fuel : ℕ) (xs : List A) (n : ℕ)
      → length xs ≤ fuel
      → AreChunks xs (suc n) (slices fuel xs (suc n))
  unfolding slices
  slices-AreChunks zero [] n h = record { whole = refl; sizes = tt }
  slices-AreChunks zero (x ∷ xs) n h = absurd (omega arith)
  slices-AreChunks (suc fuel) [] n h = record { whole = refl; sizes = tt }
  slices-AreChunks (suc fuel) (x ∷ xs) n h =
      let later = slices-AreChunks fuel (drop n xs) n (omega (arith, length-drop n xs)) in
      record {
        whole =
            ap (λ l. take (suc n) (x ∷ xs) ++ l) later.whole ∙ take-append-drop (suc n) (x ∷ xs);
        sizes = ((omega (arith, length-take n xs), omega (arith, length-take n xs)), later.sizes);
      }

  chunked-AreChunks :
      (xs : List A) (size : ℕ)
      → 1 ≤ size
      → (chunks : List (List A)) × (chunked xs size ≡ ok chunks) × AreChunks xs size chunks
  unfolding chunked
  chunked-AreChunks xs zero h = absurd (omega arith)
  chunked-AreChunks xs (suc n) h =
      (slices (length xs) xs (suc n), refl, slices-AreChunks (length xs) xs n (omega arith))

uint_positive :
    (source : Dict Text Json) (key : Text) (fallback : ℕ)
    → 1 ≤ fallback
    → 1 ≤ uint source key fallback
unfolding uint
uint_positive source key fallback h = ground arith

chunk_size_positive :
    (value : Dict Text Json) (key : LimitKey) → 1 ≤ chunk_size key (from_capability value)
unfolding from_capability
chunk_size_positive value get_objects =
    uint_positive value (codes "maxObjectsInGet") min_objects_in_get (omega arith)
chunk_size_positive value set_objects =
    uint_positive value (codes "maxObjectsInSet") min_objects_in_set (omega arith)
chunk_size_positive value calls_in_request =
    uint_positive value (codes "maxCallsInRequest") min_calls_in_request (omega arith)
chunk_size_positive value upload_size =
    uint_positive value (codes "maxSizeUpload") min_size_upload (omega arith)
chunk_size_positive value request_size =
    uint_positive value (codes "maxSizeRequest") min_size_request (omega arith)

-- Whatever a server advertises, work that is chunked by a limit read from it is cut into chunks
-- that hold all of it in order, each with between one item and the limit.
pub chunked_by_capability {ℓ} :
    {A : Type ℓ} (value : Dict Text Json) (key : LimitKey) (xs : List A)
    → (chunks : List (List A)) × (chunked xs (chunk_size key (from_capability value)) ≡ ok chunks)
      × AreChunks xs (chunk_size key (from_capability value)) chunks
chunked_by_capability value key xs =
    chunked-AreChunks xs (chunk_size key (from_capability value)) (chunk_size_positive value key)
