-- ===== src/Limits.antt =====
-- core/limits.py: the limits a server advertises, and the policy for obeying them.
pub mod Laws
mod Tests
use jmaplib.Prelude.{
  ℕ, zero, suc, ◌-◌, ◌^◌, ltb, if◌then◌else◌, Text, codes, Bool, true, false, List, [], ◌∷◌, none,
  some, take, drop, length, nat_eq, list_eq, list_beq, Result, ok, err,
}
use jmaplib.Prelude.Dict.{Dict, lookup}
use jmaplib.Json.{ℤ, pos, Json, int, str, arr, items}
use jmaplib.Patch.{contains}

abbrev pub min_size_upload : ℕ
min_size_upload = 50_000_000

abbrev pub min_concurrent_upload : ℕ
min_concurrent_upload = 4

abbrev pub min_size_request : ℕ
min_size_request = 10_000_000

abbrev pub min_concurrent_requests : ℕ
min_concurrent_requests = 4

abbrev pub min_calls_in_request : ℕ
min_calls_in_request = 16

abbrev pub min_objects_in_get : ℕ
min_objects_in_get = 500

abbrev pub min_objects_in_set : ℕ
min_objects_in_set = 500

pub record Limits : Type 0 where
  pub max_size_upload : ℕ
  pub max_concurrent_upload : ℕ
  pub max_size_request : ℕ
  pub max_concurrent_requests : ℕ
  pub max_calls_in_request : ℕ
  pub max_objects_in_get : ℕ
  pub max_objects_in_set : ℕ
  pub collation_algorithms : List Text

-- `_uint`: only an integer of at least 1 is read.
unfoldable pub uint : Dict Text Json → Text → ℕ → ℕ
unfolding lookup list_beq
uint source key fallback = elim (lookup key source) [
  | some (int (pos (suc n))) ↦ suc n
  | _ ↦ fallback
]

-- `_collations`: the strings of a list.
abbrev pub texts : List Json → List Text
texts [] = []
texts (str s ∷ rest) = s ∷ texts rest
texts (_ ∷ rest) = texts rest

abbrev pub collations : Json → List Text
collations (arr xs) = texts (items xs)
collations _ = []

abbrev pub advertised_collations : Dict Text Json → List Text
advertised_collations value = elim (lookup (codes "collationAlgorithms") value) [
  | some v ↦ collations v
  | none ↦ []
]

unfoldable pub from_capability : Dict Text Json → Limits
unfolding uint
from_capability value = record {
  max_size_upload = uint value (codes "maxSizeUpload") min_size_upload;
  max_concurrent_upload = uint value (codes "maxConcurrentUpload") min_concurrent_upload;
  max_size_request = uint value (codes "maxSizeRequest") min_size_request;
  max_concurrent_requests = uint value (codes "maxConcurrentRequests") min_concurrent_requests;
  max_calls_in_request = uint value (codes "maxCallsInRequest") min_calls_in_request;
  max_objects_in_get = uint value (codes "maxObjectsInGet") min_objects_in_get;
  max_objects_in_set = uint value (codes "maxObjectsInSet") min_objects_in_set;
  collation_algorithms = advertised_collations value;
}

pub data LimitKey : Type 0 where
  get_objects set_objects calls_in_request upload_size request_size : LimitKey

-- `DefaultLimitPolicy.chunk_size`, through the table `_CEILINGS`.
abbrev pub chunk_size : LimitKey → Limits → ℕ
chunk_size get_objects limits = limits.max_objects_in_get
chunk_size set_objects limits = limits.max_objects_in_set
chunk_size calls_in_request limits = limits.max_calls_in_request
chunk_size upload_size limits = limits.max_size_upload
chunk_size request_size limits = limits.max_size_request

abbrev pub may_chunk : LimitKey → Bool
may_chunk get_objects = true
may_chunk calls_in_request = true
may_chunk _ = false

-- What the checks raise: `InvalidChunkSizeError` and `CapabilityFieldError`.
pub data LimitError : Type 0 where
  invalid_chunk_size : ℕ → LimitError
  upload_too_large : (limit actual : ℕ) → LimitError
  collation_unknown : (offered : List Text) → (asked : Text) → LimitError

-- `_chunked`: the slices from `start` on; the fuel bounds their number.
unfoldable pub slices {ℓ} : {A : Type ℓ} → ℕ → List A → ℕ → List (List A)
slices zero xs size = []
slices (suc fuel) [] size = []
slices (suc fuel) (x ∷ xs) size = take size (x ∷ xs) ∷ slices fuel (drop size (x ∷ xs)) size

unfoldable pub chunked {ℓ} : {A : Type ℓ} → List A → ℕ → Result LimitError (List (List A))
unfolding slices
chunked xs zero = err (invalid_chunk_size zero)
chunked xs (suc n) = ok (slices (length xs) xs (suc n))

unfoldable pub check_upload_size : ℕ → Limits → Result LimitError (Unit {0})
check_upload_size size limits =
    if ltb limits.max_size_upload size
    then err (upload_too_large limits.max_size_upload size)
    else ok tt

unfoldable pub check_collation : Text → Limits → Result LimitError (Unit {0})
unfolding contains
check_collation collation limits =
    if contains limits.collation_algorithms collation
    then ok tt
    else err (collation_unknown limits.collation_algorithms collation)

-- `sys.maxsize`, of a 64-bit build.
abbrev pub unbounded : ℕ
unbounded = 2 ^ 63 - 1

abbrev pub known_collations : List Text
known_collations =
    codes "i;octet"
    ∷ codes "i;ascii-numeric"
    ∷ codes "i;ascii-casemap"
    ∷ codes "i;unicode-casemap"
    ∷ []

abbrev pub permissive : Limits
permissive = record {
  max_size_upload = unbounded;
  max_concurrent_upload = unbounded;
  max_size_request = unbounded;
  max_concurrent_requests = unbounded;
  max_calls_in_request = unbounded;
  max_objects_in_get = unbounded;
  max_objects_in_set = unbounded;
  collation_algorithms = known_collations;
}
