-- ===== src/Json.antt =====
-- Decoded JSON (core/narrow.py): the values that `json.loads` builds, and how they are narrowed.
-- A float is kept as the text that it was written as: the program never computes with one.
use jmaplib.Prelude.{ℕ, Text, Bool, true, false, List, [], ◌∷◌, ◌≡◌, refl, ap}

-- `negsuc n` is -(n + 1).
pub data ℤ : Type 0 where
  pos : ℕ → ℤ
  negsuc : ℕ → ℤ

mutual
  pub data Json : Type 0 where
    null : Json
    bool : Bool → Json
    int : ℤ → Json
    float : Text → Json
    str : Text → Json
    arr : Items → Json
    obj : Fields → Json

  pub data Items : Type 0 where
    nil : Items
    cons : Json → Items → Items

  pub data Fields : Type 0 where
    end : Fields
    field : Text → Json → Fields → Fields

-- `as_list`
abbrev pub items : Items → List Json
items nil = []
items (cons x xs) = x ∷ items xs

abbrev pub of_items : List Json → Items
of_items [] = nil
of_items (x ∷ xs) = cons x (of_items xs)

-- `as_object`
abbrev pub fields : Fields → List (Text × Json)
fields end = []
fields (field k v fs) = (k, v) ∷ fields fs

pub items-of_items : (xs : List Json) → items (of_items xs) ≡ xs
items-of_items [] = refl
items-of_items (x ∷ xs) = ap (◌∷◌ x) (items-of_items xs)

pub of_items-items : (xs : Items) → of_items (items xs) ≡ xs
of_items-items nil = refl
of_items-items (cons x xs) = ap (cons x) (of_items-items xs)

abbrev pub is_object : Json → Bool
is_object (obj _) = true
is_object _ = false

abbrev pub is_list : Json → Bool
is_list (arr _) = true
is_list _ = false

-- `as_list_of`: a value as a list, wrapping a single item.
abbrev pub as_list_of : Json → List Json
as_list_of (arr xs) = items xs
as_list_of v = v ∷ []

-- `type(value).__name__`
pub data TypeName : Type 0 where
  none_type bool_type int_type float_type str_type list_type dict_type : TypeName

abbrev pub type_name : Json → TypeName
type_name null = none_type
type_name (bool _) = bool_type
type_name (int _) = int_type
type_name (float _) = float_type
type_name (str _) = str_type
type_name (arr _) = list_type
type_name (obj _) = dict_type
