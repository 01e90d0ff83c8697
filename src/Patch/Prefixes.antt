-- ===== src/Patch/Prefixes.antt =====
-- Prefixes of token lists.
use jmaplib.Prelude.{
  Text, Bool, true, false, ◌&&◌, ◌||◌, List, [], ◌∷◌, map, ◌≡◌, refl, arith, ◌==◌, nat_eq, list_eq,
  list_beq,
}
use jmaplib.Patch.{Tokens, proper_prefixes}

-- Whether the first token list begins the second: equal lists included.
unfoldable pub is_prefix : Tokens → Tokens → Bool
unfolding list_beq
is_prefix [] ts = true
is_prefix (s ∷ ss) [] = false
is_prefix (s ∷ ss) (t ∷ ts) = s == t && is_prefix ss ts

unfoldable pub elem : Tokens → List Tokens → Bool
elem t [] = false
elem t (u ∷ us) = t == u || elem t us

elem-map_cons_nil : (t : Text) (ps : List Tokens) → elem [] (map (◌∷◌ t) ps) ≡ false
unfolding elem list_beq
elem-map_cons_nil t [] = refl
elem-map_cons_nil t (p ∷ ps) = elem-map_cons_nil t ps

pub elem-map_cons :
    (s t : Text) (ss : Tokens) (ps : List Tokens)
    → elem (s ∷ ss) (map (◌∷◌ t) ps) ≡ (s == t && elem ss ps)
unfolding elem list_beq
elem-map_cons s t ss [] = ground arith
elem-map_cons s t ss (p ∷ ps) = ground (arith, elem-map_cons s t ss ps)

-- A prefix is the whole list or one of its proper prefixes.
pub is_prefix-eq_or_proper : (s t : Tokens) → is_prefix s t ≡ (s == t || elem s (proper_prefixes t))
unfolding is_prefix elem list_beq
is_prefix-eq_or_proper [] [] = refl
is_prefix-eq_or_proper [] (t ∷ ts) = refl
is_prefix-eq_or_proper (s ∷ ss) [] = refl
is_prefix-eq_or_proper (s ∷ ss) (t ∷ ts) =
    ground (arith, is_prefix-eq_or_proper ss ts, elem-map_cons s t ss (proper_prefixes ts))
