-- ===== src/Prelude/Strings.antt =====
-- A Python `str` as the list of its code points, and the `str` methods that the program calls.
use Prim.Native.Nat.{ℕ, zero, suc, ◌+◌, ◌*◌, ◌-◌, ◌/◌, ◌%◌}
use Prim.Native.Char.{code}
use Prim.Native.String.{String}
use mathlib.Core.Bool.{Bool, true, false, ◌&&◌}
use mathlib.Core.List.{List, [], ◌∷◌, ◌++◌}
use jmaplib.Prelude.Tests.{leb, ltb, nat_beq, if◌then◌else◌}

abbrev pub Text : Type 0
Text = List ℕ

abbrev pub codes : String → Text
codes String.[] = []
codes (String.◌∷◌ c s) = code c ∷ codes s

-- Put the first piece of a split in front of the pieces that follow it.
abbrev pub cons_head : ℕ → List Text → List Text
cons_head c [] = (c ∷ []) ∷ []
cons_head c (t ∷ ts) = (c ∷ t) ∷ ts

-- `text.split(chr(sep))`
unfoldable pub split : ℕ → Text → List Text
split sep [] = [] ∷ []
split sep (c ∷ s) = let rest = split sep s in if nat_beq c sep then [] ∷ rest else cons_head c rest

-- `sep.join(parts)`
unfoldable pub join : Text → List Text → Text
join sep [] = []
join sep (t ∷ []) = t
join sep (t ∷ u ∷ us) = t ++ (sep ++ join sep (u ∷ us))

-- `text.startswith(prefix)`
unfoldable pub starts_with : Text → Text → Bool
starts_with s [] = true
starts_with [] (p ∷ ps) = false
starts_with (c ∷ s) (p ∷ ps) = nat_beq c p && starts_with s ps

-- `text.removeprefix(chr(c))`
unfoldable pub remove_prefix : Text → ℕ → Text
remove_prefix [] c = []
remove_prefix (d ∷ s) c = if nat_beq d c then s else d ∷ s

-- `text.replace(chr(c), chr(a) + chr(b))`
unfoldable pub replace_char : ℕ → ℕ → ℕ → Text → Text
replace_char c a b [] = []
replace_char c a b (x ∷ s) =
    let rest = replace_char c a b s in if nat_beq x c then a ∷ b ∷ rest else x ∷ rest

-- `text.replace(chr(a) + chr(b), chr(c))`: occurrences are taken from the left and do not overlap.
-- The Boolean says that the character before was an `a` that is not yet written.
unfoldable pub replace_pair_from : ℕ → ℕ → ℕ → Bool → Text → Text
replace_pair_from a b c true [] = a ∷ []
replace_pair_from a b c false [] = []
replace_pair_from a b c true (x ∷ s) =
    let matched = replace_pair_from a b c false s in
    let again = replace_pair_from a b c true s in
    let other = replace_pair_from a b c false s in
    if nat_beq x b then c ∷ matched else if nat_beq x a then a ∷ again else a ∷ x ∷ other
replace_pair_from a b c false (x ∷ s) =
    let held = replace_pair_from a b c true s in
    let other = replace_pair_from a b c false s in if nat_beq x a then held else x ∷ other

unfoldable pub replace_pair : ℕ → ℕ → ℕ → Text → Text
unfolding replace_pair_from
replace_pair a b c s = replace_pair_from a b c false s

-- `c in "0123456789"`, for one ASCII character.
abbrev pub is_digit : ℕ → Bool
is_digit c = leb b'0' c && leb c b'9'

abbrev pub all_chars : (ℕ → Bool) → Text → Bool
all_chars p [] = true
all_chars p (c ∷ s) = p c && all_chars p s

-- `int(text)` for ASCII digits.
unfoldable pub int_from : ℕ → Text → ℕ
int_from n [] = n
int_from n (c ∷ s) = int_from (n * 10 + (c - b'0')) s

unfoldable pub int_of : Text → ℕ
unfolding int_from
int_of s = int_from 0 s

-- `str(n)`; the fuel bounds the number of digits.
unfoldable pub decimal_from : ℕ → ℕ → Text → Text
decimal_from zero n out = out
decimal_from (suc f) n out =
    let out' = (b'0' + n % 10) ∷ out in
    let rest = decimal_from f (n / 10) out' in if ltb n 10 then out' else rest

unfoldable pub decimal : ℕ → Text
unfolding decimal_from
decimal n = decimal_from (suc n) n []
