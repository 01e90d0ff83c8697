-- ===== src/UriTemplate.antt =====
-- core/uritemplate.py: the URI templates of level 1, their parser and their expansion. A template is
-- the list of its code points.
pub mod RoundTrip
pub mod Sound
mod Tests
use jmaplib.Prelude.{
  ℕ, zero, suc, Text, codes, Bool, true, false, ◌&&◌, ◌||◌, List, [], ◌∷◌, ◌++◌, map, length,
  Option, none, some, if◌then◌else◌, ◌==◌, leb, nat_eq, list_eq, list_beq, Result, ok, err, ◌>>=◌,
}
use jmaplib.Prelude.Dict.{Dict, lookup}

unfoldable pub has_code : ℕ → Text → Bool
has_code c [] = false
has_code c (d ∷ s) = d == c || has_code c s

-- `_OPERATORS`
abbrev pub operators : Text
operators = codes "+#./;?&=,!@|"

abbrev pub is_varchar : ℕ → Bool
is_varchar c =
    (leb b'A' c && leb c b'Z')
    || (leb b'a' c && leb c b'z')
    || (leb b'0' c && leb c b'9')
    || c == b'_'

abbrev pub is_hex : ℕ → Bool
is_hex c = (leb b'A' c && leb c b'F') || (leb b'a' c && leb c b'f') || (leb b'0' c && leb c b'9')

-- `_VARNAME_RE` as an automaton: at the start or after a dot, after a varchar, and after `%` and one
-- digit of it.
pub data Scan : Type 0 where
  fresh chars percent digit bad : Scan

abbrev pub scan_step : Scan → ℕ → Scan
scan_step fresh c = if c == b'%' then percent else if is_varchar c then chars else bad
scan_step chars c =
    if c == b'%' then percent else if is_varchar c then chars else if c == b'.' then fresh else bad
scan_step percent c = if is_hex c then digit else bad
scan_step digit c = if is_hex c then chars else bad
scan_step bad c = bad

abbrev pub is_final : Scan → Bool
is_final chars = true
is_final _ = false

unfoldable pub matches_from : Scan → Text → Bool
matches_from st [] = is_final st
matches_from st (c ∷ s) = matches_from (scan_step st c) s

-- `_VARNAME_RE.match(body)`
unfoldable pub is_varname : Text → Bool
unfolding matches_from
is_varname body = matches_from fresh body

-- What a template is refused for; `body` is what stands between the braces.
pub data TemplateError : Type 0 where
  -- `InvalidTemplateError`
  empty_expression brace_inside unmatched unterminated : TemplateError
  not_varname : Text → TemplateError
  -- `UnsupportedTemplateError`
  operator variable_list prefix_modifier explode_modifier : Text → TemplateError
  -- `MissingVariableError`, with the names supplied
  missing_variable : Text → List Text → TemplateError
  -- the loop of `_parse` has not ended
  unfinished : TemplateError

abbrev pub starts_with_operator : Text → Bool
starts_with_operator [] = false
starts_with_operator (c ∷ s) = has_code c operators

-- `body.endswith("*")`
unfoldable pub ends_with_star : Text → Bool
ends_with_star [] = false
ends_with_star (c ∷ []) = c == b'*'
ends_with_star (c ∷ d ∷ s) = ends_with_star (d ∷ s)

-- `_varname`
unfoldable pub varname : Text → Result TemplateError Text
unfolding has_code is_varname ends_with_star
varname [] = err empty_expression
varname (c ∷ s) =
    let body : Text = c ∷ s in
    if has_code b'{' body
    then err brace_inside
    else if starts_with_operator body
    then err (operator body)
    else if has_code b',' body
    then err (variable_list body)
    else if has_code b':' body
    then err (prefix_modifier body)
    else if ends_with_star body
    then err (explode_modifier body)
    else if is_varname body
    then ok body
    else err (not_varname body)

pub data Part : Type 0 where
  literal : Text → Part
  -- `_Var`
  variable : Text → Part

abbrev pub put_front : ℕ → Option (Text × Text) → Option (Text × Text)
put_front c none = none
put_front c (some (before, after)) = some (c ∷ before, after)

-- What stands before the first `c` and what stands after it.
unfoldable pub cut : ℕ → Text → Option (Text × Text)
cut c [] = none
cut c (d ∷ s) = let rest = cut c s in if d == c then some ([], s) else put_front d rest

-- A run of literal text, where there is any.
abbrev pub with_literal : Text → List Part → List Part
with_literal [] parts = parts
with_literal (c ∷ s) parts = literal (c ∷ s) ∷ parts

abbrev pub checked : Text → Result TemplateError (List Part) → Result TemplateError (List Part)
checked run parts = if has_code b'}' run then err unmatched else parts

-- The expression after a `{`; the first argument parses what follows the `}`.
abbrev pub expression :
    (Text → Result TemplateError (List Part))
    → Option (Text × Text)
    → Result TemplateError (List Part)
expression parse_rest none = err unterminated
expression parse_rest (some (body, rest)) = do
  name ← varname body
  parts ← parse_rest rest
  ok (variable name ∷ parts)

abbrev pub parts_of :
    (Text → Result TemplateError (List Part))
    → Text
    → Option (Text × Text)
    → Result TemplateError (List Part)
parts_of parse_rest text none = checked text (ok (with_literal text []))
parts_of parse_rest text (some (run, after)) =
    checked run (do parts ← expression parse_rest (cut b'}' after); ok (with_literal run parts))

-- The loop of `_parse` over what is left of the template.
unfoldable pub parse_from : ℕ → Text → Result TemplateError (List Part)
unfolding cut varname
parse_from fuel [] = ok []
parse_from zero (c ∷ s) = err unfinished
parse_from (suc fuel) (c ∷ s) = parts_of (parse_from fuel) (c ∷ s) (cut b'{' (c ∷ s))

-- `_parse`: each round takes at least one character.
unfoldable pub parse : Text → Result TemplateError (List Part)
unfolding parse_from
parse template = parse_from (length template) template

-- `variables`, with its repetitions.
unfoldable pub names_in : List Part → List Text
names_in [] = []
names_in (literal s ∷ ps) = names_in ps
names_in (variable name ∷ ps) = name ∷ names_in ps

unfoldable pub variables : Text → Result TemplateError (List Text)
unfolding parse names_in
variables template = do parts ← parse template; ok (names_in parts)

-- The parts of an expansion; `quote` is `urllib.parse.quote(value, safe="")`, and the values stand
-- as `str` gives them.
unfoldable pub fill : (Text → Text) → Dict Text Text → List Part → Result TemplateError Text
unfolding lookup list_beq
fill quote supplied [] = ok []
fill quote supplied (literal s ∷ ps) = do rest ← fill quote supplied ps; ok (s ++ rest)
fill quote supplied (variable name ∷ ps) =
    let rest = fill quote supplied ps in
    elim (lookup name supplied) [
      | none ↦ err (missing_variable name (map (λ kv. kv.0) supplied))
      | some v ↦ (rest >>= λ text. ok (quote v ++ text))
    ]

-- `expand`
unfoldable pub expand : (Text → Text) → Text → Dict Text Text → Result TemplateError Text
unfolding parse fill
expand quote template supplied = do parts ← parse template; fill quote supplied parts
