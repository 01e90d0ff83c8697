-- ===== src/UriTemplate/RoundTrip.antt =====
-- core/uritemplate.py: `_parse` reads a template back from its parts.
use jmaplib.Prelude.{
  ℕ, zero, suc, ◌≤◌, ◌≡◌, ◌≢◌, refl, ap, ◌∙◌, arith, Text, Bool, true, false, List, [], ◌∷◌, ◌++◌,
  length, none, some, ◌==◌, nat_eq, Result, ok, Bool-cases, inl, inr, ==_iff, ==_refl,
  length-append, append-nil,
}
use jmaplib.UriTemplate.{
  TemplateError, has_code, operators, Scan, fresh, chars, percent, digit, bad, scan_step,
  matches_from, is_varname, starts_with_operator, ends_with_star, varname, Part, literal, variable,
  cut, parse_from, parse, expression, parts_of,
}

unfoldable pub render : List Part → Text
render [] = []
render (literal s ∷ ps) = s ++ render ps
render (variable name ∷ ps) = b'{' ∷ (name ++ b'}' ∷ render ps)

-- Literal runs are not empty, hold no brace and are not adjacent; names are varnames.
abbrev pub AreRuns : Bool → List Part → Type 0
AreRuns after [] = Unit
AreRuns after (variable name ∷ ps) = (is_varname name ≡ true) × AreRuns false ps
AreRuns true (literal s ∷ ps) = ⊥
AreRuns false (literal s ∷ ps) =
    (s ≢ []) × (has_code b'{' s ≡ false) × (has_code b'}' s ≡ false) × AreRuns true ps

matches_from-bad : (s : Text) → matches_from bad s ≡ false
unfolding matches_from
matches_from-bad [] = refl
matches_from-bad (c ∷ s) = matches_from-bad s

lacks :
    (d : ℕ)
    → ((st : Scan) → scan_step st d ≡ bad)
    → (st : Scan) (s : Text) → matches_from st s ≡ true
    → has_code d s ≡ false
unfolding matches_from has_code
lacks d no_step st [] h = refl
lacks d no_step st (c ∷ s) h = elim (Bool-cases (c == d)) [
  | inl e ↦ absurd (refused (no_step st ∙ refl) ((==_iff c d).0 e))
  | inr e ↦ rw e (lacks d no_step (scan_step st c) s h)
]
  where
    refused : scan_step st d ≡ bad → c ≡ d → ⊥
    refused b same = cc (
      ap (λ x. matches_from (scan_step st x) s) same,
      ap (λ x. matches_from x s) b,
      matches_from-bad s,
      h,
    )

lacks_open : (st : Scan) → scan_step st b'{' ≡ bad
lacks_open fresh = refl
lacks_open chars = refl
lacks_open percent = refl
lacks_open digit = refl
lacks_open bad = refl

lacks_close : (st : Scan) → scan_step st b'}' ≡ bad
lacks_close fresh = refl
lacks_close chars = refl
lacks_close percent = refl
lacks_close digit = refl
lacks_close bad = refl

lacks_comma : (st : Scan) → scan_step st b',' ≡ bad
lacks_comma fresh = refl
lacks_comma chars = refl
lacks_comma percent = refl
lacks_comma digit = refl
lacks_comma bad = refl

lacks_colon : (st : Scan) → scan_step st b':' ≡ bad
lacks_colon fresh = refl
lacks_colon chars = refl
lacks_colon percent = refl
lacks_colon digit = refl
lacks_colon bad = refl

lacks_star : (st : Scan) → scan_step st b'*' ≡ bad
lacks_star fresh = refl
lacks_star chars = refl
lacks_star percent = refl
lacks_star digit = refl
lacks_star bad = refl

ends_with_star-false : (s : Text) → has_code b'*' s ≡ false → ends_with_star s ≡ false
unfolding has_code ends_with_star
ends_with_star-false [] h = refl
ends_with_star-false (c ∷ []) h = ground arith
ends_with_star-false (c ∷ d ∷ s) h = ends_with_star-false (d ∷ s) (ground arith)

scan_step-operator : (c : ℕ) → has_code c operators ≡ true → scan_step fresh c ≡ bad
unfolding has_code
scan_step-operator c h = ground arith

starts_with_operator-false : (s : Text) → is_varname s ≡ true → starts_with_operator s ≡ false
unfolding is_varname matches_from
starts_with_operator-false [] h = refl
starts_with_operator-false (c ∷ s) h = elim (Bool-cases (has_code c operators)) [
  | inl e ↦ cc (ap (λ st. matches_from st s) (scan_step-operator c e), matches_from-bad s, h)
  | inr e ↦ e
]

varname_ok : (s : Text) → is_varname s ≡ true → varname s ≡ ok s
unfolding is_varname varname
varname_ok [] h = absurd (cc)
varname_ok (c ∷ s) h =
    rw
      (
        lacks b'{' lacks_open fresh (c ∷ s) h,
        starts_with_operator-false (c ∷ s) h,
        lacks b',' lacks_comma fresh (c ∷ s) h,
        lacks b':' lacks_colon fresh (c ∷ s) h,
        ends_with_star-false (c ∷ s) (lacks b'*' lacks_star fresh (c ∷ s) h),
        h,
      )
      refl

cut-append : (c : ℕ) (s rest : Text) → has_code c s ≡ false → cut c (s ++ c ∷ rest) ≡ some (s, rest)
unfolding cut has_code
cut-append c [] rest h = rw (==_refl c) refl
cut-append c (d ∷ s) rest h = ground (arith, cut-append c s rest)

cut-none : (c : ℕ) (s : Text) → has_code c s ≡ false → cut c s ≡ none
unfolding cut has_code
cut-none c [] h = refl
cut-none c (d ∷ s) h = ground (arith, cut-none c s)

-- One round at an expression, and at an expression after a literal run.
expression_lem :
    (go : Text → Result TemplateError (List Part)) (name rest : Text) (ps : List Part)
    → is_varname name ≡ true
    → go rest ≡ ok ps
    → expression go (cut b'}' (name ++ b'}' ∷ rest)) ≡ ok (variable name ∷ ps)
unfolding is_varname
expression_lem go name rest ps h k =
    rw (cut-append b'}' name rest (lacks b'}' lacks_close fresh name h), varname_ok name h, k) refl

parse_from-render :
    (fuel : ℕ) (ps : List Part)
    → AreRuns false ps
    → length (render ps) ≤ fuel
    → parse_from fuel (render ps) ≡ ok ps
unfolding render parse_from cut has_code
parse_from-render fuel [] w h = refl
parse_from-render fuel (literal [] ∷ ps) w h = absurd (w.0 refl)
parse_from-render zero (variable name ∷ ps) w h = absurd (omega arith)
parse_from-render zero (literal (c ∷ s) ∷ ps) w h = absurd (omega arith)
parse_from-render (suc fuel) (variable name ∷ ps) w h =
    rw
      (expression_lem (parse_from fuel) name (render ps) ps w.0
        (parse_from-render fuel ps w.1 (omega (arith, length-append name (b'}' ∷ render ps)))))
      refl
parse_from-render (suc fuel) (literal (c ∷ s) ∷ []) w h =
    ap (λ t. parse_from (suc fuel) t) (append-nil (c ∷ s))
    ∙ ap (parts_of (parse_from fuel) (c ∷ s)) (cut-none b'{' (c ∷ s) w.1)
    ∙ rw w.2 refl
parse_from-render (suc fuel) (literal (c ∷ s) ∷ literal t ∷ ps) w h = absurd (w.3)
parse_from-render (suc fuel) (literal (c ∷ s) ∷ variable name ∷ ps) w h =
    ap (parts_of (parse_from fuel) (c ∷ (s ++ b'{' ∷ (name ++ b'}' ∷ render ps))))
      (cut-append b'{' (c ∷ s) (name ++ b'}' ∷ render ps) w.1)
    ∙ rw
        (
          w.2,
          expression_lem (parse_from fuel) name (render ps) ps w.3.0 (
              parse_from-render fuel ps w.3.1 (
                omega (
                  arith,
                  length-append s (b'{' ∷ (name ++ b'}' ∷ render ps)),
                  length-append name (b'}' ∷ render ps),
                ))),
        )
        refl

-- Well-formed parts are parsed back from what they write.
pub parse-render : (ps : List Part) → AreRuns false ps → parse (render ps) ≡ ok ps
unfolding parse
parse-render ps w = parse_from-render (length (render ps)) ps w (omega arith)
