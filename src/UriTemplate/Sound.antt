-- ===== src/UriTemplate/Sound.antt =====
-- core/uritemplate.py: what `_parse` accepts is well formed, and its parts write the template again.
use jmaplib.Prelude.{
  ℕ, zero, suc, ◌≡◌, ◌≢◌, refl, sym, ap, ◌∙◌, arith, Text, true, false, List, [], ◌∷◌, ◌++◌, length,
  Option, none, some, ◌==◌, nat_eq, Result, ok, err, >>=-eq-ok, >>=-eq-err, ◌≤◌, length-append,
  ok-injective, subst, Bool-cases, inl, inr, ==_iff, append-nil, ◌↔◌,
}
use jmaplib.UriTemplate.{
  TemplateError, unfinished, has_code, is_varname, varname, Part, literal, variable, put_front, cut,
  parse_from, parse, expression, parts_of, checked, with_literal,
}
use jmaplib.UriTemplate.RoundTrip.{render, AreRuns, parse-render}

abbrev IsCut : ℕ → Text → Option (Text × Text) → Type 0
IsCut c s none = has_code c s ≡ false
IsCut c s (some (before, after)) = (s ≡ before ++ c ∷ after) × (has_code c before ≡ false)

put_front-IsCut :
    (c d : ℕ) (s : Text) (r : Option (Text × Text))
    → (d == c) ≡ false
    → IsCut c s r
    → IsCut c (d ∷ s) (put_front d r)
unfolding has_code
put_front-IsCut c d s none e h = rw e h
put_front-IsCut c d s (some (before, after)) e h = (ap (λ t. d ∷ t) h.0, rw e h.1)

cut-IsCut : (c : ℕ) (s : Text) → IsCut c s (cut c s)
unfolding cut has_code
cut-IsCut c [] = refl
cut-IsCut c (d ∷ s) = elim (Bool-cases (d == c)) [
  | inl e ↦ rw e (ap (λ n. n ∷ s) ((==_iff d c).0 e), refl)
  | inr e ↦ rw e (put_front-IsCut c d s (cut c s) e (cut-IsCut c s))
]

varname_parts : (s : Text) {name : Text} → varname s ≡ ok name → (name ≡ s) × (is_varname s ≡ true)
unfolding varname
varname_parts [] h = cc
varname_parts (c ∷ s) h = ground arith

checked_parts :
    (run : Text) (parts : Result TemplateError (List Part)) {ps : List Part}
    → checked run parts ≡ ok ps
    → (has_code b'}' run ≡ false) × (parts ≡ ok ps)
checked_parts run parts h = elim (Bool-cases (has_code b'}' run)) [
  | inl e ↦ cc (rw e at h)
  | inr e ↦ (e, rw e at h)
]

-- Parts that begin with an expression and write a given text.
abbrev Written : Text → List Part → Type 0
Written text ps =
    (name : Text) × (rest : List Part) × (ps ≡ variable name ∷ rest)
    × (is_varname name ≡ true)
    × AreRuns false rest
    × (render (variable name ∷ rest) ≡ text)

module _ (go : Text → Result TemplateError (List Part))
    (sound : (t : Text) (ps : List Part) → go t ≡ ok ps → AreRuns false ps × (render ps ≡ t)) where
  expression-Written :
      (after : Text) (r : Option (Text × Text)) {ps : List Part}
      → IsCut b'}' after r
      → expression go r ≡ ok ps
      → Written (b'{' ∷ after) ps
  unfolding render
  expression-Written after none c h = cc
  expression-Written after (some (body, rest)) c h =
      let (name, e, k) = >>=-eq-ok (varname body) _ h in
      let (ps, e', k') = >>=-eq-ok (go rest) _ k in
      let (same, valid) = varname_parts body e in
      let (runs, written) = sound rest ps e' in
      (
        name,
        ps,
        sym (ok-injective k'),
        subst (λ n. is_varname n ≡ true) (sym same) valid,
        runs,
        ap (λ t. b'{' ∷ t)
            (ap (λ n. n ++ b'}' ∷ render ps) same ∙ ap (λ t. body ++ b'}' ∷ t) written ∙ sym c.0),
      )

  with_literal_sound :
      (run text : Text) (ps : List Part)
      → has_code b'{' run ≡ false
      → has_code b'}' run ≡ false
      → Written text ps
      → AreRuns false (with_literal run ps) × (render (with_literal run ps) ≡ run ++ text)
  unfolding render
  with_literal_sound [] text ps o c (name, rest, e, valid, runs, written) =
      subst (λ qs. AreRuns false qs × (render qs ≡ text)) (sym e) ((valid, runs), written)
  with_literal_sound (d ∷ run) text ps o c (name, rest, e, valid, runs, written) =
      subst
        (λ qs.
          AreRuns false (literal (d ∷ run) ∷ qs) × ((d ∷ run) ++ render qs ≡ (d ∷ run) ++ text))
        (sym e) (((λ h. cc), o, c, (valid, runs)), ap (λ t. (d ∷ run) ++ t) written)

  parts_of_sound :
      (d : ℕ) (s : Text) (r : Option (Text × Text)) {ps : List Part}
      → IsCut b'{' (d ∷ s) r
      → parts_of go (d ∷ s) r ≡ ok ps
      → AreRuns false ps × (render ps ≡ d ∷ s)
  unfolding render
  parts_of_sound d s none c h =
      let (closed, e) = checked_parts (d ∷ s) _ h in
      subst (λ qs. AreRuns false qs × (render qs ≡ d ∷ s)) (ok-injective e)
        (((λ h. cc), c, closed, tt), append-nil (d ∷ s))
  parts_of_sound d s (some (run, after)) c h =
      let (closed, e) = checked_parts run _ h in
      let (ps, e', k) = >>=-eq-ok (expression go (cut b'}' after)) _ e in
      let (runs, written) =
        with_literal_sound run (b'{' ∷ after) ps c.1 closed
          (expression-Written after (cut b'}' after) (cut-IsCut b'}' after) e') in
      subst (λ qs. AreRuns false qs × (render qs ≡ d ∷ s)) (ok-injective k)
        (runs, written ∙ sym c.0)

parse_from_sound :
    (fuel : ℕ) (t : Text) (ps : List Part)
    → parse_from fuel t ≡ ok ps
    → AreRuns false ps × (render ps ≡ t)
unfolding parse_from render
parse_from_sound fuel [] ps h =
    subst (λ qs. AreRuns false qs × (render qs ≡ [])) (ok-injective h) (tt, refl)
parse_from_sound zero (d ∷ s) ps h = cc
parse_from_sound (suc fuel) (d ∷ s) ps h =
    parts_of_sound (parse_from fuel) (parse_from_sound fuel) d s (cut b'{' (d ∷ s))
      (cut-IsCut b'{' (d ∷ s)) h

varname-ne-unfinished : (s : Text) → varname s ≢ err unfinished
unfolding varname
varname-ne-unfinished [] h = cc
varname-ne-unfinished (c ∷ s) h = ground arith

-- The loop ends within the length of what it has to read.
module _ (fuel : ℕ) (go : Text → Result TemplateError (List Part))
    (ends : (t : Text) → length t ≤ fuel → go t ≢ err unfinished) where
  expression-ne-unfinished :
      (after : Text) (r : Option (Text × Text))
      → IsCut b'}' after r
      → length after ≤ fuel
      → expression go r ≢ err unfinished
  expression-ne-unfinished after none c lt h = cc
  expression-ne-unfinished after (some (body, rest)) c lt h = elim (>>=-eq-err (varname body) _ h) [
    | inl e ↦ varname-ne-unfinished body e
    | inr (name, e, k) ↦ elim (>>=-eq-err (go rest) _ k) [
      | inl e' ↦ ends rest (omega (arith, ap length c.0, length-append body (b'}' ∷ rest))) e'
      | inr (ps, e', k') ↦ cc
    ]
  ]

  parts_of-ne-unfinished :
      (d : ℕ) (s : Text) (r : Option (Text × Text))
      → IsCut b'{' (d ∷ s) r
      → length (d ∷ s) ≤ suc fuel
      → parts_of go (d ∷ s) r ≢ err unfinished
  parts_of-ne-unfinished d s none c lt h = elim (Bool-cases (has_code b'}' (d ∷ s))) [
    | inl e ↦ cc (rw e at h)
    | inr e ↦ cc (rw e at h)
  ]
  parts_of-ne-unfinished d s (some (run, after)) c lt h = elim (Bool-cases (has_code b'}' run)) [
    | inl e ↦ cc (rw e at h)
    | inr e ↦ elim (>>=-eq-err (expression go (cut b'}' after)) _ (rw e at h)) [
      | inl e' ↦
          expression-ne-unfinished after (cut b'}' after) (cut-IsCut b'}' after)
            (omega (arith, ap length c.0, length-append run (b'{' ∷ after))) e'
      | inr (ps, e', k) ↦ cc
    ]
  ]

parse_from-ne-unfinished :
    (fuel : ℕ) (t : Text) → length t ≤ fuel → parse_from fuel t ≢ err unfinished
unfolding parse_from
parse_from-ne-unfinished fuel [] lt h = cc
parse_from-ne-unfinished zero (d ∷ s) lt h = absurd (omega arith)
parse_from-ne-unfinished (suc fuel) (d ∷ s) lt h =
    parts_of-ne-unfinished fuel (parse_from fuel) (parse_from-ne-unfinished fuel) d s
      (cut b'{' (d ∷ s)) (cut-IsCut b'{' (d ∷ s)) lt h

-- A template is parsed to some parts exactly when the parts write it and are well formed: the
-- variables are varnames, and the literal runs are not empty, hold no brace and are not adjacent.
-- The loop of the parser always ends.
pub parse_iff :
    (template : Text) (ps : List Part)
    → ((parse template ≡ ok ps) ↔ (AreRuns false ps × (render ps ≡ template)))
      × (parse template ≢ err unfinished)
unfolding parse
parse_iff t ps = (
  (parse_from_sound (length t) t ps, λ h. subst (λ u. parse u ≡ ok ps) h.1 (parse-render ps h.0)),
  parse_from-ne-unfinished (length t) t (omega arith),
)
