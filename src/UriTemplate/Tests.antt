-- ===== src/UriTemplate/Tests.antt =====
-- Templates of the session URLs, and the round trip at one of them.
use jmaplib.Prelude.{◌≡◌, ◌≢◌, ◌↔◌, refl, codes, List, [], ◌∷◌, ok, err, list_beq, false}
use jmaplib.Prelude.Dict
use jmaplib.UriTemplate.{
  Part, literal, variable, parse, expand, variables, missing_variable, unfinished, operator,
  unmatched, not_varname, has_code, is_varname,
}
use jmaplib.UriTemplate.RoundTrip.{render, AreRuns}
use jmaplib.UriTemplate.Sound.{parse_iff}

-- "/dl/{accountId}?t={type}"
abbrev download : List Part
download =
    literal (codes "/dl/")
    ∷ variable (codes "accountId")
    ∷ literal (codes "?t=")
    ∷ variable (codes "type")
    ∷ []

download_runs : AreRuns false download
unfolding has_code is_varname
download_runs = ((λ h. cc), refl, refl, (refl, ((λ h. cc), refl, refl, (refl, tt))))

parse_iff_example :
    ((parse (codes "/dl/{accountId}?t={type}") ≡ ok download)
      ↔ (AreRuns false download × (render download ≡ codes "/dl/{accountId}?t={type}")))
    × (parse (codes "/dl/{accountId}?t={type}") ≢ err unfinished)
parse_iff_example = parse_iff (codes "/dl/{accountId}?t={type}") download

written : render download ≡ codes "/dl/{accountId}?t={type}"
unfolding render
written = refl

parsed : parse (codes "/dl/{accountId}?t={type}") ≡ ok download
unfolding parse has_code is_varname
parsed = refl

filled : expand (λ v. v) (codes "/dl/{a}") ((codes "a", codes "7") ∷ []) ≡ ok (codes "/dl/7")
unfolding expand parse has_code is_varname list_beq Dict.lookup
filled = refl

unnamed :
    expand (λ v. v) (codes "/dl/{a}") ((codes "b", codes "7") ∷ [])
    ≡ err (missing_variable (codes "a") (codes "b" ∷ []))
unfolding expand parse has_code is_varname list_beq Dict.lookup
unnamed = refl

level_two : parse (codes "{+base}") ≡ err (operator (codes "+base"))
unfolding parse has_code is_varname
level_two = refl

stray : parse (codes "a}b") ≡ err unmatched
unfolding parse has_code is_varname
stray = refl

dotted : parse (codes "{a..b}") ≡ err (not_varname (codes "a..b"))
unfolding parse has_code is_varname
dotted = refl

collected : variables (codes "{a}/{b}") ≡ ok (codes "a" ∷ codes "b" ∷ [])
unfolding variables parse has_code is_varname
collected = refl
