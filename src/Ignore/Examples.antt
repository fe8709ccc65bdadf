-- ===== src/Ignore/Examples.antt =====
-- Runs of the ignore rules, and the theorems about them at concrete inputs.
use skywalking_go.Base.{◌≡◌, ◌↔◌, ◌⊎◌, refl, true, false, [], ◌∷◌, Any, codes, arith}
use skywalking_go.Ignore.{path_match, tracer_ignore}
use skywalking_go.Ignore.Pattern.{Matches}
use skywalking_go.Ignore.Suffix.{HasSuffix, tracer_ignore_iff}

star_in_segment : path_match (codes "/api/*/user") (codes "/api/v1/user") ≡ true
unfolding path_match
star_in_segment = refl

star_stops_at_slash : path_match (codes "/api/*") (codes "/api/v1/user") ≡ false
unfolding path_match
star_stops_at_slash = refl

double_star : path_match (codes "/api/**/user") (codes "/api/v1/x/user") ≡ true
unfolding path_match
double_star = refl

ignored_suffix : tracer_ignore (codes "/a.b/logo.png") (codes ".png" ∷ []) ([] ∷ []) ≡ true
unfolding tracer_ignore
ignored_suffix = refl

tracer_ignore_iff_example :
    (tracer_ignore (codes "/x.js") (codes ".js" ∷ []) (codes "/y/**" ∷ []) ≡ true) ↔ (
      HasSuffix (codes "/x.js") (codes ".js" ∷ [])
      ⊎ Any (λ pattern. Matches pattern (codes "/x.js")) (codes "/y/**" ∷ []))
tracer_ignore_iff_example =
    tracer_ignore_iff (codes "/x.js") (codes ".js" ∷ []) (codes "/y/**" ∷ []) (omega arith)
      (omega arith)
