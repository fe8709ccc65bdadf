-- ===== src/Backend/Examples.antt =====
-- A list with a duplicate, an empty part and an invalid one.
use skywalking_go.Base.{◌≡◌, ◌↔◌, refl, [], ◌∷◌, List, some, Bytes, codes, AllDistinct}
use skywalking_go.Text.Parts.{split}
use skywalking_go.Text.Number.{parse_int, itoa}
use skywalking_go.Backend.{parse_backend_service_list, some_parts, trim_space}
use skywalking_go.Backend.Distinct.{IsIn, IsGiven, parse_list_distinct}

abbrev raw : Bytes
raw = codes " a:1, b:02,,c,a:01 "

test : parse_backend_service_list raw ≡ some (codes "a:1" ∷ codes "b:2" ∷ [])
unfolding parse_backend_service_list parse_int itoa
test = refl

parse_list_distinct_example :
    (out : List Bytes) × (parse_backend_service_list raw ≡ some_parts out)
    × AllDistinct out
    × ((x : Bytes) → IsIn x out ↔ IsGiven x (split 44 (trim_space raw)))
parse_list_distinct_example = parse_list_distinct raw refl
