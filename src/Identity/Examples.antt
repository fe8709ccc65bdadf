-- ===== src/Identity/Examples.antt =====
-- Runs of the generator, and the theorems about it at concrete contexts.
use skywalking_go.Base.{◌≡◌, refl, [], ◌∷◌, List, pos, AllDistinct, codes, arith}
use skywalking_go.Text.Parts.{join}
use skywalking_go.Text.Number.{itoa}
use skywalking_go.Identity.{IdContext, Reading, next_id, next_ids, generate_global_id, global_ids}
use skywalking_go.Identity.Sequence.{IsValid}
use skywalking_go.Identity.Unique.{next_ids-AllDistinct, global_ids-AllDistinct}

abbrev started : IdContext
started = record { goid = pos 7; last_time = 100; seq = 9999; shift = 0; shit_time = 0 }

started-IsValid : IsValid started
started-IsValid = omega arith

-- The sequence goes round, and the clock goes back.
ids_run : next_ids started (100 ∷ 100 ∷ 90 ∷ 90 ∷ []) ≡ 1010000 ∷ 1000001 ∷ 10002 ∷ 10003 ∷ []
unfolding next_ids next_id
ids_run = refl

text_run :
    (generate_global_id (codes "ab") started (record { now = 100; go_id = pos 9 })).0
    ≡ codes "ab.7.1010000"
unfolding generate_global_id next_id join itoa
text_run = refl

next_ids-AllDistinct_example : AllDistinct (next_ids started (100 ∷ 90 ∷ 90 ∷ 101 ∷ []))
next_ids-AllDistinct_example =
    next_ids-AllDistinct started (100 ∷ 90 ∷ 90 ∷ 101 ∷ []) started-IsValid (omega arith)
      (omega arith) (omega arith)

abbrev readings : List Reading
readings =
    record { now = 100; go_id = pos 7 }
    ∷ record { now = 90; go_id = pos 7 }
    ∷ record { now = 101; go_id = pos 7 }
    ∷ []

global_ids-AllDistinct_example : AllDistinct (global_ids (codes "ab") started readings)
global_ids-AllDistinct_example =
    global_ids-AllDistinct (codes "ab") started readings (omega arith) started-IsValid (omega arith)
      (omega arith) (omega arith)
