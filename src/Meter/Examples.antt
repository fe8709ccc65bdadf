-- ===== src/Meter/Examples.antt =====
-- A histogram with three buckets.
use skywalking_go.Base.{◌≡◌, refl, [], ◌∷◌, List, some, pos}
use skywalking_go.Meter.{HistogramBucket, new_histogram_from_steps}

abbrev buckets : List HistogramBucket
buckets =
    record { bucket = pos 0; value = 0 }
    ∷ record { bucket = pos 5; value = 0 }
    ∷ record { bucket = pos 9; value = 0 }
    ∷ []

test : new_histogram_from_steps (pos 0) (pos 9 ∷ pos 5 ∷ []) ≡ some buckets
unfolding new_histogram_from_steps
test = refl
