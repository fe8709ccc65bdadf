-- ===== src/Store/Examples.antt =====
-- The laws of the stores at concrete contents.
use skywalking_go.Base.{
  ℕ, ◌≤◌, length, ◌≡◌, refl, [], ◌∷◌, List, none, some, codes, subst, ap, arith,
}
use skywalking_go.Base.Map.{Map, insert, HasDistinctKeys}
use skywalking_go.Store.{
  CorrelationContext, CorrelationConfig, WriterEvent, tests, sets, run_writers, writer_step,
  is_settable, set, len,
}
use skywalking_go.Base.Memory.{put}
use skywalking_go.Store.Limits.{HasShortValues, entries_of, idle, run_writers_bound}

abbrev held : CorrelationContext
held = record { entries = (codes "a", codes "1") ∷ (codes "b", codes "2") ∷ [] }

abbrev config : CorrelationConfig
config = record { max_key_count = 3; max_value_size = 3 }

-- Two goroutines test the length before either sets.
abbrev events : List WriterEvent
events = tests 0 (codes "c") (codes "3") ∷ tests 1 (codes "d") (codes "4") ∷ sets 0 ∷ sets 1 ∷ []

held-HasDistinctKeys : HasDistinctKeys held.entries
held-HasDistinctKeys = ((refl, tt), (tt, tt))

run_writers_bound_example :
    let w = run_writers config events (record { store = some held; goroutines = idle 2 }) in
    (length (entries_of w.store) ≤ 4) × HasShortValues 3 (entries_of w.store)
run_writers_bound_example = run_writers_bound config 2 events held (omega arith) (omega arith)

-- The bound is reached.
exceeds :
    length (
      entries_of
        (run_writers config events (record { store = some held; goroutines = idle 2 })).store)
    ≡ 4
unfolding run_writers writer_step is_settable set insert put len
exceeds = refl

abbrev runtime : Map ℕ
runtime = (codes "x", 1) ∷ (codes "y", 2) ∷ []

some_distinct : (d : Map ℕ) → some runtime ≡ some d → HasDistinctKeys d
some_distinct d e =
    subst HasDistinctKeys (ap (λ o. elim o [ none ↦ runtime | some m ↦ m ]) e)
      ((refl, tt), (tt, tt))
