-- ===== src/Span/Examples.antt =====
-- Concrete runs of the theorems on spans.
use skywalking_go.Base.{
  List, if◌then◌else◌, ◌≡◌, inl, refl, true, false, [], ◌∷◌, some, codes, ◌++◌,
}
use skywalking_go.Span.{
  World, Scene, Op, returned, new_default_span, tags, ends, reuses, finishes, end_span,
  async_finish, prepare_async, run, sets_peer, prepares,
}
use skywalking_go.Span.Frozen.{reported, handed_over_frozen}
use skywalking_go.Span.Report.{run_hands_over_once}
use skywalking_go.Span.Reuse.{none_left, write, nested, Balanced-end}
use skywalking_go.Span.Async.{prepare_async_finish}

abbrev world0 : World
world0 = record { context = some (some 7); finished = 0; warnings = [] }

abbrev scene0 : Scene
scene0 = record { span = new_default_span 10 (some 3); world = world0 }

abbrev ended0 : Scene
ended0 = (end_span 20 scene0).0

abbrev late : List Op
late = tags (codes "status") (codes "200") ∷ ends 30 ∷ finishes 40 ∷ []

handed_over_frozen_example :
    (reported (run late ended0 1).0.span ≡ reported ended0.span) × ((run late ended0 1).1 ≡ 1)
unfolding end_span new_default_span
handed_over_frozen_example = handed_over_frozen scene0 ended0 20 late 1 (inl refl)

run_hands_over_once_example :
    (run (ends 20 ∷ late) scene0 0).1
    ≡ (if (run (ends 20 ∷ late) scene0 0).0.span.ended then 1 else 0)
unfolding new_default_span
run_hands_over_once_example = run_hands_over_once (ends 20 ∷ late) scene0 refl

abbrev reused : List Op
reused = reuses ∷ (sets_peer (codes "db:3306") ∷ []) ++ ends 15 ∷ []

Balanced-end_example :
    ((run reused scene0 0).1 ≡ 0) × ((run (reused ++ ends 20 ∷ []) scene0 0).1 ≡ 1)
unfolding new_default_span
Balanced-end_example =
    Balanced-end scene0 20 (nested 15 (write refl none_left) none_left)
      (record { unfrozen = refl; untimed = refl; synchronous = refl; reused = refl })

abbrev prepared : Scene
prepared = record scene0 {
  span = record (scene0.span) { in_async_mode = true; async_mode_finished = false };
}

prepare_async_finish_example :
    ((run (ends 20 ∷ prepares ∷ []) prepared 0).1 ≡ 0)
    × ((end : Scene) × (async_finish 50 (run (ends 20 ∷ prepares ∷ []) prepared 0).0
          ≡ returned (end, true))
        × (end.span.end_time ≡ some 50))
unfolding prepare_async new_default_span
prepare_async_finish_example =
    prepare_async_finish scene0 prepared (ends 20 ∷ prepares ∷ []) 50 refl refl (refl, (refl, tt))
