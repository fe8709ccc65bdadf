-- ===== src/Span/Async.antt =====
-- The asynchronous mode of a span: `PrepareAsync` and `AsyncFinish`.
use skywalking_go.Base.{ℕ, ◌+◌, ◌≡◌, refl, ◌∙◌, Bool, true, false, [], ◌∷◌, List, some, arith}
use skywalking_go.Span.{
  DefaultSpan, Scene, Op, returned, finishes, marks_finished, freezes, ends_unfrozen, step, run,
  after, end_span, async_finish, prepare_async,
}

-- The calls that are not of `AsyncFinish`.
abbrev pub no_finish : Op → Bool
no_finish (finishes now) = false
no_finish marks_finished = false
no_finish freezes = false
no_finish (ends_unfrozen now) = false
no_finish op = true

abbrev pub NoFinish : List Op → Type 0
NoFinish [] = Unit
NoFinish (op ∷ ops) = (no_finish op ≡ true) × NoFinish ops

pub record IsPrepared (d : DefaultSpan) : Type 0 where
  pub unfrozen : d.ended ≡ false
  pub asynchronous : d.in_async_mode ≡ true
  pub unfinished : d.async_mode_finished ≡ false

IsPrepared-step :
    (op : Op) (s : Scene) (n : ℕ)
    → no_finish op ≡ true
    → IsPrepared s.span
    → IsPrepared (after s n (step op s)).0.span × ((after s n (step op s)).1 ≡ n)
unfolding step end_span prepare_async
IsPrepared-step op s n w o = ground (arith, o.unfrozen, w)

IsPrepared-run :
    (ops : List Op) (s : Scene) (n : ℕ)
    → NoFinish ops
    → IsPrepared s.span
    → IsPrepared (run ops s n).0.span × ((run ops s n).1 ≡ n)
unfolding run
IsPrepared-run [] s n w o = (o, refl)
IsPrepared-run (op ∷ ops) s n (w, ws) o =
    let (o', same) = IsPrepared-step op s n w o in
    let (o'', more) =
      IsPrepared-run ops (after s n (step op s)).0 (after s n (step op s)).1 ws o' in
    (o'', more ∙ same)

prepare-IsPrepared :
    (s s' : Scene) → s.span.ended ≡ false → prepare_async s ≡ returned s' → IsPrepared s'.span
unfolding prepare_async
prepare-IsPrepared s s' o e = ground arith

finish_prepared :
    (s : Scene) (now : ℕ)
    → IsPrepared s.span
    → (end : Scene) × (async_finish now s ≡ returned (end, true)) × (end.span.end_time ≡ some now)
unfolding async_finish
finish_prepared s now p = (
  record {
    span = record (s.span) { async_mode_finished = true; end_time = some now; ended = true };
    world = record (s.world) { finished = s.world.finished + 1 };
  },
  ground (arith, p.unfrozen, p.asynchronous, p.unfinished),
  refl,
)

-- After `PrepareAsync` succeeds on an open span, no calls but those of `AsyncFinish` hand it over, `End`
-- included. Then `AsyncFinish` returns, hands it over, and the span has its time as end time.
pub prepare_async_finish :
    (s s' : Scene) (ops : List Op) (now : ℕ)
    → s.span.ended ≡ false
    → prepare_async s ≡ returned s'
    → NoFinish ops
    → ((run ops s' 0).1 ≡ 0)
      × ((end : Scene) × (async_finish now (run ops s' 0).0 ≡ returned (end, true))
          × (end.span.end_time ≡ some now))
prepare_async_finish s s' ops now o e w =
    let (p, none_yet) = IsPrepared-run ops s' 0 w (prepare-IsPrepared s s' o e) in
    (none_yet, finish_prepared (run ops s' 0).0 now p)
