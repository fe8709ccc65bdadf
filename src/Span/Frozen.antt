-- ===== src/Span/Frozen.antt =====
-- A frozen span does not change any more: the reporting side may read it without the lock.
use skywalking_go.Base.{
  ℕ, ◌/◌, ◌≡◌, ◌⊎◌, inl, inr, refl, ◌∙◌, Bool, true, false, [], ◌∷◌, List, Option, none, some, ℤ,
  Bytes, arith,
}
use skywalking_go.Propagation.{SpanContext}
use skywalking_go.Span.{
  DefaultSpan, SpanType, KeyValue, Log, Scene, Op, Outcome, returned, panicked, sets_operation_name,
  step, run, after, end_span, async_finish,
}

-- What the accessors of a reported span return; times are in milliseconds, and none is for the time of a
-- span that has not ended.
pub record Reported : Type 0 where
  pub refs : List SpanContext
  pub start_time : ℕ
  pub end_time : Option ℕ
  pub operation_name : Bytes
  pub peer : Bytes
  pub layer : ℤ
  pub component_id : ℤ
  pub tag_list : List KeyValue
  pub log_list : List Log
  pub is_error : Bool
  pub span_type : SpanType

-- `Millisecond` of plugins/core/tool.go, of a time in nanoseconds since 1970.
abbrev pub millisecond : ℕ → ℕ
millisecond t = t / 1000000

abbrev pub reported : DefaultSpan → Reported
reported d = record {
  refs = d.refs;
  start_time = millisecond d.start_time;
  end_time = elim d.end_time [ none ↦ none | some t ↦ some (millisecond t) ];
  operation_name = d.operation_name;
  peer = d.peer;
  layer = d.layer;
  component_id = d.component_id;
  tag_list = d.tags;
  log_list = d.logs;
  is_error = d.is_error;
  span_type = d.span_type;
}

pub record IsFrozen (d : DefaultSpan) : Type 0 where
  pub ended : d.ended ≡ true
  pub timed : (t : ℕ) × (d.end_time ≡ some t)

-- No call changes what is reported of a frozen span, or hands it over again.
abbrev Keeps : Scene → Outcome (Scene × Bool) → Type 0
Keeps s (returned (s', handed)) =
    (reported s'.span ≡ reported s.span) × (handed ≡ false) × IsFrozen s'.span
Keeps s (panicked message) = Unit

step-Keeps : (op : Op) (s : Scene) → IsFrozen s.span → Keeps s (step op s)
unfolding step
step-Keeps (sets_operation_name name) s h = ground (arith, h.ended)
step-Keeps op s h = ground (arith, h.ended)

after-IsFrozen :
    (s : Scene) (n : ℕ) (r : Outcome (Scene × Bool))
    → IsFrozen s.span
    → Keeps s r
    → (reported (after s n r).0.span ≡ reported s.span)
      × ((after s n r).1 ≡ n)
      × IsFrozen (after s n r).0.span
after-IsFrozen s n (returned (s', handed)) h k = (k.0, rw (k.1) refl, k.2)
after-IsFrozen s n (panicked message) h k = (refl, refl, h)

-- Whatever is called on a frozen span, in whatever order, what is reported of it stays the same, and
-- it is not handed over again.
pub run_frozen :
    (ops : List Op) (s : Scene) (n : ℕ)
    → IsFrozen s.span
    → (reported (run ops s n).0.span ≡ reported s.span) × ((run ops s n).1 ≡ n)
unfolding run
run_frozen [] s n h = (refl, refl)
run_frozen (op ∷ ops) s n h =
    let r = step op s in
    let (same, count, frozen) = after-IsFrozen s n r h (step-Keeps op s h) in
    let (rest, total) = run_frozen ops (after s n r).0 (after s n r).1 frozen in
    (rest ∙ same, total ∙ count)

-- A span that `End` or `AsyncFinish` hands over was not frozen before; it is frozen, with the time of
-- the call as its end time.
pub handed_over_lem :
    (s s' : Scene) (now : ℕ)
    → (end_span now s ≡ (s', true)) ⊎ (async_finish now s ≡ returned (s', true))
    → (s.span.ended ≡ false) × (s'.span.ended ≡ true) × (s'.span.end_time ≡ some now)
unfolding end_span async_finish
handed_over_lem s s' now (inl e) = ground arith
handed_over_lem s s' now (inr e) = ground arith

-- After the call of `End` or `AsyncFinish` that hands the span over, no list of calls changes what is
-- reported of it or hands it over again.
pub handed_over_frozen :
    (s s' : Scene) (now : ℕ) (ops : List Op) (n : ℕ)
    → (end_span now s ≡ (s', true)) ⊎ (async_finish now s ≡ returned (s', true))
    → (reported (run ops s' n).0.span ≡ reported s'.span) × ((run ops s' n).1 ≡ n)
handed_over_frozen s s' now ops n e =
    let (_, ended, timed) = handed_over_lem s s' now e in
    run_frozen ops s' n (record { ended = ended; timed = (now, timed) })
