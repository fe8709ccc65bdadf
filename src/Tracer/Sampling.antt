-- ===== src/Tracer/Sampling.antt =====
-- What decides whether a new span is a noop span.
use skywalking_go.Base.{
  ◌+◌, ◌≡◌, ◌⊎◌, inl, inr, true, false, Option, none, some, pos, Bytes, length, arith,
}
use skywalking_go.Span.{new_default_span, DefaultSpan, SpanRef}
use skywalking_go.Propagation.{SpanContext, ok, decode}
use skywalking_go.Ignore.{tracer_ignore}
use skywalking_go.Base.Memory.{get_or-new}
use skywalking_go.Tracer.{
  Tracer, Inputs, Agent, noop, create_span0, create_noop, create_entry_span, created,
  measure_tracing_context_creation, measure_leaked_tracing_context, get_span, is_empty, is_none,
  no_context, create_and_save,
}

-- No creation counts as sampled by force, whatever references the options bring.
pub unforced :
    (t : Tracer) (i : Inputs) (p : Option SpanRef) (opts core : DefaultSpan → DefaultSpan)
    (a : Agent)
    → (create_span0 t i p opts core a).1.so11y.propagated_context ≡ a.so11y.propagated_context
unfolding new_default_span create_span0 is_empty is_none measure_tracing_context_creation
    measure_leaked_tracing_context
unforced t i p opts core a = ground arith

-- No span is in progress: the goroutine has no context and the tracer is ready and does not filter the
-- operation, or it has a context without an active span.
abbrev pub HasNoSpan : Tracer → Bytes → Agent → Type 0
HasNoSpan t name a =
    ((a.world.context ≡ none)
      × (t.init_success ≡ true)
      × (t.disconnected ≡ false)
      × (tracer_ignore name t.ignore_suffix t.trace_ignore_path ≡ false))
    ⊎ (a.world.context ≡ some none)

-- An entry span where no span is in progress is a noop span whenever the sampler says no, whatever context
-- the request carries, also a valid one of a process that sampled the trace: no segment is made, the
-- context of the request is dropped, and the span becomes the active one. The counters of the tracer have
-- one more noop context for the sampler, and none for a propagated context.
pub unsampled_entry :
    (t : Tracer) (i : Inputs) (name : Bytes) (extractor : Bytes → Option Bytes)
    (opts : DefaultSpan → DefaultSpan) (a : Agent) (ref : SpanContext)
    → HasNoSpan t name a
    → i.sampled ≡ false
    → decode extractor no_context ≡ ok tt ref
    → let (c, a') = create_entry_span t i name extractor opts a in
      (c ≡ created (length a.spans))
      × (get_span (length a.spans) a' ≡ noop (pos 1))
      × (a'.world.context ≡ some (some (length a.spans)))
      × (a'.world.finished ≡ a.world.finished)
      × (a'.heap.cells ≡ a.heap.cells)
      × (a'.so11y.sampler_ignore_context ≡ a.so11y.sampler_ignore_context + 1)
      × (a'.so11y.propagated_context ≡ a.so11y.propagated_context)
      × (a'.so11y.propagated_ignore_context ≡ a.so11y.propagated_ignore_context)
unfolding new_default_span create_entry_span create_noop create_and_save create_span0 is_empty
    is_none measure_tracing_context_creation measure_leaked_tracing_context
unsampled_entry t i name extractor opts a ref (inl h) n d =
    let new = get_or-new a.spans (noop (pos 1)) (noop (pos 0)) in ground (arith, h, n, d, new)
unsampled_entry t i name extractor opts a ref (inr e) n d =
    let new = get_or-new a.spans (noop (pos 1)) (noop (pos 0)) in ground (arith, e, n, d, new)
