-- ===== src/Tracer/Goroutine/Laws.antt =====
-- What another goroutine continues, and what an entry span extracts.
use skywalking_go.Base.{
  ℕ, ◌<◌, ◌≡◌, refl, true, false, [], ◌∷◌, ◌++◌, Option, none, some, pos, Bytes, length, arith,
}
use skywalking_go.Base.Map.{Map}
use skywalking_go.Identity.{IdContext}
use skywalking_go.Propagation.{SpanContext, ok, decode}
use skywalking_go.Span.{DefaultSpan, World, SpanRef, entry}
use skywalking_go.Span.Reuse.{append_ref_lem}
use skywalking_go.Creation.{SegmentContext, snapshot_context}
use skywalking_go.Creation.Contexts.{snapshot_lem}
use skywalking_go.Base.Memory.{get_or-new, get_or-append, get_or-put}
use skywalking_go.Store.{new_correlation_context}
use skywalking_go.Tracer.{Agent, noop, segment, in_snapshot, get_span, no_context}
use skywalking_go.Tracer.Goroutine.{
  ContextSnapshot, new_snapshot_span, snapshot_of, snapshot_span, capture_context, continue_context,
  extract_context, extracted, extract_into,
}

-- What a goroutine captures while its active span is open, another one, with or without a context of
-- its own, continues: its active span is a new one, a snapshot that has the name and the peer of the
-- captured span, and none of its references, tags and logs, and the captured trace, segment, span
-- identifier and counters. The captured span is still the same.
pub continue-capture {ℓ} :
    {V : Type ℓ} (runtime : Option (Map V)) (a a' : Agent) (s : SpanRef) (d : DefaultSpan)
    (c : SegmentContext) (p : ℕ) (snap : ContextSnapshot V) (id : IdContext)
    (other : Option (Map V)) (w : World)
    → a.world.context ≡ some (some s)
    → get_span s a ≡ segment d c
    → s < length a.spans
    → d.end_time ≡ none
    → c.correlation_context ≡ some p
    → capture_context runtime a ≡ (some snap, a')
    → let b = (continue_context (some snap) id other (record a' { world = w })).1 in
      (b.world.context ≡ some (some (length a.spans)))
      × (get_span s b ≡ segment d c)
      × (d' : DefaultSpan) × (c' : SegmentContext) × (get_span (length a.spans) b
          ≡ in_snapshot d' c')
      × (d'.operation_name ≡ d.operation_name)
      × (d'.peer ≡ d.peer)
      × (d'.refs ≡ [])
      × (d'.tags ≡ [])
      × (d'.logs ≡ [])
      × (c'.trace_id ≡ c.trace_id)
      × (c'.segment_id ≡ c.segment_id)
      × (c'.span_id ≡ c.span_id)
      × (c'.shared ≡ c.shared)
unfolding capture_context continue_context new_snapshot_span snapshot_of snapshot_span
continue-capture runtime a a' s d c p snap id other w active o lt e store q =
    let (trace, segment_id, span_id, shared, k, l) =
      snapshot_lem c a.heap p new_correlation_context store in
    let made = in_snapshot (snapshot_span d) (snapshot_context c a.heap).0 in
    let new = get_or-new a.spans made (noop (pos 0)) in
    let old = get_or-append s (noop (pos 0)) a.spans (made ∷ []) lt in
    (
      ground (arith, active, o, e, q),
      ground (arith, active, o, e, q, old),
      snapshot_span d,
      (snapshot_context c a.heap).0,
      ground (arith, active, o, e, q, new),
      refl,
      refl,
      refl,
      refl,
      refl,
      trace,
      segment_id,
      span_id,
      shared,
    )

-- A valid context that is extracted while an open entry span is active is its last reference.
pub extract_refers :
    (extractor : Bytes → Option Bytes) (a : Agent) (s : SpanRef) (d : DefaultSpan)
    (c : SegmentContext) (ref : SpanContext)
    → a.world.context ≡ some (some s)
    → get_span s a ≡ segment d c
    → s < length a.spans
    → d.span_type ≡ entry
    → d.ended ≡ false
    → decode extractor no_context ≡ ok tt ref
    → ref.valid ≡ true
    → let (r, a') = extract_context extractor a in
      (r ≡ extracted) × (get_span s a' ≡ segment (record d { refs = d.refs ++ (ref ∷ []) }) c)
unfolding extract_context extract_into
extract_refers extractor a s d c ref active o lt type unended e v =
    let append = append_ref_lem (record { span = d; world = a.world }) ref unended in
    let at_s =
      get_or-put s (segment (record d { refs = d.refs ++ (ref ∷ []) }) c) (noop (pos 0)) a.spans
        lt in
    ground (arith, append, at_s, active, o, type, e, v)
