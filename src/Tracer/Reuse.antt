-- ===== src/Tracer/Reuse.antt =====
-- The reuse of the active entry span.
use skywalking_go.Base.{◌+◌, ◌<◌, ◌≡◌, false, Option, some, pos, Bytes, length, arith}
use skywalking_go.Span.{DefaultSpan, SpanRef, entry}
use skywalking_go.Span.Reuse.{enter_reuse_lem}
use skywalking_go.Creation.{SegmentContext}
use skywalking_go.Base.Memory.{get_or-put, length-put}
use skywalking_go.Tracer.{
  Tracer, Inputs, Agent, noop, segment, create_noop, create_entry_span, created, get_span,
}

-- A second entry span on a goroutine whose active span is an open entry span is that span, with the
-- new name and one more owner; no span is made, and it stays active.
pub reused_entry :
    (t : Tracer) (i : Inputs) (name : Bytes) (extractor : Bytes → Option Bytes)
    (opts : DefaultSpan → DefaultSpan) (a : Agent) (s : SpanRef) (d : DefaultSpan)
    (c : SegmentContext)
    → a.world.context ≡ some (some s)
    → get_span s a ≡ segment d c
    → s < length a.spans
    → d.span_type ≡ entry
    → d.ended ≡ false
    → let (r, a') = create_entry_span t i name extractor opts a in
      (r ≡ created s)
      × (length a'.spans ≡ length a.spans)
      × (get_span s a'
          ≡ segment (record d { operation_name = name; reuse_count = d.reuse_count + 1 }) c)
      × (a'.world.context ≡ some (some s))
unfolding create_entry_span create_noop
reused_entry t i name extractor opts a s d c active o lt type unended =
    let reuse = enter_reuse_lem (record { span = d; world = a.world }) name unended in
    let d' : DefaultSpan = record d { operation_name = name; reuse_count = d.reuse_count + 1 } in
    let at_s = get_or-put s (segment d' c) (noop (pos 0)) a.spans lt in
    let len = length-put s (segment d' c) a.spans in
    ground (arith, reuse, at_s, len, active, o, type)
