-- ===== src/Creation/Contexts.antt =====
-- What a new span has from its parent, or from the references it was made with.
use skywalking_go.Base.{
  ℕ, ◌<◌, ◌≡◌, Bool, true, false, not, ℤ, ◌∷◌, List, Option, none, some, pos, negsuc, Bytes, get_or,
  length, arith, if◌then◌else◌,
}
use skywalking_go.Identity.{Reading, generate_global_id}
use skywalking_go.Propagation.{SpanContext}
use skywalking_go.Store.{
  CorrelationContext, new_correlation_context, new_correlation_context_from, clone,
}
use skywalking_go.Base.Memory.{get_or-new, get_or-put, length-put}
use skywalking_go.Span.{SpanRef}
use skywalking_go.Segment.{inc_int32, segment_register}
use skywalking_go.Creation.{
  no_cells, Cells, create_child_context, ensure_correlation, Heap, SegmentContext, new_segment_span,
  create_root_segment_context, snapshot_context, create_first_context,
}

-- A segment takes new spans while its counter of spans is not negative.
abbrev pub accepts : ℤ → Bool
accepts (pos n) = true
accepts (negsuc n) = false

-- A span with a parent is in the trace of the parent and shares the correlation store, and the parent's
-- segment is its parent segment. While the counter of the parent's segment is not negative, it is no root:
-- it is in that segment, shares its counters, has the next span identifier, and its parent span is the
-- parent. Once the counter is negative, it is the root of a new segment: with the next segment identifier
-- that the goroutine generates, new counters, the span identifier 0 and the parent span -1.
pub child_of_parent :
    (instance_id : Bytes) (s : SpanRef) (refs : List SpanContext) (parent ctx : SegmentContext)
    (r r' : Reading) (h h' : Heap) (p : ℕ) (root : Bool)
    → parent.correlation_context ≡ some p
    → parent.shared < length h.cells
    → new_segment_span instance_id s refs (some parent) r r' h ≡ ((ctx, root), h')
    → let cell = get_or h.cells parent.shared no_cells in
      (ctx.trace_id ≡ parent.trace_id)
      × (ctx.parent_segment_id ≡ parent.segment_id)
      × (ctx.correlation_context ≡ some p)
      × (root ≡ not (accepts cell.ref_num))
      × (ctx.segment_id ≡ (
          if accepts cell.ref_num
          then parent.segment_id
          else (generate_global_id instance_id h.id r').0))
      × (ctx.shared ≡ (if accepts cell.ref_num then parent.shared else length h.cells))
      × (ctx.span_id ≡ (if accepts cell.ref_num then inc_int32 cell.span_id_generator else pos 0))
      × (ctx.parent_span_id ≡ (if accepts cell.ref_num then parent.span_id else negsuc 0))
unfolding new_segment_span create_child_context create_root_segment_context ensure_correlation
    segment_register
child_of_parent instance_id s refs parent ctx r r' h h' p root c lt e =
    let cell = get_or h.cells parent.shared no_cells in
    let cell' : Cells = record cell { span_id_generator = inc_int32 cell.span_id_generator } in
    let at_shared = get_or-put parent.shared cell' no_cells h.cells lt in
    let len = length-put parent.shared cell' h.cells in ground (arith, c, e, at_shared, len)

-- A span without a parent roots a segment.
pub root_without_parent :
    (instance_id : Bytes) (s : SpanRef) (refs : List SpanContext) (ctx : SegmentContext)
    (r r' : Reading) (h h' : Heap) (root : Bool)
    → new_segment_span instance_id s refs none r r' h ≡ ((ctx, root), h')
    → (root ≡ true)
      × (ctx.first_span ≡ some s)
      × (ctx.span_id ≡ pos 0)
      × (ctx.parent_span_id ≡ negsuc 0)
unfolding new_segment_span create_root_segment_context
root_without_parent instance_id s refs ctx r r' h h' root e = ground (arith, e)

-- A span without a parent but with a reference continues the trace of the first reference, and its
-- correlation values are those that came with it, in a new store.
pub continues_trace :
    (instance_id : Bytes) (s : SpanRef) (ref : SpanContext) (refs : List SpanContext)
    (ctx : SegmentContext) (r r' : Reading) (h h' : Heap) (root : Bool) (d : CorrelationContext)
    → new_segment_span instance_id s (ref ∷ refs) none r r' h ≡ ((ctx, root), h')
    → (ctx.trace_id ≡ ref.trace_id)
      × (ctx.correlation_context ≡ some (length h.correlations))
      × (get_or h'.correlations (length h.correlations) d
          ≡ new_correlation_context_from ref.correlation_context)
unfolding new_segment_span create_root_segment_context create_first_context
continues_trace instance_id s ref refs ctx r r' h h' root d e =
    let new = get_or-new h.correlations (new_correlation_context_from ref.correlation_context) d in
    ground (arith, e, new)

-- A snapshot for another goroutine keeps trace, segment, span and the counters; its correlation store
-- is a new one, with the entries of the old.
pub snapshot_lem :
    (ctx : SegmentContext) (h : Heap) (p : ℕ) (d : CorrelationContext)
    → ctx.correlation_context ≡ some p
    → let (snap, h') = snapshot_context ctx h in
      (snap.trace_id ≡ ctx.trace_id)
      × (snap.segment_id ≡ ctx.segment_id)
      × (snap.span_id ≡ ctx.span_id)
      × (snap.shared ≡ ctx.shared)
      × (snap.correlation_context ≡ some (length h.correlations))
      × (get_or h'.correlations (length h.correlations) d
          ≡ clone (some (get_or h.correlations p new_correlation_context)))
unfolding snapshot_context
snapshot_lem ctx h p d c =
    let new =
      get_or-new h.correlations (clone (some (get_or h.correlations p new_correlation_context)))
        d in
    ground (arith, c, new)

pub root_parent_span_id :
    (instance_id : Bytes) (s : SpanRef) (refs : List SpanContext) (parent : Option SegmentContext)
    (ctx : SegmentContext) (r r' : Reading) (h h' : Heap)
    → new_segment_span instance_id s refs parent r r' h ≡ ((ctx, true), h')
    → ctx.parent_span_id ≡ negsuc 0
unfolding new_segment_span create_root_segment_context
root_parent_span_id instance_id s refs none ctx r r' h h' e = ground (arith, e)
root_parent_span_id instance_id s refs (some parent) ctx r r' h h' e = ground (arith, e)
