-- ===== src/Creation.antt =====
-- plugins/core/span_tracing.go: how the context of a new span comes about. What the contexts of a
-- segment share by pointers is in the heap: the counters `refNum` and `spanIDGenerator`, which a root
-- makes, by the number of the segment, and the correlation stores, by a number of their own.
pub mod Contexts
pub mod Numbers
pub mod Examples
use skywalking_go.Base.{
  ℕ, zero, suc, ◌+◌, Bool, true, false, not, ◌||◌, [], ◌∷◌, ◌++◌, List, Option, none, some, ℤ, pos,
  negsuc, Bytes, get_or, length, if◌then◌else◌,
}
use skywalking_go.Identity.{IdContext, Reading, generate_global_id}
use skywalking_go.Propagation.{SpanContext}
use skywalking_go.Store.{
  CorrelationContext, new_correlation_context, new_correlation_context_from, clone,
}
use skywalking_go.Segment.{inc_int32, segment_register}
use skywalking_go.Span.{SpanRef}
use skywalking_go.Base.Memory.{put}

pub record Cells : Type 0 where
  pub ref_num : ℤ
  pub span_id_generator : ℤ

pub record Heap : Type 0 where
  pub cells : List Cells
  pub correlations : List CorrelationContext
  pub id : IdContext

pub record SegmentContext : Type 0 where
  pub trace_id : Bytes
  pub segment_id : Bytes
  pub span_id : ℤ
  pub parent_span_id : ℤ
  pub parent_segment_id : Bytes
  pub shared : ℕ
  pub first_span : Option SpanRef
  pub correlation_context : Option ℕ

abbrev pub no_cells : Cells
no_cells = record { ref_num = pos 0; span_id_generator = pos 0 }

abbrev pub new_correlation : CorrelationContext → Heap → ℕ × Heap
new_correlation c h =
    (length h.correlations, record h { correlations = h.correlations ++ (c ∷ []) })

-- `createSegmentContext` without a parent.
create_first_context : Bytes → SpanRef → List SpanContext → Reading → Heap → SegmentContext × Heap
create_first_context instance_id s [] r h =
    let (trace_id, id) = generate_global_id instance_id h.id r in
    let (c, h') = new_correlation new_correlation_context (record h { id = id }) in
    (
      record {
        trace_id = trace_id;
        segment_id = [];
        span_id = pos 0;
        parent_span_id = pos 0;
        parent_segment_id = [];
        shared = 0;
        first_span = some s;
        correlation_context = some c;
      },
      h',
    )
create_first_context instance_id s (ref ∷ refs) r h =
    let (c, h') = new_correlation (new_correlation_context_from ref.correlation_context) h in
    (
      record {
        trace_id = ref.trace_id;
        segment_id = [];
        span_id = pos 0;
        parent_span_id = pos 0;
        parent_segment_id = [];
        shared = 0;
        first_span = some s;
        correlation_context = some c;
      },
      h',
    )

abbrev or_else : Option SpanRef → SpanRef → SpanRef
or_else none s = s
or_else (some t) s = t

-- `if s.CorrelationContext == nil`.
ensure_correlation : SegmentContext → Heap → SegmentContext × Heap
ensure_correlation ctx h = elim ctx.correlation_context [
  | some c ↦ (ctx, h)
  | none ↦
      let (c, h') = new_correlation new_correlation_context h in
      (record ctx { correlation_context = some c }, h')
]

-- `createSegmentContext` of the span `s` with a parent.
create_child_context : SpanRef → SegmentContext → Heap → SegmentContext × Heap
unfolding inc_int32 ensure_correlation
create_child_context s parent h =
    let cell = get_or h.cells parent.shared no_cells in
    let span_id = inc_int32 cell.span_id_generator in
    ensure_correlation
      (record parent {
        parent_segment_id = parent.segment_id;
        parent_span_id = parent.span_id;
        span_id = span_id;
        first_span = some (or_else parent.first_span s);
      })
      (record h { cells = put parent.shared (record cell { span_id_generator = span_id }) h.cells })

-- `newSegmentRoot` and `createRootSegmentContext`: new counters, and a new segment identifier.
pub create_root_segment_context : Bytes → Reading → SegmentContext → Heap → SegmentContext × Heap
create_root_segment_context instance_id r ctx h =
    let (segment_id, id) = generate_global_id instance_id h.id r in
    (
      record ctx {
        segment_id = segment_id;
        span_id = pos 0;
        parent_span_id = negsuc 0;
        shared = length h.cells;
      },
      record h { cells = h.cells ++ (no_cells ∷ []); id = id },
    )

-- `NewSegmentSpan`. The Boolean says whether the span is the root of a segment. The first reading is
-- for the trace, the second for the segment.
unfoldable pub new_segment_span :
    Bytes
    → SpanRef
    → List SpanContext
    → Option SegmentContext
    → Reading
    → Reading
    → Heap
    → (SegmentContext × Bool) × Heap
unfolding create_first_context create_child_context create_root_segment_context
new_segment_span instance_id s refs none r r' h =
    let (ctx, h') = create_first_context instance_id s refs r h in
    let (root, h'') = create_root_segment_context instance_id r' ctx h' in ((root, true), h'')
new_segment_span instance_id s refs (some parent) r r' h =
    let (ctx, h') = create_child_context s parent h in
    let cell = get_or h'.cells parent.shared no_cells in
    let (n, accepted) = segment_register cell.ref_num in
    if accepted
    then (
      (ctx, false),
      record h' { cells = put parent.shared (record cell { ref_num = n }) h'.cells },
    )
    else let (root, h'') = create_root_segment_context instance_id r' ctx h' in ((root, true), h'')

-- The context of `newSnapshotSpan`: the correlation store is a copy.
pub snapshot_context : SegmentContext → Heap → SegmentContext × Heap
unfolding clone
snapshot_context ctx h =
    let (c, h') =
      new_correlation
        (clone (elim ctx.correlation_context [
          | none ↦ none
          | some p ↦ some (get_or h.correlations p new_correlation_context)
        ]))
        h in
    (
      record ctx { parent_span_id = pos 0; parent_segment_id = []; correlation_context = some c },
      h',
    )
