-- ===== src/Tracer/Goroutine.antt =====
-- plugins/core/tracing.go: `ExtractContext`, `CaptureContext` and `ContinueContext`; and the spans that
-- `newSnapshotSpan` of plugins/core/span_tracing.go makes for another goroutine.
pub mod Laws
use skywalking_go.Base.{
  ℕ, Bool, true, false, not, ◌&&◌, [], ◌∷◌, ◌++◌, List, Option, none, some, ℤ, pos, Bytes, get_or,
  length, if◌then◌else◌,
}
use skywalking_go.Base.Map.{Map}
use skywalking_go.Identity.{IdContext}
use skywalking_go.Propagation.{SpanContext, Error, ok, err, decode}
use skywalking_go.Store.{CorrelationContext, new_correlation_context, set, runtime_clone}
use skywalking_go.Span.{DefaultSpan, World, Scene, SpanRef, entry, append_ref}
use skywalking_go.Creation.{Heap, SegmentContext, snapshot_context}
use skywalking_go.Base.Memory.{put}
use skywalking_go.Tracer.{
  Agent, SpanObject, noop, segment, in_snapshot, get_span, put_span, new_span, is_type, no_context,
}

-- The `DefaultSpan` of a snapshot: the other fields have their zero values.
pub snapshot_span : DefaultSpan → DefaultSpan
snapshot_span d = record {
  refs = [];
  start_time = 0;
  end_time = none;
  operation_name = d.operation_name;
  peer = d.peer;
  layer = pos 0;
  component_id = pos 0;
  tags = [];
  logs = [];
  is_error = false;
  span_type = entry;
  parent = none;
  in_async_mode = false;
  async_mode_finished = false;
  ended = false;
  dropped_logged = false;
  reuse_count = 0;
}

-- A span with a valid `DefaultSpan`; else there is nothing to continue.
unfoldable pub snapshot_of : DefaultSpan → SegmentContext → Agent → Option SpanRef × Agent
unfolding snapshot_span
snapshot_of d c a = elim d.end_time [
  | some t ↦ (none, a)
  | none ↦
      let (c', heap) = snapshot_context c a.heap in
      let (s, a') = new_span (in_snapshot (snapshot_span d) c') a in
      (some s, record a' { heap = heap })
]

unfoldable pub new_snapshot_span : Option SpanRef → Agent → Option SpanRef × Agent
unfolding snapshot_of
new_snapshot_span none a = (none, a)
new_snapshot_span (some s) a = elim (get_span s a) [
  | noop n ↦ let (s', a') = new_span (noop (pos 0)) a in (some s', a')
  | segment d c ↦ snapshot_of d c a
  | in_snapshot d c ↦ snapshot_of d c a
]

pub record ContextSnapshot {ℓ} (V : Type ℓ) : Type ℓ where
  pub active_span : Option SpanRef
  pub runtime : Option (Map V)

module _ {ℓ} {V : Type ℓ} where
  -- `runtime` is the runtime context of the goroutine.
  unfoldable pub capture_context : Option (Map V) → Agent → Option (ContextSnapshot V) × Agent
  capture_context runtime a = elim a.world.context [
    | none ↦ (none, a)
    | some active ↦
        let (s, a') = new_snapshot_span active a in
        (some (record { active_span = s; runtime = runtime_clone runtime }), a')
  ]

  -- On another goroutine, with its own context and runtime context; `id` is for a new context.
  pub continue_context :
      Option (ContextSnapshot V) → IdContext → Option (Map V) → Agent → Option (Map V) × Agent
  continue_context none id runtime a = (runtime, a)
  continue_context (some snap) id runtime a = (
    runtime_clone snap.runtime,
    record a {
      world = record (a.world) { context = some snap.active_span };
      heap = elim a.world.context [ none ↦ record (a.heap) { id = id } | some active ↦ a.heap ];
    },
  )

-- The carried values are set one after the other.
merge : Map Bytes → Option CorrelationContext → Option CorrelationContext
merge [] c = c
merge ((k, v) ∷ m) c = merge m (set c k v)

store_of : Option ℕ → Heap → Option CorrelationContext
store_of none h = none
store_of (some p) h = some (get_or h.correlations p new_correlation_context)

write_store : Option ℕ → Option CorrelationContext → Heap → Heap
write_store none c h = h
write_store (some p) none h = h
write_store (some p) (some c) h = record h { correlations = put p c h.correlations }

merge_correlation : SpanContext → SegmentContext → Heap → Heap
unfolding merge store_of write_store
merge_correlation ref c h =
    write_store c.correlation_context
      (merge ref.correlation_context (store_of c.correlation_context h)) h

pub data Extracted : Type 0 where
  extracted : Extracted
  refused : Error → Extracted

-- The active span takes one more reference, if it is an entry span.
extract_into :
    (DefaultSpan → SegmentContext → SpanObject)
    → SpanRef
    → DefaultSpan
    → SegmentContext
    → (Bytes → Option Bytes)
    → Agent
    → Extracted × Agent
unfolding merge_correlation
extract_into object s d c extractor a =
    if is_type d.span_type entry
    then elim (decode extractor no_context) [
      | err e ref ↦ (refused e, a)
      | ok u ref ↦
          if ref.valid
          then (let scene = append_ref ref (record { span = d; world = a.world }) in
              (
                extracted,
                record (put_span s (object scene.span c) a) {
                  world = scene.world;
                  heap = merge_correlation ref c a.heap;
                },
              ))
          else (extracted, a)
    ]
    else (extracted, a)

pub extract_context : (Bytes → Option Bytes) → Agent → Extracted × Agent
unfolding extract_into
extract_context extractor a = elim a.world.context [
  | none ↦ (extracted, a)
  | some active ↦ elim active [
    | none ↦ (extracted, a)
    | some s ↦ elim (get_span s a) [
      | noop n ↦ (extracted, a)
      | segment d c ↦ extract_into segment s d c extractor a
      | in_snapshot d c ↦ extract_into in_snapshot s d c extractor a
    ]
  ]
]
