-- ===== src/Tracer.antt =====
-- plugins/core/tracing.go: how the tracer makes spans, with the noop span of
-- plugins/core/span_noop.go and the counters of plugins/core/so11y.go. Spans are objects of a store; a
-- call runs on one goroutine, whose context is in the world of the spans. The decision of the sampler
-- and what the clock reads are inputs. The hooks of the profiler are left out.
pub mod Noop
pub mod Goroutine
pub mod Sampling
pub mod Reuse
pub mod Examples
use skywalking_go.Base.{
  ℕ, zero, suc, ◌+◌, Bool, true, false, not, ◌&&◌, ◌||◌, [], ◌∷◌, ◌++◌, List, Option, none, some, ℤ,
  pos, negsuc, Bytes, get_or, length, if◌then◌else◌,
}
use skywalking_go.Ignore.{tracer_ignore}
use skywalking_go.Identity.{IdContext, Reading}
use skywalking_go.Propagation.{SpanContext, Error, ok, err, decode, encode, carrier}
use skywalking_go.Store.{CorrelationContext, new_correlation_context, snapshot}
use skywalking_go.Span.{
  DefaultSpan, SpanType, World, Scene, SpanRef, entry, exit, local, new_default_span,
  set_operation_name, enter_reuse,
}
use skywalking_go.Creation.{Heap, SegmentContext, new_segment_span}
use skywalking_go.Base.Memory.{put}

pub record Tracer : Type 0 where
  pub init_success : Bool
  pub disconnected : Bool
  pub ignore_suffix : List Bytes
  pub trace_ignore_path : List Bytes
  pub instance_id : Bytes
  pub service_name : Bytes
  pub service_instance_name : Bytes

pub data SpanObject : Type 0 where
  noop : ℤ → SpanObject
  segment : DefaultSpan → SegmentContext → SpanObject
  in_snapshot : DefaultSpan → SegmentContext → SpanObject

pub record So11y : Type 0 where
  pub propagated_context : ℕ
  pub propagated_ignore_context : ℕ
  pub sampler_context : ℕ
  pub sampler_ignore_context : ℕ
  pub finish_ignore_context : ℕ
  pub leaked_context : ℕ
  pub leaked_ignore_context : ℕ

pub record Agent : Type 0 where
  pub spans : List SpanObject
  pub world : World
  pub heap : Heap
  pub so11y : So11y

abbrev pub get_span : SpanRef → Agent → SpanObject
get_span s a = get_or a.spans s (noop (pos 0))

abbrev pub put_span : SpanRef → SpanObject → Agent → Agent
put_span s o a = record a { spans = put s o a.spans }

abbrev pub new_span : SpanObject → Agent → SpanRef × Agent
new_span o a = (length a.spans, record a { spans = a.spans ++ (o ∷ []) })

-- `ctx.SaveActiveSpan(s)` and `SetGLS(ctx)`.
abbrev pub save_active_span : SpanRef → Agent → Agent
save_active_span s a = record a { world = record (a.world) { context = some (some s) } }

pub measure_tracing_context_creation : Bool → Bool → So11y → So11y
measure_tracing_context_creation true true c = record c {
  propagated_ignore_context = c.propagated_ignore_context + 1;
}
measure_tracing_context_creation true false c = record c {
  propagated_context = c.propagated_context + 1;
}
measure_tracing_context_creation false true c = record c {
  sampler_ignore_context = c.sampler_ignore_context + 1;
}
measure_tracing_context_creation false false c = record c {
  sampler_context = c.sampler_context + 1;
}

pub measure_leaked_tracing_context : Bool → So11y → So11y
measure_leaked_tracing_context true c = record c {
  leaked_ignore_context = c.leaked_ignore_context + 1;
}
measure_leaked_tracing_context false c = record c { leaked_context = c.leaked_context + 1 }

-- The stack count, a Go int that stays far from its bounds.
abbrev pub up : ℤ → ℤ
up (pos n) = pos (suc n)
up (negsuc zero) = pos 0
up (negsuc (suc n)) = negsuc n

abbrev pub down : ℤ → ℤ
down (pos zero) = negsuc 0
down (pos (suc n)) = pos n
down (negsuc n) = negsuc (suc n)

is_zero : ℤ → Bool
is_zero (pos zero) = true
is_zero (pos (suc n)) = false
is_zero (negsuc n) = false

-- `NoopSpan.End`.
pub end_noop : SpanRef → ℤ → Agent → Agent
unfolding is_zero
end_noop s n a =
    let a' = put_span s (noop (down n)) a in
    if is_zero (down n)
    then record a' {
      world = elim a.world.context [
        | none ↦ a.world
        | some active ↦ record (a.world) { context = some none }
      ];
      so11y = record (a.so11y) { finish_ignore_context = a.so11y.finish_ignore_context + 1 };
    }
    else a'

-- What `createNoop` decides: the noop span to return, or the parent of the span to make.
pub data Choice : Type 0 where
  noop_span : SpanRef → Choice
  parent : Option SpanRef → Choice

-- A new noop span, and its count.
abbrev ignored : Agent → Choice × Agent
ignored a =
    let (s, a') = new_span (noop (pos 1)) a in
    (noop_span s, record a' { so11y = measure_tracing_context_creation false true a.so11y })

-- `id` is the `IDContext` of a new tracing context.
pub create_noop : Tracer → Bytes → IdContext → Agent → Choice × Agent
unfolding measure_tracing_context_creation
create_noop t name id a = elim a.world.context [
  | some active ↦ elim active [
    | none ↦ (parent none, a)
    | some s ↦ elim (get_span s a) [
      | noop n ↦ (noop_span s, put_span s (noop (up n)) a)
      | segment d c ↦ (parent (some s), a)
      | in_snapshot d c ↦ (parent (some s), a)
    ]
  ]
  | none ↦
      if not t.init_success || t.disconnected
      then ignored a
      else if tracer_ignore name t.ignore_suffix t.trace_ignore_path
      then ignored a
      else (parent none, record a { heap = record (a.heap) { id = id } })
]

context_of : SpanObject → Option SegmentContext
context_of (noop n) = none
context_of (segment d c) = some c
context_of (in_snapshot d c) = some c

abbrev parent_context : Option SpanRef → Agent → Option SegmentContext
parent_context none a = none
parent_context (some p) a = context_of (get_span p a)

is_empty : List SpanContext → Bool
is_empty [] = true
is_empty (ref ∷ refs) = false

is_none : Option SegmentContext → Bool
is_none none = true
is_none (some c) = false

-- What one creation reads from outside.
pub record Inputs : Type 0 where
  pub id : IdContext
  pub now : ℕ
  pub for_trace : Reading
  pub for_segment : Reading
  pub sampled : Bool

-- `createSpan0`; the options of the core and of the plugin are functions on the span. The Boolean
-- says whether it is a noop span.
pub create_span0 :
    Tracer
    → Inputs
    → Option SpanRef
    → (DefaultSpan → DefaultSpan)
    → (DefaultSpan → DefaultSpan)
    → Agent
    → (SpanRef × Bool) × Agent
unfolding context_of is_empty is_none measure_tracing_context_creation
    measure_leaked_tracing_context
create_span0 t i p plugin_opts core_opts a =
    let ds = new_default_span i.now p in
    let parent_span = parent_context p a in
    let is_force_sample = not (is_empty ds.refs) in
    if is_none parent_span && (not is_force_sample && not i.sampled)
    then (let (s, a') = new_span (noop (pos 1)) a in
        (
          (s, true),
          record a' {
            so11y =
                measure_leaked_tracing_context true
                  (measure_tracing_context_creation false true a.so11y);
          },
        ))
    else (let ds' = core_opts ds in
        let ((c, root), heap) =
          new_segment_span t.instance_id (length a.spans) ds'.refs parent_span i.for_trace
            i.for_segment a.heap in
        let (s, a') = new_span (segment (plugin_opts ds') c) a in
        (
          (s, false),
          record a' {
            heap = heap;
            so11y = measure_tracing_context_creation is_force_sample false a.so11y;
          },
        ))

abbrev pub with_options : SpanType → Bytes → Bytes → List SpanContext → DefaultSpan → DefaultSpan
with_options type name peer refs d = record d {
  span_type = type;
  operation_name = name;
  peer = peer;
  refs = d.refs ++ refs;
}

abbrev pub is_type : SpanType → SpanType → Bool
is_type entry entry = true
is_type exit exit = true
is_type local local = true
is_type type other = false

-- The active segment span of the type, which is not a snapshot: it is reused.
abbrev pub reusable :
    SpanType → Option SpanRef → Agent → Option (SpanRef × DefaultSpan × SegmentContext)
reusable type none a = none
reusable type (some s) a = elim (get_span s a) [
  | noop n ↦ none
  | segment d c ↦ if is_type d.span_type type then some (s, d, c) else none
  | in_snapshot d c ↦ none
]

abbrev on_span : (Scene → Scene) → SpanRef → DefaultSpan → SegmentContext → Agent → Agent
on_span f s d c a =
    let scene = f (record { span = d; world = a.world }) in
    record (put_span s (segment scene.span c) a) { world = scene.world }

pub data Created : Type 0 where
  created : SpanRef → Created
  failed : Error → Created

abbrev pub no_context : SpanContext
no_context = record {
  trace_id = [];
  parent_segment_id = [];
  parent_service = [];
  parent_service_instance = [];
  parent_endpoint = [];
  address_used_at_client = [];
  parent_span_id = pos 0;
  sample = pos 0;
  valid = false;
  correlation_context = [];
}

create_and_save :
    Tracer
    → Inputs
    → Option SpanRef
    → (DefaultSpan → DefaultSpan)
    → (DefaultSpan → DefaultSpan)
    → Agent
    → Created × Agent
create_and_save t i p plugin_opts core_opts a =
    let ((s, is_noop), a') = create_span0 t i p plugin_opts core_opts a in
    (created s, save_active_span s a')

-- A context that is not valid gives no reference.
valid_refs : SpanContext → List SpanContext
valid_refs ref = if ref.valid then ref ∷ [] else []

pub create_entry_span :
    Tracer
    → Inputs
    → Bytes
    → (Bytes → Option Bytes)
    → (DefaultSpan → DefaultSpan)
    → Agent
    → Created × Agent
unfolding create_and_save valid_refs
create_entry_span t i name extractor plugin_opts a =
    let (choice, a') = create_noop t name i.id a in
    elim choice [
      | noop_span s ↦ (created s, a')
      | parent p ↦ elim (reusable entry p a') [
        | some (s, d, c) ↦ (
          created s,
          save_active_span s (on_span (λ x. enter_reuse (set_operation_name name x)) s d c a'),
        )
        | none ↦ elim (decode extractor no_context) [
          | err e ref ↦ (failed e, a')
          | ok u ref ↦
              create_and_save t i p plugin_opts (with_options entry name [] (valid_refs ref)) a'
        ]
      ]
    ]

pub create_local_span :
    Tracer → Inputs → Bytes → (DefaultSpan → DefaultSpan) → Agent → Created × Agent
unfolding create_and_save
create_local_span t i name plugin_opts a =
    let (choice, a') = create_noop t name i.id a in
    elim choice [
      | noop_span s ↦ (created s, a')
      | parent p ↦ create_and_save t i p plugin_opts (with_options local name [] []) a'
    ]

operation_name_of : Option SpanRef → Agent → Bytes
operation_name_of none a = []
operation_name_of (some s) a = elim (get_span s a) [
  | noop n ↦ []
  | segment d c ↦ d.operation_name
  | in_snapshot d c ↦ d.operation_name
]

-- What `CreateExitSpan` sends: the place of the new span, and a copy of the correlation values.
pub exit_context : Tracer → Bytes → SegmentContext → Agent → SpanContext
unfolding operation_name_of
exit_context t peer c a = record {
  sample = pos 1;
  trace_id = c.trace_id;
  parent_segment_id = c.segment_id;
  parent_span_id = c.span_id;
  parent_service = t.service_name;
  parent_service_instance = t.service_instance_name;
  parent_endpoint = operation_name_of c.first_span a;
  address_used_at_client = peer;
  valid = false;
  correlation_context = snapshot (elim c.correlation_context [
    | none ↦ none
    | some p ↦ some (get_or a.heap.correlations p new_correlation_context)
  ]);
}

-- The injector writes into the carrier, which comes back.
pub create_exit_span {ℓ} :
    {C : Type ℓ}
    → Tracer
    → Inputs
    → Bytes
    → Bytes
    → (Bytes → Bytes → C → Option C)
    → (DefaultSpan → DefaultSpan)
    → C
    → Agent
    → (Created × C) × Agent
create_exit_span t i name peer injector plugin_opts w a =
    let (choice, a') = create_noop t name i.id a in
    elim choice [
      | noop_span s ↦ ((created s, w), a')
      | parent p ↦ elim (reusable exit p a') [
        | some (s, d, c) ↦ ((created s, w), save_active_span s (on_span enter_reuse s d c a'))
        | none ↦
            let ((s, is_noop), a'') =
              create_span0 t i p plugin_opts (with_options exit name peer []) a' in
            elim (get_span s a'') [
              | noop n ↦ ((created s, w), save_active_span s a'')
              | segment d c ↦ elim (encode injector (exit_context t peer c a'') w) [
                | none ↦ ((failed carrier, w), a'')
                | some w' ↦ ((created s, w'), save_active_span s a'')
              ]
              | in_snapshot d c ↦ ((failed carrier, w), a'')
            ]
      ]
    ]
