-- ===== src/Tracer/Examples.antt =====
-- Concrete calls of the theorems on the tracer.
use skywalking_go.Base.{
  ◌+◌, ◌≡◌, refl, true, false, [], ◌∷◌, ◌++◌, List, Option, none, some, pos, Bytes, codes, length,
  arith,
}
use skywalking_go.Identity.{new_id_context}
use skywalking_go.Propagation.{decode}
use skywalking_go.Span.{DefaultSpan, new_default_span, entry}
use skywalking_go.Creation.Examples.{heap0, parent0, now0}
use skywalking_go.Tracer.{
  Tracer, Inputs, Agent, So11y, noop, segment, create_entry_span, created, get_span, no_context,
}
use skywalking_go.Tracer.Noop.{Call, creates, ends}
use skywalking_go.Tracer.Sampling.{unsampled_entry}
use skywalking_go.Base.{str_eq, if◌then◌else◌}
use skywalking_go.Propagation.{SpanContext, ok, decode_sw8}
use skywalking_go.Base.{ℕ, inl}
use skywalking_go.Ignore.{tracer_ignore, ignore_suffix, trace_ignore_path}
use skywalking_go.Base.Map.{insert_all}
use skywalking_go.Text.Parts.{split}
use skywalking_go.Text.Base64.{char_digit}
use skywalking_go.Text.Number.{parse_int}
use skywalking_go.Text.Base64
use skywalking_go.Store.{runtime_clone}
use skywalking_go.Creation.{SegmentContext}
use skywalking_go.Creation.Examples.{ref0}
use skywalking_go.Tracer.{in_snapshot}
use skywalking_go.Tracer.Goroutine.{
  ContextSnapshot, capture_context, continue_context, new_snapshot_span, snapshot_of,
}
use skywalking_go.Tracer.Goroutine.Laws.{continue-capture}
use skywalking_go.Tracer.Reuse.{reused_entry}

abbrev tracer0 : Tracer
tracer0 = record {
  init_success = true;
  disconnected = false;
  ignore_suffix = [];
  trace_ignore_path = [];
  instance_id = codes "i";
  service_name = codes "svc";
  service_instance_name = codes "svc@1";
}

abbrev inputs0 : Inputs
inputs0 = record {
  id = new_id_context true (pos 5);
  now = 10;
  for_trace = now0;
  for_segment = now0;
  sampled = false;
}

abbrev counters0 : So11y
counters0 = record {
  propagated_context = 0;
  propagated_ignore_context = 0;
  sampler_context = 0;
  sampler_ignore_context = 0;
  finish_ignore_context = 0;
  leaked_context = 0;
  leaked_ignore_context = 0;
}

abbrev idle : Agent
idle = record {
  spans = [];
  world = record { context = some none; finished = 0; warnings = [] };
  heap = heap0;
  so11y = counters0;
}

abbrev no_header : Bytes → Option Bytes
no_header key = some []

abbrev noop0 : Agent
noop0 = record idle {
  spans = noop (pos 1) ∷ [];
  world = record { context = some (some 0); finished = 0; warnings = [] };
}

abbrev calls0 : List Call
calls0 = creates (codes "/b") (new_id_context true (pos 5)) ∷ [] ++ ends ∷ []

abbrev open0 : DefaultSpan
open0 = record (new_default_span 5 none) { span_type = entry; operation_name = codes "/a" }

abbrev serving : Agent
serving = record noop0 { spans = segment open0 parent0 ∷ [] }

reused_entry_example :
    let (r, a') = create_entry_span tracer0 inputs0 (codes "GET /a") no_header (λ d. d) serving in
    (r ≡ created 0)
    × (length a'.spans ≡ 1)
    × (get_span 0 a'
        ≡ segment
            (record open0 { operation_name = codes "GET /a"; reuse_count = open0.reuse_count + 1 })
            parent0)
    × (a'.world.context ≡ some (some 0))
unfolding new_default_span
reused_entry_example =
    reused_entry tracer0 inputs0 (codes "GET /a") no_header (λ d. d) serving 0 open0 parent0 refl
      refl (omega arith) refl refl

abbrev captured : Option (ContextSnapshot ℕ) × Agent
captured = capture_context (some []) serving

abbrev snap0 : ContextSnapshot ℕ
snap0 = record { active_span = some 1; runtime = some [] }

abbrev continued : Agent
continued =
    (continue_context (some snap0) (new_id_context true (pos 6)) none
      (record captured.1 { world = idle.world })).1

continue-capture_example :
    (continued.world.context ≡ some (some 1))
    × (get_span 0 continued ≡ segment open0 parent0)
    × (d' : DefaultSpan) × (c' : SegmentContext) × (get_span 1 continued ≡ in_snapshot d' c')
    × (d'.operation_name ≡ codes "/a")
    × (d'.peer ≡ [])
    × (d'.refs ≡ [])
    × (d'.tags ≡ [])
    × (d'.logs ≡ [])
    × (c'.trace_id ≡ codes "t")
    × (c'.segment_id ≡ codes "s")
    × (c'.span_id ≡ pos 0)
    × (c'.shared ≡ 0)
unfolding capture_context new_snapshot_span snapshot_of runtime_clone new_default_span insert_all
continue-capture_example =
    continue-capture (some []) serving captured.1 0 open0 parent0 0 snap0
      (new_id_context true (pos 6)) none idle.world refl refl (omega arith) refl refl refl

abbrev carried : Bytes → Option Bytes
carried key =
    if str_eq key (codes "sw8")
    then some (codes "1-dXA=-dXM=-1-c3Zj-aW5zdA==-L2E=-aDo4MA==")
    else some []

abbrev received : SpanContext
received = record ref0 { correlation_context = [] }

carried_lem : decode carried no_context ≡ ok tt received
unfolding decode decode_sw8 split char_digit parse_int Base64.decode
carried_lem = refl

unstarted : Agent
unstarted = record idle { world = record { context = none; finished = 0; warnings = [] } }

unsampled_entry_example :
    let (c, a') = create_entry_span tracer0 inputs0 (codes "/a") carried (λ d. d) unstarted in
    (c ≡ created 0)
    × (get_span 0 a' ≡ noop (pos 1))
    × (a'.world.context ≡ some (some 0))
    × (a'.world.finished ≡ 0)
    × (a'.heap.cells ≡ unstarted.heap.cells)
    × (a'.so11y.sampler_ignore_context ≡ 1)
    × (a'.so11y.propagated_context ≡ 0)
    × (a'.so11y.propagated_ignore_context ≡ 0)
unfolding unstarted tracer_ignore ignore_suffix trace_ignore_path
unsampled_entry_example =
    unsampled_entry tracer0 inputs0 (codes "/a") carried (λ d. d) unstarted received
      (inl (refl, refl, refl, refl)) refl carried_lem
