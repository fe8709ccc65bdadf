-- ===== src/Transform/Examples.antt =====
-- A segment of one child and its root.
use skywalking_go.Base.{◌≡◌, refl, Bool, [], ◌∷◌, ◌++◌, none, some, codes, All}
use skywalking_go.Span.{new_default_span}
use skywalking_go.Span.Frozen.{reported}
use skywalking_go.Creation.{SegmentContext, Heap, new_segment_span}
use skywalking_go.Creation.Examples.{heap0, parent0, now0, ref0}
use skywalking_go.Transform.{Entity, ReportedSpan, SegmentObject, transform_segment_object}
use skywalking_go.Transform.Spans.{
  AllDescribe, transform_segment_object_lem, root_refs, IsCrossProcess, refs_of,
}

abbrev entity0 : Entity
entity0 = record { service_name = codes "svc"; service_instance_name = codes "svc@1" }

made : (SegmentContext × Bool) × Heap
made = new_segment_span (codes "i") 1 (ref0 ∷ []) none now0 now0 heap0

abbrev child0 : ReportedSpan
child0 = record { context = parent0; values = reported (new_default_span 10 (some 1)) }

root0 : ReportedSpan
root0 = record {
  context = made.0.0;
  values = reported (record (new_default_span 5 none) { refs = ref0 ∷ [] });
}

transform_segment_object_lem_example :
    (o : SegmentObject) × (transform_segment_object entity0 ((child0 ∷ []) ++ (root0 ∷ []))
      ≡ some o)
    × (o.trace_id ≡ root0.context.trace_id)
    × (o.trace_segment_id ≡ root0.context.segment_id)
    × (o.service ≡ codes "svc")
    × (o.service_instance ≡ codes "svc@1")
    × AllDescribe entity0 (child0 ∷ []) root0 o.spans
transform_segment_object_lem_example = transform_segment_object_lem entity0 (child0 ∷ []) root0

root_refs_example :
    All IsCrossProcess (refs_of (transform_segment_object entity0 ((child0 ∷ []) ++ (root0 ∷ []))))
unfolding made root0 new_segment_span
root_refs_example =
    root_refs entity0 (child0 ∷ []) root0 (codes "i") 1 (ref0 ∷ []) none now0 now0 heap0 made.1 refl
