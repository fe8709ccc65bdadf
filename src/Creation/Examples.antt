-- ===== src/Creation/Examples.antt =====
-- Concrete calls of the theorems on the contexts of spans.
use skywalking_go.Base.{
  ◌≡◌, ◌≢◌, refl, Bool, true, false, [], ◌∷◌, some, pos, negsuc, codes, arith, All, AllDistinct,
}
use skywalking_go.Identity.{Reading, new_id_context}
use skywalking_go.Propagation.{SpanContext}
use skywalking_go.Creation.{Heap, SegmentContext, no_cells, new_segment_span}
use skywalking_go.Segment.{inc_int32}
use skywalking_go.Creation.Contexts.{child_of_parent}
use skywalking_go.Creation.Numbers.{Call, span_ids, span_ids-AllDistinct}

abbrev pub heap0 : Heap
heap0 = record {
  cells = no_cells ∷ [];
  correlations = record { entries = (codes "user", codes "7") ∷ [] } ∷ [];
  id = new_id_context true (pos 5);
}

abbrev pub parent0 : SegmentContext
parent0 = record {
  trace_id = codes "t";
  segment_id = codes "s";
  span_id = pos 0;
  parent_span_id = negsuc 0;
  parent_segment_id = [];
  shared = 0;
  first_span = some 1;
  correlation_context = some 0;
}

abbrev pub now0 : Reading
now0 = record { now = 1000; go_id = pos 5 }

abbrev pub ref0 : SpanContext
ref0 = record {
  trace_id = codes "up";
  parent_segment_id = codes "us";
  parent_service = codes "svc";
  parent_service_instance = codes "inst";
  parent_endpoint = codes "/a";
  address_used_at_client = codes "h:80";
  parent_span_id = pos 1;
  sample = pos 1;
  valid = true;
  correlation_context = (codes "k", codes "v") ∷ [];
}

child0 : (SegmentContext × Bool) × Heap
child0 = new_segment_span (codes "i") 2 [] (some parent0) now0 now0 heap0

child_of_parent_example :
    (child0.0.0.trace_id ≡ codes "t")
    × (child0.0.0.parent_segment_id ≡ codes "s")
    × (child0.0.0.correlation_context ≡ some 0)
    × (child0.0.1 ≡ false)
    × (child0.0.0.segment_id ≡ codes "s")
    × (child0.0.0.shared ≡ 0)
    × (child0.0.0.span_id ≡ inc_int32 (pos 0))
    × (child0.0.0.parent_span_id ≡ pos 0)
unfolding child0
child_of_parent_example =
    child_of_parent (codes "i") 2 [] parent0 child0.0.0 now0 now0 heap0 child0.1 0 child0.0.1 refl
      (omega arith) refl

abbrev call0 : Call
call0 = record { span = 2; refs = []; parent = some parent0; now = now0; later = now0 }

span_ids-AllDistinct_example :
    All (λ i. pos 0 ≢ i) (span_ids (codes "i") 0 (call0 ∷ call0 ∷ []) heap0)
    × AllDistinct (span_ids (codes "i") 0 (call0 ∷ call0 ∷ []) heap0)
span_ids-AllDistinct_example =
    span_ids-AllDistinct (codes "i") 0 (call0 ∷ call0 ∷ []) heap0 (omega arith) (omega arith) refl
