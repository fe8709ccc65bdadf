-- ===== src/Transform/Spans.antt =====
-- What the segment object has of the spans of a segment.
use skywalking_go.Base.{
  ℕ, ◌+◌, ◌-◌, ◌<◌, ◌≡◌, ◌⊎◌, refl, Bool, true, false, [], ◌∷◌, ◌++◌, List, Option, none, some, pos,
  negsuc, Bytes, length, length-append, map, concat_map, ◌==◌, arith, All, All-append,
}
use skywalking_go.Propagation.{SpanContext}
use skywalking_go.Identity.{Reading}
use skywalking_go.Span.{SpanRef}
use skywalking_go.Creation.{SegmentContext, Heap, new_segment_span}
use skywalking_go.Creation.Contexts.{root_parent_span_id}
use skywalking_go.Transform.{
  Entity, ReportedSpan, cross_process, cross_thread, SpanObject, SegmentReference, SegmentObject,
  cross_thread_refs, cross_process_ref, span_object, span_objects, last_of,
  transform_segment_object, is_natural,
}

last_of-append :
    (s root : ReportedSpan) (ss : List ReportedSpan) → last_of s (ss ++ (root ∷ [])) ≡ root
unfolding last_of
last_of-append s root [] = refl
last_of-append s root (t ∷ ss) = last_of-append t root ss

-- The entries for the children, then that for the root.
objects-append :
    (entity : Entity) (i size : ℕ) (root : ReportedSpan) (ss : List ReportedSpan)
    → i + length ss ≡ size - 1
    → 0 < size
    → span_objects entity size i (ss ++ (root ∷ []))
      ≡ map (span_object entity false) ss ++ (span_object entity true root ∷ [])
unfolding span_objects
objects-append entity i size root [] e p =
    let last : (i == (size - 1)) ≡ true = ground (arith, e) in rw last refl
objects-append entity i size root (s ∷ ss) e p =
    let last : (i == (size - 1)) ≡ false = ground (arith, e) in
    let rest = objects-append entity (i + 1) size root ss (omega (arith, e)) p in
    rw (last, rest) refl

-- What the object of a span has: each field is that of the span or of its context, and the references are
-- first the one to a parent in another goroutine, which only the root with a parent span has, then one
-- for each that the span was given.
pub record Describes (entity : Entity) (is_root : Bool) (s : ReportedSpan) (o : SpanObject)
    : Type 0 where
  pub span_id_of : o.span_id ≡ s.context.span_id
  pub parent_span_id_of : o.parent_span_id ≡ s.context.parent_span_id
  pub start_time_of : o.start_time ≡ s.values.start_time
  pub end_time_of : o.end_time ≡ s.values.end_time
  pub operation_name_of : o.operation_name ≡ s.values.operation_name
  pub peer_of : o.peer ≡ s.values.peer
  pub span_type_of : o.span_type ≡ s.values.span_type
  pub span_layer_of : o.span_layer ≡ s.values.layer
  pub component_id_of : o.component_id ≡ s.values.component_id
  pub is_error_of : o.is_error ≡ s.values.is_error
  pub tags_of : o.tags ≡ s.values.tag_list
  pub logs_of : o.logs ≡ s.values.log_list
  pub given_refs :
      (is_root ≡ false) ⊎ (s.context.parent_span_id ≡ negsuc 0)
      → o.refs ≡ map (cross_process_ref (s.context)) s.values.refs
  pub parent_ref :
      (n : ℕ)
      → is_root ≡ true
      → s.context.parent_span_id ≡ pos n
      → (r : SegmentReference) × (o.refs ≡ r ∷ map (cross_process_ref (s.context)) s.values.refs)
        × (r.ref_type ≡ cross_thread)
        × (r.trace_id ≡ s.context.trace_id)
        × (r.parent_trace_segment_id ≡ s.context.parent_segment_id)
        × (r.parent_span_id ≡ pos n)
        × (r.parent_service ≡ entity.service_name)
        × (r.parent_service_instance ≡ entity.service_instance_name)

-- The objects are those of the children in their order, and the last one is that of the root.
abbrev pub AllDescribe : Entity → List ReportedSpan → ReportedSpan → List SpanObject → Type 0
AllDescribe entity [] root [] = ⊥
AllDescribe entity [] root (o ∷ []) = Describes entity true root o
AllDescribe entity [] root (o ∷ p ∷ os) = ⊥
AllDescribe entity (s ∷ ss) root [] = ⊥
AllDescribe entity (s ∷ ss) root (o ∷ os) =
    Describes entity false s o × AllDescribe entity ss root os

span_object-Describes :
    (entity : Entity) (is_root : Bool) (s : ReportedSpan)
    → Describes entity is_root s (span_object entity is_root s)
unfolding span_object cross_thread_refs is_natural
span_object-Describes entity is_root s = record {
  span_id_of = refl;
  parent_span_id_of = refl;
  start_time_of = refl;
  end_time_of = refl;
  operation_name_of = refl;
  peer_of = refl;
  span_type_of = refl;
  span_layer_of = refl;
  component_id_of = refl;
  is_error_of = refl;
  tags_of = refl;
  logs_of = refl;
  given_refs = λ h. ground (arith, h);
  parent_ref = λ n e p. (
    record {
      ref_type = cross_thread;
      trace_id = s.context.trace_id;
      parent_trace_segment_id = s.context.parent_segment_id;
      parent_span_id = s.context.parent_span_id;
      parent_service = entity.service_name;
      parent_service_instance = entity.service_instance_name;
      parent_endpoint = [];
      network_address_used_at_peer = [];
    },
    ground (arith, e, p),
    refl,
    refl,
    refl,
    p,
    refl,
    refl,
  );
}

objects-AllDescribe :
    (entity : Entity) (root : ReportedSpan) (ss : List ReportedSpan)
    → AllDescribe entity ss root
        (map (span_object entity false) ss ++ (span_object entity true root ∷ []))
objects-AllDescribe entity root [] = span_object-Describes entity true root
objects-AllDescribe entity root (s ∷ ss) =
    (span_object-Describes entity false s, objects-AllDescribe entity root ss)

objects_of_segment :
    (entity : Entity) (children : List ReportedSpan) (root : ReportedSpan)
    → transform_segment_object entity (children ++ (root ∷ []))
      ≡ some (record {
        trace_id = root.context.trace_id;
        trace_segment_id = root.context.segment_id;
        spans = map (span_object entity false) children ++ (span_object entity true root ∷ []);
        service = entity.service_name;
        service_instance = entity.service_instance_name;
      })
unfolding transform_segment_object last_of
objects_of_segment entity [] root = refl
objects_of_segment entity (s ∷ ss) root =
    let len = length-append ss (root ∷ []) in
    let objects =
      objects-append entity 0 (length (s ∷ ss ++ (root ∷ []))) root (s ∷ ss) (omega (arith, len))
        (omega arith) in
    rw (last_of-append s root ss, objects) refl

-- There is an object for a segment. It has the identifiers of the root, the last reported span, the names
-- of the service and its instance, and one object for each span, in their order, with the values of that
-- span; only the object of the root has a reference to a parent in another goroutine, and only when its
-- parent span is not negative.
pub transform_segment_object_lem :
    (entity : Entity) (children : List ReportedSpan) (root : ReportedSpan)
    → (o : SegmentObject) × (transform_segment_object entity (children ++ (root ∷ [])) ≡ some o)
      × (o.trace_id ≡ root.context.trace_id)
      × (o.trace_segment_id ≡ root.context.segment_id)
      × (o.service ≡ entity.service_name)
      × (o.service_instance ≡ entity.service_instance_name)
      × AllDescribe entity children root o.spans
transform_segment_object_lem entity children root = (
  record {
    trace_id = root.context.trace_id;
    trace_segment_id = root.context.segment_id;
    spans = map (span_object entity false) children ++ (span_object entity true root ∷ []);
    service = entity.service_name;
    service_instance = entity.service_instance_name;
  },
  objects_of_segment entity children root,
  refl,
  refl,
  refl,
  refl,
  objects-AllDescribe entity root children,
)

abbrev pub IsCrossProcess : SegmentReference → Type 0
IsCrossProcess ref = ref.ref_type ≡ cross_process

abbrev pub refs_of : Option SegmentObject → List SegmentReference
refs_of none = []
refs_of (some o) = concat_map (λ x. x.refs) o.spans

process_refs :
    (ctx : SegmentContext) (refs : List SpanContext)
    → All IsCrossProcess (map (cross_process_ref ctx) refs)
process_refs ctx [] = tt
process_refs ctx (ref ∷ refs) = (refl, process_refs ctx refs)

child_refs :
    (entity : Entity) (children : List ReportedSpan) (root : ReportedSpan)
    → root.context.parent_span_id ≡ negsuc 0
    → All IsCrossProcess (
        concat_map
          (λ x. x.refs)
          (map (span_object entity false) children ++ (span_object entity true root ∷ [])))
unfolding span_object cross_thread_refs is_natural
child_refs entity [] root e = rw e (
    All-append IsCrossProcess (map (cross_process_ref (root.context)) root.values.refs) []
      (process_refs (root.context) root.values.refs) tt)
child_refs entity (s ∷ ss) root e =
    All-append IsCrossProcess (map (cross_process_ref (s.context)) s.values.refs)
      (concat_map (λ x. x.refs)
        (map (span_object entity false) ss ++ (span_object entity true root ∷ [])))
      (process_refs (s.context) s.values.refs) (child_refs entity ss root e)

-- The root of a segment, as `NewSegmentSpan` makes it, never gets the reference to its parent in
-- another goroutine: all references of the segment object came with requests from other processes.
pub root_refs :
    (entity : Entity) (children : List ReportedSpan) (root : ReportedSpan) (instance_id : Bytes)
    (s : SpanRef) (refs : List SpanContext) (parent : Option SegmentContext) (r r' : Reading)
    (h h' : Heap)
    → new_segment_span instance_id s refs parent r r' h ≡ ((root.context, true), h')
    → All IsCrossProcess (refs_of (transform_segment_object entity (children ++ (root ∷ []))))
root_refs entity children root instance_id s refs parent r r' h h' e =
    rw (objects_of_segment entity children root) (
      child_refs entity children root
        (root_parent_span_id instance_id s refs parent (root.context) r r' h h' e))
