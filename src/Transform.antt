-- ===== src/Transform.antt =====
-- plugins/core/reporter/transform.go: the segment object that the reporter sends for a segment. The
-- copies of tags and logs have the same entries; the span data has no nil pointers.
pub mod Spans
pub mod Examples
use skywalking_go.Base.{
  ℕ, suc, ◌+◌, ◌-◌, Bool, true, false, ◌&&◌, [], ◌∷◌, ◌++◌, List, Option, none, some, ℤ, pos,
  negsuc, Bytes, length, map, ◌==◌, if◌then◌else◌,
}
use skywalking_go.Propagation.{SpanContext}
use skywalking_go.Span.{SpanType, KeyValue, Log}
use skywalking_go.Span.Frozen.{Reported}
use skywalking_go.Creation.{SegmentContext}

pub record Entity : Type 0 where
  pub service_name : Bytes
  pub service_instance_name : Bytes

pub record ReportedSpan : Type 0 where
  pub context : SegmentContext
  pub values : Reported

pub data RefType : Type 0 where
  cross_process cross_thread : RefType

pub record SegmentReference : Type 0 where
  pub ref_type : RefType
  pub trace_id : Bytes
  pub parent_trace_segment_id : Bytes
  pub parent_span_id : ℤ
  pub parent_service : Bytes
  pub parent_service_instance : Bytes
  pub parent_endpoint : Bytes
  pub network_address_used_at_peer : Bytes

pub record SpanObject : Type 0 where
  pub span_id : ℤ
  pub parent_span_id : ℤ
  pub start_time : ℕ
  pub end_time : Option ℕ
  pub operation_name : Bytes
  pub peer : Bytes
  pub span_type : SpanType
  pub span_layer : ℤ
  pub component_id : ℤ
  pub is_error : Bool
  pub tags : List KeyValue
  pub logs : List Log
  pub refs : List SegmentReference

pub record SegmentObject : Type 0 where
  pub trace_id : Bytes
  pub trace_segment_id : Bytes
  pub spans : List SpanObject
  pub service : Bytes
  pub service_instance : Bytes

is_natural : ℤ → Bool
is_natural (pos n) = true
is_natural (negsuc n) = false

-- The reference to the parent in another goroutine, that the last span may have.
cross_thread_refs : Entity → Bool → SegmentContext → List SegmentReference
unfolding is_natural
cross_thread_refs entity last ctx =
    if last && is_natural ctx.parent_span_id
    then record {
      ref_type = cross_thread;
      trace_id = ctx.trace_id;
      parent_trace_segment_id = ctx.parent_segment_id;
      parent_span_id = ctx.parent_span_id;
      parent_service = entity.service_name;
      parent_service_instance = entity.service_instance_name;
      parent_endpoint = [];
      network_address_used_at_peer = [];
    }
      ∷ []
    else []

abbrev pub cross_process_ref : SegmentContext → SpanContext → SegmentReference
cross_process_ref ctx tc = record {
  ref_type = cross_process;
  trace_id = ctx.trace_id;
  parent_trace_segment_id = tc.parent_segment_id;
  parent_span_id = tc.parent_span_id;
  parent_service = tc.parent_service;
  parent_service_instance = tc.parent_service_instance;
  parent_endpoint = tc.parent_endpoint;
  network_address_used_at_peer = tc.address_used_at_client;
}

-- One round of the loop.
pub span_object : Entity → Bool → ReportedSpan → SpanObject
unfolding cross_thread_refs
span_object entity last s = record {
  span_id = s.context.span_id;
  parent_span_id = s.context.parent_span_id;
  start_time = s.values.start_time;
  end_time = s.values.end_time;
  operation_name = s.values.operation_name;
  peer = s.values.peer;
  span_type = s.values.span_type;
  span_layer = s.values.layer;
  component_id = s.values.component_id;
  is_error = s.values.is_error;
  tags = s.values.tag_list;
  logs = s.values.log_list;
  refs =
      cross_thread_refs entity last (s.context)
      ++ map (cross_process_ref (s.context)) s.values.refs;
}

pub span_objects : Entity → ℕ → ℕ → List ReportedSpan → List SpanObject
unfolding span_object
span_objects entity size i [] = []
span_objects entity size i (s ∷ ss) =
    span_object entity (i == (size - 1)) s ∷ span_objects entity size (i + 1) ss

last_of : ReportedSpan → List ReportedSpan → ReportedSpan
last_of s [] = s
last_of s (t ∷ ss) = last_of t ss

pub transform_segment_object : Entity → List ReportedSpan → Option SegmentObject
unfolding span_objects last_of
transform_segment_object entity [] = none
transform_segment_object entity (s ∷ ss) =
    let root = last_of s ss in
    some (record {
      trace_id = root.context.trace_id;
      trace_segment_id = root.context.segment_id;
      spans = span_objects entity (length (s ∷ ss)) 0 (s ∷ ss);
      service = entity.service_name;
      service_instance = entity.service_instance_name;
    })
