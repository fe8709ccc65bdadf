-- ===== src/Propagation/Examples.antt =====
-- Headers of a concrete context, and the theorems at it.
use skywalking_go.Base.{
  ◌≡◌, ◌≢◌, refl, true, false, [], ◌∷◌, none, some, pos, Bytes, codes, arith, str_eq_iff,
}
use skywalking_go.Base.Map.{Map, insert, lookup, lookup-insert}
use skywalking_go.Text.Base64
use skywalking_go.Text.Base64.{digit_char}
use skywalking_go.Text.Number.{itoa}
use skywalking_go.Text.Parts.{join, split}
use skywalking_go.Propagation.{
  SpanContext, ok, err, encode, decode, encode_sw8, decode_sw8, encode_sw8_correlation,
  insufficient_header_entities,
}
use skywalking_go.Propagation.Sw8.{IsSendable}
use skywalking_go.Propagation.Carrier.{Carrier, injector, extractor, decode-encode}

abbrev sender : SpanContext
sender = record {
  trace_id = codes "1.2.3";
  parent_segment_id = codes "4.5.6";
  parent_service = codes "shop";
  parent_service_instance = codes "shop@1";
  parent_endpoint = codes "/buy";
  address_used_at_client = codes "db:3306";
  parent_span_id = pos 21;
  sample = pos 1;
  valid = false;
  correlation_context = (codes "user", codes "ann") ∷ (codes "tier", []) ∷ [];
}

abbrev blank : SpanContext
blank = record {
  trace_id = [];
  parent_segment_id = [];
  parent_service = [];
  parent_service_instance = [];
  parent_endpoint = [];
  address_used_at_client = [];
  parent_span_id = pos 0;
  sample = pos 0;
  valid = false;
  correlation_context = [];
}

header_text :
    encode_sw8 sender ≡ codes "1-MS4yLjM=-NC41LjY=-21-c2hvcA==-c2hvcEAx-L2J1eQ==-ZGI6MzMwNg=="
unfolding encode_sw8 join itoa Base64.encode digit_char
header_text = refl

correlation_text : encode_sw8_correlation sender ≡ codes "dXNlcg==:YW5u,dGllcg==:"
unfolding encode_sw8_correlation join Base64.encode digit_char
correlation_text = refl

short_header : decode_sw8 (codes "1-a-b") blank ≡ err insufficient_header_entities blank
unfolding decode_sw8 split
short_header = refl

sender-IsSendable : IsSendable sender
sender-IsSendable = record {
  trace_id = omega arith;
  parent_segment_id = omega arith;
  parent_service = omega arith;
  parent_service_instance = omega arith;
  parent_endpoint = omega arith;
  address_used_at_client = omega arith;
  sample = (1, refl, omega arith);
  parent_span_id = (21, refl, omega arith);
}

-- A carrier of headers as a map; a missing header reads as "".
read : Bytes → Map Bytes → Bytes
read k m = elim (lookup k m) [ none ↦ [] | some v ↦ v ]

read-insert : (k v : Bytes) (m : Map Bytes) → read k (insert k v m) ≡ v
unfolding read
read-insert k v m = ground (arith, lookup-insert k k v m, str_eq_iff k k)

read-insert_ne : (k j v : Bytes) (m : Map Bytes) → k ≢ j → read j (insert k v m) ≡ read j m
unfolding read
read-insert_ne k j v m n = ground (arith, lookup-insert k j v m, str_eq_iff k j)

abbrev headers : Carrier (Map Bytes)
headers = record { put = insert; get = read; get-put = read-insert; get-put_ne = read-insert_ne }

decode-encode_example :
    (c : Map Bytes) × (encode (injector headers) sender [] ≡ some c)
    × (decode (extractor headers c) blank ≡ ok tt (record sender { valid = true }))
decode-encode_example =
    decode-encode headers sender [] blank sender-IsSendable ((refl, tt), (tt, tt)) (omega arith)
      refl
