-- ===== src/Propagation/Sw8.antt =====
-- The `sw8` header: what `EncodeSW8` writes, `DecodeSW8` reads back.
use skywalking_go.Base.{
  ℕ, ◌<◌, ◌≤◌, ◌^◌, ◌≡◌, refl, true, false, [], ◌∷◌, ◌++◌, ℤ, pos, Bytes, AreBytes, All, str_eq,
  arith,
}
use skywalking_go.Text.Parts.{split, join, Without, split-join}
use skywalking_go.Text.Base64
use skywalking_go.Text.Base64.{IsPlain}
use skywalking_go.Text.Number.{parsed, itoa, parse_int}
use skywalking_go.Text.Number.Laws.{parse_int-itoa, itoa-IsDigit}
use skywalking_go.Propagation.{SpanContext, ok, sw8_fields, split_token, encode_sw8, decode_sw8}

-- The context has texts of bytes, a sample flag from 0 to 127 and a parent span id from 0 to
-- 2^31 - 1: neither number is below zero.
pub record IsSendable (c : SpanContext) : Type 0 where
  pub trace_id : AreBytes c.trace_id
  pub parent_segment_id : AreBytes c.parent_segment_id
  pub parent_service : AreBytes c.parent_service
  pub parent_service_instance : AreBytes c.parent_service_instance
  pub parent_endpoint : AreBytes c.parent_endpoint
  pub address_used_at_client : AreBytes c.address_used_at_client
  pub sample : (n : ℕ) × (c.sample ≡ pos n) × (n < 128)
  pub parent_span_id : (n : ℕ) × (c.parent_span_id ≡ pos n) × (n < 2 ^ 31)

encode-Without : (s : Bytes) → AreBytes s → Without b'-' (Base64.encode s)
encode-Without s h = go (Base64.encode s) (Base64.encode-IsPlain s h)
  where
    go : (t : Bytes) → All IsPlain t → Without b'-' t
    go [] p = tt
    go (c ∷ t) p = (p.0.0, go t p.1)

itoa-Without : (z : ℤ) (n : ℕ) → z ≡ pos n → Without b'-' (itoa z)
itoa-Without z n e = rw e (go (itoa (pos n)) (itoa-IsDigit n))
  where
    go : (t : Bytes) → All (λ c. (b'0' ≤ c) × (c ≤ b'9')) t → Without b'-' t
    go [] p = tt
    go (c ∷ t) p = (omega arith, go t p.1)

sw8_fields-Without : (c : SpanContext) → IsSendable c → All (Without b'-') (sw8_fields c)
sw8_fields-Without c h = (
  itoa-Without c.sample h.sample.0 h.sample.1,
  (
    encode-Without c.trace_id h.trace_id,
    (
      encode-Without c.parent_segment_id h.parent_segment_id,
      (
        itoa-Without c.parent_span_id h.parent_span_id.0 h.parent_span_id.1,
        (
          encode-Without c.parent_service h.parent_service,
          (
            encode-Without c.parent_service_instance h.parent_service_instance,
            (
              encode-Without c.parent_endpoint h.parent_endpoint,
              (encode-Without c.address_used_at_client h.address_used_at_client, tt),
            ),
          ),
        ),
      ),
    ),
  ),
)

-- The header is eight fields between dashes.
pub split-encode_sw8 :
    (c : SpanContext) → IsSendable c → split split_token (encode_sw8 c) ≡ sw8_fields c
unfolding encode_sw8
split-encode_sw8 c h = split-join b'-' _ _ (sw8_fields-Without c h)

parse_sample : (z : ℤ) (n : ℕ) → z ≡ pos n → n < 128 → parse_int false 8 (itoa z) ≡ parsed z
parse_sample z n e h = rw e (parse_int-itoa false 8 n h (omega arith))

parse_parent_span_id :
    (z : ℤ) (n : ℕ) → z ≡ pos n → n < 2 ^ 31 → parse_int true 32 (itoa z) ≡ parsed z
parse_parent_span_id z n e h = rw e (parse_int-itoa true 32 n h (omega arith))

pub encode_sw8-ne-nil : (c : SpanContext) → str_eq (encode_sw8 c) [] ≡ false
unfolding encode_sw8 join
encode_sw8-ne-nil c = go (itoa c.sample) _
  where
    go : (t s : Bytes) → str_eq (t ++ (b'-' ∷ s)) [] ≡ false
    go [] s = refl
    go (x ∷ t) s = refl

-- The header of a sendable context is read back into any receiver: every field of the header is
-- restored, the receiver becomes valid, and its correlation values stay as they were.
pub decode_sw8-encode_sw8 :
    (c s : SpanContext)
    → IsSendable c
    → decode_sw8 (encode_sw8 c) s
      ≡ ok tt (record c { valid = true; correlation_context = s.correlation_context })
unfolding decode_sw8
decode_sw8-encode_sw8 c s h = ground (
  arith,
  encode_sw8-ne-nil c,
  split-encode_sw8 c h,
  parse_sample c.sample h.sample.0 h.sample.1 h.sample.2,
  Base64.decode-encode c.trace_id h.trace_id,
  Base64.decode-encode c.parent_segment_id h.parent_segment_id,
  parse_parent_span_id c.parent_span_id h.parent_span_id.0 h.parent_span_id.1 h.parent_span_id.2,
  Base64.decode-encode c.parent_service h.parent_service,
  Base64.decode-encode c.parent_service_instance h.parent_service_instance,
  Base64.decode-encode c.parent_endpoint h.parent_endpoint,
  Base64.decode-encode c.address_used_at_client h.address_used_at_client,
)
