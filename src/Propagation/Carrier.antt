-- ===== src/Propagation/Carrier.antt =====
-- `Encode` and `Decode` over a carrier of headers, such as those of an HTTP request.
use skywalking_go.Base.{
  ◌≡◌, ◌≢◌, refl, true, false, [], Option, some, Bytes, str_eq, inl, inr, Bool-cases, ◌∙◌, ap, sym,
}
use skywalking_go.Base.Map.{HasDistinctKeys}
use skywalking_go.Propagation.{
  SpanContext, Result, M, ◌>>◌, ok, err, header, header_correlation, decode_header, decode, encode,
  encode_sw8, encode_sw8_correlation, decode_sw8, decode_sw8_correlation,
}
use skywalking_go.Propagation.Sw8.{IsSendable, encode_sw8-ne-nil, decode_sw8-encode_sw8}
use skywalking_go.Propagation.Correlation.{HasBytes, decode-encode_correlation}

-- The third-party request or message that the headers travel in: a header that was put reads back,
-- and putting one header leaves the others alone. A missing header reads as "".
pub record Carrier {ℓ} (C : Type ℓ) : Type ℓ where
  pub put : Bytes → Bytes → C → C
  pub get : Bytes → C → Bytes
  pub get-put : (k v : Bytes) (c : C) → get k (put k v c) ≡ v
  pub get-put_ne : (k j v : Bytes) (c : C) → k ≢ j → get j (put k v c) ≡ get j c

>>-ok :
    {B : Type 0} (m : M (Unit {0})) (k : M B) (s : SpanContext) {s' : SpanContext}
    → m s ≡ ok tt s'
    → (m >> k) s ≡ k s'
>>-ok {B} m k s e =
    ap
      (λ (r : Result (Unit {0})).
        let x : Result B = elim r [ ok a s' ↦ k s' | err e s' ↦ err e s' ] in x)
      e

decode_nothing :
    (text : Bytes) (s : SpanContext)
    → str_eq text [] ≡ true
    → decode_sw8_correlation text s ≡ ok tt (record s { correlation_context = [] })
unfolding decode_sw8_correlation
decode_nothing text s h = rw h

module _ {ℓ} {C : Type ℓ} (carry : Carrier C) where
  -- The plugin's functions over this carrier, which never fail.
  abbrev pub injector : Bytes → Bytes → C → Option C
  injector k v c = some (carry.put k v c)

  abbrev pub extractor : C → Bytes → Option Bytes
  extractor c k = some (carry.get k c)

  -- The carrier after `Encode`.
  abbrev pub sent : SpanContext → C → C
  sent s c =
      carry.put header_correlation (encode_sw8_correlation s) (carry.put header (encode_sw8 s) c)

  encode_total : (s : SpanContext) (c : C) → encode injector s c ≡ some (sent s c)
  unfolding encode
  encode_total s c = refl

  get-header : (s : SpanContext) (c : C) → carry.get header (sent s c) ≡ encode_sw8 s
  get-header s c =
      carry.get-put_ne header_correlation header _ _ (λ e. cc) ∙ carry.get-put header _ c

  get-header_correlation :
      (s : SpanContext) (c : C) → carry.get header_correlation (sent s c) ≡ encode_sw8_correlation s
  get-header_correlation s c = carry.get-put header_correlation _ _

  decode_header-sw8 :
      (s r : SpanContext) (c : C)
      → IsSendable s
      → decode_header (extractor (sent s c)) header decode_sw8 r
        ≡ ok tt (record s { valid = true; correlation_context = r.correlation_context })
  unfolding decode_header
  decode_header-sw8 s r c h =
      rw (get-header s c) (rw (encode_sw8-ne-nil s) (decode_sw8-encode_sw8 s r h))

  decode_header-correlation :
      (s r : SpanContext) (c : C)
      → HasDistinctKeys s.correlation_context
      → HasBytes s.correlation_context
      → r.correlation_context ≡ []
      → decode_header (extractor (sent s c)) header_correlation decode_sw8_correlation r
        ≡ ok tt (record r { correlation_context = s.correlation_context })
  unfolding decode_header
  decode_header-correlation s r c d b e =
      rw (get-header_correlation s c) (elim (Bool-cases (str_eq (encode_sw8_correlation s) [])) [
        | inl nothing ↦ rw nothing (
            ap (λ m. ok tt (record r { correlation_context = m })) e
            ∙ sym (decode_nothing (encode_sw8_correlation s) r nothing)
            ∙ decode-encode_correlation s r d b)
        | inr something ↦ rw something (decode-encode_correlation s r d b)
      ])

  -- `Encode` succeeds, and a receiver without correlation values that decodes the carrier holds
  -- the fields of the sender and its correlation values, and is valid.
  pub decode-encode :
      (s : SpanContext) (c : C) (receiver : SpanContext)
      → IsSendable s
      → HasDistinctKeys s.correlation_context
      → HasBytes s.correlation_context
      → receiver.correlation_context ≡ []
      → (c' : C) × (encode injector s c ≡ some c')
        × (decode (extractor c') receiver ≡ ok tt (record s { valid = true }))
  unfolding decode
  decode-encode s c r h d b e =
      let r' = record r { valid = false } in
      let s' = record s { valid = true; correlation_context = r.correlation_context } in
      (
        sent s c,
        encode_total s c,
        >>-ok (decode_header (extractor (sent s c)) header decode_sw8)
              (decode_header (extractor (sent s c)) header_correlation decode_sw8_correlation) r'
              (decode_header-sw8 s r' c h)
            ∙ decode_header-correlation s s' c d b e,
      )
