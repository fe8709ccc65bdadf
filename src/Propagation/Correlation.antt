-- ===== src/Propagation/Correlation.antt =====
-- The `sw8-correlation` header: what `EncodeSW8Correlation` writes is read back.
use skywalking_go.Base.{
  ℕ, ◌≡◌, refl, ap, ◌∙◌, false, [], ◌∷◌, ◌++◌, List, Bytes, AreBytes, All, All-append, str_eq,
  if◌then◌else◌, arith,
}
use skywalking_go.Base.Map
use skywalking_go.Base.Map.{Map, HasDistinctKeys, insert_all}
use skywalking_go.Text.Parts.{split, join, Without, split-join}
use skywalking_go.Text.Base64
use skywalking_go.Text.Base64.{IsPlain}
use skywalking_go.Propagation.{
  SpanContext, ok, decode_pair, decode_pairs, encode_pairs, decode_sw8_correlation,
  encode_sw8_correlation,
}

-- Keys and values are texts of bytes.
abbrev pub HasBytes : Map Bytes → Type 0
HasBytes [] = Unit {0}
HasBytes ((k, v) ∷ m) = AreBytes k × AreBytes v × HasBytes m

plain-colon : (t : Bytes) → All IsPlain t → Without b':' t
plain-colon [] p = tt
plain-colon (c ∷ t) p = (p.0.2, plain-colon t p.1)

plain-comma : (t : Bytes) → All IsPlain t → Without b',' t
plain-comma [] p = tt
plain-comma (c ∷ t) p = (p.0.1, plain-comma t p.1)

entry-Without :
    (k v : Bytes)
    → AreBytes k
    → AreBytes v
    → Without b',' (Base64.encode k ++ (b':' ∷ Base64.encode v))
entry-Without k v hk hv =
    All-append _ (Base64.encode k) (b':' ∷ Base64.encode v)
      (plain-comma _ (Base64.encode-IsPlain k hk))
      (omega arith, plain-comma _ (Base64.encode-IsPlain v hv))

encode_pairs-Without : (m : Map Bytes) → HasBytes m → All (Without b',') (encode_pairs m)
unfolding encode_pairs join
encode_pairs-Without [] h = tt
encode_pairs-Without ((k, v) ∷ m) h = (entry-Without k v h.0 h.1, encode_pairs-Without m h.2)

split-entry :
    (k v : Bytes)
    → AreBytes k
    → AreBytes v
    → split b':' (join b':' (Base64.encode k ∷ Base64.encode v ∷ []))
      ≡ Base64.encode k ∷ Base64.encode v ∷ []
split-entry k v hk hv =
    split-join b':' _ _
      (plain-colon _ (Base64.encode-IsPlain k hk), (plain-colon _ (Base64.encode-IsPlain v hv), tt))

decode_pair-encode :
    (k v : Bytes) (m : Map Bytes)
    → AreBytes k
    → AreBytes v
    → decode_pair (Base64.encode k ∷ Base64.encode v ∷ []) m ≡ Map.insert k v m
unfolding decode_pair
decode_pair-encode k v m hk hv =
    ground (arith, Base64.decode-encode k hk, Base64.decode-encode v hv)

decode_pairs-encode_pairs :
    (m acc : Map Bytes) → HasBytes m → decode_pairs (encode_pairs m) acc ≡ insert_all m acc
unfolding decode_pairs encode_pairs insert_all
decode_pairs-encode_pairs [] acc h = refl
decode_pairs-encode_pairs ((k, v) ∷ m) acc h =
    ap (decode_pairs (encode_pairs m)) (
      ap (λ parts. decode_pair parts acc) (split-entry k v h.0 h.1)
      ∙ decode_pair-encode k v acc h.0 h.1)
    ∙ decode_pairs-encode_pairs m (Map.insert k v acc) h.2

split-encode_pairs :
    (entry : Bytes × Bytes) (m : Map Bytes)
    → HasBytes (entry ∷ m)
    → split b',' (join b',' (encode_pairs (entry ∷ m))) ≡ encode_pairs (entry ∷ m)
unfolding encode_pairs
split-encode_pairs (k, v) m h =
    split-join b',' _ _ (unfold encode_pairs in encode_pairs-Without ((k, v) ∷ m) h)

append-ne-nil : (t : Bytes) (c : ℕ) (s : Bytes) → str_eq (t ++ (c ∷ s)) [] ≡ false
append-ne-nil [] c s = refl
append-ne-nil (x ∷ t) c s = refl

join-ne-nil :
    (part : Bytes) (parts : List Bytes)
    → str_eq part [] ≡ false
    → str_eq (join b',' (part ∷ parts)) [] ≡ false
unfolding join
join-ne-nil part [] h = h
join-ne-nil part (next ∷ parts) h = append-ne-nil part b',' _

encode_pairs-ne-nil :
    (k v : Bytes) (m : Map Bytes) → str_eq (join b',' (encode_pairs ((k, v) ∷ m))) [] ≡ false
unfolding encode_pairs
encode_pairs-ne-nil k v m = join-ne-nil _ (encode_pairs m) (unfold join in append-ne-nil _ b':' _)

-- The correlation values of a context, whose keys are distinct and whose texts hold bytes, are read
-- back from the header in the order in which they were written; the receiver keeps its other fields.
pub decode-encode_correlation :
    (c s : SpanContext)
    → HasDistinctKeys c.correlation_context
    → HasBytes c.correlation_context
    → decode_sw8_correlation (encode_sw8_correlation c) s
      ≡ ok tt (record s { correlation_context = c.correlation_context })
unfolding decode_sw8_correlation encode_sw8_correlation join
decode-encode_correlation c s d h = go c.correlation_context d h
  where
    go :
        (m : Map Bytes)
        → HasDistinctKeys m
        → HasBytes m
        → (if str_eq (join b',' (encode_pairs m)) []
            then ok tt (record s { correlation_context = [] })
            else ok tt (record s {
              correlation_context = decode_pairs (split b',' (join b',' (encode_pairs m))) [];
            }))
          ≡ ok tt (record s { correlation_context = m })
    go [] d h = refl
    go ((k, v) ∷ m) d h = rw (encode_pairs-ne-nil k v m) (
        ap (λ r. ok tt (record s { correlation_context = r }))
          (ap (λ parts. decode_pairs parts []) (split-encode_pairs (k, v) m h)
            ∙ decode_pairs-encode_pairs ((k, v) ∷ m) [] h
            ∙ Map.insert_all-nil ((k, v) ∷ m) d))
