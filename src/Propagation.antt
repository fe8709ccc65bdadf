-- ===== src/Propagation.antt =====
-- plugins/core/propagating.go: the propagation headers `sw8` and `sw8-correlation`.
pub mod Sw8
pub mod Correlation
pub mod Carrier
pub mod Examples
use skywalking_go.Base.{
  ℕ, ◌≡◌, Bool, true, false, not, [], ◌∷◌, List, Option, none, some, ℤ, pos, Bytes, codes, length,
  get_or, str_eq, leb, if◌then◌else◌,
}
use skywalking_go.Base.Map
use skywalking_go.Base.Map.{Map}
use skywalking_go.Text.Parts.{split, join}
use skywalking_go.Text.Base64
use skywalking_go.Text.Number.{Parsed, parsed, failed, itoa, parse_int}

abbrev pub header : Bytes
header = codes "sw8"

abbrev pub header_correlation : Bytes
header_correlation = codes "sw8-correlation"

abbrev pub header_len : ℕ
header_len = 8

abbrev pub split_token : ℕ
split_token = b'-'

abbrev pub correlation_split_token : ℕ
correlation_split_token = b','

abbrev pub correlation_key_value_split_token : ℕ
correlation_key_value_split_token = b':'

-- `carrier` is an error of the extractor or of the injector.
pub data Error : Type 0 where
  empty_header insufficient_header_entities : Error
  sample_parse trace_id_parse parent_segment_id_parse parent_span_id_parse : Error
  parent_service_parse parent_service_instance_parse parent_endpoint_parse : Error
  network_address_parse carrier : Error

pub record SpanContext : Type 0 where
  pub trace_id : Bytes
  pub parent_segment_id : Bytes
  pub parent_service : Bytes
  pub parent_service_instance : Bytes
  pub parent_endpoint : Bytes
  pub address_used_at_client : Bytes
  pub parent_span_id : ℤ
  pub sample : ℤ
  pub valid : Bool
  pub correlation_context : Map Bytes

-- A method of `*SpanContext` that may fail: what it has written before an error stays written.
pub data Result (A : Type 0) : Type 0 where
  ok : A → SpanContext → Result A
  err : Error → SpanContext → Result A

abbrev pub M : Type 0 → Type 0
M A = SpanContext → Result A

infixl 5 ◌>>=◌ ◌>>◌
abbrev pub ◌>>=◌ : {A B : Type 0} → M A → (A → M B) → M B
◌>>=◌ m f s = elim (m s) [ ok a s' ↦ f a s' | err e s' ↦ err e s' ]

abbrev pub ◌>>◌ : {B : Type 0} → M (Unit {0}) → M B → M B
m >> k = m >>= λ _. k

abbrev pub done : M (Unit {0})
done s = ok tt s

abbrev require : Bool → Error → M (Unit {0})
require true e s = ok tt s
require false e s = err e s

-- `s.F, err = decodeBase64(…)`: the field is written in any case, with "" beside an error.
abbrev assign_base64 : (Bytes → SpanContext → SpanContext) → Error → Bytes → M (Unit {0})
assign_base64 set e text s = elim (Base64.decode text) [
  | none ↦ err e (set [] s)
  | some decoded ↦ ok tt (set decoded s)
]

-- `strconv.ParseInt(hh[0], 10, 8)`: nothing is written beside an error.
abbrev assign_sample : Bytes → M (Unit {0})
assign_sample text s = elim (parse_int false 8 text) [
  | parsed n ↦ ok tt (record s { sample = n })
  | failed n ↦ err sample_parse s
]

-- `stringConvertInt32`, whose base is read from the text; its value is written in any case.
abbrev assign_parent_span_id : Bytes → M (Unit {0})
assign_parent_span_id text s = elim (parse_int true 32 text) [
  | parsed n ↦ ok tt (record s { parent_span_id = n })
  | failed n ↦ err parent_span_id_parse (record s { parent_span_id = n })
]

unfoldable pub decode_sw8 : Bytes → M (Unit {0})
decode_sw8 text = do
  require (not (str_eq text [])) empty_header
  let hh = split split_token text
  require (leb header_len (length hh)) insufficient_header_entities
  assign_sample (get_or hh 0 [])
  assign_base64 (λ t s. record s { trace_id = t }) trace_id_parse (get_or hh 1 [])
  assign_base64 (λ t s. record s { parent_segment_id = t }) parent_segment_id_parse (get_or hh 2 [])
  assign_parent_span_id (get_or hh 3 [])
  assign_base64 (λ t s. record s { parent_service = t }) parent_service_parse (get_or hh 4 [])
  assign_base64 (λ t s. record s { parent_service_instance = t }) parent_service_instance_parse
      (get_or hh 5 [])
  assign_base64 (λ t s. record s { parent_endpoint = t }) parent_endpoint_parse (get_or hh 6 [])
  assign_base64 (λ t s. record s { address_used_at_client = t }) network_address_parse
      (get_or hh 7 [])
  λ s. ok tt (record s { valid = true })

abbrev sw8_fields : SpanContext → List Bytes
sw8_fields s =
    itoa s.sample
    ∷ Base64.encode s.trace_id
    ∷ Base64.encode s.parent_segment_id
    ∷ itoa s.parent_span_id
    ∷ Base64.encode s.parent_service
    ∷ Base64.encode s.parent_service_instance
    ∷ Base64.encode s.parent_endpoint
    ∷ Base64.encode s.address_used_at_client
    ∷ []

pub encode_sw8 : SpanContext → Bytes
encode_sw8 s = join b'-' (sw8_fields s)

-- One entry of the correlation header; an entry that cannot be read is passed over.
decode_pair : List Bytes → Map Bytes → Map Bytes
decode_pair [] m = m
decode_pair (key ∷ []) m = m
decode_pair (key ∷ value ∷ []) m = elim (Base64.decode key) [
  | none ↦ m
  | some decoded_key ↦ elim (Base64.decode value) [
    | none ↦ m
    | some decoded_value ↦ Map.insert decoded_key decoded_value m
  ]
]
decode_pair (key ∷ value ∷ more ∷ rest) m = m

decode_pairs : List Bytes → Map Bytes → Map Bytes
unfolding decode_pair
decode_pairs [] m = m
decode_pairs (entry ∷ entries) m =
    decode_pairs entries (decode_pair (split correlation_key_value_split_token entry) m)

pub decode_sw8_correlation : Bytes → M (Unit {0})
unfolding decode_pairs
decode_sw8_correlation text s =
    if str_eq text []
    then ok tt (record s { correlation_context = [] })
    else ok tt
        (record s { correlation_context = decode_pairs (split correlation_split_token text) [] })

encode_pairs : Map Bytes → List Bytes
encode_pairs [] = []
encode_pairs ((k, v) ∷ m) =
    join correlation_key_value_split_token (Base64.encode k ∷ Base64.encode v ∷ []) ∷ encode_pairs m

-- The entries stand in the order in which the map is ranged over.
pub encode_sw8_correlation : SpanContext → Bytes
unfolding encode_pairs
encode_sw8_correlation s = join correlation_split_token (encode_pairs s.correlation_context)

-- The private `decode`: an empty header is passed over. The extractor returns none for an error.
decode_header : (Bytes → Option Bytes) → Bytes → (Bytes → M (Unit {0})) → M (Unit {0})
decode_header extractor key decoder s = elim (extractor key) [
  | none ↦ err carrier s
  | some val ↦ if str_eq val [] then ok tt s else decoder val s
]

unfoldable pub decode : (Bytes → Option Bytes) → M (Unit {0})
unfolding decode_header
decode extractor = do
  λ s. ok tt (record s { valid = false })
  decode_header extractor header decode_sw8
  decode_header extractor header_correlation decode_sw8_correlation

-- `injector` writes a header into the carrier, or returns none for an error.
pub encode {ℓ} : {C : Type ℓ} → (Bytes → Bytes → C → Option C) → SpanContext → C → Option C
encode injector s c = elim (injector header (encode_sw8 s) c) [
  | none ↦ none
  | some c' ↦ injector header_correlation (encode_sw8_correlation s) c'
]
