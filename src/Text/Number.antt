-- ===== src/Text/Number.antt =====
-- `strconv.Itoa`, and `strconv.ParseInt` with its base prefixes, underscores and range check.
pub mod Laws
use skywalking_go.Base.{
  ℕ, zero, suc, ◌+◌, ◌-◌, ◌*◌, ◌/◌, ◌%◌, ◌^◌, Bool, true, false, not, ◌&&◌, ◌||◌, [], ◌∷◌, Option,
  none, some, ℤ, pos, negsuc, Bytes, ltb, leb, ◌==◌, if◌then◌else◌,
}

-- The digits of `n` before those of `out`; each round divides `n` by ten.
unfoldable pub format_digits : ℕ → ℕ → Bytes → Bytes
format_digits zero n out = out
format_digits (suc fuel) n out =
    let out' = (b'0' + n % 10) ∷ out in
    let rest = format_digits fuel (n / 10) out' in if ltb n 10 then out' else rest

-- The rounds are at most as many as the number itself, and one.
unfoldable pub itoa : ℤ → Bytes
unfolding format_digits
itoa (pos n) = format_digits (suc n) n []
itoa (negsuc n) = b'-' ∷ format_digits (suc (suc n)) (suc n) []

-- `c | 0x20` on a letter.
lower : ℕ → ℕ
lower c = if leb b'A' c && leb c b'Z' then c + 32 else c

digit_value : ℕ → Option ℕ
unfolding lower
digit_value c =
    let l = lower c in
    if leb b'0' c && leb c b'9'
    then some (c - b'0')
    else if leb b'a' l && leb l b'z'
    then some (l - b'a' + 10)
    else none

-- The loop of `ParseUint`. An underscore is skipped where the base was read from the text. A value
-- above `limit`, the greatest one of the width, is out of range.
pub data Scanned : Type 0 where
  value : ℕ → Scanned
  bad_digit too_large : Scanned

scan_digits : Bool → ℕ → ℕ → Bytes → ℕ → Scanned
unfolding digit_value
scan_digits base_zero base limit [] n = value n
scan_digits base_zero base limit (c ∷ s) n =
    let skip = scan_digits base_zero base limit s n in
    let next = λ (d : ℕ). scan_digits base_zero base limit s (n * base + d) in
    if base_zero && (c == b'_') then skip else elim (digit_value c) [
      | none ↦ bad_digit
      | some d ↦
          if leb base d then bad_digit else if ltb limit (n * base + d) then too_large else next d
    ]

-- What `underscoreOK` saw last.
pub data Saw : Type 0 where
  start digit underscore other : Saw

is_hex_letter : ℕ → Bool
unfolding lower
is_hex_letter c = leb b'a' (lower c) && leb (lower c) b'f'

underscores_from : Bool → Saw → Bytes → Bool
unfolding is_hex_letter
underscores_from hex underscore [] = false
underscores_from hex saw [] = true
underscores_from hex saw (c ∷ s) =
    let on_digit = underscores_from hex digit s in
    let on_underscore = underscores_from hex underscore s in
    let on_other = underscores_from hex other s in
    if (leb b'0' c && leb c b'9') || (hex && is_hex_letter c)
    then on_digit
    else if c == b'_'
    then elim saw [ digit ↦ on_underscore | _ ↦ false ]
    else elim saw [ underscore ↦ false | _ ↦ on_other ]

is_base_letter : ℕ → Bool
unfolding lower
is_base_letter c = (lower c == b'b') || ((lower c == b'o') || (lower c == b'x'))

-- `underscoreOK` on a text whose sign is gone.
underscore_ok : Bytes → Bool
unfolding underscores_from is_base_letter
underscore_ok (c ∷ d ∷ s) =
    if (c == b'0') && is_base_letter d
    then underscores_from (lower d == b'x') digit s
    else underscores_from false start (c ∷ d ∷ s)
underscore_ok s = underscores_from false start s

-- The base and the digits behind its prefix, for base 0.
base_of_letter : ℕ → Option ℕ
unfolding lower
base_of_letter c =
    if lower c == b'b'
    then some 2
    else if lower c == b'o'
    then some 8
    else if lower c == b'x'
    then some 16
    else none

detect_base : Bytes → ℕ × Bytes
unfolding base_of_letter
detect_base (c ∷ d ∷ e ∷ s) = elim (base_of_letter d) [
  | some base ↦ if c == b'0' then (base, e ∷ s) else (10, c ∷ d ∷ e ∷ s)
  | none ↦ if c == b'0' then (8, d ∷ e ∷ s) else (10, c ∷ d ∷ e ∷ s)
]
detect_base (c ∷ s) = if c == b'0' then (8, s) else (10, c ∷ s)
detect_base [] = (10, [])

has_underscore : Bytes → Bool
has_underscore [] = false
has_underscore (c ∷ s) = (c == b'_') || has_underscore s

-- `ParseUint(s, base, width)` for the bases 0 and 10.
parse_uint : Bool → ℕ → Bytes → Scanned
unfolding scan_digits underscore_ok detect_base has_underscore
parse_uint base_zero limit [] = bad_digit
parse_uint false limit (c ∷ s) = scan_digits false 10 limit (c ∷ s) 0
parse_uint true limit (c ∷ s) =
    let (base, digits) = detect_base (c ∷ s) in
    elim (scan_digits true base limit digits 0) [
      | value n ↦
          if has_underscore digits && not (underscore_ok (c ∷ s)) then bad_digit else value n
      | bad_digit ↦ bad_digit
      | too_large ↦ too_large
    ]

-- What `ParseInt` returns: a value, or a value with an error.
pub data Parsed : Type 0 where
  parsed failed : ℤ → Parsed

negate : ℕ → ℤ
negate zero = pos zero
negate (suc n) = negsuc n

-- `half` is 2 ^ (width - 1).
signed : Bool → ℕ → Scanned → Parsed
unfolding negate
signed minus half bad_digit = failed (pos 0)
signed true half too_large = failed (negate half)
signed false half too_large = failed (pos (half - 1))
signed true half (value n) = if ltb half n then failed (negate half) else parsed (negate n)
signed false half (value n) = if leb half n then failed (pos (half - 1)) else parsed (pos n)

-- `ParseInt(s, base, width)`; the first argument says that the base is 0, else it is 10.
unfoldable pub parse_int : Bool → ℕ → Bytes → Parsed
unfolding signed parse_uint
parse_int base_zero width [] = failed (pos 0)
parse_int base_zero width (c ∷ s) =
    let half = 2 ^ (width - 1) in
    let limit = 2 ^ width - 1 in
    if c == b'+'
    then signed false half (parse_uint base_zero limit s)
    else if c == b'-'
    then signed true half (parse_uint base_zero limit s)
    else signed false half (parse_uint base_zero limit (c ∷ s))
