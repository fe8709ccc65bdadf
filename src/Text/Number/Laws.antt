-- ===== src/Text/Number/Laws.antt =====
-- The numbers that `Itoa` writes are read back by `ParseInt`.
use skywalking_go.Base.{
  ℕ, zero, suc, ◌+◌, ◌-◌, ◌*◌, ◌/◌, ◌%◌, ◌^◌, ◌≤◌, ◌<◌, ◌≡◌, ◌≢◌, refl, sym, ap, ◌∙◌, Bool, true,
  false, [], ◌∷◌, some, pos, Bytes, All, ltb, leb, ◌==◌, inl, inr, Bool-cases, arith,
}
use skywalking_go.Text.Number.{
  parsed, value, format_digits, itoa, digit_value, scan_digits, detect_base, has_underscore,
  parse_uint, parse_int,
}

abbrev pub IsDigit : ℕ → Type 0
IsDigit c = (b'0' ≤ c) × (c ≤ b'9')

digit_value-digit : (d : ℕ) → d < 10 → digit_value (b'0' + d) ≡ some d
unfolding digit_value
digit_value-digit d h = ground arith

scan_digit :
    (bz : Bool) (limit d n : ℕ) (s : Bytes)
    → d < 10
    → n * 10 + d ≤ limit
    → scan_digits bz 10 limit ((b'0' + d) ∷ s) n ≡ scan_digits bz 10 limit s (n * 10 + d)
unfolding scan_digits
scan_digit bz limit d n s h fits = ground (arith, digit_value-digit d)

-- Reading the digits of `n` leads to `n`.
scan-format_digits :
    (bz : Bool) (limit fuel n : ℕ) (out : Bytes)
    → n < fuel
    → n ≤ limit
    → scan_digits bz 10 limit (format_digits fuel n out) 0 ≡ scan_digits bz 10 limit out n
unfolding format_digits
scan-format_digits bz limit zero n out h fits = absurd (omega arith)
scan-format_digits bz limit (suc f) n out h fits = elim (Bool-cases (ltb n 10)) [
  | inl small ↦ rw small (
      scan_digit bz limit (n % 10) 0 out (omega arith) (ground arith)
      ∙ ap (scan_digits bz 10 limit out) (ground arith))
  | inr large ↦ rw large (
      scan-format_digits bz limit f (n / 10) ((b'0' + n % 10) ∷ out) (ground arith) (omega arith)
      ∙ scan_digit bz limit (n % 10) (n / 10) out (omega arith) (omega arith)
      ∙ ap (scan_digits bz 10 limit out) (omega arith))
]

format_digits-IsDigit :
    (fuel n : ℕ) (out : Bytes) → All IsDigit out → All IsDigit (format_digits fuel n out)
unfolding format_digits
format_digits-IsDigit zero n out h = h
format_digits-IsDigit (suc f) n out h = elim (Bool-cases (ltb n 10)) [
  | inl small ↦ rw small ((omega arith), h)
  | inr large ↦ rw large (format_digits-IsDigit f (n / 10) ((b'0' + n % 10) ∷ out) (omega arith, h))
]

format_digits-head :
    (fuel n : ℕ) (out : Bytes)
    → 0 < n
    → n < fuel
    → (c : ℕ) × (s : Bytes) × (format_digits fuel n out ≡ c ∷ s) × (b'0' < c) × (c ≤ b'9')
unfolding format_digits
format_digits-head zero n out p h = absurd (omega arith)
format_digits-head (suc f) n out p h = elim (Bool-cases (ltb n 10)) [
  | inl small ↦ (b'0' + n % 10, out, rw small, ground arith, omega arith)
  | inr large ↦
      rw large (format_digits-head f (n / 10) ((b'0' + n % 10) ∷ out) (ground arith) (ground arith))
]

has_underscore-format_digits :
    (fuel n : ℕ) (out : Bytes) → has_underscore (format_digits fuel n out) ≡ has_underscore out
unfolding format_digits has_underscore
has_underscore-format_digits zero n out = refl
has_underscore-format_digits (suc f) n out = elim (Bool-cases (ltb n 10)) [
  | inl small ↦ rw small (ground arith)
  | inr large ↦ rw large (has_underscore-format_digits f (n / 10) _ ∙ ground arith)
]

-- A text that does not begin with a zero is read in base 10.
detect_base-ten : (c : ℕ) (s : Bytes) → c ≢ b'0' → detect_base (c ∷ s) ≡ (10, c ∷ s)
unfolding detect_base
detect_base-ten c [] h = ground arith
detect_base-ten c (d ∷ []) h = ground arith
detect_base-ten c (d ∷ e ∷ s) h = ground arith

parse_uint-digits :
    (bz : Bool) (limit n c : ℕ) (s : Bytes)
    → c ≢ b'0'
    → has_underscore (c ∷ s) ≡ false
    → scan_digits bz 10 limit (c ∷ s) 0 ≡ value n
    → parse_uint bz limit (c ∷ s) ≡ value n
unfolding parse_uint
parse_uint-digits false limit n c s h u e = e
parse_uint-digits true limit n c s h u e = ground (arith, detect_base-ten c s h)

parse_uint_zero : (bz : Bool) (limit : ℕ) → parse_uint bz limit (b'0' ∷ []) ≡ value 0
unfolding parse_uint
parse_uint_zero false limit = ground arith
parse_uint_zero true limit = refl

parse_uint_cons :
    (bz : Bool) (limit n c : ℕ) (s : Bytes)
    → n ≤ limit
    → format_digits (suc n) n [] ≡ c ∷ s
    → c ≢ b'0'
    → parse_uint bz limit (c ∷ s) ≡ value n
unfolding scan_digits has_underscore
parse_uint_cons bz limit n c s fits e h =
    parse_uint-digits bz limit n c s h
      (ap has_underscore (sym e) ∙ has_underscore-format_digits (suc n) n [])
      (ap (λ t. scan_digits bz 10 limit t 0) (sym e)
        ∙ scan-format_digits bz limit (suc n) n [] (omega arith) fits)

lt→leb-false : (a b : ℕ) → a < b → leb b a ≡ false
lt→leb-false a b h = ground arith

eq-false : (a b : ℕ) → a ≢ b → (a == b) ≡ false
eq-false a b h = ground arith

parse_int-digits :
    (bz : Bool) (width n c : ℕ) (s : Bytes)
    → b'0' ≤ c
    → n < 2 ^ (width - 1)
    → parse_uint bz (2 ^ width - 1) (c ∷ s) ≡ value n
    → parse_int bz width (c ∷ s) ≡ parsed (pos n)
unfolding parse_int
parse_int-digits bz width n c s lo h e =
    rw (eq-false c b'+' (omega arith), eq-false c b'-' (omega arith), e)
      (rw (lt→leb-false n (2 ^ (width - 1)) h))

-- A number that fits the width is read back from its decimal text, whether the base is fixed to 10
-- or read from the text. The text has no sign.
pub parse_int-itoa :
    (bz : Bool) (width n : ℕ)
    → n < 2 ^ (width - 1)
    → 2 ^ (width - 1) ≤ 2 ^ width - 1
    → parse_int bz width (itoa (pos n)) ≡ parsed (pos n)
unfolding itoa
parse_int-itoa bz width zero h w =
    parse_int-digits bz width 0 b'0' [] (omega arith) h (parse_uint_zero bz (2 ^ width - 1))
parse_int-itoa bz width (suc n) h w =
    let (c, s, e, lo, hi) =
      format_digits-head (suc (suc n)) (suc n) [] (omega arith) (omega arith) in
    ap (parse_int bz width) e
    ∙ parse_int-digits bz width (suc n) c s (omega arith) h
        (parse_uint_cons bz (2 ^ width - 1) (suc n) c s (omega arith) e (omega arith))

pub itoa-IsDigit : (n : ℕ) → All IsDigit (itoa (pos n))
unfolding itoa
itoa-IsDigit n = format_digits-IsDigit (suc n) n [] tt
