-- ===== src/Text/Base64.antt =====
-- `base64.StdEncoding`: the standard alphabet with padding.
use skywalking_go.Base.{
  ℕ, ◌+◌, ◌-◌, ◌*◌, ◌/◌, ◌%◌, ◌≡◌, ◌≢◌, ◌<◌, refl, ◌∙◌, ◌||◌, ◌&&◌, [], ◌∷◌, Option, none, some,
  Bytes, AreBytes, All, ltb, leb, ◌==◌, if◌then◌else◌, arith,
}

-- The character of a digit below 64.
unfoldable pub digit_char : ℕ → ℕ
digit_char i =
    if ltb i 26
    then b'A' + i
    else if ltb i 52
    then b'a' + (i - 26)
    else if ltb i 62
    then b'0' + (i - 52)
    else if i == 62
    then b'+'
    else b'/'

unfoldable pub char_digit : ℕ → Option ℕ
char_digit c =
    if leb b'A' c && leb c b'Z'
    then some (c - b'A')
    else if leb b'a' c && leb c b'z'
    then some (c - b'a' + 26)
    else if leb b'0' c && leb c b'9'
    then some (c - b'0' + 52)
    else if c == b'+'
    then some 62
    else if c == b'/'
    then some 63
    else none

abbrev pad : ℕ
pad = b'='

unfoldable pub encode : Bytes → Bytes
encode [] = []
encode (a ∷ []) = digit_char (a / 4) ∷ digit_char (a % 4 * 16) ∷ pad ∷ pad ∷ []
encode (a ∷ b ∷ []) =
    digit_char (a / 4) ∷ digit_char (a % 4 * 16 + b / 16) ∷ digit_char (b % 16 * 4) ∷ pad ∷ []
encode (a ∷ b ∷ c ∷ s) =
    digit_char (a / 4)
    ∷ digit_char (a % 4 * 16 + b / 16)
    ∷ digit_char (b % 16 * 4 + c / 64)
    ∷ digit_char (c % 64)
    ∷ encode s

-- `DecodeString` skips line ends wherever they stand.
strip : Bytes → Bytes
strip [] = []
strip (c ∷ s) = let rest = strip s in if c == b'\n' || c == b'\r' then rest else c ∷ rest

infixl 5 ◌>>=◌
abbrev ◌>>=◌ : {A B : Type 0} → Option A → (A → Option B) → Option B
none >>= f = none
some a >>= f = f a

-- The last group: one byte before two pads, or two bytes before one. The spare bits are not looked at.
last_group : ℕ → ℕ → ℕ → ℕ → Option Bytes
last_group w x y z = do
  a ← char_digit w
  b ← char_digit x
  if y == pad then (if z == pad then some ((a * 4 + b / 16) ∷ []) else none) else (do
    c ← char_digit y
    if z == pad then some ((a * 4 + b / 16) ∷ (b % 16 * 16 + c / 4) ∷ []) else none)

full_group : ℕ → ℕ → ℕ → ℕ → Option (ℕ × ℕ × ℕ)
full_group w x y z = do
  a ← char_digit w
  b ← char_digit x
  c ← char_digit y
  d ← char_digit z
  some (a * 4 + b / 16, b % 16 * 16 + c / 4, c % 4 * 64 + d)

-- Groups of four characters; a pad is read in the last one only.
decode_groups : Bytes → Option Bytes
unfolding last_group full_group char_digit
decode_groups [] = some []
decode_groups (w ∷ []) = none
decode_groups (w ∷ x ∷ []) = none
decode_groups (w ∷ x ∷ y ∷ []) = none
decode_groups (w ∷ x ∷ y ∷ z ∷ []) =
    if y == pad || z == pad
    then last_group w x y z
    else (do (p, q, r) ← full_group w x y z; some (p ∷ q ∷ r ∷ []))
decode_groups (w ∷ x ∷ y ∷ z ∷ v ∷ s) =
    let rest = decode_groups (v ∷ s) in
    do (p, q, r) ← full_group w x y z; bytes ← rest; some (p ∷ q ∷ r ∷ bytes)

unfoldable pub decode : Bytes → Option Bytes
unfolding decode_groups strip
decode s = decode_groups (strip s)

char_digit-digit_char : (i : ℕ) → i < 64 → char_digit (digit_char i) ≡ some i
unfolding char_digit digit_char
char_digit-digit_char i h = ground arith

-- The characters that a header may not hold inside a field, and those that the decoder treats apart.
abbrev pub IsPlain : ℕ → Type 0
IsPlain c = (c ≢ b'-') × (c ≢ b',') × (c ≢ b':') × (c ≢ b'\n') × (c ≢ b'\r')

digit_char-IsPlain : (i : ℕ) → i < 64 → IsPlain (digit_char i)
unfolding digit_char
digit_char-IsPlain i h = ground arith

digit_char-ne-pad : (i : ℕ) → i < 64 → digit_char i ≢ pad
unfolding digit_char
digit_char-ne-pad i h = ground arith

pub encode-IsPlain : (s : Bytes) → AreBytes s → All IsPlain (encode s)
unfolding encode
encode-IsPlain [] h = tt
encode-IsPlain (a ∷ []) h = (
  digit_char-IsPlain (a / 4) (omega arith),
  (digit_char-IsPlain (a % 4 * 16) (omega arith), (omega arith, (omega arith, tt))),
)
encode-IsPlain (a ∷ b ∷ []) h = (
  digit_char-IsPlain (a / 4) (omega arith),
  (
    digit_char-IsPlain (a % 4 * 16 + b / 16) (omega arith),
    (digit_char-IsPlain (b % 16 * 4) (omega arith), (omega arith, tt)),
  ),
)
encode-IsPlain (a ∷ b ∷ c ∷ s) h = (
  digit_char-IsPlain (a / 4) (omega arith),
  (
    digit_char-IsPlain (a % 4 * 16 + b / 16) (omega arith),
    (
      digit_char-IsPlain (b % 16 * 4 + c / 64) (omega arith),
      (digit_char-IsPlain (c % 64) (omega arith), encode-IsPlain s h.1.1.1),
    ),
  ),
)

full_group_lem :
    (a b c : ℕ)
    → a < 256
    → b < 256
    → c < 256
    → full_group
        (digit_char (a / 4))
        (digit_char (a % 4 * 16 + b / 16))
        (digit_char (b % 16 * 4 + c / 64))
        (digit_char (c % 64))
      ≡ some (a, b, c)
unfolding full_group
full_group_lem a b c ha hb hc = ground (
  arith,
  char_digit-digit_char (a / 4),
  char_digit-digit_char (a % 4 * 16 + b / 16),
  char_digit-digit_char (b % 16 * 4 + c / 64),
  char_digit-digit_char (c % 64),
)

decode_groups_more :
    (w x y z : ℕ) (s : Bytes)
    → y ≢ pad
    → z ≢ pad
    → decode_groups (w ∷ x ∷ y ∷ z ∷ s)
      ≡ (do (p, q, r) ← full_group w x y z; bytes ← decode_groups s; some (p ∷ q ∷ r ∷ bytes))
unfolding decode_groups
decode_groups_more w x y z [] hy hz = ground arith
decode_groups_more w x y z (v ∷ s) hy hz = refl

decode_groups-encode : (s : Bytes) → AreBytes s → decode_groups (encode s) ≡ some s
unfolding decode_groups encode
decode_groups-encode [] h = refl
decode_groups-encode (a ∷ []) h =
    ground (arith, char_digit-digit_char (a / 4), char_digit-digit_char (a % 4 * 16))
decode_groups-encode (a ∷ b ∷ []) h = ground (
  arith,
  char_digit-digit_char (a / 4),
  char_digit-digit_char (a % 4 * 16 + b / 16),
  char_digit-digit_char (b % 16 * 4),
  digit_char-ne-pad (b % 16 * 4),
)
decode_groups-encode (a ∷ b ∷ c ∷ s) h =
    decode_groups_more (digit_char (a / 4)) (digit_char (a % 4 * 16 + b / 16))
      (digit_char (b % 16 * 4 + c / 64)) (digit_char (c % 64)) (encode s)
      (digit_char-ne-pad (b % 16 * 4 + c / 64) (omega arith))
      (digit_char-ne-pad (c % 64) (omega arith))
    ∙ rw (full_group_lem a b c h.0 h.1.0 h.1.1.0, decode_groups-encode s h.1.1.1)

strip-IsPlain : (s : Bytes) → All IsPlain s → strip s ≡ s
unfolding strip
strip-IsPlain [] h = refl
strip-IsPlain (c ∷ s) h = ground (arith, strip-IsPlain s h.1)

-- Every text of bytes is read back from its encoding.
pub decode-encode : (s : Bytes) → AreBytes s → decode (encode s) ≡ some s
unfolding decode
decode-encode s h = rw (strip-IsPlain (encode s) (encode-IsPlain s h)) (decode_groups-encode s h)
