-- ===== src/Base/Int.antt =====
-- Signed integers over the native numbers, under the library's names (its ℤ stands on the unary ℕ).
use Prim.Native.Nat.{ℕ, suc, ◌+◌, ◌-◌, ◌*◌, ◌%◌, ◌^◌}
use mathlib.Core.Path.{◌≡◌}
use native.Mathlib.Omega.{arith}
use mathlib.Core.Bool.{Bool, true, false}
use skywalking_go.Base.Tests.{leb, ltb, if◌then◌else◌}

-- `negsuc n` is -(n + 1).
pub data ℤ : Type 0 where
  pos : ℕ → ℤ
  negsuc : ℕ → ℤ

-- `m - n` of two naturals.
abbrev pub sub_nat : ℕ → ℕ → ℤ
sub_nat m n = if leb n m then pos (m - n) else negsuc (n - m - 1)

infixl 60 ◌+ℤ◌
abbrev pub ◌+ℤ◌ : ℤ → ℤ → ℤ
pos a +ℤ pos b = pos (a + b)
pos a +ℤ negsuc b = sub_nat a (suc b)
negsuc a +ℤ pos b = sub_nat b (suc a)
negsuc a +ℤ negsuc b = negsuc (suc (a + b))

-- `k * z` for a positive number `k`.
abbrev pub scale : ℕ → ℤ → ℤ
scale k (pos n) = pos (k * n)
scale k (negsuc n) = negsuc (k * suc n - 1)

-- The value that an int64 holds after the code computed `z`.
abbrev pub wrap_int64 : ℤ → ℤ
wrap_int64 (pos n) =
    if ltb (n % 2 ^ 64) (2 ^ 63) then pos (n % 2 ^ 64) else negsuc (2 ^ 64 - 1 - n % 2 ^ 64)
wrap_int64 (negsuc n) =
    if ltb (n % 2 ^ 64) (2 ^ 63) then negsuc (n % 2 ^ 64) else pos (2 ^ 64 - 1 - n % 2 ^ 64)

abbrev pub lt_int : ℤ → ℤ → Bool
lt_int (pos a) (pos b) = ltb a b
lt_int (pos a) (negsuc b) = false
lt_int (negsuc a) (pos b) = true
lt_int (negsuc a) (negsuc b) = ltb b a

pub lt_int_irrefl : (a : ℤ) → lt_int a a ≡ false
lt_int_irrefl (pos a) = ground arith
lt_int_irrefl (negsuc a) = ground arith

pub lt_int_asym : (a b : ℤ) → lt_int a b ≡ true → lt_int b a ≡ false
lt_int_asym (pos a) (pos b) h = ground (arith, h)
lt_int_asym (pos a) (negsuc b) h = ground (arith, h)
lt_int_asym (negsuc a) (pos b) h = ground (arith, h)
lt_int_asym (negsuc a) (negsuc b) h = ground (arith, h)

pub not_lt_trans : (a b c : ℤ) → lt_int b a ≡ false → lt_int c b ≡ false → lt_int c a ≡ false
not_lt_trans (pos a) (pos b) (pos c) h k = ground (arith, h, k)
not_lt_trans (pos a) (pos b) (negsuc c) h k = ground (arith, h, k)
not_lt_trans (pos a) (negsuc b) (pos c) h k = ground (arith, h, k)
not_lt_trans (pos a) (negsuc b) (negsuc c) h k = ground (arith, h, k)
not_lt_trans (negsuc a) (pos b) (pos c) h k = ground (arith, h, k)
not_lt_trans (negsuc a) (pos b) (negsuc c) h k = ground (arith, h, k)
not_lt_trans (negsuc a) (negsuc b) (pos c) h k = ground (arith, h, k)
not_lt_trans (negsuc a) (negsuc b) (negsuc c) h k = ground (arith, h, k)

pub not_lt-lt_trans : (a b c : ℤ) → lt_int b a ≡ false → lt_int b c ≡ true → lt_int a c ≡ true
not_lt-lt_trans a b c h k = let n = not_lt_trans c a b in ground (arith, n, h, k)

pub lt_int_trans : (a b c : ℤ) → lt_int a b ≡ true → lt_int b c ≡ true → lt_int a c ≡ true
lt_int_trans a b c h k = not_lt-lt_trans a b c (lt_int_asym a b h) k
