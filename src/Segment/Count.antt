-- ===== src/Segment/Count.antt =====
-- How often a span stands in a list.
use skywalking_go.Base.{
  ℕ, suc, ◌+◌, ◌≡◌, [], ◌∷◌, ◌++◌, List, some, ◌==◌, if◌then◌else◌, length, arith, Option-cases,
  inl, inr,
}
use skywalking_go.Span.{SpanRef}
use skywalking_go.Segment.{take_out}

abbrev pub count : SpanRef → List SpanRef → ℕ
count c [] = 0
count c (x ∷ xs) = (if x == c then 1 else 0) + count c xs

pub count-append :
    (c : SpanRef) (xs ys : List SpanRef) → count c (xs ++ ys) ≡ count c xs + count c ys
count-append c [] ys = omega arith
count-append c (x ∷ xs) ys = let rest = count-append c xs ys in omega arith

-- What is taken out was there once more often.
pub count-take_out :
    (c d : SpanRef) (xs ys : List SpanRef)
    → take_out c xs ≡ some ys
    → count d xs ≡ (if c == d then 1 else 0) + count d ys
unfolding take_out
count-take_out c d [] ys e = ground arith
count-take_out c d (x ∷ xs) ys e = elim (Option-cases (take_out c xs)) [
  | inl h ↦ ground (arith, e, h)
  | inr (zs, h) ↦ let rest = count-take_out c d xs zs h in ground (arith, e, h, rest)
]

pub length-take_out :
    (c : SpanRef) (xs ys : List SpanRef) → take_out c xs ≡ some ys → length xs ≡ suc (length ys)
unfolding take_out
length-take_out c [] ys e = ground arith
length-take_out c (x ∷ xs) ys e = elim (Option-cases (take_out c xs)) [
  | inl h ↦ ground (arith, e, h)
  | inr (zs, h) ↦ let rest = length-take_out c xs zs h in ground (arith, e, h, rest)
]
