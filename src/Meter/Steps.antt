-- ===== src/Meter/Steps.antt =====
-- The buckets of a new histogram increase.
use skywalking_go.Base.{
  ◌≡◌, subst, true, false, [], ◌∷◌, List, some, ℤ, lt_int, lt_int_asym, lt_int_trans, not_lt_trans,
  if◌then◌else◌, arith, All, All-imp, Bool-cases, List-cases, inl, inr,
}
use skywalking_go.Meter.{
  HistogramBucket, insert_sorted, sort, is_equal, has_duplicate, new_buckets,
  new_histogram_from_steps, find_bucket, number,
}
use skywalking_go.Meter.Bucket.{AreIncreasing, find_bucket_lem, last_up_to}

abbrev AreSorted : List ℤ → Type 0
AreSorted [] = Unit
AreSorted (x ∷ xs) = All (λ y. lt_int y x ≡ false) xs × AreSorted xs

abbrev AreStrict : List ℤ → Type 0
AreStrict [] = Unit
AreStrict (x ∷ xs) = All (λ y. lt_int x y ≡ true) xs × AreStrict xs

insert-All : (P : ℤ → Type 0) (x : ℤ) (ys : List ℤ) → P x → All P ys → All P (insert_sorted x ys)
insert-All P x [] p h = (p, tt)
insert-All P x (y ∷ ys) p (q, h) = elim (Bool-cases (lt_int y x)) [
  | inl e ↦ rw e (q, insert-All P x ys p h)
  | inr e ↦ rw e (p, (q, h))
]

insert-AreSorted : (x : ℤ) (ys : List ℤ) → AreSorted ys → AreSorted (insert_sorted x ys)
insert-AreSorted x [] h = (tt, tt)
insert-AreSorted x (y ∷ ys) (a, h) = elim (Bool-cases (lt_int y x)) [
  | inl e ↦
      rw e
        (insert-All (λ z. lt_int z y ≡ false) x ys (lt_int_asym y x e) a, insert-AreSorted x ys h)
  | inr e ↦ rw e ((e, All-imp (λ z b. not_lt_trans x y z e b) ys a), (a, h))
]

sort-AreSorted : (xs : List ℤ) → AreSorted (sort xs)
sort-AreSorted [] = tt
sort-AreSorted (x ∷ xs) = insert-AreSorted x (sort xs) (sort-AreSorted xs)

sort-All : (P : ℤ → Type 0) (xs : List ℤ) → All P xs → All P (sort xs)
sort-All P [] h = tt
sort-All P (x ∷ xs) (p, h) = insert-All P x (sort xs) p (sort-All P xs h)

below-AreStrict :
    (x y : ℤ) (ys : List ℤ) → lt_int x y ≡ true → AreStrict (y ∷ ys) → AreStrict (x ∷ y ∷ ys)
below-AreStrict x y ys e (a, h) = ((e, All-imp (λ z b. lt_int_trans x y z e b) ys a), (a, h))

sorted-AreStrict :
    (x : ℤ) (xs : List ℤ) → AreSorted (x ∷ xs) → has_duplicate x xs ≡ false → AreStrict (x ∷ xs)
sorted-AreStrict x [] h d = (tt, tt)
sorted-AreStrict x (y ∷ ys) ((a, b), h) d =
    below-AreStrict x y ys (ground (arith, a, d)) (sorted-AreStrict y ys h (ground (arith, d)))

new_buckets-All : (P : ℤ → Type 0) (xs : List ℤ) → All P xs → All (λ b. P b.bucket) (new_buckets xs)
new_buckets-All P [] h = tt
new_buckets-All P (x ∷ xs) (p, h) = (p, new_buckets-All P xs h)

new_buckets-AreIncreasing : (xs : List ℤ) → AreStrict xs → AreIncreasing (new_buckets xs)
new_buckets-AreIncreasing [] h = tt
new_buckets-AreIncreasing (x ∷ xs) (a, h) =
    (new_buckets-All (λ y. lt_int x y ≡ true) xs a, new_buckets-AreIncreasing xs h)

with_min-AreStrict :
    (min x : ℤ) (xs : List ℤ)
    → lt_int x min ≡ false
    → AreStrict (x ∷ xs)
    → AreStrict (if is_equal min x then x ∷ xs else min ∷ x ∷ xs)
with_min-AreStrict min x xs l h = elim (Bool-cases (is_equal min x)) [
  | inl e ↦
      let same : x ∷ xs ≡ (if is_equal min x then x ∷ xs else min ∷ x ∷ xs) = ground (arith, e) in
      subst AreStrict same h
  | inr e ↦
      let same : min ∷ x ∷ xs ≡ (if is_equal min x then x ∷ xs else min ∷ x ∷ xs) =
        ground (arith, e) in
      subst AreStrict same (below-AreStrict min x xs (ground (arith, e, l)) h)
]

-- With a smallest value that no step is below, `newHistogramFromSteps` makes buckets that increase, or
-- panics; so the search for a value finds the last bucket that does not exceed it.
pub new_histogram_finds :
    (min : ℤ) (steps : List ℤ) (bs : List HistogramBucket) (v : ℤ)
    → All (λ x. lt_int x min ≡ false) steps
    → new_histogram_from_steps min steps ≡ some bs
    → AreIncreasing bs × (find_bucket (number v) bs ≡ last_up_to v bs)
unfolding new_histogram_from_steps
new_histogram_finds min steps bs v low e = elim (List-cases (sort steps)) [
  | inl s ↦ ground (arith, e, s)
  | inr (x, xs, s) ↦ elim (Bool-cases (has_duplicate x xs)) [
    | inl d ↦ ground (arith, e, s, d)
    | inr d ↦
        let sorted = subst AreSorted s (sort-AreSorted steps) in
        let lows =
          subst (All (λ x. lt_int x min ≡ false)) s
            (sort-All (λ x. lt_int x min ≡ false) steps low) in
        let strict = with_min-AreStrict min x xs lows.0 (sorted-AreStrict x xs sorted d) in
        let same : new_buckets (if is_equal min x then x ∷ xs else min ∷ x ∷ xs) ≡ bs =
          ground (arith, e, s, d) in
        let inc = subst AreIncreasing same (new_buckets-AreIncreasing _ strict) in
        (inc, find_bucket_lem (number v) bs inc)
  ]
]
