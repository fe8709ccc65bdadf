-- ===== src/Meter.antt =====
-- plugins/core/metrics.go: the histograms. A float64 that is not NaN stands for its place among all of
-- them in increasing order, since a bucket is only compared. The steps of a histogram are not NaN; the
-- values that are observed may be.
pub mod Bucket
pub mod Steps
pub mod Examples
use skywalking_go.Base.{
  ℕ, zero, suc, ◌+◌, ◌-◌, ◌/◌, Bool, true, false, ◌||◌, [], ◌∷◌, ◌++◌, List, Option, none, some, ℤ,
  pos, lt_int, if◌then◌else◌, length, get_or, ltb, ◌==◌,
}

pub record HistogramBucket : Type 0 where
  pub bucket : ℤ
  pub value : ℕ

-- The bucket at an index below the length.
abbrev pub bucket_at : List HistogramBucket → ℕ → ℤ
bucket_at bs i = (get_or bs i (record { bucket = pos 0; value = 0 })).bucket

-- A value that is observed.
pub data Float64 : Type 0 where
  nan : Float64
  number : ℤ → Float64

-- `<` and `>` of a bucket and a value; with NaN both are false.
abbrev pub is_below : ℤ → Float64 → Bool
is_below b nan = false
is_below b (number v) = lt_int b v

abbrev pub is_above : ℤ → Float64 → Bool
is_above b nan = false
is_above b (number v) = lt_int v b

-- What the loop of `findBucket` ends with: the bucket that is neither
-- below nor above, or `low`.
pub data Search : Type 0 where
  equal : ℕ → Search
  ends : ℕ → Search

-- The loop, with `top` for `high + 1`; none when the fuel is out.
pub search : ℕ → Float64 → ℕ → ℕ → List HistogramBucket → Option Search
search zero v low top bs = if ltb low top then none else some (ends low)
search (suc fuel) v low top bs =
    let mid = (low + (top - 1)) / 2 in
    let right = search fuel v (mid + 1) top bs in
    let left = search fuel v low mid bs in
    if ltb low top
    then (if is_below (bucket_at bs mid) v
        then right
        else if is_above (bucket_at bs mid) v
        then left
        else some (equal mid))
    else some (ends low)

-- `findBucket`, with the index of the bucket.
pub find_bucket : Float64 → List HistogramBucket → Option ℕ
unfolding search
find_bucket v bs = elim (search (length bs) v 0 (length bs) bs) [
  | none ↦ none
  | some (equal i) ↦ some i
  | some (ends zero) ↦ none
  | some (ends (suc low)) ↦ if ltb low (length bs) then some low else none
]

abbrev pub add_at : ℕ → ℕ → List HistogramBucket → List HistogramBucket
add_at i c [] = []
add_at zero c (b ∷ bs) = record b { value = b.value + c } ∷ bs
add_at (suc i) c (b ∷ bs) = b ∷ add_at i c bs

-- `ObserveWithCount` with a count that is not negative, and `Observe` with 1.
pub observe_with_count : Float64 → ℕ → List HistogramBucket → List HistogramBucket
unfolding find_bucket
observe_with_count v c bs = elim (find_bucket v bs) [ none ↦ bs | some i ↦ add_at i c bs ]

-- `sort.Float64s`.
abbrev pub insert_sorted : ℤ → List ℤ → List ℤ
insert_sorted x [] = x ∷ []
insert_sorted x (y ∷ ys) = if lt_int y x then y ∷ insert_sorted x ys else x ∷ y ∷ ys

abbrev pub sort : List ℤ → List ℤ
sort [] = []
sort (x ∷ xs) = insert_sorted x (sort xs)

-- `==` of two that are not NaN.
abbrev pub is_equal : ℤ → ℤ → Bool
is_equal x y = if lt_int x y then false else if lt_int y x then false else true

abbrev pub has_duplicate : ℤ → List ℤ → Bool
has_duplicate x [] = false
has_duplicate x (y ∷ ys) = if is_equal x y then true else has_duplicate y ys

abbrev pub new_buckets : List ℤ → List HistogramBucket
new_buckets [] = []
new_buckets (x ∷ xs) = record { bucket = x; value = 0 } ∷ new_buckets xs

-- The buckets of a histogram; none for a panic, which no steps and equal steps are.
pub new_histogram_from_steps : ℤ → List ℤ → Option (List HistogramBucket)
new_histogram_from_steps min steps = elim (sort steps) [
  | [] ↦ none
  | x ∷ xs ↦
      if has_duplicate x xs
      then none
      else some (new_buckets (if is_equal min x then x ∷ xs else min ∷ x ∷ xs))
]
