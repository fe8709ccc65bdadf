-- ===== src/Meter/Bucket.antt =====
-- The binary search for a bucket finds what a search from the front finds.
use skywalking_go.Base.{
  ℕ, zero, suc, ◌+◌, ◌-◌, ◌/◌, ◌≤◌, ◌<◌, ◌≡◌, refl, true, false, [], ◌∷◌, List, Option, none, some,
  ℤ, lt_int, lt_int_asym, not_lt_trans, not_lt-lt_trans, lt_int_trans, if◌then◌else◌, length, ltb,
  arith, All, Bool-cases, inl, inr,
}
use skywalking_go.Meter.{
  HistogramBucket, bucket_at, Search, Float64, nan, number, equal, ends, search, find_bucket,
}

-- The buckets increase.
abbrev pub AreIncreasing : List HistogramBucket → Type 0
AreIncreasing [] = Unit
AreIncreasing (b ∷ bs) = All (λ c. lt_int b.bucket c.bucket ≡ true) bs × AreIncreasing bs

-- How many buckets from the front do not exceed the value.
abbrev pub count_up_to : ℤ → List HistogramBucket → ℕ
count_up_to v [] = 0
count_up_to v (b ∷ bs) = if lt_int v b.bucket then 0 else suc (count_up_to v bs)

-- The last bucket that does not exceed the value.
abbrev pub last_up_to : ℤ → List HistogramBucket → Option ℕ
last_up_to v bs = elim (count_up_to v bs) [ zero ↦ none | suc n ↦ some n ]

bucket_at-All :
    (P : ℤ → Type 0) (bs : List HistogramBucket) (i : ℕ)
    → i < length bs
    → All (λ b. P b.bucket) bs
    → P (bucket_at bs i)
bucket_at-All P [] i l h = ground (arith, l)
bucket_at-All P (b ∷ bs) zero l h = h.0
bucket_at-All P (b ∷ bs) (suc i) l h = bucket_at-All P bs i (omega (arith, l)) h.1

increases :
    (bs : List HistogramBucket) (i j : ℕ)
    → AreIncreasing bs
    → i < j
    → j < length bs
    → lt_int (bucket_at bs i) (bucket_at bs j) ≡ true
increases [] i j h l k = ground (arith, k)
increases (b ∷ bs) i zero h l k = ground (arith, l)
increases (b ∷ bs) zero (suc j) h l k =
    bucket_at-All (λ x. lt_int b.bucket x ≡ true) bs j (omega (arith, k)) h.0
increases (b ∷ bs) (suc i) (suc j) h l k =
    increases bs i j h.1 (omega (arith, l)) (omega (arith, k))

-- `n` buckets do not exceed the value, and the next one does.
count_up_to_is :
    (v : ℤ) (bs : List HistogramBucket) (n : ℕ)
    → n ≤ length bs
    → ((i : ℕ) → i < n → lt_int v (bucket_at bs i) ≡ false)
    → (n < length bs → lt_int v (bucket_at bs n) ≡ true)
    → count_up_to v bs ≡ n
count_up_to_is v [] n l below above = omega (arith, l)
count_up_to_is v (b ∷ bs) zero l below above = let a = above (omega arith) in ground (arith, a)
count_up_to_is v (b ∷ bs) (suc n) l below above =
    let first = below 0 (omega arith) in
    let rest =
      count_up_to_is v bs n (omega (arith, l)) (λ i k. below (suc i) (omega (arith, k)))
        (λ k. above (omega (arith, k))) in
    ground (arith, first, rest)

abbrev count_of : Search → ℕ
count_of (equal i) = suc i
count_of (ends low) = low

search_counts :
    (fuel : ℕ) (v : ℤ) (low top : ℕ) (bs : List HistogramBucket)
    → AreIncreasing bs
    → top ≤ low + fuel
    → low ≤ top
    → top ≤ length bs
    → ((i : ℕ) → i < low → lt_int (bucket_at bs i) v ≡ true)
    → (top < length bs → lt_int v (bucket_at bs top) ≡ true)
    → (s : Search) × (search fuel (number v) low top bs ≡ some s)
      × (count_up_to v bs ≡ count_of s)
      × (count_of s ≤ length bs)
unfolding search
search_counts zero v low top bs inc f l t below above =
    let e : top ≡ low = omega (arith, f, l) in
    (
      ends low,
      ground (arith, f),
      count_up_to_is v bs low (omega (arith, l, t))
          (λ i k. lt_int_asym (bucket_at bs i) v (below i k)) (λ k. ground (arith, e, above, k)),
      omega (arith, l, t),
    )
search_counts (suc fuel) v low top bs inc f l t below above = elim (Bool-cases (ltb low top)) [
  | inr o ↦
      let e : top ≡ low = ground (arith, o, l) in
      (
        ends low,
        ground (arith, o),
        count_up_to_is v bs low (omega (arith, l, t))
            (λ i k. lt_int_asym (bucket_at bs i) v (below i k)) (λ k. ground (arith, e, above, k)),
        omega (arith, l, t),
      )
  | inl o ↦
      let mid = (low + (top - 1)) / 2 in
      let m : (low ≤ mid) × (mid < top) = ground (arith, o) in
      elim (Bool-cases (lt_int (bucket_at bs mid) v)) [
        | inl a ↦
            let (s, r, c, k) =
              search_counts fuel v (mid + 1) top bs inc (omega (arith, f, m)) (omega (arith, m)) t
                (λ i k. elim (Bool-cases (ltb i mid)) [
                  | inl q ↦
                      lt_int_trans (bucket_at bs i) (bucket_at bs mid) v
                        (increases bs i mid inc (ground (arith, q)) (omega (arith, m, t))) a
                  | inr q ↦ let e : i ≡ mid = ground (arith, q, k) in ground (arith, e, a)
                ])
                above in
            (s, ground (arith, o, a, r), c, k)
        | inr a ↦ elim (Bool-cases (lt_int v (bucket_at bs mid))) [
          | inl b ↦
              let (s, r, c, k) =
                search_counts fuel v low mid bs inc (omega (arith, f, m)) m.0 (omega (arith, m, t))
                  below (λ _. b) in
              (s, ground (arith, o, a, b, r), c, k)
          | inr b ↦ (
            equal mid,
            ground (arith, o, a, b),
            count_up_to_is v bs (suc mid) (omega (arith, m, t))
                (λ i k. elim (Bool-cases (ltb i mid)) [
                  | inl q ↦
                      let n = increases bs i mid inc (ground (arith, q)) (omega (arith, m, t)) in
                      not_lt_trans (bucket_at bs i) (bucket_at bs mid) v
                        (lt_int_asym (bucket_at bs i) (bucket_at bs mid) n) b
                  | inr q ↦ let e : i ≡ mid = ground (arith, q, k) in ground (arith, e, b)
                ])
                (λ k.
                  not_lt-lt_trans v (bucket_at bs mid) (bucket_at bs (suc mid)) a
                    (increases bs mid (suc mid) inc (omega arith) k)),
            omega (arith, m, t),
          )
        ]
      ]
]

found_lem :
    (v : ℤ) (bs : List HistogramBucket) (s : Search)
    → search (length bs) (number v) 0 (length bs) bs ≡ some s
    → count_up_to v bs ≡ count_of s
    → count_of s ≤ length bs
    → find_bucket (number v) bs ≡ last_up_to v bs
unfolding find_bucket
found_lem v bs (equal i) r c k = ground (arith, r, c)
found_lem v bs (ends zero) r c k = ground (arith, r, c)
found_lem v bs (ends (suc low)) r c k = ground (arith, r, c, k)

find_number :
    (v : ℤ) (bs : List HistogramBucket)
    → AreIncreasing bs
    → find_bucket (number v) bs ≡ last_up_to v bs
find_number v bs inc =
    let (s, r, c, k) =
      search_counts (length bs) v 0 (length bs) bs inc (omega arith) (omega arith) (omega arith)
        (λ i l. ground (arith, l)) (λ l. ground (arith, l)) in
    found_lem v bs s r c k

find_nan :
    (bs : List HistogramBucket)
    → find_bucket nan bs ≡ (if ltb 0 (length bs) then some ((length bs - 1) / 2) else none)
unfolding find_bucket search
find_nan [] = refl
find_nan (b ∷ bs) = ground arith

-- The bucket that a search from the front finds for a value that is not NaN, the last one that does not
-- exceed it; and the middle one for NaN.
abbrev pub bucket_for : Float64 → List HistogramBucket → Option ℕ
bucket_for nan bs = if ltb 0 (length bs) then some ((length bs - 1) / 2) else none
bucket_for (number v) bs = last_up_to v bs

pub find_bucket_lem :
    (v : Float64) (bs : List HistogramBucket)
    → AreIncreasing bs
    → find_bucket v bs ≡ bucket_for v bs
find_bucket_lem nan bs inc = find_nan bs
find_bucket_lem (number v) bs inc = find_number v bs inc
