-- ===== src/Text/Parts.antt =====
-- `strings.Split` and `strings.Join` at a separator of one byte.
use skywalking_go.Base.{
  ℕ, ◌≡◌, ◌≢◌, refl, [], ◌∷◌, ◌++◌, List, Bytes, All, ◌==◌, if◌then◌else◌, arith,
}

-- A byte before the first part.
abbrev prepend : ℕ → List Bytes → List Bytes
prepend c [] = (c ∷ []) ∷ []
prepend c (part ∷ parts) = (c ∷ part) ∷ parts

-- There is always at least one part.
unfoldable pub split : ℕ → Bytes → List Bytes
split sep [] = [] ∷ []
split sep (c ∷ s) = let rest = split sep s in if c == sep then [] ∷ rest else prepend c rest

unfoldable pub join : ℕ → List Bytes → Bytes
join sep [] = []
join sep (part ∷ []) = part
join sep (part ∷ next ∷ parts) = part ++ (sep ∷ join sep (next ∷ parts))

-- A text in which a byte does not occur.
abbrev pub Without : ℕ → Bytes → Type 0
Without sep = All (λ c. c ≢ sep)

split-append :
    (sep : ℕ) (part s : Bytes)
    → Without sep part
    → split sep (part ++ (sep ∷ s)) ≡ part ∷ split sep s
unfolding split
split-append sep [] s h = ground arith
split-append sep (c ∷ part) s h = ground (arith, split-append sep part s h.1)

split-Without : (sep : ℕ) (part : Bytes) → Without sep part → split sep part ≡ part ∷ []
unfolding split
split-Without sep [] h = refl
split-Without sep (c ∷ part) h = ground (arith, split-Without sep part h.1)

-- Parts that do not hold the separator are read back from their join.
pub split-join :
    (sep : ℕ) (part : Bytes) (parts : List Bytes)
    → All (Without sep) (part ∷ parts)
    → split sep (join sep (part ∷ parts)) ≡ part ∷ parts
unfolding join
split-join sep part [] h = split-Without sep part h.0
split-join sep part (next ∷ parts) h =
    rw (split-append sep part (join sep (next ∷ parts)) h.0) (rw (split-join sep next parts h.1))
