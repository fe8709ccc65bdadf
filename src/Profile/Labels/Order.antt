-- ===== src/Profile/Labels/Order.antt =====
-- The order of Go strings, and the sort of labels by it.
use skywalking_go.Base.{
  if◌then◌else◌, ◌≡◌, refl, ap, sym, ◌∙◌, true, false, [], ◌∷◌, ◌++◌, List, Option, none, some,
  Bytes, str_eq, str_eq_iff, arith, All, All-imp, append_assoc, append_nil, Bool-cases, inl, inr,
}
use skywalking_go.Profile.Labels.{Label, lt_str, insert_after, sort_onto}

-- The text of the last label with the key.
abbrev pub last_value : Bytes → List Label → Option Bytes
last_value k [] = none
last_value k (l ∷ ls) = elim (last_value k ls) [
  | some v ↦ some v
  | none ↦ if str_eq l.key k then some l.text else none
]

-- The keys increase, so no key stands twice.
abbrev pub AreIncreasing : List Label → Type 0
AreIncreasing [] = Unit
AreIncreasing (l ∷ ls) = All (λ m. lt_str l.key m.key ≡ true) ls × AreIncreasing ls

abbrev pub AreSorted : List Label → Type 0
AreSorted [] = Unit
AreSorted (l ∷ ls) = All (λ m. lt_str m.key l.key ≡ false) ls × AreSorted ls

lt_str_irrefl : (s : Bytes) → lt_str s s ≡ false
lt_str_irrefl [] = refl
lt_str_irrefl (c ∷ s) = ground (arith, lt_str_irrefl s)

lt_str_asym : (s t : Bytes) → lt_str s t ≡ true → lt_str t s ≡ false
lt_str_asym [] [] h = ground (arith, h)
lt_str_asym [] (d ∷ t) h = refl
lt_str_asym (c ∷ s) [] h = ground (arith, h)
lt_str_asym (c ∷ s) (d ∷ t) h = let i = lt_str_asym s t in ground (arith, h, i)

lt_none : (s : Bytes) → lt_str s [] ≡ false
lt_none [] = refl
lt_none (c ∷ s) = refl

lt_str_trans : (s t u : Bytes) → lt_str s t ≡ true → lt_str t u ≡ true → lt_str s u ≡ true
lt_str_trans s t [] h k = ground (arith, k, lt_none t)
lt_str_trans s [] (e ∷ u) h k = ground (arith, h, lt_none s)
lt_str_trans [] (d ∷ t) (e ∷ u) h k = refl
lt_str_trans (c ∷ s) (d ∷ t) (e ∷ u) h k = let i = lt_str_trans s t u in ground (arith, h, k, i)

pub lt_str_connex : (s t : Bytes) → lt_str s t ≡ false → lt_str t s ≡ false → s ≡ t
lt_str_connex [] [] h k = refl
lt_str_connex [] (d ∷ t) h k = ground (arith, h)
lt_str_connex (c ∷ s) [] h k = ground (arith, k)
lt_str_connex (c ∷ s) (d ∷ t) h k = let i = lt_str_connex s t in ground (arith, h, k, i)

not_lt_str_trans : (s t u : Bytes) → lt_str t s ≡ false → lt_str u t ≡ false → lt_str u s ≡ false
not_lt_str_trans s t u h k = elim (Bool-cases (lt_str u s)) [
  | inr e ↦ e
  | inl e ↦ elim (Bool-cases (lt_str s t)) [
    | inl f ↦ let g = lt_str_trans u s t e f in ground (arith, g, k)
    | inr f ↦ let q = lt_str_connex s t f h in ground (arith, q, e, k)
  ]
]

insert-All :
    (P : Label → Type 0) (l : Label) (xs : List Label) → P l → All P xs → All P (insert_after l xs)
insert-All P l [] p h = (p, tt)
insert-All P l (x ∷ xs) p (q, h) = elim (Bool-cases (lt_str l.key x.key)) [
  | inl e ↦ rw e (p, (q, h))
  | inr e ↦ rw e (q, insert-All P l xs p h)
]

insert-AreSorted : (l : Label) (xs : List Label) → AreSorted xs → AreSorted (insert_after l xs)
insert-AreSorted l [] h = (tt, tt)
insert-AreSorted l (x ∷ xs) (a, h) = elim (Bool-cases (lt_str l.key x.key)) [
  | inl e ↦
      let n = lt_str_asym l.key x.key e in
      rw e ((n, All-imp (λ m b. not_lt_str_trans l.key x.key m.key n b) xs a), (a, h))
  | inr e ↦ rw e (insert-All (λ m. lt_str m.key x.key ≡ false) l xs e a, insert-AreSorted l xs h)
]

last_value-append :
    (k : Bytes) (xs ys : List Label)
    → last_value k (xs ++ ys) ≡ elim (last_value k ys) [ some v ↦ some v | none ↦ last_value k xs ]
last_value-append k [] ys = ground arith
last_value-append k (x ∷ xs) ys = let h = last_value-append k xs ys in ground (arith, h)

last_value-none :
    (k : Bytes) (xs : List Label) → All (λ x. str_eq x.key k ≡ false) xs → last_value k xs ≡ none
last_value-none k [] h = refl
last_value-none k (x ∷ xs) (a, h) = let i = last_value-none k xs h in ground (arith, a, i)

above_differs :
    (l : Label) (k : Bytes) (xs : List Label)
    → str_eq l.key k ≡ true
    → All (λ x. lt_str l.key x.key ≡ true) xs
    → All (λ x. str_eq x.key k ≡ false) xs
above_differs l k [] e h = tt
above_differs l k (x ∷ xs) e (a, h) =
    let i = str_eq_iff l.key k in
    let j = str_eq_iff x.key k in
    let n = lt_str_irrefl k in (ground (arith, e, a, i, j, n), above_differs l k xs e h)

pub all_above :
    (l x : Label) (xs : List Label)
    → lt_str l.key x.key ≡ true
    → All (λ m. lt_str m.key x.key ≡ false) xs
    → All (λ m. lt_str l.key m.key ≡ true) xs
all_above l x xs e h =
    All-imp
      (λ m b. elim (Bool-cases (lt_str l.key m.key)) [
        | inl y ↦ y
        | inr n ↦ let c = not_lt_str_trans x.key m.key l.key b n in ground (arith, c, e)
      ])
      xs h

last_value-insert :
    (k : Bytes) (l : Label) (xs : List Label)
    → AreSorted xs
    → last_value k (insert_after l xs) ≡ last_value k (xs ++ (l ∷ []))
last_value-insert k l [] h = refl
last_value-insert k l (x ∷ xs) (a, h) =
    let p = last_value-append k (x ∷ xs) (l ∷ []) in
    elim (Bool-cases (lt_str l.key x.key)) [
      | inl e ↦ elim (Bool-cases (str_eq l.key k)) [
        | inr q ↦ ground (arith, e, p, q)
        | inl q ↦
            let n =
              last_value-none k (x ∷ xs) (above_differs l k (x ∷ xs) q (e, all_above l x xs e a)) in
            ground (arith, e, p, q, n)
      ]
      | inr e ↦ let i = last_value-insert k l xs h in ground (arith, e, i)
    ]

pub sort_onto-AreSorted : (acc ls : List Label) → AreSorted acc → AreSorted (sort_onto acc ls)
sort_onto-AreSorted acc [] h = h
sort_onto-AreSorted acc (l ∷ ls) h =
    sort_onto-AreSorted (insert_after l acc) ls (insert-AreSorted l acc h)

pub last_value-sort_onto :
    (k : Bytes) (acc ls : List Label)
    → AreSorted acc
    → last_value k (sort_onto acc ls) ≡ last_value k (acc ++ ls)
last_value-sort_onto k acc [] h = ap (last_value k) (sym (append_nil acc))
last_value-sort_onto k acc (l ∷ ls) h =
    let i = last_value-sort_onto k (insert_after l acc) ls (insert-AreSorted l acc h) in
    let a = last_value-append k (insert_after l acc) ls in
    let b = last_value-insert k l acc h in
    let c = last_value-append k (acc ++ (l ∷ [])) ls in
    let d = ap (last_value k) (append_assoc acc (l ∷ []) ls) in
    let e : last_value k (insert_after l acc ++ ls) ≡ last_value k ((acc ++ (l ∷ [])) ++ ls) =
      ground (arith, a, b, c) in
    i ∙ e ∙ d
