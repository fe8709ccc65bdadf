-- ===== src/Profile/Labels/Updated.antt =====
-- What an update makes of the labels.
use skywalking_go.Base.{
  if◌then◌else◌, ◌≡◌, refl, ap, sym, subst, ◌∙◌, true, [], ◌∷◌, ◌++◌, List, none, some, Bytes,
  str_eq, str_eq_iff, arith, All, append_assoc, Bool-cases, inl, inr,
}
use skywalking_go.Profile.Labels.{
  Label, lt_str, labels_of, sort_onto, replace_last, dedupe, update_trace_labels,
}
use skywalking_go.Profile.Labels.Order.{
  last_value, AreIncreasing, AreSorted, lt_str_connex, all_above, sort_onto-AreSorted,
  last_value-sort_onto,
}

-- Of entries in a row with one key, the last one.
runs : Label → List Label → List Label
runs p [] = p ∷ []
runs p (l ∷ ls) = if str_eq l.key p.key then runs l ls else p ∷ runs l ls

replace_last-append :
    (l p : Label) (front : List Label) → replace_last l (front ++ (p ∷ [])) ≡ front ++ (l ∷ [])
replace_last-append l p [] = refl
replace_last-append l p (x ∷ []) = refl
replace_last-append l p (x ∷ y ∷ front) = ap (λ ys. x ∷ ys) (replace_last-append l p (y ∷ front))

dedupe-runs :
    (p : Label) (front ls : List Label)
    → dedupe (some p) (front ++ (p ∷ [])) ls ≡ front ++ runs p ls
unfolding runs
dedupe-runs p front [] = refl
dedupe-runs p front (l ∷ ls) = elim (Bool-cases (str_eq l.key p.key)) [
  | inl e ↦
      let r = replace_last-append l p front in
      let d = dedupe-runs l front ls in ground (arith, e, r, d)
  | inr e ↦
      let d = dedupe-runs l (front ++ (p ∷ [])) ls in
      let a = append_assoc front (p ∷ []) (runs l ls) in ground (arith, e, d, a)
]

last_value-runs :
    (k : Bytes) (p : Label) (ls : List Label) → last_value k (runs p ls) ≡ last_value k (p ∷ ls)
unfolding runs
last_value-runs k p [] = refl
last_value-runs k p (l ∷ ls) =
    let h = last_value-runs k l ls in
    let i = str_eq_iff l.key p.key in
    elim (Bool-cases (str_eq l.key p.key)) [
      | inr e ↦ ground (arith, e, h)
      | inl e ↦
          let q = i.0 e in
          let same : str_eq l.key k ≡ str_eq p.key k = ap (λ s. str_eq s k) q in
          ground (arith, e, h, same)
    ]

runs-All : (P : Label → Type 0) (p : Label) (ls : List Label) → P p → All P ls → All P (runs p ls)
unfolding runs
runs-All P p [] a h = (a, tt)
runs-All P p (l ∷ ls) a (b, h) = elim (Bool-cases (str_eq l.key p.key)) [
  | inl e ↦ rw (runs, e) (runs-All P l ls b h)
  | inr e ↦ rw (runs, e) (a, runs-All P l ls b h)
]

runs-AreIncreasing : (p : Label) (ls : List Label) → AreSorted (p ∷ ls) → AreIncreasing (runs p ls)
unfolding runs
runs-AreIncreasing p [] h = (tt, tt)
runs-AreIncreasing p (l ∷ ls) ((a, b), h) = elim (Bool-cases (str_eq l.key p.key)) [
  | inl e ↦ rw (runs, e) (runs-AreIncreasing l ls h)
  | inr e ↦
      let c = lt_str_connex p.key l.key in
      let i = str_eq_iff l.key p.key in
      let less : lt_str p.key l.key ≡ true = ground (arith, a, c, i, e) in
      rw (runs, e)
        (
          runs-All (λ m. lt_str p.key m.key ≡ true) l ls less (all_above p l ls less h.0),
          runs-AreIncreasing l ls h,
        )
]

deduped_lem :
    (ls : List Label)
    → AreSorted ls
    → AreIncreasing (dedupe none [] ls)
      × ((k : Bytes) → last_value k (dedupe none [] ls) ≡ last_value k ls)
deduped_lem [] h = (tt, λ k. refl)
deduped_lem (l ∷ ls) h =
    let d = dedupe-runs l [] ls in
    (
      subst AreIncreasing (sym d) (runs-AreIncreasing l ls h),
      λ k. ap (last_value k) d ∙ last_value-runs k l ls,
    )

-- With an even number of arguments, `UpdateTraceLabels` gives labels with increasing keys, no key twice,
-- and the text of a key is the last one given for it, among the arguments first and then in the old set.
pub update_trace_labels_lem :
    (s : List Label) (args : List Bytes) (ls : List Label)
    → labels_of args ≡ some ls
    → (out : List Label) × (update_trace_labels s args ≡ some out)
      × AreIncreasing out
      × ((k : Bytes) → last_value k out ≡ last_value k (s ++ ls))
unfolding update_trace_labels
update_trace_labels_lem s args ls e =
    let sorted = sort_onto [] (s ++ ls) in
    let (inc, values) = deduped_lem sorted (sort_onto-AreSorted [] (s ++ ls) tt) in
    (
      dedupe none [] sorted,
      ground (arith, e),
      inc,
      λ k. values k ∙ last_value-sort_onto k [] (s ++ ls) tt,
    )
