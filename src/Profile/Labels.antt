-- ===== src/Profile/Labels.antt =====
-- plugins/core/prof_labels.go: the labels of a goroutine as a list of values; the memory that two label
-- sets may share is not in the model.
pub mod Order
pub mod Updated
use skywalking_go.Base.{
  ℕ, Bool, true, false, ◌||◌, [], ◌∷◌, ◌++◌, List, Option, none, some, Bytes, codes, str_eq,
  if◌then◌else◌, ltb,
}

pub record Label : Type 0 where
  pub key : Bytes
  pub text : Bytes

-- `<` of two Go strings.
abbrev pub lt_str : Bytes → Bytes → Bool
lt_str [] [] = false
lt_str [] (d ∷ t) = true
lt_str (c ∷ s) [] = false
lt_str (c ∷ s) (d ∷ t) = if ltb c d then true else if ltb d c then false else lt_str s t

-- The pairs of the arguments; none for the panic on an uneven number.
unfoldable pub labels_of : List Bytes → Option (List Label)
labels_of [] = some []
labels_of (k ∷ []) = none
labels_of (k ∷ v ∷ args) = elim (labels_of args) [
  | none ↦ none
  | some ls ↦ some (record { key = k; text = v } ∷ ls)
]

-- `sort.SliceStable` by the key: an entry goes after those that are equal.
abbrev pub insert_after : Label → List Label → List Label
insert_after l [] = l ∷ []
insert_after l (x ∷ xs) = if lt_str l.key x.key then l ∷ x ∷ xs else x ∷ insert_after l xs

abbrev pub sort_onto : List Label → List Label → List Label
sort_onto acc [] = acc
sort_onto acc (l ∷ ls) = sort_onto (insert_after l acc) ls

abbrev pub replace_last : Label → List Label → List Label
replace_last l [] = []
replace_last l (x ∷ []) = l ∷ []
replace_last l (x ∷ y ∷ xs) = x ∷ replace_last l (y ∷ xs)

-- The loop that removes duplicates, with the entry before.
abbrev pub dedupe : Option Label → List Label → List Label → List Label
dedupe before deduped [] = deduped
dedupe none deduped (l ∷ ls) = dedupe (some l) (deduped ++ (l ∷ [])) ls
dedupe (some p) deduped (l ∷ ls) =
    if str_eq l.key p.key
    then dedupe (some l) (replace_last l deduped) ls
    else dedupe (some l) (deduped ++ (l ∷ [])) ls

pub update_trace_labels : List Label → List Bytes → Option (List Label)
unfolding labels_of
update_trace_labels s args = elim (labels_of args) [
  | none ↦ none
  | some ls ↦ some (dedupe none [] (sort_onto [] (s ++ ls)))
]

-- `List` of a label set.
pub list : List Label → List Bytes
list [] = []
list (l ∷ ls) = l.key ∷ l.text ∷ list ls

-- `span_label`, `segment_label`, `trace_label` and `min_duration_label` are the constants of the agent.
pub extract_sky_internal_labels : Bytes → Bytes → Bytes → Bytes → List Label → List Label
extract_sky_internal_labels span_label segment_label trace_label min_duration_label [] = []
extract_sky_internal_labels span_label segment_label trace_label min_duration_label (l ∷ ls) =
    let rest =
      extract_sky_internal_labels span_label segment_label trace_label min_duration_label ls in
    if str_eq l.key span_label
      || str_eq l.key segment_label
      || str_eq l.key trace_label
      || str_eq l.key min_duration_label
    then l ∷ rest
    else rest
