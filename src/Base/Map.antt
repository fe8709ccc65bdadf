-- ===== src/Base/Map.antt =====
-- Go's `map[string]V` as an association list with one entry for a key. A missing key reads as none;
-- `nil` and an empty map have the same entries.
use mathlib.Core.Path.{◌≡◌, refl, sym, ap, subst, ◌∙◌}
use mathlib.Core.Bool.{false}
use mathlib.Core.Option.{Option, none, some}
use mathlib.Core.List.{List, [], ◌∷◌, ◌++◌, append-nil, append_assoc}
use mathlib.Core.Logic.{inl, inr}
use Prim.Native.Nat.{◌+◌, ◌≤◌}
use skywalking_go.Base.Lists.{length}
use native.Mathlib.Omega.{arith}
use skywalking_go.Base.Tests.{if◌then◌else◌, Bool-cases}
use skywalking_go.Base.Strings.{Bytes, str_eq, str_eq_iff, str_eq_refl}

abbrev pub Map {ℓ} : Type ℓ → Type ℓ
Map V = List (Bytes × V)

str_eq_comm : (s t : Bytes) → str_eq s t ≡ false → str_eq t s ≡ false
str_eq_comm s t h = ground (arith, str_eq_iff s t, str_eq_iff t s)

module _ {ℓ} {V : Type ℓ} where
  unfoldable pub lookup : Bytes → Map V → Option V
  lookup k [] = none
  lookup k ((j, v) ∷ m) = if str_eq j k then some v else lookup k m

  unfoldable pub insert : Bytes → V → Map V → Map V
  insert k v [] = (k, v) ∷ []
  insert k v ((j, w) ∷ m) = if str_eq j k then (k, v) ∷ m else (j, w) ∷ insert k v m

  -- `delete(m, k)`: nothing happens on a missing key.
  unfoldable pub delete : Bytes → Map V → Map V
  delete k [] = []
  delete k ((j, w) ∷ m) = if str_eq j k then delete k m else (j, w) ∷ delete k m

  -- `for k, v := range m { c[k] = v }`.
  unfoldable pub insert_all : Map V → Map V → Map V
  insert_all [] c = c
  insert_all ((k, v) ∷ m) c = insert_all m (insert k v c)

  pub lookup-insert :
      (k j : Bytes) (v : V) (m : Map V)
      → lookup j (insert k v m) ≡ (if str_eq k j then some v else lookup j m)
  unfolding lookup insert
  lookup-insert k j v [] = refl
  lookup-insert k j v ((i, w) ∷ m) =
      ground (arith, str_eq_iff k j, str_eq_iff i k, str_eq_iff i j, lookup-insert k j v m)

  pub lookup-delete :
      (k j : Bytes) (m : Map V) → lookup j (delete k m) ≡ (if str_eq k j then none else lookup j m)
  unfolding lookup delete
  lookup-delete k j [] = ground arith
  lookup-delete k j ((i, w) ∷ m) =
      ground (arith, str_eq_iff k j, str_eq_iff i k, str_eq_iff i j, lookup-delete k j m)

  pub lookup-insert_self : (k : Bytes) (v : V) (m : Map V) → lookup k (insert k v m) ≡ some v
  lookup-insert_self k v m = simp (lookup-insert, str_eq_refl)

  -- Whether a key is present.
  abbrev pub Lacks : Bytes → Map V → Type 0
  Lacks k [] = Unit {0}
  Lacks k ((j, v) ∷ m) = (str_eq j k ≡ false) × Lacks k m

  -- No key stands twice.
  abbrev pub HasDistinctKeys : Map V → Type 0
  HasDistinctKeys [] = Unit {0}
  HasDistinctKeys ((k, v) ∷ m) = Lacks k m × HasDistinctKeys m

  pub lookup-Lacks : (k : Bytes) (m : Map V) → Lacks k m → lookup k m ≡ none
  unfolding lookup
  lookup-Lacks k [] h = refl
  lookup-Lacks k ((j, v) ∷ m) h = rw (h.0) (lookup-Lacks k m h.1)

  Lacks-append :
      (j k : Bytes) (v : V) (xs m : Map V) → Lacks j (xs ++ ((k, v) ∷ m)) → str_eq k j ≡ false
  Lacks-append j k v [] m h = h.0
  Lacks-append j k v ((i, w) ∷ xs) m h = Lacks-append j k v xs m h.1

  distinct-Lacks :
      (k : Bytes) (v : V) (xs m : Map V) → HasDistinctKeys (xs ++ ((k, v) ∷ m)) → Lacks k xs
  distinct-Lacks k v [] m h = tt
  distinct-Lacks k v ((j, w) ∷ xs) m h =
      (str_eq_comm k j (Lacks-append j k v xs m h.0), distinct-Lacks k v xs m h.1)

  -- A new key goes to the end.
  insert-Lacks : (k : Bytes) (v : V) (m : Map V) → Lacks k m → insert k v m ≡ m ++ ((k, v) ∷ [])
  unfolding insert
  insert-Lacks k v [] h = refl
  insert-Lacks k v ((j, w) ∷ m) h = rw (h.0, insert-Lacks k v m h.1)

  insert_all_lem : (m acc : Map V) → HasDistinctKeys (acc ++ m) → insert_all m acc ≡ acc ++ m
  unfolding insert_all
  insert_all_lem [] acc h = sym (append-nil acc)
  insert_all_lem ((k, v) ∷ m) acc h =
      let e = insert-Lacks k v acc (distinct-Lacks k v acc m h) in
      let a = append_assoc acc ((k, v) ∷ []) m in
      ap (insert_all m) e
      ∙ insert_all_lem m (acc ++ ((k, v) ∷ [])) (subst HasDistinctKeys (sym a) h)
      ∙ a

  -- A map copied entry by entry into an empty one is the map.
  pub insert_all-nil : (m : Map V) → HasDistinctKeys m → insert_all m [] ≡ m
  insert_all-nil m h = insert_all_lem m [] h

  Lacks-insert :
      (j k : Bytes) (v : V) (m : Map V) → str_eq k j ≡ false → Lacks j m → Lacks j (insert k v m)
  unfolding insert
  Lacks-insert j k v [] n h = (n, tt)
  Lacks-insert j k v ((i, w) ∷ m) n h = ground (arith, Lacks-insert j k v m n h.1)

  pub insert-HasDistinctKeys :
      (k : Bytes) (v : V) (m : Map V) → HasDistinctKeys m → HasDistinctKeys (insert k v m)
  unfolding insert
  insert-HasDistinctKeys k v [] h = (tt, tt)
  insert-HasDistinctKeys k v ((i, w) ∷ m) h = elim (Bool-cases (str_eq i k)) [
    | inl same ↦ rw same (subst (λ x. Lacks x m) ((str_eq_iff i k).0 same) h.0, h.1)
    | inr other ↦
        rw other
          (Lacks-insert i k v m (str_eq_comm i k other) h.0, insert-HasDistinctKeys k v m h.1)
  ]

  Lacks-delete : (j k : Bytes) (m : Map V) → Lacks j m → Lacks j (delete k m)
  unfolding delete
  Lacks-delete j k [] h = tt
  Lacks-delete j k ((i, w) ∷ m) h = ground (arith, Lacks-delete j k m h.1)

  pub delete-HasDistinctKeys :
      (k : Bytes) (m : Map V) → HasDistinctKeys m → HasDistinctKeys (delete k m)
  unfolding delete
  delete-HasDistinctKeys k [] h = tt
  delete-HasDistinctKeys k ((i, w) ∷ m) h =
      ground (arith, Lacks-delete i k m h.0, delete-HasDistinctKeys k m h.1)

  pub length-insert-le : (k : Bytes) (v : V) (m : Map V) → length (insert k v m) ≤ length m + 1
  unfolding insert
  length-insert-le k v [] = omega arith
  length-insert-le k v ((i, w) ∷ m) = ground (arith, length-insert-le k v m)

  pub length-delete-le : (k : Bytes) (m : Map V) → length (delete k m) ≤ length m
  unfolding delete
  length-delete-le k [] = omega arith
  length-delete-le k ((i, w) ∷ m) = ground (arith, length-delete-le k m)
