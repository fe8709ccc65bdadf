-- ===== src/Store/Laws.antt =====
-- What is read from a store after each operation on it, and that copies are independent of it.
use skywalking_go.Base.{
  ◌≡◌, refl, [], Option, none, some, Bytes, str_eq, str_eq_iff, if◌then◌else◌, arith,
}
use skywalking_go.Base.Map.{
  Map, HasDistinctKeys, lookup, lookup-insert, lookup-delete, insert_all-nil,
  insert-HasDistinctKeys, delete-HasDistinctKeys,
}
use skywalking_go.Store.{
  CorrelationContext, get, set, clone, runtime_get, runtime_set, runtime_clone,
}

-- A value that was set is what the key reads, "" included, which takes the key out; other keys read
-- as before.
pub get-set :
    (c : CorrelationContext) (k j v : Bytes)
    → get (set (some c) k v) j ≡ (if str_eq k j then v else get (some c) j)
unfolding get set
get-set c k j v =
    ground (arith, str_eq_iff v [], lookup-insert k j v c.entries, lookup-delete k j c.entries)

-- Setting a value keeps one entry for each key.
pub set-HasDistinctKeys :
    (c d : CorrelationContext) (k v : Bytes)
    → HasDistinctKeys c.entries
    → set (some c) k v ≡ some d
    → HasDistinctKeys d.entries
unfolding set
set-HasDistinctKeys c d k v h e =
    ground (arith, insert-HasDistinctKeys k v c.entries h, delete-HasDistinctKeys k c.entries h)

-- A clone reads as the store it was taken from, and goes on reading so whatever is set afterwards in
-- the store; what is set in the clone is not seen in the store.
pub get-clone :
    (c : CorrelationContext) (j : Bytes)
    → HasDistinctKeys c.entries
    → get (some (clone (some c))) j ≡ get (some c) j
unfolding get clone
get-clone c j h = rw (insert_all-nil c.entries h)

module _ {ℓ} {V : Type ℓ} where
  -- The same for the runtime context, where setting nil takes a key out.
  pub runtime_get-set :
      (m : Map V) (k j : Bytes) (v : Option V)
      → runtime_get (runtime_set (some m) k v) j
        ≡ (if str_eq k j then v else runtime_get (some m) j)
  unfolding runtime_get runtime_set
  runtime_get-set m k j none = lookup-delete k j m
  runtime_get-set m k j (some v) = lookup-insert k j v m

  -- A clone reads as the original does, if the keys of that are distinct; a nil pointer reads nothing.
  pub runtime_get-clone :
      (m : Option (Map V)) (j : Bytes)
      → ((d : Map V) → m ≡ some d → HasDistinctKeys d)
      → runtime_get (runtime_clone m) j ≡ runtime_get m j
  unfolding runtime_get runtime_clone lookup
  runtime_get-clone none j h = refl
  runtime_get-clone (some d) j h = rw (insert_all-nil d (h d refl))
