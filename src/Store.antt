-- ===== src/Store.antt =====
-- The key-value stores that travel with a trace: plugins/core/correlation.go (`CorrelationContext`)
-- and the `RuntimeContext` of plugins/core/context.go. A nil pointer is none; each operation holds
-- the lock of its store from begin to end, so it is one step. A nil map has no entries.
pub mod Laws
pub mod Limits
pub mod Examples
use skywalking_go.Base.{
  ℕ, Bool, true, false, [], ◌∷◌, List, Option, none, some, Bytes, length, str_eq, not, get_or,
  if◌then◌else◌, leb, ltb,
}
use skywalking_go.Base.Memory.{put}
use skywalking_go.Base.Map.{Map, lookup, insert, delete, insert_all}

pub record CorrelationContext : Type 0 where
  pub entries : Map Bytes

pub new_correlation_context : CorrelationContext
new_correlation_context = record { entries = [] }

unfoldable pub new_correlation_context_from : Map Bytes → CorrelationContext
unfolding new_correlation_context
new_correlation_context_from [] = new_correlation_context
new_correlation_context_from (e ∷ m) = record { entries = insert_all (e ∷ m) [] }

unfoldable pub get : Option CorrelationContext → Bytes → Bytes
get none key = []
get (some c) key = elim (lookup key c.entries) [ none ↦ [] | some v ↦ v ]

unfoldable pub set : Option CorrelationContext → Bytes → Bytes → Option CorrelationContext
set none key value = none
set (some c) key value =
    if str_eq value []
    then some (record c { entries = delete key c.entries })
    else some (record c { entries = insert key value c.entries })

unfoldable pub len : Option CorrelationContext → ℕ
len none = 0
len (some c) = length c.entries

unfoldable pub snapshot : Option CorrelationContext → Map Bytes
snapshot none = []
snapshot (some c) = insert_all c.entries []

unfoldable pub clone : Option CorrelationContext → CorrelationContext
unfolding new_correlation_context
clone none = new_correlation_context
clone (some c) = record { entries = insert_all c.entries [] }

-- `Tracer.SetCorrelationContextValue` of plugins/core/tracing.go, on the store of an active segment
-- span: the limits of `CorrelationConfig` are tested first, and `Set` is a step of its own.
pub record CorrelationConfig : Type 0 where
  pub max_key_count : ℕ
  pub max_value_size : ℕ

-- The tests of `SetCorrelationContextValue`; `Len` holds the lock for itself.
unfoldable pub is_settable : CorrelationConfig → Option CorrelationContext → Bytes → Bool
unfolding len
is_settable config c value =
    if ltb config.max_value_size (length value)
    then false
    else not (leb config.max_key_count (len c))

-- Goroutines that share one store. Each is between calls of `SetCorrelationContextValue`, or, with the key
-- and the value, between the `Len` and the `Set` of one.
pub record Writers : Type 0 where
  pub store : Option CorrelationContext
  pub goroutines : List (Option (Bytes × Bytes))

pub data WriterEvent : Type 0 where
  tests : ℕ → Bytes → Bytes → WriterEvent
  sets : ℕ → WriterEvent

-- The goroutine `i` comes to the tests of a call, or to its `Set`.
unfoldable pub writer_step : CorrelationConfig → WriterEvent → Writers → Writers
unfolding is_settable set
writer_step config (tests i key value) w = elim (get_or w.goroutines i (some (key, value))) [
  | some call ↦ w
  | none ↦
      if is_settable config w.store value
      then record w { goroutines = put i (some (key, value)) w.goroutines }
      else w
]
writer_step config (sets i) w = elim (get_or w.goroutines i none) [
  | none ↦ w
  | some (key, value) ↦ record {
    store = set w.store key value;
    goroutines = put i none w.goroutines;
  }
]

unfoldable pub run_writers : CorrelationConfig → List WriterEvent → Writers → Writers
unfolding writer_step
run_writers config [] w = w
run_writers config (e ∷ es) w = run_writers config es (writer_step config e w)

-- The values of a runtime context are those of any type; nil is none.
module _ {ℓ} {V : Type ℓ} where
  pub runtime_get : Option (Map V) → Bytes → Option V
  runtime_get none key = none
  runtime_get (some m) key = lookup key m

  pub runtime_set : Option (Map V) → Bytes → Option V → Option (Map V)
  runtime_set none key value = none
  runtime_set (some m) key none = some (delete key m)
  runtime_set (some m) key (some value) = some (insert key value m)

  unfoldable pub runtime_clone : Option (Map V) → Option (Map V)
  runtime_clone none = some []
  runtime_clone (some m) = some (insert_all m [])
