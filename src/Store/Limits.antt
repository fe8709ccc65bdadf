-- ===== src/Store/Limits.antt =====
-- The limits on the correlation values that goroutines set through the tracer.
use skywalking_go.Base.{
  ℕ, zero, suc, ◌+◌, ◌-◌, ◌≤◌, ◌<◌, ◌≡◌, true, [], ◌∷◌, List, Option, none, some, Bytes, length,
  get_or, arith, Bool-cases, Option-cases, inl, inr,
}
use skywalking_go.Base.Memory.{put, length-put}
use skywalking_go.Base.Map.{Map, insert, delete, length-insert-le, length-delete-le}
use skywalking_go.Store.{
  CorrelationContext, CorrelationConfig, set, len, is_settable, Writers, WriterEvent, tests, sets,
  writer_step, run_writers,
}

-- No value is longer than the limit.
abbrev pub HasShortValues : ℕ → Map Bytes → Type 0
HasShortValues n [] = Unit {0}
HasShortValues n ((k, v) ∷ m) = (length v ≤ n) × HasShortValues n m

insert-HasShortValues :
    (n : ℕ) (k v : Bytes) (m : Map Bytes)
    → length v ≤ n
    → HasShortValues n m
    → HasShortValues n (insert k v m)
unfolding insert
insert-HasShortValues n k v [] l h = (l, tt)
insert-HasShortValues n k v ((j, w) ∷ m) l h = ground (arith, insert-HasShortValues n k v m l h.1)

delete-HasShortValues :
    (n : ℕ) (k : Bytes) (m : Map Bytes) → HasShortValues n m → HasShortValues n (delete k m)
unfolding delete
delete-HasShortValues n k [] h = tt
delete-HasShortValues n k ((j, w) ∷ m) h = ground (arith, delete-HasShortValues n k m h.1)

-- The entries of a store; nil has none.
abbrev pub entries_of : Option CorrelationContext → Map Bytes
entries_of none = []
entries_of (some c) = c.entries

-- How many goroutines are between `Len` and `Set`, and their values.
abbrev pub waiting : List (Option (Bytes × Bytes)) → ℕ
waiting [] = 0
waiting (none ∷ gs) = waiting gs
waiting (some call ∷ gs) = suc (waiting gs)

abbrev HaveShortValues : ℕ → List (Option (Bytes × Bytes)) → Type 0
HaveShortValues n [] = Unit {0}
HaveShortValues n (none ∷ gs) = HaveShortValues n gs
HaveShortValues n (some (k, v) ∷ gs) = (length v ≤ n) × HaveShortValues n gs

waiting-length : (gs : List (Option (Bytes × Bytes))) → waiting gs ≤ length gs
waiting-length [] = omega arith
waiting-length (none ∷ gs) = let h = waiting-length gs in omega arith
waiting-length (some call ∷ gs) = let h = waiting-length gs in omega arith

put_none :
    (n i : ℕ) (gs : List (Option (Bytes × Bytes))) (k v : Bytes)
    → get_or gs i none ≡ some (k, v)
    → HaveShortValues n gs
    → (waiting gs ≡ suc (waiting (put i none gs)))
      × HaveShortValues n (put i none gs)
      × (length v ≤ n)
unfolding put
put_none n i [] k v e h = ground (arith, e)
put_none n zero (none ∷ gs) k v e h = ground (arith, e)
put_none n zero (some call ∷ gs) k v e h = ground (arith, e, h)
put_none n (suc i) (none ∷ gs) k v e h = put_none n i gs k v e h
put_none n (suc i) (some call ∷ gs) k v e h =
    let (w, s, l) = put_none n i gs k v e h.1 in (omega (arith, w), (h.0, s), l)

put_some :
    (n i : ℕ) (gs : List (Option (Bytes × Bytes))) (k v : Bytes)
    → length v ≤ n
    → HaveShortValues n gs
    → HaveShortValues n (put i (some (k, v)) gs)
unfolding put
put_some n i [] k v l h = tt
put_some n zero (none ∷ gs) k v l h = (l, h)
put_some n zero (some call ∷ gs) k v l h = (l, h.1)
put_some n (suc i) (none ∷ gs) k v l h = put_some n i gs k v l h
put_some n (suc i) (some call ∷ gs) k v l h = (h.0, put_some n i gs k v l h.1)

-- `n` goroutines, of which some wait to set.
record IsWithin (config : CorrelationConfig) (n : ℕ) (w : Writers) : Type 0 where
  goroutines_of : length w.goroutines ≡ n
  counted : length (entries_of w.store) + waiting w.goroutines ≤ config.max_key_count + (n - 1)
  short : HasShortValues config.max_value_size (entries_of w.store)
  waiting_short : HaveShortValues config.max_value_size w.goroutines

set-length :
    (c : Option CorrelationContext) (k v : Bytes)
    → length (entries_of (set c k v)) ≤ suc (length (entries_of c))
unfolding set
set-length none k v = omega arith
set-length (some c) k v =
    ground (arith, length-insert-le k v c.entries, length-delete-le k c.entries)

set-HasShortValues :
    (n : ℕ) (c : Option CorrelationContext) (k v : Bytes)
    → length v ≤ n
    → HasShortValues n (entries_of c)
    → HasShortValues n (entries_of (set c k v))
unfolding set
set-HasShortValues n none k v l h = tt
set-HasShortValues n (some c) k v l h =
    ground (arith, insert-HasShortValues n k v c.entries l h, delete-HasShortValues n k c.entries h)

settable :
    (config : CorrelationConfig) (c : Option CorrelationContext) (v : Bytes)
    → is_settable config c v ≡ true
    → (length v ≤ config.max_value_size) × (length (entries_of c) < config.max_key_count)
unfolding is_settable len
settable config none v e = ground (arith, e)
settable config (some c) v e = ground (arith, e)

step-IsWithin :
    (config : CorrelationConfig) (n : ℕ) (e : WriterEvent) (w : Writers)
    → IsWithin config n w
    → IsWithin config n (writer_step config e w)
unfolding writer_step
step-IsWithin config n (tests i k v) w h =
    elim (Option-cases (get_or w.goroutines i (some (k, v)))) [
      | inr (call, o) ↦ rw (writer_step, o) h
      | inl o ↦ elim (Bool-cases (is_settable config w.store v)) [
        | inr s ↦ rw (writer_step, o, s) h
        | inl s ↦
            let (l, room) = settable config w.store v s in
            let len = length-put i (some (k, v)) w.goroutines in
            let most = waiting-length (put i (some (k, v)) w.goroutines) in
            let g = h.goroutines_of in
            rw (writer_step, o, s)
              (record {
                goroutines_of = omega (arith, len, g);
                counted = omega (arith, len, g, room, most);
                short = h.short;
                waiting_short = put_some config.max_value_size i w.goroutines k v l h.waiting_short;
              })
      ]
    ]
step-IsWithin config n (sets i) w h = elim (Option-cases (get_or w.goroutines i none)) [
  | inl o ↦ rw (writer_step, o) h
  | inr ((k, v), o) ↦
      let (less, s, l) = put_none config.max_value_size i w.goroutines k v o h.waiting_short in
      let len = length-put i none w.goroutines in
      let grown = set-length w.store k v in
      let g = h.goroutines_of in
      let c = h.counted in
      rw (writer_step, o)
        (record {
          goroutines_of = omega (arith, len, g);
          counted = omega (arith, c, less, grown);
          short = set-HasShortValues config.max_value_size w.store k v l h.short;
          waiting_short = s;
        })
]

run-IsWithin :
    (config : CorrelationConfig) (n : ℕ) (es : List WriterEvent) (w : Writers)
    → IsWithin config n w
    → IsWithin config n (run_writers config es w)
unfolding run_writers
run-IsWithin config n [] w h = h
run-IsWithin config n (e ∷ es) w h =
    run-IsWithin config n es (writer_step config e w) (step-IsWithin config n e w h)

abbrev pub idle : ℕ → List (Option (Bytes × Bytes))
idle zero = []
idle (suc n) = none ∷ idle n

idle_lem : (m n : ℕ) → (length (idle n) ≡ n) × (waiting (idle n) ≡ 0) × HaveShortValues m (idle n)
idle_lem m zero = ground arith
idle_lem m (suc n) = let (l, w, s) = idle_lem m n in (omega (arith, l), w, s)

-- `n` goroutines set values of one store through `SetCorrelationContextValue`, with their `Len` and their
-- `Set` in any order, and nothing else writes to it. A store that starts within the limits never holds more than `n - 1` keys above
-- `MaxKeyCount`, so none above it with one goroutine, and never a value longer than `MaxValueSize`.
pub run_writers_bound :
    (config : CorrelationConfig) (n : ℕ) (es : List WriterEvent) (c : CorrelationContext)
    → length c.entries ≤ config.max_key_count
    → HasShortValues config.max_value_size c.entries
    → let w = run_writers config es (record { store = some c; goroutines = idle n }) in
      (length (entries_of w.store) ≤ config.max_key_count + (n - 1))
      × HasShortValues config.max_value_size (entries_of w.store)
run_writers_bound config n es c l s =
    let (len, w, g) = idle_lem config.max_value_size n in
    let h =
      run-IsWithin config n es (record { store = some c; goroutines = idle n })
        (record {
          goroutines_of = len;
          counted = omega (arith, l, w);
          short = s;
          waiting_short = g;
        }) in
    let k = h.counted in (omega (arith, k), h.short)
