-- ===== src/Identity.antt =====
-- plugins/core/id.go: the identifiers of traces and segments. A reading of the clock is the number
-- of milliseconds since 1900, which is not negative; int64 values below 2 ^ 63 are numbers, and sums
-- wrap at 2 ^ 64.
pub mod Sequence
pub mod Unique
pub mod Examples
use skywalking_go.Base.{
  ℕ, suc, ◌+◌, ◌*◌, ◌%◌, ◌^◌, Bool, true, false, [], ◌∷◌, List, ℤ, pos, negsuc, Bytes, ltb, ◌==◌,
  if◌then◌else◌,
}
use skywalking_go.Text.Parts.{join}
use skywalking_go.Text.Number.{itoa}

pub record IdContext : Type 0 where
  pub goid : ℤ
  pub last_time : ℕ
  pub seq : ℕ
  pub shift : ℕ
  pub shit_time : ℕ

abbrev pub int64 : ℕ → ℕ
int64 n = n % 2 ^ 64

-- `NewIDContext`; `go_id` is what `GetGoID()` would return.
pub new_id_context : Bool → ℤ → IdContext
new_id_context get_go_id_now go_id = record {
  goid = if get_go_id_now then go_id else pos 0;
  last_time = 0;
  seq = 0;
  shift = 0;
  shit_time = 0;
}

-- A clock that went back gives the number of times that it did, instead of a time.
unfoldable pub timestamp : IdContext → ℕ → ℕ × IdContext
timestamp c now =
    if ltb now c.last_time
    then (if c.shit_time == now
        then (c.shift, c)
        else (int64 (c.shift + 1), record c { shift = int64 (c.shift + 1); shit_time = now }))
    else (now, record c { last_time = now })

unfoldable pub next_seq : IdContext → ℕ × IdContext
next_seq c = let seq' = (if c.seq == 10000 then 0 else c.seq) + 1 in (seq', record c { seq = seq' })

unfoldable pub next_id : IdContext → ℕ → ℕ × IdContext
unfolding timestamp next_seq
next_id c now =
    let (time, c') = timestamp c now in
    let (seq', c'') = next_seq c' in (int64 (time * 10000 + seq'), c'')

is_zero : ℤ → Bool
is_zero (pos n) = n == 0
is_zero (negsuc n) = false

-- What one call reads from outside: the clock, and `GetGoID()`.
pub record Reading : Type 0 where
  pub now : ℕ
  pub go_id : ℤ

-- `fmt.Sprintf("%s.%d.%d", …)`. The number is below 2 ^ 63 as long as nothing wraps.
pub generate_global_id : Bytes → IdContext → Reading → Bytes × IdContext
unfolding is_zero
generate_global_id instance_id c r =
    let goid = (if is_zero c.goid then r.go_id else c.goid) in
    let (id, c') = next_id (record c { goid = goid }) r.now in
    (join b'.' (instance_id ∷ itoa goid ∷ itoa (pos id) ∷ []), c')

-- The numbers, and the texts, of a run of calls on one context.
pub next_ids : IdContext → List ℕ → List ℕ
next_ids c [] = []
next_ids c (now ∷ nows) = let (id, c') = next_id c now in id ∷ next_ids c' nows

pub global_ids : Bytes → IdContext → List Reading → List Bytes
global_ids instance_id c [] = []
global_ids instance_id c (r ∷ rs) =
    let (text, c') = generate_global_id instance_id c r in text ∷ global_ids instance_id c' rs
