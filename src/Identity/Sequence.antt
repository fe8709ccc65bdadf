-- ===== src/Identity/Sequence.antt =====
-- One call of `nextID`: what the identifier holds, and when it grows.
use skywalking_go.Base.{ℕ, ◌+◌, ◌/◌, ◌%◌, ◌^◌, ◌-◌, ◌≤◌, ◌<◌, ◌≡◌, ◌≢◌, ◌⊎◌, arith}
use skywalking_go.Identity.{IdContext, next_id}

-- Below this number a time can be multiplied by 10000 and stay within int64.
abbrev pub time_limit : ℕ
time_limit = 2 ^ 63 / 10000 - 2

-- The sequence number of a context is what its last call used, or 0.
pub record IsValid (c : IdContext) : Type 0 where
  pub bounded : c.seq ≤ 10000
  pub recent : c.last_time < time_limit

pub next_id-IsValid :
    (c : IdContext) (now : ℕ)
    → IsValid c
    → now < time_limit
    → c.shift < time_limit
    → IsValid (next_id c now).1 × ((next_id c now).1.shift ≤ c.shift + 1)
unfolding next_id
next_id-IsValid c now v h w = ground arith

-- The identifier ends in the sequence number, which is never 0 and goes round after 10000.
pub next_id_residue :
    (c : IdContext) (now : ℕ)
    → IsValid c
    → now < time_limit
    → c.shift < time_limit
    → ((next_id c now).0 % 10000 ≡ (c.seq + 1) % 10000)
      × ((next_id c now).1.seq % 10000 ≡ (c.seq + 1) % 10000)
      × ((next_id c now).0 < 2 ^ 63)
unfolding next_id
next_id_residue c now v h w = ground arith

-- The identifier determines the clock reading and the sequence number, while the clock does not go
-- back: both are read off it.
pub next_id_decode :
    (c : IdContext) (now : ℕ)
    → IsValid c
    → now < time_limit
    → c.last_time ≤ now
    → (((next_id c now).0 - 1) / 10000 ≡ now)
      × (((next_id c now).0 - 1) % 10000 + 1 ≡ (next_id c now).1.seq)
unfolding next_id
next_id_decode c now v h w = ground arith

-- While the clock does not go back, a later identifier is greater, if the time has moved or the
-- sequence has not gone round.
pub next_id_increases :
    (c : IdContext) (now later : ℕ)
    → IsValid c
    → c.last_time ≤ now
    → now ≤ later
    → later < time_limit
    → (now < later) ⊎ (c.seq ≢ 9999)
    → (next_id c now).0 < (next_id (next_id c now).1 later).0
unfolding next_id
next_id_increases c now later v h k l m = ground arith
