-- ===== src/Profile/Writer.antt =====
-- plugins/core/profile_writer.go: the writer that cuts the CPU profile into chunks.
pub mod Chunks
use skywalking_go.Base.{
  ℕ, zero, suc, ◌-◌, Bool, true, false, [], ◌∷◌, ◌++◌, List, Option, none, some, Bytes,
  if◌then◌else◌, length, leb, drop, take,
}

pub record RawData : Type 0 where
  pub data_bytes : Bytes
  pub is_last : Bool

-- `report_ch` are the chunks that were sent, the latest one at the end.
pub record Writer : Type 0 where
  pub buf : Bytes
  pub chunk_size : ℕ
  pub report_ch : List RawData

pub new_profiling_writer : ℕ → Writer
new_profiling_writer n = record { buf = []; chunk_size = n; report_ch = [] }

send_chunk : Writer → Writer
send_chunk w = record w {
  buf = drop w.chunk_size w.buf;
  report_ch =
      w.report_ch ++ (record { data_bytes = take w.chunk_size w.buf; is_last = false } ∷ []);
}

-- The loop of `Write`, `none` when the fuel is out.
pub send_chunks : ℕ → Writer → Option Writer
unfolding send_chunk
send_chunks zero w = if leb w.chunk_size (length w.buf) then none else some w
send_chunks (suc n) w =
    let rest = send_chunks n (send_chunk w) in
    if leb w.chunk_size (length w.buf) then rest else some w

pub write : Bytes → Writer → Option Writer
unfolding send_chunks
write p w = send_chunks (length (w.buf ++ p)) (record w { buf = w.buf ++ p })

pub flush : Writer → Writer
flush w = record w {
  buf = [];
  report_ch = w.report_ch ++ (record { data_bytes = w.buf; is_last = true } ∷ []);
}

-- The calls of `Write` for one profile.
pub write_all : List Bytes → Writer → Option Writer
unfolding write
write_all [] w = some w
write_all (p ∷ ps) w = elim (write p w) [ none ↦ none | some w' ↦ write_all ps w' ]
