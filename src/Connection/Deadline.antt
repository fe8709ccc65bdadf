-- ===== src/Connection/Deadline.antt =====
-- plugins/core/reporter/conn_manager.go: the deadline of a new connection, which is cleared when the
-- first HTTP/2 frame was read.
pub mod Cleared
use skywalking_go.Base.{
  ℕ, zero, suc, ◌+◌, ◌*◌, Bool, true, false, [], ◌∷◌, ◌++◌, List, Bytes, if◌then◌else◌, length, ltb,
  leb, get_or,
}

-- `calls` counts the calls of `SetDeadline` with the zero time.
pub record ClearDeadlineConn : Type 0 where
  pub hdr : Bytes
  pub count_read : ℕ
  pub cleared : Bool
  pub calls : ℕ

pub new_clear_deadline_conn : ClearDeadlineConn
new_clear_deadline_conn = record {
  hdr = 0 ∷ 0 ∷ 0 ∷ 0 ∷ 0 ∷ 0 ∷ 0 ∷ 0 ∷ 0 ∷ [];
  count_read = 0;
  cleared = false;
  calls = 0;
}

-- `copy(dst[i:], src)`.
abbrev pub copy_at : ℕ → Bytes → Bytes → Bytes
copy_at i src [] = []
copy_at zero [] (d ∷ dst) = d ∷ dst
copy_at zero (b ∷ src) (d ∷ dst) = b ∷ copy_at zero src dst
copy_at (suc i) src (d ∷ dst) = d ∷ copy_at i src dst

-- The bytes are below 256, so the bits of the three do not meet and `|` adds.
abbrev pub frame_len : Bytes → ℕ
frame_len hdr = get_or hdr 0 0 * 65536 + get_or hdr 1 0 * 256 + get_or hdr 2 0

-- The test at the end of `Read`.
pub check_frame : ClearDeadlineConn → ClearDeadlineConn
check_frame c =
    if leb 9 c.count_read
    then (if leb (9 + frame_len c.hdr) c.count_read
        then record c { cleared = true; calls = c.calls + 1 }
        else c)
    else c

-- `Read`, when the connection below gives the bytes `b`; it may give none.
pub read : Bytes → ClearDeadlineConn → ClearDeadlineConn
unfolding check_frame
read b c =
    if ltb 0 (length b)
    then (if c.cleared
        then c
        else check_frame (record c {
          hdr = if ltb c.count_read 9 then copy_at c.count_read b c.hdr else c.hdr;
          count_read = c.count_read + length b;
        }))
    else c

pub read_all : List Bytes → ClearDeadlineConn → ClearDeadlineConn
unfolding read
read_all [] c = c
read_all (b ∷ bs) c = read_all bs (read b c)
