-- ===== src/Reporter/Pprof/Upload.antt =====
-- plugins/core/reporter/pprof_manager.go: the upload of one profile.
pub mod Content
use skywalking_go.Base.{
  ℕ, zero, suc, ◌+◌, ◌-◌, Bool, true, false, [], ◌∷◌, List, Option, none, some, Bytes,
  if◌then◌else◌, length, ltb, take, drop,
}

-- What becomes of one chunk: it is sent, or the stream gives an error, or it is sent and the time of the
-- upload is over.
pub data ChunkOutcome : Type 0 where
  sent send_fails sent_late : ChunkOutcome

-- The status in the answer to the metadata, as far as the code tells them apart.
pub data Status : Type 0 where
  ready oversize task_error : Status

abbrev pub max_chunk_size : ℕ
max_chunk_size = 1048576

-- The bytes from `offset` to `end` of the code.
abbrev pub chunk_at : ℕ → Bytes → Bytes
chunk_at offset content =
    take
      ((if ltb (length content) (offset + max_chunk_size)
          then length content
          else offset + max_chunk_size)
        - offset)
      (drop offset content)

-- The loop over the chunks: the chunks that were sent, and whether there was no error. It is out of fuel
-- only with none.
pub send_content : ℕ → (ℕ → ChunkOutcome) → ℕ → ℕ → Bytes → Option (List Bytes × Bool)
send_content zero outcome chunk_count offset content =
    if ltb offset (length content) then none else some ([], true)
send_content (suc fuel) outcome chunk_count offset content =
    let rest = send_content fuel outcome (chunk_count + 1) (offset + max_chunk_size) content in
    if ltb offset (length content)
    then elim (outcome chunk_count) [
      | send_fails ↦ some ([], false)
      | sent_late ↦ some (chunk_at offset content ∷ [], false)
      | sent ↦ elim rest [
        | none ↦ none
        | some (chunks, ok) ↦ some (chunk_at offset content ∷ chunks, ok)
      ]
    ]
    else some ([], true)

-- What a `Recv` at the end of the stream gives.
pub data Received : Type 0 where
  response eof recv_error : Received

-- The loop of `closePprofStream` from the `Recv` of a number: how many responses it read. It is none only
-- when the fuel is out, while the stream still gives responses.
pub drain : ℕ → (ℕ → Received) → ℕ → Option ℕ
drain zero recv i = none
drain (suc fuel) recv i =
    let rest = drain fuel recv (i + 1) in
    elim (recv i) [ response ↦ rest | eof ↦ some i | recv_error ↦ some i ]

-- `closePprofStream`; `closes` says that `CloseSend` gives no error.
pub close_pprof_stream : ℕ → Bool → (ℕ → Received) → Option ℕ
unfolding drain
close_pprof_stream fuel closes recv = if closes then drain fuel recv 0 else some 0

-- The result of the upload, once the stream is closed.
pub closed : ℕ → Bool → (ℕ → Received) → List Bytes × Bool → Option (List Bytes × Bool)
unfolding close_pprof_stream
closed fuel closes recv result = elim (close_pprof_stream fuel closes recv) [
  | none ↦ none
  | some n ↦ some result
]

-- `uploadPprofDataOnce`. `collects` says that the stream is opened and takes the metadata, and `answer`
-- is what the first `Recv` gives, none for an error. The fuel is for the loop that closes the stream, which
-- is not closed after an error.
pub upload_pprof_data_once :
    ℕ
    → Bool
    → Option Status
    → (ℕ → ChunkOutcome)
    → Bool
    → (ℕ → Received)
    → Bytes
    → Option (List Bytes × Bool)
unfolding send_content closed
upload_pprof_data_once fuel collects answer outcome closes recv content =
    if collects
    then elim answer [
      | none ↦ some ([], false)
      | some oversize ↦ closed fuel closes recv ([], false)
      | some task_error ↦ closed fuel closes recv ([], false)
      | some ready ↦ elim (send_content (length content) outcome 0 0 content) [
        | none ↦ none
        | some (chunks, ok) ↦
            if ok then closed fuel closes recv (chunks, true) else some (chunks, false)
      ]
    ]
    else some ([], false)
