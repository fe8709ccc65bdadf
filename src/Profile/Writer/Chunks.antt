-- ===== src/Profile/Writer/Chunks.antt =====
-- What the writer sends.
use skywalking_go.Base.{
  ℕ, zero, suc, ◌≤◌, ◌<◌, ◌≡◌, refl, ap, subst, sym, ◌∙◌, true, false, [], ◌∷◌, ◌++◌, List, some,
  Bytes, length, leb, drop, take, arith, All, All-append, concat_map, take-drop, length-take,
  length-drop, append_assoc, append_nil, Bool-cases, inl, inr,
}
use skywalking_go.Profile.Writer.{
  RawData, Writer, new_profiling_writer, send_chunk, send_chunks, write, write_all, flush,
}

-- The bytes of the chunks, in order.
abbrev pub sent_bytes : List RawData → Bytes
sent_bytes ds = concat_map (λ d. d.data_bytes) ds

abbrev pub IsFull : ℕ → RawData → Type 0
IsFull n d = (length d.data_bytes ≡ n) × (d.is_last ≡ false)

sent_bytes-append : (ds es : List RawData) → sent_bytes (ds ++ es) ≡ sent_bytes ds ++ sent_bytes es
sent_bytes-append [] es = refl
sent_bytes-append (d ∷ ds) es =
    ap (λ x. d.data_bytes ++ x) (sent_bytes-append ds es)
    ∙ sym (append_assoc d.data_bytes (sent_bytes ds) (sent_bytes es))

sent_bytes-last :
    (ds : List RawData) (d : RawData) (rest : Bytes)
    → sent_bytes (ds ++ (d ∷ [])) ++ rest ≡ sent_bytes ds ++ (d.data_bytes ++ rest)
sent_bytes-last ds d rest =
    ap (λ x. x ++ rest) (sent_bytes-append ds (d ∷ []))
    ∙ append_assoc (sent_bytes ds) (d.data_bytes ++ []) rest
    ∙ ap (λ x. sent_bytes ds ++ (x ++ rest)) (append_nil d.data_bytes)

-- After the bytes `all` were written: what was sent and what waits are these bytes.
pub record Holds (n : ℕ) (all : Bytes) (w : Writer) : Type 0 where
  pub size : w.chunk_size ≡ n
  pub kept : sent_bytes w.report_ch ++ w.buf ≡ all
  pub full : All (IsFull n) w.report_ch

send-Holds :
    (n : ℕ) (all : Bytes) (w : Writer)
    → n ≤ length w.buf
    → Holds n all w
    → Holds n all (send_chunk w)
unfolding send_chunk
send-Holds n all w l h =
    let sz = h.size in
    record {
      size = h.size;
      kept =
          sent_bytes-last w.report_ch
            (record { data_bytes = take w.chunk_size w.buf; is_last = false })
            (drop w.chunk_size w.buf)
          ∙ ap (λ x. sent_bytes w.report_ch ++ x) (take-drop w.chunk_size w.buf)
          ∙ h.kept;
      full =
          All-append (IsFull n) w.report_ch _ h.full
            ((length-take w.chunk_size w.buf (omega (arith, sz, l)) ∙ sz, refl), tt);
    }

-- With a chunk size of more than 0 and enough fuel, the loop ends with less than a chunk.
chunks-Holds :
    (fuel n : ℕ) (all : Bytes) (w : Writer)
    → length w.buf ≤ fuel
    → 0 < n
    → Holds n all w
    → (w' : Writer) × (send_chunks fuel w ≡ some w') × Holds n all w' × (length w'.buf < n)
unfolding send_chunks send_chunk
chunks-Holds zero n all w f p h =
    let sz = h.size in (w, ground (arith, sz, f, p), h, omega (arith, f, p))
chunks-Holds (suc fuel) n all w f p h = elim (Bool-cases (leb w.chunk_size (length w.buf))) [
  | inr e ↦ let sz = h.size in (w, ground (arith, e), h, ground (arith, e, sz))
  | inl e ↦
      let sz = h.size in
      let (w', q, h', l) =
        chunks-Holds fuel n all (send_chunk w)
          (omega (arith, length-drop w.chunk_size w.buf, sz, f, p)) p
          (send-Holds n all w (ground (arith, e, sz)) h) in
      (w', ground (arith, e, q), h', l)
]

write-Holds :
    (n : ℕ) (all p : Bytes) (w : Writer)
    → 0 < n
    → Holds n all w
    → (w' : Writer) × (write p w ≡ some w') × Holds n (all ++ p) w' × (length w'.buf < n)
unfolding write
write-Holds n all p w pos h =
    chunks-Holds (length (w.buf ++ p)) n (all ++ p) (record w { buf = w.buf ++ p }) (omega arith)
      pos
      (record {
        size = h.size;
        kept = sym (append_assoc (sent_bytes w.report_ch) w.buf p) ∙ ap (λ x. x ++ p) h.kept;
        full = h.full;
      })

write_all-Holds :
    (n : ℕ) (all : Bytes) (ps : List Bytes) (w : Writer)
    → 0 < n
    → Holds n all w
    → length w.buf < n
    → (w' : Writer) × (write_all ps w ≡ some w')
      × Holds n (all ++ concat_map (λ p. p) ps) w'
      × (length w'.buf < n)
unfolding write_all
write_all-Holds n all [] w pos h l = (w, refl, subst (λ x. Holds n x w) (sym (append_nil all)) h, l)
write_all-Holds n all (p ∷ ps) w pos h l =
    let (w1, e1, h1, l1) = write-Holds n all p w pos h in
    let (w2, e2, h2, l2) = write_all-Holds n (all ++ p) ps w1 pos h1 l1 in
    (w2, ground (arith, e1, e2), subst (λ x. Holds n x w2) (append_assoc all p _) h2, l2)

-- The chunks carry the bytes `all`: first full ones, then one that is the last and not full.
pub record Carries (n : ℕ) (all : Bytes) (ds : List RawData) : Type 0 where
  pub full : List RawData
  pub end : RawData
  pub split : ds ≡ full ++ (end ∷ [])
  pub are_full : All (IsFull n) full
  pub end_last : (end.is_last ≡ true) × (length end.data_bytes < n)
  pub bytes : sent_bytes ds ≡ all

-- With a chunk size of more than 0, every call of `Write` ends, however the profile is cut into calls,
-- and with the final `Flush` the chunks carry exactly the bytes that were written, in order: each chunk
-- but the last has the chunk size, and only the last one is flagged as the last and is smaller.
pub written-Carries :
    (n : ℕ) (ps : List Bytes)
    → 0 < n
    → (w : Writer) × (write_all ps (new_profiling_writer n) ≡ some w)
      × Carries n (concat_map (λ p. p) ps) (flush w).report_ch
unfolding new_profiling_writer flush
written-Carries n ps pos =
    let (w, e, h, l) =
      write_all-Holds n [] ps (new_profiling_writer n) pos
        (record { size = refl; kept = refl; full = tt }) pos in
    (
      w,
      e,
      record {
        full = w.report_ch;
        end = record { data_bytes = w.buf; is_last = true };
        split = refl;
        are_full = h.full;
        end_last = (refl, l);
        bytes =
            sent_bytes-append w.report_ch (record { data_bytes = w.buf; is_last = true } ∷ [])
            ∙ ap (λ x. sent_bytes w.report_ch ++ x) (append_nil w.buf)
            ∙ h.kept;
      },
    )
