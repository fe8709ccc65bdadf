-- ===== src/Reporter/Pprof/Upload/Content.antt =====
-- What an upload sends of a profile.
use skywalking_go.Base.{
  ℕ, zero, suc, ◌+◌, ◌-◌, ◌≤◌, ◌<◌, ◌≡◌, ◌≢◌, ◌⊎◌, refl, sym, subst, ap, ◌∙◌, Bool, true, false, [],
  ◌∷◌, ◌++◌, List, Option, none, some, Bytes, if◌then◌else◌, length, ltb, drop, arith, All,
  concat_map, take-drop, take-all, drop-all, drop-drop, length-take, length-drop, append_nil,
  append_assoc, Bool-cases, inl, inr,
}
use skywalking_go.Reporter.Pprof.Upload.{
  ChunkOutcome, sent, send_fails, sent_late, Status, ready, oversize, task_error, max_chunk_size,
  chunk_at, Received, response, eof, recv_error, drain, close_pprof_stream, closed, send_content,
  upload_pprof_data_once,
}

-- The chunks are the content from the front; all of it when there was no error.
pub record IsFront (content : Bytes) (result : Option (List Bytes × Bool)) : Type 0 where
  pub chunks : List Bytes
  pub ok : Bool
  pub left : Bytes
  pub returns : result ≡ some (chunks, ok)
  pub front : concat_map (λ c. c) chunks ++ left ≡ content
  pub all : ok ≡ true → left ≡ []
  pub sizes : All (λ c. (1 ≤ length c) × (length c ≤ max_chunk_size)) chunks

chunk_split :
    (offset : ℕ) (content : Bytes)
    → chunk_at offset content ++ drop (offset + max_chunk_size) content ≡ drop offset content
chunk_split offset content =
    let l = length-drop offset content in
    elim (Bool-cases (ltb (length content) (offset + max_chunk_size))) [
      | inl e ↦
          rw
            (
              e,
              drop-all (offset + max_chunk_size) content (ground (arith, e)),
              take-all (length content - offset) (drop offset content) (omega (arith, l)),
            )
            (append_nil (drop offset content))
      | inr e ↦
          let n : offset + max_chunk_size - offset ≡ max_chunk_size = omega arith in
          rw (e, n, ← drop-drop offset max_chunk_size content)
            (take-drop max_chunk_size (drop offset content))
    ]

chunk_size :
    (offset : ℕ) (content : Bytes)
    → ltb offset (length content) ≡ true
    → (1 ≤ length (chunk_at offset content)) × (length (chunk_at offset content) ≤ max_chunk_size)
chunk_size offset content h =
    let l = length-drop offset content in
    let k =
      length-take
        ((if ltb (length content) (offset + max_chunk_size)
            then length content
            else offset + max_chunk_size)
          - offset)
        (drop offset content) (ground (arith, l, h)) in
    ground (arith, k, h)

ChunkOutcome-cases : (o : ChunkOutcome) → (o ≡ send_fails) ⊎ ((o ≡ sent_late) ⊎ (o ≡ sent))
ChunkOutcome-cases sent = inr (inr refl)
ChunkOutcome-cases send_fails = inl refl
ChunkOutcome-cases sent_late = inr (inl refl)

Received-cases : (r : Received) → (r ≡ response) ⊎ ((r ≡ eof) ⊎ (r ≡ recv_error))
Received-cases response = inl refl
Received-cases eof = inr (inl refl)
Received-cases recv_error = inr (inr refl)

refused : (content : Bytes) → IsFront content (some ([], false))
refused content = record {
  chunks = [];
  ok = false;
  left = content;
  returns = refl;
  front = refl;
  all = λ z. ground (arith, z);
  sizes = tt;
}

send-IsFront :
    (fuel : ℕ) (outcome : ℕ → ChunkOutcome) (n offset : ℕ) (content : Bytes)
    → length content ≤ offset + fuel
    → IsFront (drop offset content) (send_content fuel outcome n offset content)
unfolding send_content
send-IsFront zero outcome n offset content l = record {
  chunks = [];
  ok = true;
  left = drop offset content;
  returns = ground (arith, l);
  front = refl;
  all = λ _. drop-all offset content (omega (arith, l));
  sizes = tt;
}
send-IsFront (suc fuel) outcome n offset content l =
    elim (Bool-cases (ltb offset (length content))) [
      | inr e ↦ record {
        chunks = [];
        ok = true;
        left = drop offset content;
        returns = ground (arith, e);
        front = refl;
        all = λ _. drop-all offset content (ground (arith, e));
        sizes = tt;
      }
      | inl e ↦ elim (ChunkOutcome-cases (outcome n)) [
        | inl o ↦ record {
          chunks = [];
          ok = false;
          left = drop offset content;
          returns = ground (arith, e, o);
          front = refl;
          all = λ z. ground (arith, z);
          sizes = tt;
        }
        | inr (inl o) ↦ record {
          chunks = chunk_at offset content ∷ [];
          ok = false;
          left = drop (offset + max_chunk_size) content;
          returns = ground (arith, e, o);
          front =
              ap (λ c. c ++ drop (offset + max_chunk_size) content)
                (append_nil (chunk_at offset content))
              ∙ chunk_split offset content;
          all = λ z. ground (arith, z);
          sizes = (chunk_size offset content e, tt);
        }
        | inr (inr o) ↦
            let h =
              send-IsFront fuel outcome (n + 1) (offset + max_chunk_size) content
                (omega (arith, l)) in
            let r = h.returns in
            record {
              chunks = chunk_at offset content ∷ h.chunks;
              ok = h.ok;
              left = h.left;
              returns = ground (arith, e, o, r);
              front =
                  append_assoc (chunk_at offset content) (concat_map (λ c. c) h.chunks) h.left
                  ∙ ap (λ x. chunk_at offset content ++ x) h.front
                  ∙ chunk_split offset content;
              all = h.all;
              sizes = (chunk_size offset content e, h.sizes);
            }
      ]
    ]

-- The stream gives no further response.
abbrev pub IsEnd : Received → Type 0
IsEnd response = ⊥
IsEnd eof = Unit
IsEnd recv_error = Unit

drain_ends :
    (fuel n i : ℕ) (recv : ℕ → Received)
    → IsEnd (recv n)
    → i ≤ n
    → n < i + fuel
    → (k : ℕ) × (drain fuel recv i ≡ some k)
unfolding drain
drain_ends zero n i recv e l m = absurd (omega (arith, l, m))
drain_ends (suc fuel) n i recv e l m = elim (Received-cases (recv i)) [
  | inr (inl o) ↦ (i, ground (arith, o))
  | inr (inr o) ↦ (i, ground (arith, o))
  | inl o ↦
      let ne : i ≢ n = λ (q : i ≡ n). subst IsEnd o (subst (λ j. IsEnd (recv j)) (sym q) e) in
      let (k, r) = drain_ends fuel n (i + 1) recv e (omega (arith, l, ne)) (omega (arith, m)) in
      (k, ground (arith, o, r))
]

closed_lem :
    (fuel n : ℕ) (closes : Bool) (recv : ℕ → Received) (result : List Bytes × Bool)
    → IsEnd (recv n)
    → n < fuel
    → closed fuel closes recv result ≡ some result
unfolding closed close_pprof_stream
closed_lem fuel n closes recv result e l =
    let (k, r) = drain_ends fuel n 0 recv e (omega arith) (omega (arith, l)) in ground (arith, r)

closed-IsFront :
    (fuel n : ℕ) (closes : Bool) (recv : ℕ → Received) (content : Bytes)
    → IsEnd (recv n)
    → n < fuel
    → IsFront content (closed fuel closes recv ([], false))
closed-IsFront fuel n closes recv content e l =
    subst (IsFront content) (sym (closed_lem fuel n closes recv ([], false) e l)) (refused content)

sent-IsFront :
    (fuel n : ℕ) (outcome : ℕ → ChunkOutcome) (closes : Bool) (recv : ℕ → Received)
    (content : Bytes)
    → IsEnd (recv n)
    → n < fuel
    → IsFront content (upload_pprof_data_once fuel true (some ready) outcome closes recv content)
unfolding upload_pprof_data_once
sent-IsFront fuel n outcome closes recv content e l =
    let h = send-IsFront (length content) outcome 0 0 content (omega arith) in
    let r = h.returns in
    let c = closed_lem fuel n closes recv (h.chunks, true) e l in
    record {
      chunks = h.chunks;
      ok = h.ok;
      left = h.left;
      returns = elim (Bool-cases h.ok) [
        | inl o ↦ ground (arith, r, c, o)
        | inr o ↦ ground (arith, r, o)
      ];
      front = h.front;
      all = h.all;
      sizes = h.sizes;
    }

-- The upload of every profile ends, when the stream, once the agent closes it, at some point gives `EOF` or
-- an error, as it does at the latest when the time of its context is over. The chunks that were sent are the
-- profile from the front, each of at least one byte and at most `maxChunkSize`, and when the upload gives no
-- error they are all of it.
pub upload-IsFront :
    (fuel n : ℕ) (collects : Bool) (answer : Option Status) (outcome : ℕ → ChunkOutcome)
    (closes : Bool) (recv : ℕ → Received) (content : Bytes)
    → IsEnd (recv n)
    → n < fuel
    → IsFront content (upload_pprof_data_once fuel collects answer outcome closes recv content)
unfolding upload_pprof_data_once
upload-IsFront fuel n true (some ready) outcome closes recv content e l =
    sent-IsFront fuel n outcome closes recv content e l
upload-IsFront fuel n true none outcome closes recv content e l = refused content
upload-IsFront fuel n true (some oversize) outcome closes recv content e l =
    closed-IsFront fuel n closes recv content e l
upload-IsFront fuel n true (some task_error) outcome closes recv content e l =
    closed-IsFront fuel n closes recv content e l
upload-IsFront fuel n false answer outcome closes recv content e l = refused content
