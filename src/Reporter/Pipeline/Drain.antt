-- ===== src/Reporter/Pipeline/Drain.antt =====
-- What becomes of the messages of a send pipeline.
use skywalking_go.Base.{
  ℕ, zero, suc, ◌+◌, ◌≤◌, ◌≡◌, ◌⊎◌, refl, ap, sym, subst, ◌∙◌, Bool, true, false, [], ◌∷◌, ◌++◌,
  List, length, ltb, length-append, append_assoc, append_nil, arith, Bool-cases, List-cases, inl,
  inr, map, Sublist, Sublist-skip_mid, Sublist-refl,
}
use skywalking_go.Connection.{ConnectionStatus, connected, disconnect, shutdown}
use skywalking_go.Reporter.Pipeline.{
  Pipeline, Loop, opening, streaming, exited, Outcome, delivered, panics, is_nil, object,
  max_send_queue_size, new_pipeline, offer, send, close, open_stream, transmit, Event, sends,
  closes, rounds, round, step, run,
}

module _ {M : Type 0} where
  -- The messages of the callers, in order.
  abbrev pub offered : List (Event M) → List M
  offered [] = []
  offered (sends (object s) ∷ es) = s ∷ offered es
  offered (e ∷ es) = offered es

  -- The messages that the channel took, in order.
  abbrev pub taken : Pipeline M → List M
  taken p = map (λ t. t.0) p.tried ++ p.send_ch

  map-append :
      (ts : List (M × Outcome)) (s : M) (o : Outcome) (rest : List M)
      → map (λ t. t.0) (ts ++ ((s, o) ∷ [])) ++ rest ≡ map (λ t. t.0) ts ++ (s ∷ rest)
  map-append [] s o rest = refl
  map-append (t ∷ ts) s o rest = ap (λ xs. t.0 ∷ xs) (map-append ts s o rest)

  transmit_taken :
      (releases : Bool) (o : Outcome) (p : Pipeline M) → taken (transmit releases o p) ≡ taken p
  unfolding transmit
  transmit_taken releases o p = elim (List-cases p.send_ch) [
    | inl e ↦ ground (arith, e)
    | inr (s, rest, e) ↦ let m = map-append p.tried s o rest in ground (arith, e, m)
  ]

  open_stream_taken :
      (status : ConnectionStatus) (opened : Bool) (p : Pipeline M)
      → taken (open_stream status opened p) ≡ taken p
  unfolding open_stream
  open_stream_taken shutdown opened p = refl
  open_stream_taken disconnect opened p = refl
  open_stream_taken connected true p = refl
  open_stream_taken connected false p = refl

  round_taken :
      (releases : Bool) (status : ConnectionStatus) (opened : Bool) (o : Outcome) (l : Loop)
      (p : Pipeline M)
      → p.loop ≡ l
      → taken (round releases status opened o p) ≡ taken p
  unfolding round
  round_taken releases status opened o opening p e =
      rw (round, e) (open_stream_taken status opened p)
  round_taken releases status opened o streaming p e = rw (round, e) (transmit_taken releases o p)
  round_taken releases status opened o exited p e = rw (round, e) refl

  offer_taken :
      (s : M) (p : Pipeline M)
      → (taken (offer s p) ≡ taken p) ⊎ (taken (offer s p) ≡ taken p ++ (s ∷ []))
  unfolding offer
  offer_taken s p =
      let a = append_assoc (map (λ t. t.0) p.tried) p.send_ch (s ∷ []) in
      elim (Bool-cases p.is_closed) [
        | inl c ↦ inl (ground (arith, c))
        | inr c ↦ elim (Bool-cases (ltb (length p.send_ch) max_send_queue_size)) [
          | inl l ↦ inr (ground (arith, c, l, a))
          | inr l ↦ inl (ground (arith, c, l))
        ]
      ]

  run_from_in_order :
      (releases : Bool) (es : List (Event M)) (p : Pipeline M)
      → Sublist (taken (run releases es p)) (taken p ++ offered es)
  unfolding run step send close
  run_from_in_order releases [] p = rw (append_nil (taken p)) (Sublist-refl (taken p))
  run_from_in_order releases (sends panics ∷ es) p = run_from_in_order releases es p
  run_from_in_order releases (sends is_nil ∷ es) p = run_from_in_order releases es p
  run_from_in_order releases (sends (object s) ∷ es) p =
      let h = run_from_in_order releases es (offer s p) in
      elim (offer_taken s p) [
        | inl e ↦
            Sublist-skip_mid (taken p) s (offered es) _
              (subst (λ t. Sublist (taken (run releases es (offer s p))) (t ++ offered es)) e h)
        | inr e ↦
            subst (Sublist (taken (run releases es (offer s p))))
              (append_assoc (taken p) (s ∷ []) (offered es))
              (subst (λ t. Sublist (taken (run releases es (offer s p))) (t ++ offered es)) e h)
      ]
  run_from_in_order releases (closes ∷ es) p = run_from_in_order releases es (close p)
  run_from_in_order releases (rounds status opened o ∷ es) p =
      let p' = round releases status opened o p in
      subst (λ t. Sublist (taken (run releases es p')) (t ++ offered es))
        (round_taken releases status opened o p.loop p refl) (run_from_in_order releases es p')

  -- What `pipelineSend` was called with, followed by what waits, are messages that the callers gave, in
  -- the order they gave them, each at most once: a failed message is not tried again on a new stream.
  pub run_in_order :
      (releases : Bool) (es : List (Event M))
      → Sublist (taken (run releases es new_pipeline)) (offered es)
  unfolding new_pipeline
  run_in_order releases es = run_from_in_order releases es new_pipeline

  -- `closeGRPCConn` was called once and nothing waits, or it was not called.
  pub record IsTidy (p : Pipeline M) : Type 0 where
    pub fits : length p.send_ch ≤ max_send_queue_size
    pub release :
        (p.released ≡ 0)
        ⊎ ((p.released ≡ 1) × (p.loop ≡ exited) × (p.is_closed ≡ true) × (p.send_ch ≡ []))

  step-IsTidy :
      (releases : Bool) (e : Event M) (p : Pipeline M) → IsTidy p → IsTidy (step releases e p)
  unfolding step send close offer round open_stream transmit
  step-IsTidy releases (sends panics) p h = h
  step-IsTidy releases (sends is_nil) p h = h
  step-IsTidy releases (sends (object s)) p h =
      let f = h.fits in
      let r = h.release in
      let l = length-append p.send_ch (s ∷ []) in
      record { fits = ground (arith, f, l); release = ground (arith, r) }
  step-IsTidy releases closes p h =
      let r = h.release in record { fits = h.fits; release = ground (arith, r) }
  step-IsTidy releases (rounds status opened o) p h =
      let f = h.fits in
      let r = h.release in record { fits = ground (arith, f); release = ground (arith, r) }

  run_from-IsTidy :
      (releases : Bool) (es : List (Event M)) (p : Pipeline M)
      → IsTidy p
      → IsTidy (run releases es p)
  unfolding run
  run_from-IsTidy releases [] p h = h
  run_from-IsTidy releases (e ∷ es) p h =
      run_from-IsTidy releases es (step releases e p) (step-IsTidy releases e p h)

  -- At every moment at most `maxSendQueueSize` messages wait, and the goroutine calls `closeGRPCConn` at
  -- most once, and only after `Close`, when nothing waits and it ends.
  pub run-IsTidy : (releases : Bool) (es : List (Event M)) → IsTidy (run releases es new_pipeline)
  unfolding new_pipeline
  run-IsTidy releases es =
      run_from-IsTidy releases es new_pipeline (record { fits = omega arith; release = inl refl })

  -- Rounds in which the backend is reached and takes the message.
  abbrev pub good_rounds : ℕ → List (Event M)
  good_rounds zero = []
  good_rounds (suc n) = rounds connected true delivered ∷ good_rounds n

  abbrev pub all_delivered : List M → List (M × Outcome)
  all_delivered [] = []
  all_delivered (s ∷ ss) = (s, delivered) ∷ all_delivered ss

  streaming_drains :
      (ss : List M) (ts : List (M × Outcome)) (n : ℕ)
      → run true
          (good_rounds (suc (length ss)))
          (record { send_ch = ss; is_closed = true; loop = streaming; tried = ts; released = n })
        ≡ record {
          send_ch = [];
          is_closed = true;
          loop = exited;
          tried = ts ++ all_delivered ss;
          released = n + 1;
        }
  unfolding run step round transmit
  streaming_drains [] ts n =
      ap
        (λ t. record { send_ch = []; is_closed = true; loop = exited; tried = t; released = n + 1 })
        (sym (append_nil ts))
  streaming_drains (s ∷ ss) ts n =
      streaming_drains ss (ts ++ ((s, delivered) ∷ [])) n
      ∙ ap
          (λ t. record {
            send_ch = [];
            is_closed = true;
            loop = exited;
            tried = t;
            released = n + 1;
          })
          (append_assoc ts ((s, delivered) ∷ []) (all_delivered ss))

  -- `Close` drains the trace pipeline: while the backend is reached and takes the messages, the goroutine
  -- delivers all that waits, in order, and then releases the connection and ends, in one round for
  -- each message, one to open the stream and one to end.
  pub close_drains :
      (p : Pipeline M)
      → p.loop ≡ opening
      → run true (good_rounds (suc (suc (length p.send_ch)))) (close p) ≡ record {
        send_ch = [];
        is_closed = true;
        loop = exited;
        tried = p.tried ++ all_delivered p.send_ch;
        released = p.released + 1;
      }
  unfolding run step round open_stream close
  close_drains p e = rw e (streaming_drains p.send_ch p.tried p.released)
