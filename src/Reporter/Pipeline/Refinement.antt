-- ===== src/Reporter/Pipeline/Refinement.antt =====
-- A send pipeline is a bounded queue, first in first out, that may lose messages.
use skywalking_go.Base.{
  ◌<◌, ◌≤◌, ◌≡◌, ◌≢◌, ◌⊎◌, refl, ap, subst, Bool, true, false, [], ◌∷◌, ◌++◌, List, length, ltb,
  append_nil, arith, Bool-cases, List-cases, inl, inr,
}
use skywalking_go.Connection.{ConnectionStatus, connected, disconnect, shutdown}
use skywalking_go.Reporter.Pipeline.{
  Pipeline, Loop, opening, streaming, exited, Outcome, delivered, recovered, failed, panics, is_nil,
  object, max_send_queue_size, new_pipeline, offer, send, close, open_stream, transmit, Event,
  sends, closes, rounds, round, step, run,
}

-- The abstract pipeline: what waits, what arrived, in order, and whether it takes messages.
pub record Channel (M : Type 0) : Type 0 where
  pub waiting : List M
  pub arrived : List M
  pub is_shut : Bool

-- What the users do: a caller hands in a message, or closes; or the goroutine gets a turn, and what it
-- tries comes to the outcome.
pub data Action (M : Type 0) : Type 0 where
  hands : M → Action M
  shuts : Action M
  works : Outcome → Action M

-- What a bounded queue may do on an action. A message that is handed in waits behind the others while
-- there is room, and is refused only when there is none or the queue is shut. A turn may take the first
-- message: it arrives when it was delivered, and is lost otherwise.
pub data Moves {M : Type 0} : Action M → Channel M → Channel M → Type 0 where
  accepts :
      {c : Channel M} (s : M)
      → c.is_shut ≡ false
      → length c.waiting < max_send_queue_size
      → Moves (hands s) c (record c { waiting = c.waiting ++ (s ∷ []) })
  refuses :
      {c : Channel M} (s : M)
      → (c.is_shut ≡ true) ⊎ (max_send_queue_size ≤ length c.waiting)
      → Moves (hands s) c c
  is_shut_now : {c : Channel M} → Moves shuts c (record c { is_shut = true })
  stays : {c : Channel M} (o : Outcome) → Moves (works o) c c
  arrives :
      {s : M} {rest old : List M} {b : Bool}
      → Moves
          (works delivered)
          (record { waiting = s ∷ rest; arrived = old; is_shut = b })
          (record { waiting = rest; arrived = old ++ (s ∷ []); is_shut = b })
  loses :
      {s : M} {rest old : List M} {b : Bool} (o : Outcome)
      → o ≢ delivered
      → Moves
          (works o)
          (record { waiting = s ∷ rest; arrived = old; is_shut = b })
          (record { waiting = rest; arrived = old; is_shut = b })

-- One move for each action.
pub data Reaches {M : Type 0} : List (Action M) → Channel M → Channel M → Type 0 where
  here : {c : Channel M} → Reaches [] c c
  moves :
      {a : Action M} {as' : List (Action M)} {c d e : Channel M}
      → Moves a c d
      → Reaches as' d e
      → Reaches (a ∷ as') c e

module _ {M : Type 0} where
  -- The actions of an event; a transform that panics or gives `nil` hands in nothing.
  abbrev pub actions_of : Event M → List (Action M)
  actions_of (sends (object s)) = hands s ∷ []
  actions_of (sends panics) = []
  actions_of (sends is_nil) = []
  actions_of closes = shuts ∷ []
  actions_of (rounds status opened o) = works o ∷ []

  abbrev pub actions : List (Event M) → List (Action M)
  actions [] = []
  actions (e ∷ es) = actions_of e ++ actions es

  abbrev pub arrivals : List (M × Outcome) → List M
  arrivals [] = []
  arrivals ((s, delivered) ∷ ts) = s ∷ arrivals ts
  arrivals ((s, o) ∷ ts) = arrivals ts

  abbrev pub abstracts : Pipeline M → Channel M
  abstracts p = record { waiting = p.send_ch; arrived = arrivals p.tried; is_shut = p.is_closed }

  arrivals-append : (ts us : List (M × Outcome)) → arrivals (ts ++ us) ≡ arrivals ts ++ arrivals us
  arrivals-append [] us = refl
  arrivals-append ((s, delivered) ∷ ts) us = ap (λ xs. s ∷ xs) (arrivals-append ts us)
  arrivals-append ((s, recovered) ∷ ts) us = arrivals-append ts us
  arrivals-append ((s, failed) ∷ ts) us = arrivals-append ts us

  offer-Moves : (s : M) (p : Pipeline M) → Moves (hands s) (abstracts p) (abstracts (offer s p))
  unfolding offer
  offer-Moves s p = elim (Bool-cases p.is_closed) [
    | inl c ↦
        let same : abstracts p ≡ abstracts (offer s p) = ground (arith, c) in
        subst (Moves (hands s) (abstracts p)) same (refuses s (inl c))
    | inr c ↦ elim (Bool-cases (ltb (length p.send_ch) max_send_queue_size)) [
      | inl l ↦
          let c' : Channel M = record {
            waiting = p.send_ch ++ (s ∷ []);
            arrived = arrivals p.tried;
            is_shut = p.is_closed;
          } in
          let same : c' ≡ abstracts (offer s p) = ground (arith, c, l) in
          subst (Moves (hands s) (abstracts p)) same (accepts s c (ground (arith, l)))
      | inr l ↦
          let same : abstracts p ≡ abstracts (offer s p) = ground (arith, c, l) in
          subst (Moves (hands s) (abstracts p)) same (refuses s (inr (ground (arith, l))))
    ]
  ]

  taken-Moves :
      (s : M) (rest : List M) (ts : List (M × Outcome)) (b : Bool) (o : Outcome)
      → Moves
          (works o)
          (record { waiting = s ∷ rest; arrived = arrivals ts; is_shut = b })
          (record { waiting = rest; arrived = arrivals (ts ++ ((s, o) ∷ [])); is_shut = b })
  taken-Moves s rest ts b delivered = rw (arrivals-append ts ((s, delivered) ∷ [])) arrives
  taken-Moves s rest ts b recovered =
      rw (arrivals-append ts ((s, recovered) ∷ []), append_nil (arrivals ts))
        (loses recovered (λ e. cc))
  taken-Moves s rest ts b failed =
      rw (arrivals-append ts ((s, failed) ∷ []), append_nil (arrivals ts)) (loses failed (λ e. cc))

  transmit-Moves :
      (releases : Bool) (o : Outcome) (p : Pipeline M)
      → Moves (works o) (abstracts p) (abstracts (transmit releases o p))
  unfolding transmit
  transmit-Moves releases o p = elim (List-cases p.send_ch) [
    | inl e ↦
        let same : abstracts p ≡ abstracts (transmit releases o p) = ground (arith, e) in
        subst (Moves (works o) (abstracts p)) same (stays o)
    | inr (s, rest, e) ↦
        let same : record {
          waiting = rest;
          arrived = arrivals (p.tried ++ ((s, o) ∷ []));
          is_shut = p.is_closed;
        }
            ≡ abstracts (transmit releases o p) =
          ground (arith, e) in
        let start : record { waiting = s ∷ rest; arrived = arrivals p.tried; is_shut = p.is_closed }
            ≡ abstracts p =
          ground (arith, e) in
        subst (λ c. Moves (works o) c (abstracts (transmit releases o p))) start
          (subst (Moves (works o) _) same (taken-Moves s rest p.tried p.is_closed o))
  ]

  open_stream-Moves :
      (status : ConnectionStatus) (opened : Bool) (o : Outcome) (p : Pipeline M)
      → Moves (works o) (abstracts p) (abstracts (open_stream status opened p))
  unfolding open_stream
  open_stream-Moves shutdown opened o p = stays o
  open_stream-Moves disconnect opened o p = stays o
  open_stream-Moves connected true o p = stays o
  open_stream-Moves connected false o p = stays o

  Loop-Moves :
      (releases : Bool) (status : ConnectionStatus) (opened : Bool) (o : Outcome) (l : Loop)
      (p : Pipeline M)
      → p.loop ≡ l
      → Moves (works o) (abstracts p) (abstracts (round releases status opened o p))
  unfolding round
  Loop-Moves releases status opened o opening p e =
      rw (round, e) (open_stream-Moves status opened o p)
  Loop-Moves releases status opened o streaming p e = rw (round, e) (transmit-Moves releases o p)
  Loop-Moves releases status opened o exited p e = rw (round, e) (stays o)

  run_from-Reaches :
      (releases : Bool) (es : List (Event M)) (p : Pipeline M)
      → Reaches (actions es) (abstracts p) (abstracts (run releases es p))
  unfolding run step send close
  run_from-Reaches releases [] p = here
  run_from-Reaches releases (sends panics ∷ es) p = run_from-Reaches releases es p
  run_from-Reaches releases (sends is_nil ∷ es) p = run_from-Reaches releases es p
  run_from-Reaches releases (sends (object s) ∷ es) p =
      moves (offer-Moves s p) (run_from-Reaches releases es (offer s p))
  run_from-Reaches releases (closes ∷ es) p =
      moves is_shut_now (run_from-Reaches releases es (close p))
  run_from-Reaches releases (rounds status opened o ∷ es) p =
      moves (Loop-Moves releases status opened o p.loop p refl)
        (run_from-Reaches releases es (round releases status opened o p))

  -- However the callers and the goroutine interleave, and whatever the connection, the stream and the
  -- encoding do: for the same messages handed in and the same outcomes, a send pipeline does what a
  -- bounded queue may do. Each message that is handed in waits behind those before it, or is refused when
  -- the pipeline is closed or `maxSendQueueSize` messages wait; a turn of the goroutine takes at most the
  -- first one, which arrives behind those before it when it was delivered and is lost otherwise.
  pub run-Reaches :
      (releases : Bool) (es : List (Event M))
      → Reaches
          (actions es)
          (record { waiting = []; arrived = []; is_shut = false })
          (abstracts (run releases es new_pipeline))
  unfolding new_pipeline
  run-Reaches releases es = run_from-Reaches releases es new_pipeline
