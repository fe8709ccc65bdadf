-- ===== src/Reporter/Pipeline.antt =====
-- plugins/core/reporter/grpc/grpc.go: a bounded channel that callers fill, and the goroutine that sends
-- what is in it over a stream. The trace, metrics and log pipelines are this one, with their messages.
-- The status of the connection, and what gRPC and the encoding do, are inputs.
pub mod Refinement
pub mod Drain
use skywalking_go.Base.{
  ℕ, zero, suc, ◌+◌, Bool, true, false, [], ◌∷◌, ◌++◌, List, if◌then◌else◌, length, ltb,
}
use skywalking_go.Connection.{ConnectionStatus, connected, disconnect, shutdown}

pub data Loop : Type 0 where
  opening streaming exited : Loop

-- What `pipelineSend` came to: the message is in the stream, or a panic was recovered, or the stream
-- gave an error.
pub data Outcome : Type 0 where
  delivered recovered failed : Outcome

-- `tried` are the messages that the goroutine took from the channel, with what `pipelineSend` came to;
-- `released` counts the calls of `closeGRPCConn`.
pub record Pipeline (M : Type 0) : Type 0 where
  pub send_ch : List M
  pub is_closed : Bool
  pub loop : Loop
  pub tried : List (M × Outcome)
  pub released : ℕ

abbrev pub max_send_queue_size : ℕ
max_send_queue_size = 30000

-- What the transform gives for the message: it may panic, or give `nil`.
pub data Transformed (M : Type 0) : Type 0 where
  panics : Transformed M
  is_nil : Transformed M
  object : M → Transformed M

abbrev after : Outcome → Loop
after failed = opening
after other = streaming

module _ {M : Type 0} where
  unfoldable pub new_pipeline : Pipeline M
  new_pipeline = record {
    send_ch = [];
    is_closed = false;
    loop = opening;
    tried = [];
    released = 0;
  }

  -- The `select` with a default. A send on a closed channel panics, which the caller recovers from.
  pub offer : M → Pipeline M → Pipeline M
  offer s p =
      if p.is_closed
      then p
      else if ltb (length p.send_ch) max_send_queue_size
      then record p { send_ch = p.send_ch ++ (s ∷ []) }
      else p

  -- `SendTracing`, and `SendMetrics` and `SendLog`, whose transforms do not panic or give `nil`.
  pub send : Transformed M → Pipeline M → Pipeline M
  unfolding offer
  send panics p = p
  send is_nil p = p
  send (object s) p = offer s p

  -- `Close` after `Boot`, which is called once.
  unfoldable pub close : Pipeline M → Pipeline M
  close p = record p { is_closed = true }

  -- The start of a round of `StreamLoop`; `opened` says whether `openBackendStream` gave a stream.
  pub open_stream : ConnectionStatus → Bool → Pipeline M → Pipeline M
  open_stream shutdown opened p = record p { loop = exited }
  open_stream disconnect opened p = p
  open_stream connected opened p = if opened then record p { loop = streaming } else p

  -- One round of the loop over the channel, which waits while the channel is open and empty.
  -- `releases` holds in the trace pipeline, which calls `closeGRPCConn` at the end.
  pub transmit : Bool → Outcome → Pipeline M → Pipeline M
  transmit releases o p = elim p.send_ch [
    | s ∷ rest ↦ record p { send_ch = rest; tried = p.tried ++ ((s, o) ∷ []); loop = after o }
    | [] ↦
        if p.is_closed
        then record p { loop = exited; released = if releases then p.released + 1 else p.released }
        else p
  ]

-- The callers and the goroutine, in any order.
pub data Event (M : Type 0) : Type 0 where
  sends : Transformed M → Event M
  closes : Event M
  rounds : ConnectionStatus → Bool → Outcome → Event M

module _ {M : Type 0} (releases : Bool) where
  -- A round of the goroutine: to open a stream, or to send a message.
  pub round : ConnectionStatus → Bool → Outcome → Pipeline M → Pipeline M
  unfolding open_stream transmit
  round status opened o p = elim p.loop [
    | opening ↦ open_stream status opened p
    | streaming ↦ transmit releases o p
    | exited ↦ p
  ]

  pub step : Event M → Pipeline M → Pipeline M
  unfolding send close round
  step (sends t) p = send t p
  step closes p = close p
  step (rounds status opened o) p = round status opened o p

  unfoldable pub run : List (Event M) → Pipeline M → Pipeline M
  unfolding step
  run [] p = p
  run (e ∷ es) p = run es (step e p)
