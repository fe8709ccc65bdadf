-- ===== src/Segment.antt =====
-- plugins/core/span_tracing.go: one segment, with the counter of registered children, the goroutines
-- of `end0`, and the collector goroutine that `newSegmentRoot` starts. A span is named by a number. An
-- atomic operation, a rendezvous on a channel, and the close of one are a step each.
pub mod Count
pub mod Invariant
pub mod Preserved
pub mod Collect
pub mod Progress
pub mod Examples
use skywalking_go.Base.{
  ℕ, zero, suc, ◌+◌, ◌≡◌, Bool, true, false, [], ◌∷◌, ◌++◌, List, Option, none, some, ℤ, pos,
  negsuc, ◌==◌, if◌then◌else◌, length,
}
use skywalking_go.Span.{SpanRef}

-- `atomic.AddInt32(_, 1)`, with its wrap-around.
unfoldable pub inc_int32 : ℤ → ℤ
inc_int32 (pos n) = if n == 2147483647 then negsuc 2147483647 else pos (suc n)
inc_int32 (negsuc zero) = pos 0
inc_int32 (negsuc (suc n)) = negsuc n

-- Whether the root has ended; it offers the swapped-out counter on `doneCh` until someone takes it.
pub data Root : Type 0 where
  live : Root
  offering : ℤ → Root
  finished : Root

-- The collector goroutine: in its loop, behind it, behind `closeDone`, and after `SendTracing`.
pub data Collector : Type 0 where
  looping closing reporting exited : Collector

pub record Segment : Type 0 where
  pub root_span : SpanRef
  pub ref_num : ℤ
  -- Registered children that no `end0` was called for.
  pub unended : List SpanRef
  -- Children that a goroutine of `end0` offers on `collect`.
  pub sending : List SpanRef
  -- Children that `end0` dropped, for the collector was gone.
  pub dropped : List SpanRef
  pub root : Root
  pub collector : Collector
  pub total : ℤ
  pub segment : List SpanRef
  pub collector_done : Bool
  -- What `SendTracing` was called with.
  pub sent : List (List SpanRef)
  -- All children that `segmentRegister` accepted.
  pub registered : List SpanRef

-- `newSegmentRoot`.
pub new_segment_root : SpanRef → Segment
new_segment_root root = record {
  root_span = root;
  ref_num = pos 0;
  unended = [];
  sending = [];
  dropped = [];
  root = live;
  collector = looping;
  total = negsuc 0;
  segment = [];
  collector_done = false;
  sent = [];
  registered = [];
}

-- The compare-and-swap that ends the loop of `segmentRegister`.
unfoldable pub segment_register : ℤ → ℤ × Bool
unfolding inc_int32
segment_register (negsuc n) = (negsuc n, false)
segment_register (pos n) = (inc_int32 (pos n), true)

-- The first `c` of a list is taken out.
unfoldable pub take_out : SpanRef → List SpanRef → Option (List SpanRef)
take_out c [] = none
take_out c (x ∷ xs) =
    let rest = take_out c xs in
    if x == c then some xs else elim rest [ none ↦ none | some ys ↦ some (x ∷ ys) ]

abbrev pub is_total : ℤ → ℕ → Bool
is_total (pos n) m = n == m
is_total (negsuc n) m = false

-- The end of one round of the loop.
pub check_total : Segment → Segment
check_total s = if is_total s.total (length s.segment) then record s { collector = closing } else s

pub data Event : Type 0 where
  -- The constructor of a child span calls `segmentRegister` of its parent.
  registers : SpanRef → Event
  -- A child is handed over: `end0` starts a goroutine.
  ends : SpanRef → Event
  -- The collector receives a child from its goroutine; or that one sees the collector gone.
  receives gives_up : SpanRef → Event
  -- The root is handed over: `end0` swaps the counter and offers it.
  root_ends : Event
  receives_total root_gives_up : Event
  closes reports : Event

pub register : SpanRef → Segment → Segment
unfolding segment_register
register c s =
    let (n, accepted) = segment_register s.ref_num in
    if accepted
    then record s { ref_num = n; unended = c ∷ s.unended; registered = c ∷ s.registered }
    else s

-- `end0` of a child.
pub end_child : SpanRef → Segment → Option Segment
unfolding take_out
end_child c s = elim (take_out c s.unended) [
  | none ↦ none
  | some rest ↦ some (record s { unended = rest; sending = c ∷ s.sending })
]

pub receive : SpanRef → Segment → Option Segment
unfolding check_total
receive c s = elim s.collector [
  | looping ↦ elim (take_out c s.sending) [
    | none ↦ none
    | some rest ↦ some (check_total (record s { sending = rest; segment = s.segment ++ (c ∷ []) }))
  ]
  | closing ↦ none
  | reporting ↦ none
  | exited ↦ none
]

pub give_up : SpanRef → Segment → Option Segment
give_up c s =
    if s.collector_done
    then elim (take_out c s.sending) [
      | none ↦ none
      | some rest ↦ some (record s { sending = rest; dropped = c ∷ s.dropped })
    ]
    else none

-- `end0` of the root.
pub end_root : Segment → Option Segment
end_root s = elim s.root [
  | live ↦ some (record s { root = offering (s.ref_num); ref_num = negsuc 0 })
  | offering n ↦ none
  | finished ↦ none
]

pub receive_total : Segment → Option Segment
unfolding check_total
receive_total s = elim s.collector [
  | looping ↦ elim s.root [
    | live ↦ none
    | offering n ↦ some (check_total (record s { root = finished; total = n }))
    | finished ↦ none
  ]
  | closing ↦ none
  | reporting ↦ none
  | exited ↦ none
]

pub give_up_root : Segment → Option Segment
give_up_root s =
    if s.collector_done
    then elim s.root [
      | live ↦ none
      | offering n ↦ some (record s { root = finished })
      | finished ↦ none
    ]
    else none

pub close_done : Segment → Option Segment
close_done s = elim s.collector [
  | looping ↦ none
  | closing ↦ some (record s { collector = reporting; collector_done = true })
  | reporting ↦ none
  | exited ↦ none
]

pub send_tracing : Segment → Option Segment
send_tracing s = elim s.collector [
  | looping ↦ none
  | closing ↦ none
  | reporting ↦
      some
        (record s { collector = exited; sent = s.sent ++ ((s.segment ++ (s.root_span ∷ [])) ∷ []) })
  | exited ↦ none
]

-- What an event does, if it can happen.
pub step : Event → Segment → Option Segment
unfolding register end_child receive give_up end_root receive_total give_up_root close_done
    send_tracing
step (registers c) s = some (register c s)
step (ends c) s = end_child c s
step (receives c) s = receive c s
step (gives_up c) s = give_up c s
step root_ends s = end_root s
step receives_total s = receive_total s
step root_gives_up s = give_up_root s
step closes s = close_done s
step reports s = send_tracing s

-- The states of a segment that its callers and its collector can bring about, in any interleaving.
pub data Reachable : Segment → Type 0 where
  start : (root : SpanRef) → Reachable (new_segment_root root)
  next : {s s' : Segment} (e : Event) → Reachable s → step e s ≡ some s' → Reachable s'
