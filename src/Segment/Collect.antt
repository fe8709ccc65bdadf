-- ===== src/Segment/Collect.antt =====
-- What the collector goroutine of a segment sends.
use skywalking_go.Base.{
  List-cases, ◌⊎◌, ◌<◌, ◌≤◌, ◌≡◌, refl, Bool, true, false, [], ◌∷◌, ◌++◌, List, none, some, ◌⊎◌,
  ◌≢◌, length, arith, subst, inl, inr,
}
use skywalking_go.Span.{SpanRef}
use skywalking_go.Segment.{
  Segment, live, Collector, looping, exited, Event, registers, ends, receives, gives_up, root_ends,
  receives_total, root_gives_up, closes, reports, step, take_out, register, end_child, receive,
  give_up, end_root, receive_total, give_up_root, close_done, send_tracing, new_segment_root,
  Reachable, start, next, segment_register, check_total,
}
use skywalking_go.Segment.Count.{count}
use skywalking_go.Segment.Invariant.{IsConsistent, complete_lem}
use skywalking_go.Segment.Preserved.{
  register-IsConsistent, end_child-IsConsistent, receive-IsConsistent, receive_total-IsConsistent,
  give_up-IsConsistent, give_up_root-IsConsistent, end_root-IsConsistent, close_done-IsConsistent,
  send_tracing-IsConsistent,
}

step-IsConsistent :
    (e : Event) (s s' : Segment)
    → step e s ≡ some s'
    → length s'.registered < 2147483648
    → IsConsistent s
    → IsConsistent s'
unfolding step
step-IsConsistent (registers c) s s' e b h =
    let same : register c s ≡ s' = ground (arith, e) in
    subst IsConsistent same (register-IsConsistent c s (rw same b) h)
step-IsConsistent (ends c) s s' e b h = end_child-IsConsistent c s s' e h
step-IsConsistent (receives c) s s' e b h = receive-IsConsistent c s s' e h
step-IsConsistent (gives_up c) s s' e b h = give_up-IsConsistent c s s' e h
step-IsConsistent root_ends s s' e b h = end_root-IsConsistent s s' e h
step-IsConsistent receives_total s s' e b h = receive_total-IsConsistent s s' e h
step-IsConsistent root_gives_up s s' e b h = give_up_root-IsConsistent s s' e h
step-IsConsistent closes s s' e b h = close_done-IsConsistent s s' e h
step-IsConsistent reports s s' e b h = send_tracing-IsConsistent s s' e h

step-registered :
    (e : Event) (s s' : Segment) → step e s ≡ some s' → length s.registered ≤ length s'.registered
unfolding step register end_child receive give_up end_root receive_total give_up_root close_done
    send_tracing check_total
step-registered e s s' q = ground (arith, q)

Reachable-IsConsistent :
    {s : Segment} → Reachable s → length s.registered < 2147483648 → IsConsistent s
unfolding new_segment_root
Reachable-IsConsistent (start root) b = record {
  number = refl;
  each = λ c. omega arith;
  none_dropped = refl;
  root_agrees = (refl, refl);
  collector_agrees = (refl, refl, refl);
}
Reachable-IsConsistent (next {s} {s'} e r q) b =
    let m = step-registered e s s' q in
    step-IsConsistent e s s' q b (Reachable-IsConsistent r (omega arith))

-- `sent` is one call, with each child of `children` as often as it is in the list, and then the root.
pub record SendsAll (root : SpanRef) (children : List SpanRef) (sent : List (List SpanRef))
    : Type 0 where
  pub spans : List SpanRef
  pub one_call : sent ≡ (spans ++ (root ∷ [])) ∷ []
  pub same : (c : SpanRef) → count c spans ≡ count c children

Collector-cases : (c : Collector) → (c ≡ exited) ⊎ (c ≢ exited)
Collector-cases c = ground arith

exited-SendsAll :
    (s : Segment) → IsConsistent s → s.collector ≡ exited → SendsAll s.root_span s.registered s.sent
exited-SendsAll s h e = record {
  spans = s.segment;
  one_call = let a = h.collector_agrees in ground (arith, a, e);
  same = λ c.
      let a = h.collector_agrees in
      let (_, u, p) = complete_lem s h (ground (arith, a, e)) in
      let n = h.each c in ground (arith, n, u, p);
}

sent-SendsAll :
    (s : Segment) → IsConsistent s → (s.sent ≡ []) ⊎ SendsAll s.root_span s.registered s.sent
sent-SendsAll s h = elim (Collector-cases s.collector) [
  | inl e ↦ inr (exited-SendsAll s h e)
  | inr e ↦ inl (let a = h.collector_agrees in ground (arith, a, e))
]

-- In every state that can be reached, in any interleaving, with fewer than 2 ^ 31 registered children:
-- `SendTracing` was not called yet, or it was called once, with every registered child exactly as often
-- as it was registered, and the root as the last span. No span was dropped.
pub Reachable-sends_once :
    {s : Segment}
    → Reachable s
    → length s.registered < 2147483648
    → ((s.sent ≡ []) ⊎ SendsAll s.root_span s.registered s.sent) × (s.dropped ≡ [])
Reachable-sends_once {s} r b =
    let h = Reachable-IsConsistent r b in (sent-SendsAll s h, h.none_dropped)

-- After the root has ended, `segmentRegister` refuses every child, which then roots its own segment:
-- the number of children that the collector waits for does not change.
pub ended_refuses :
    {s : Segment} (c : SpanRef)
    → Reachable s
    → length s.registered < 2147483648
    → s.root ≢ live
    → register c s ≡ s
unfolding register segment_register
ended_refuses {s} c r b ended =
    let h = Reachable-IsConsistent r b in let root = h.root_agrees in ground (arith, root, ended)

-- What the goroutines of the agent do on their own.
abbrev pub is_internal : Event → Bool
is_internal (registers c) = false
is_internal (ends c) = false
is_internal root_ends = false
is_internal e = true

unreceivable :
    (s : Segment) → s.collector ≡ looping → ((c : SpanRef) → receive c s ≡ none) → s.sending ≡ []
unfolding receive take_out
unreceivable s l stuck = elim (List-cases s.sending) [
  | inl e ↦ e
  | inr (c, rest, e) ↦ let no = stuck c in ground (arith, l, e, no)
]

stuck-exited :
    (s : Segment)
    → IsConsistent s
    → s.root ≢ live
    → s.unended ≡ []
    → ((e : Event) → is_internal e ≡ true → step e s ≡ none)
    → s.collector ≡ exited
unfolding step receive_total close_done send_tracing
stuck-exited s h ended u stuck =
    let none_closes = stuck closes refl in
    let none_reports = stuck reports refl in
    let none_total = stuck receives_total refl in
    let unsent : s.collector ≡ looping → s.sending ≡ [] =
      λ l. unreceivable s l (λ c. stuck (receives c) refl) in
    let agrees = h.collector_agrees in
    let root = h.root_agrees in
    let number = h.number in
    ground (arith, none_closes, none_reports, none_total, unsent, agrees, root, number, u, ended)

-- Nothing waits: when the root and all registered children have ended, and the goroutines can do
-- nothing more, the segment was sent.
pub settled_sends :
    {s : Segment}
    → Reachable s
    → length s.registered < 2147483648
    → s.root ≢ live
    → s.unended ≡ []
    → ((e : Event) → is_internal e ≡ true → step e s ≡ none)
    → SendsAll s.root_span s.registered s.sent
settled_sends {s} r b ended u stuck =
    let h = Reachable-IsConsistent r b in exited-SendsAll s h (stuck-exited s h ended u stuck)
