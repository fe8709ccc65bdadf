-- ===== src/Segment/Progress.antt =====
-- That the goroutines of a segment come to an end.
use skywalking_go.Base.{ℕ, ◌+◌, ◌<◌, ◌≡◌, true, some, length, arith, Option-cases, inl, inr}
use skywalking_go.Span.{SpanRef}
use skywalking_go.Segment.{
  Segment, Root, live, offering, finished, Collector, looping, closing, reporting, exited, Event,
  registers, ends, receives, gives_up, root_ends, receives_total, root_gives_up, closes, reports,
  step, take_out, receive, give_up, receive_total, give_up_root, close_done, send_tracing,
  check_total,
}
use skywalking_go.Segment.Count.{length-take_out}
use skywalking_go.Segment.Collect.{is_internal}

abbrev remaining : Collector → ℕ
remaining looping = 3
remaining closing = 2
remaining reporting = 1
remaining exited = 0

abbrev offers : Root → ℕ
offers live = 0
offers (offering n) = 1
offers finished = 0

-- What the goroutines have left to do, at most.
abbrev pub work : Segment → ℕ
work s = length s.sending + offers s.root + remaining s.collector

receive_decreases : (c : SpanRef) (s s' : Segment) → receive c s ≡ some s' → work s' < work s
unfolding receive check_total
receive_decreases c s s' q = elim (Option-cases (take_out c s.sending)) [
  | inl o ↦ ground (arith, q, o)
  | inr (rest, o) ↦ let l = length-take_out c s.sending rest o in ground (arith, q, o, l)
]

give_up_decreases : (c : SpanRef) (s s' : Segment) → give_up c s ≡ some s' → work s' < work s
unfolding give_up
give_up_decreases c s s' q = elim (Option-cases (take_out c s.sending)) [
  | inl o ↦ ground (arith, q, o)
  | inr (rest, o) ↦ let l = length-take_out c s.sending rest o in ground (arith, q, o, l)
]

-- The goroutines come to an end: whatever one of them does makes the work left smaller.
pub internal_decreases :
    (e : Event) (s s' : Segment) → is_internal e ≡ true → step e s ≡ some s' → work s' < work s
unfolding step receive_total close_done send_tracing give_up_root check_total
internal_decreases (registers c) s s' i q = ground (arith, i)
internal_decreases (ends c) s s' i q = ground (arith, i)
internal_decreases (receives c) s s' i q = receive_decreases c s s' q
internal_decreases (gives_up c) s s' i q = give_up_decreases c s s' q
internal_decreases root_ends s s' i q = ground (arith, i)
internal_decreases receives_total s s' i q = ground (arith, q)
internal_decreases root_gives_up s s' i q = ground (arith, q)
internal_decreases closes s s' i q = ground (arith, q)
internal_decreases reports s s' i q = ground (arith, q)
