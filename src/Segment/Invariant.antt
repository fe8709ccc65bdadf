-- ===== src/Segment/Invariant.antt =====
-- What holds of every reachable state of a segment with fewer than 2 ^ 31 children.
use skywalking_go.Base.{ℕ, ◌+◌, ◌≡◌, true, false, [], ◌∷◌, ◌++◌, ℤ, pos, negsuc, length, arith}
use skywalking_go.Span.{SpanRef}
use skywalking_go.Segment.{
  Segment, Root, live, offering, finished, Collector, looping, closing, reporting, exited, is_total,
}
use skywalking_go.Segment.Count.{count}

-- The counter, what the root offers, and the total, with `n` registered children.
abbrev pub RootAgrees : Root → ℤ → ℤ → ℕ → Type 0
RootAgrees live ref_num total n = (ref_num ≡ pos n) × (total ≡ negsuc 0)
RootAgrees (offering m) ref_num total n = (m ≡ pos n) × (ref_num ≡ negsuc 0) × (total ≡ negsuc 0)
RootAgrees finished ref_num total n = (ref_num ≡ negsuc 0) × (total ≡ pos n)

abbrev pub CollectorAgrees : Collector → Segment → Type 0
CollectorAgrees looping s =
    (s.collector_done ≡ false) × (s.sent ≡ []) × (is_total s.total (length s.segment) ≡ false)
CollectorAgrees closing s =
    (s.collector_done ≡ false) × (s.sent ≡ []) × (s.total ≡ pos (length s.segment))
CollectorAgrees reporting s =
    (s.collector_done ≡ true) × (s.sent ≡ []) × (s.total ≡ pos (length s.segment))
CollectorAgrees exited s =
    (s.collector_done ≡ true)
    × (s.sent ≡ (s.segment ++ (s.root_span ∷ [])) ∷ [])
    × (s.total ≡ pos (length s.segment))

pub record IsConsistent (s : Segment) : Type 0 where
  pub number : length s.registered ≡ length s.unended + length s.sending + length s.segment
  pub each :
      (c : SpanRef)
      → count c s.registered ≡ count c s.unended + count c s.sending + count c s.segment
  pub none_dropped : s.dropped ≡ []
  pub root_agrees : RootAgrees s.root s.ref_num s.total (length s.registered)
  pub collector_agrees : CollectorAgrees s.collector s

-- When the total is the number of received children, the root has ended, and every child was received.
pub complete_lem :
    (s : Segment)
    → IsConsistent s
    → s.total ≡ pos (length s.segment)
    → (s.root ≡ finished) × (s.unended ≡ []) × (s.sending ≡ [])
complete_lem s h e =
    let root = h.root_agrees in
    let number = h.number in
    (ground (arith, root, e), ground (arith, root, e, number), ground (arith, root, e, number))

pub done_lem :
    (s : Segment) → IsConsistent s → s.collector_done ≡ true → s.total ≡ pos (length s.segment)
done_lem s h e = let agrees = h.collector_agrees in ground (arith, agrees, e)
