-- ===== src/Segment/Preserved.antt =====
-- Each operation of a segment preserves its invariant.
use skywalking_go.Base.{
  ℕ, ◌⊎◌, ◌+◌, ◌<◌, ◌≡◌, refl, true, false, [], ◌∷◌, ◌++◌, some, ℤ, pos, negsuc, length,
  length-append, arith, Bool-cases, subst, Option-cases, inl, inr,
}
use skywalking_go.Span.{SpanRef}
use skywalking_go.Segment.{
  Segment, Root, live, offering, finished, looping, is_total, take_out, register, end_child,
  receive, give_up, end_root, receive_total, give_up_root, close_done, send_tracing,
  segment_register, inc_int32, check_total,
}
use skywalking_go.Segment.Count.{count, count-append, count-take_out, length-take_out}
use skywalking_go.Segment.Invariant.{RootAgrees, IsConsistent, complete_lem, done_lem}

pub register-IsConsistent :
    (c : SpanRef) (s : Segment)
    → length (register c s).registered < 2147483648
    → IsConsistent s
    → IsConsistent (register c s)
unfolding register segment_register inc_int32
register-IsConsistent c s b h = record {
  number = let n = h.number in ground arith;
  each = λ d. let n = h.each d in ground arith;
  none_dropped = let n = h.none_dropped in ground arith;
  root_agrees = let n = h.root_agrees in ground arith;
  collector_agrees = let n = h.collector_agrees in ground arith;
}

pub end_child-IsConsistent :
    (c : SpanRef) (s s' : Segment) → end_child c s ≡ some s' → IsConsistent s → IsConsistent s'
unfolding end_child
end_child-IsConsistent c s s' e h = elim (Option-cases (take_out c s.unended)) [
  | inl o ↦ ground (arith, e, o)
  | inr (rest, o) ↦ record {
    number =
        let n = h.number in
        let l = length-take_out c s.unended rest o in ground (arith, e, o, n, l);
    each = λ d.
        let n = h.each d in
        let l = count-take_out c d s.unended rest o in ground (arith, e, o, n, l);
    none_dropped = let n = h.none_dropped in ground (arith, e, o, n);
    root_agrees = let n = h.root_agrees in ground (arith, e, o, n);
    collector_agrees = let n = h.collector_agrees in ground (arith, e, o, n);
  }
]

-- Before the end of a round of the loop: all but whether the total is reached.
record IsMidRound (s : Segment) : Type 0 where
  number : length s.registered ≡ length s.unended + length s.sending + length s.segment
  each :
      (c : SpanRef)
      → count c s.registered ≡ count c s.unended + count c s.sending + count c s.segment
  none_dropped : s.dropped ≡ []
  root_agrees : RootAgrees s.root s.ref_num s.total (length s.registered)
  loops : s.collector ≡ looping
  unsent : (s.collector_done ≡ false) × (s.sent ≡ [])

is_total_eq : (t : ℤ) (n : ℕ) → is_total t n ≡ true → t ≡ pos n
is_total_eq (pos m) n e = ground (arith, e)
is_total_eq (negsuc m) n e = ground (arith, e)

check_total-IsConsistent : (s : Segment) → IsMidRound s → IsConsistent (check_total s)
unfolding check_total
check_total-IsConsistent s m = elim (Bool-cases (is_total s.total (length s.segment))) [
  | inl e ↦ record {
    number = let n = m.number in ground (arith, e, n);
    each = λ d. let n = m.each d in ground (arith, e, n);
    none_dropped = let n = m.none_dropped in ground (arith, e, n);
    root_agrees = let n = m.root_agrees in ground (arith, e, n);
    collector_agrees =
        let t = is_total_eq s.total (length s.segment) e in
        let n = m.unsent in ground (arith, e, n, t);
  }
  | inr e ↦ record {
    number = let n = m.number in ground (arith, e, n);
    each = λ d. let n = m.each d in ground (arith, e, n);
    none_dropped = let n = m.none_dropped in ground (arith, e, n);
    root_agrees = let n = m.root_agrees in ground (arith, e, n);
    collector_agrees = let n = m.unsent in let l = m.loops in ground (arith, e, n, l);
  }
]

pub receive-IsConsistent :
    (c : SpanRef) (s s' : Segment) → receive c s ≡ some s' → IsConsistent s → IsConsistent s'
unfolding receive
receive-IsConsistent c s s' e h = elim (Option-cases (take_out c s.sending)) [
  | inl o ↦ ground (arith, e, o)
  | inr (rest, o) ↦
      let l : s.collector ≡ looping = ground (arith, e) in
      let s1 : Segment = record s { sending = rest; segment = s.segment ++ (c ∷ []) } in
      let same : check_total s1 ≡ s' = ground (arith, e, o, l) in
      let len = length-take_out c s.sending rest o in
      let agrees = h.collector_agrees in
      subst IsConsistent same (
        check_total-IsConsistent s1 (record {
          number = let n = h.number in let a = length-append s.segment (c ∷ []) in omega arith;
          each = λ d.
              let n = h.each d in
              let t = count-take_out c d s.sending rest o in
              let a = count-append d s.segment (c ∷ []) in omega arith;
          none_dropped = h.none_dropped;
          root_agrees = h.root_agrees;
          loops = l;
          unsent = ground (arith, l, agrees);
        }))
]

Root-cases : (r : Root) → ((n : ℤ) × (r ≡ offering n)) ⊎ ((r ≡ live) ⊎ (r ≡ finished))
Root-cases live = inr (inl refl)
Root-cases (offering n) = inl (n, refl)
Root-cases finished = inr (inr refl)

pub receive_total-IsConsistent :
    (s s' : Segment) → receive_total s ≡ some s' → IsConsistent s → IsConsistent s'
unfolding receive_total
receive_total-IsConsistent s s' e h = elim (Root-cases s.root) [
  | inl (n, o) ↦
      let l : s.collector ≡ looping = ground (arith, e) in
      let s1 : Segment = record s { root = finished; total = n } in
      let same : check_total s1 ≡ s' = ground (arith, e, o, l) in
      let agrees = h.collector_agrees in
      let root = h.root_agrees in
      subst IsConsistent same (
        check_total-IsConsistent s1 (record {
          number = h.number;
          each = h.each;
          none_dropped = h.none_dropped;
          root_agrees = ground (arith, o, root);
          loops = l;
          unsent = ground (arith, l, agrees);
        }))
  | inr o ↦ ground (arith, e, o)
]

pub give_up-IsConsistent :
    (c : SpanRef) (s s' : Segment) → give_up c s ≡ some s' → IsConsistent s → IsConsistent s'
unfolding give_up take_out
give_up-IsConsistent c s s' e h = elim (Bool-cases s.collector_done) [
  | inl d ↦ let (_, _, k) = complete_lem s h (done_lem s h d) in ground (arith, e, d, k)
  | inr d ↦ ground (arith, e, d)
]

pub give_up_root-IsConsistent :
    (s s' : Segment) → give_up_root s ≡ some s' → IsConsistent s → IsConsistent s'
unfolding give_up_root
give_up_root-IsConsistent s s' e h = elim (Bool-cases s.collector_done) [
  | inl d ↦ let (k, _, _) = complete_lem s h (done_lem s h d) in ground (arith, e, d, k)
  | inr d ↦ ground (arith, e, d)
]

pub end_root-IsConsistent :
    (s s' : Segment) → end_root s ≡ some s' → IsConsistent s → IsConsistent s'
unfolding end_root
end_root-IsConsistent s s' e h = record {
  number = let n = h.number in ground (arith, e, n);
  each = λ d. let n = h.each d in ground (arith, e, n);
  none_dropped = let n = h.none_dropped in ground (arith, e, n);
  root_agrees = let n = h.root_agrees in ground (arith, e, n);
  collector_agrees = let n = h.collector_agrees in ground (arith, e, n);
}

pub close_done-IsConsistent :
    (s s' : Segment) → close_done s ≡ some s' → IsConsistent s → IsConsistent s'
unfolding close_done
close_done-IsConsistent s s' e h = record {
  number = let n = h.number in ground (arith, e, n);
  each = λ d. let n = h.each d in ground (arith, e, n);
  none_dropped = let n = h.none_dropped in ground (arith, e, n);
  root_agrees = let n = h.root_agrees in ground (arith, e, n);
  collector_agrees = let n = h.collector_agrees in ground (arith, e, n);
}

pub send_tracing-IsConsistent :
    (s s' : Segment) → send_tracing s ≡ some s' → IsConsistent s → IsConsistent s'
unfolding send_tracing
send_tracing-IsConsistent s s' e h = record {
  number = let n = h.number in ground (arith, e, n);
  each = λ d. let n = h.each d in ground (arith, e, n);
  none_dropped = let n = h.none_dropped in ground (arith, e, n);
  root_agrees = let n = h.root_agrees in ground (arith, e, n);
  collector_agrees = let n = h.collector_agrees in ground (arith, e, n);
}
