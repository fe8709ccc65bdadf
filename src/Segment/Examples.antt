-- ===== src/Segment/Examples.antt =====
-- A segment with two children, of which one ends after the root.
use skywalking_go.Base.{
  ◌≡◌, ◌⊎◌, ◌<◌, refl, sym, subst, true, [], ◌∷◌, List, none, some, arith, Option-cases, inl, inr,
}
use skywalking_go.Segment.{
  Segment, new_segment_root, Reachable, start, next, Event, registers, ends, receives, root_ends,
  receives_total, closes, reports, step,
}
use skywalking_go.Segment.Collect.{is_internal, Reachable-sends_once, settled_sends, SendsAll}
use skywalking_go.Segment.Progress.{work, internal_decreases}

abbrev follow : List Event → Segment → Segment
follow [] s = s
follow (e ∷ es) s = elim (step e s) [ none ↦ s | some s' ↦ follow es s' ]

abbrev events : List Event
events =
    registers 2
    ∷ registers 3
    ∷ ends 2
    ∷ receives 2
    ∷ root_ends
    ∷ ends 3
    ∷ receives_total
    ∷ receives 3
    ∷ closes
    ∷ reports
    ∷ []

follow-Reachable : (es : List Event) (s : Segment) → Reachable s → Reachable (follow es s)
follow-Reachable [] s r = r
follow-Reachable (e ∷ es) s r = elim (Option-cases (step e s)) [
  | inl h ↦ subst (λ o. Reachable (elim o [ none ↦ s | some s' ↦ follow es s' ])) (sym h) r
  | inr (s', h) ↦
      subst (λ o. Reachable (elim o [ none ↦ s | some s' ↦ follow es s' ])) (sym h)
        (follow-Reachable es s' (next e r h))
]

abbrev end : Segment
end = follow events (new_segment_root 1)

test : end.sent ≡ (2 ∷ 3 ∷ 1 ∷ []) ∷ []
unfolding step new_segment_root
test = refl

end-Reachable : Reachable end
end-Reachable = follow-Reachable events (new_segment_root 1) (start 1)

Reachable-sends_once_example :
    ((end.sent ≡ []) ⊎ SendsAll end.root_span end.registered end.sent) × (end.dropped ≡ [])
unfolding step new_segment_root
Reachable-sends_once_example = Reachable-sends_once end-Reachable (omega arith)

stuck : (e : Event) → is_internal e ≡ true → step e end ≡ none
unfolding step new_segment_root
stuck e i = ground (arith, i)

settled_sends_example : SendsAll end.root_span end.registered end.sent
unfolding step new_segment_root
settled_sends_example =
    settled_sends end-Reachable (omega arith) (λ e. ground (arith, e)) refl stuck

abbrev before : Segment
before = follow (registers 2 ∷ ends 2 ∷ []) (new_segment_root 1)

internal_decreases_example : work (follow (receives 2 ∷ []) before) < work before
unfolding step new_segment_root
internal_decreases_example =
    internal_decreases (receives 2) before (follow (receives 2 ∷ []) before) refl refl
