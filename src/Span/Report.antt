-- ===== src/Span/Report.antt =====
-- How often a span is handed to the collector, and when, with the rules of reuse and of the
-- asynchronous mode.
use skywalking_go.Base.{
  ℕ, ◌+◌, ◌≡◌, refl, Bool, true, false, [], ◌∷◌, List, arith, length, length-append, if◌then◌else◌,
}
use skywalking_go.Span.{Scene, Op, Outcome, returned, panicked, step, run, after}

abbrev bit : Bool → ℕ
bit true = 1
bit false = 0

-- A call that hands over freezes the span, and no other call does.
abbrev Counts : Scene → Outcome (Scene × Bool) → Type 0
Counts s (returned (s', handed)) = bit handed + bit s.span.ended ≡ bit s'.span.ended
Counts s (panicked message) = Unit

step-Counts : (op : Op) (s : Scene) → Counts s (step op s)
unfolding step
step-Counts op s = ground arith

after-count :
    (s : Scene) (n : ℕ) (r : Outcome (Scene × Bool))
    → Counts s r
    → (after s n r).1 + bit s.span.ended ≡ n + bit (after s n r).0.span.ended
after-count s n (returned (s', true)) c = omega arith
after-count s n (returned (s', false)) c = omega arith
after-count s n (panicked message) c = refl

run-count :
    (ops : List Op) (s : Scene) (n : ℕ)
    → (run ops s n).1 + bit s.span.ended ≡ n + bit (run ops s n).0.span.ended
unfolding run
run-count [] s n = refl
run-count (op ∷ ops) s n =
    let r = step op s in
    let one = after-count s n r (step-Counts op s) in
    let more = run-count ops (after s n r).0 (after s n r).1 in omega arith

-- Whatever is called on a span that is not frozen, in whatever order and interleaving: it is handed
-- to the collector exactly once if it is frozen afterwards, and else not at all.
pub run_hands_over_once :
    (ops : List Op) (s : Scene)
    → s.span.ended ≡ false
    → (run ops s 0).1 ≡ (if (run ops s 0).0.span.ended then 1 else 0)
run_hands_over_once ops s open_now = let c = run-count ops s 0 in ground arith

-- A call logs a dropped write only if none was logged before.
abbrev Warns : Scene → Outcome (Scene × Bool) → Type 0
Warns s (returned (s', handed)) =
    length s'.world.warnings + bit s.span.dropped_logged
    ≡ length s.world.warnings + bit s'.span.dropped_logged
Warns s (panicked message) = Unit

step-Warns : (op : Op) (s : Scene) → Warns s (step op s)
unfolding step
step-Warns op s = grind (arith, length-append)

after-warnings :
    (s : Scene) (n : ℕ) (r : Outcome (Scene × Bool))
    → Warns s r
    → length (after s n r).0.world.warnings + bit s.span.dropped_logged
      ≡ length s.world.warnings + bit (after s n r).0.span.dropped_logged
after-warnings s n (returned (s', handed)) w = w
after-warnings s n (panicked message) w = refl

run-warnings :
    (ops : List Op) (s : Scene) (n : ℕ)
    → length (run ops s n).0.world.warnings + bit s.span.dropped_logged
      ≡ length s.world.warnings + bit (run ops s n).0.span.dropped_logged
unfolding run
run-warnings [] s n = refl
run-warnings (op ∷ ops) s n =
    let r = step op s in
    let one = after-warnings s n r (step-Warns op s) in
    let more = run-warnings ops (after s n r).0 (after s n r).1 in omega arith

-- However many writes come too late, the log gets at most one warning of a span: one more after the
-- calls than before if the span has had its first dropped write, and none if not.
pub run_warns_once :
    (ops : List Op) (s : Scene)
    → s.span.dropped_logged ≡ false
    → length (run ops s 0).0.world.warnings
      ≡ length s.world.warnings + (if (run ops s 0).0.span.dropped_logged then 1 else 0)
run_warns_once ops s quiet_now = let w = run-warnings ops s 0 in ground arith
