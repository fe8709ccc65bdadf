-- ===== src/Span/Active.antt =====
-- `End` and the active span of the goroutine.
use skywalking_go.Base.{ℕ, ◌≡◌, ◌⊎◌, inl, inr, Option, none, some, arith, ◌<◌}
use skywalking_go.Span.{Scene, SpanRef, end_span}

-- Each `End` that counts, that of a reuse or the first one without reuse, makes the parent the active
-- span of a goroutine that has a context.
pub end_span_active :
    (s : Scene) (now : ℕ) (active : Option SpanRef)
    → (0 < s.span.reuse_count) ⊎ (s.span.end_time ≡ none)
    → s.world.context ≡ some active
    → (end_span now s).0.world.context ≡ some s.span.parent
unfolding end_span
end_span_active s now active (inl r) e = ground arith
end_span_active s now active (inr r) e = ground arith
