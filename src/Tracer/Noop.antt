-- ===== src/Tracer/Noop.antt =====
-- The noop span of a goroutine, through nested creations and their ends.
use skywalking_go.Base.{
  ℕ, suc, ◌<◌, ◌≡◌, refl, [], ◌∷◌, ◌++◌, List, none, some, pos, Bytes, length, arith,
}
use skywalking_go.Identity.{IdContext}
use skywalking_go.Span.{SpanRef}
use skywalking_go.Base.Memory.{get_or-put, length-put}
use skywalking_go.Tracer.{
  Tracer, Agent, noop, segment, in_snapshot, create_noop, end_noop, get_span, is_zero,
}

-- A creation of a span with the name, of any type, and the `End` of the noop span.
pub data Call : Type 0 where
  creates : Bytes → IdContext → Call
  ends : Call

abbrev end_of : SpanRef → Agent → Agent
end_of s a = elim (get_span s a) [ noop n ↦ end_noop s n a | segment d c ↦ a | in_snapshot d c ↦ a ]

pub run : Tracer → SpanRef → List Call → Agent → Agent
run t s [] a = a
run t s (creates name id ∷ cs) a = run t s cs (create_noop t name id a).1
run t s (ends ∷ cs) a = run t s cs (end_of s a)

-- Each creation has its own later `End`.
pub data Nested : List Call → Type 0 where
  finished : Nested []
  pair :
      (name : Bytes) (id : IdContext) {inner rest : List Call}
      → Nested inner
      → Nested rest
      → Nested (creates name id ∷ inner ++ ends ∷ rest)

-- The noop span `s` with this count is active, and so many noop contexts have finished.
pub record IsActive (s : SpanRef) (n : ℕ) (f : ℕ) (a : Agent) : Type 0 where
  pub active : a.world.context ≡ some (some s)
  pub counted : get_span s a ≡ noop (pos n)
  pub stored : s < length a.spans
  pub finished_before : a.so11y.finish_ignore_context ≡ f

creates-IsActive :
    (t : Tracer) (s : SpanRef) (n f : ℕ) (name : Bytes) (id : IdContext) (a : Agent)
    → IsActive s n f a
    → IsActive s (suc n) f (create_noop t name id a).1
unfolding create_noop
creates-IsActive t s n f name id a h =
    let at_s = get_or-put s (noop (pos (suc n))) (noop (pos 0)) a.spans h.stored in
    let len = length-put s (noop (pos (suc n))) a.spans in
    let e = h.active in
    let c = h.counted in
    let st = h.stored in let fb = h.finished_before in ground (arith, at_s, len, e, c, st, fb)

ends-IsActive :
    (s : SpanRef) (n f : ℕ) (a : Agent)
    → IsActive s (suc (suc n)) f a
    → IsActive s (suc n) f (end_of s a)
unfolding end_noop is_zero
ends-IsActive s n f a h =
    let at_s = get_or-put s (noop (pos (suc n))) (noop (pos 0)) a.spans h.stored in
    let len = length-put s (noop (pos (suc n))) a.spans in
    let e = h.active in
    let c = h.counted in
    let st = h.stored in let fb = h.finished_before in ground (arith, at_s, len, e, c, st, fb)

run-append :
    (t : Tracer) (s : SpanRef) (cs ds : List Call) (a : Agent)
    → run t s (cs ++ ds) a ≡ run t s ds (run t s cs a)
unfolding run
run-append t s [] ds a = refl
run-append t s (creates name id ∷ cs) ds a = run-append t s cs ds (create_noop t name id a).1
run-append t s (ends ∷ cs) ds a = run-append t s cs ds (end_of s a)

Nested-IsActive :
    (t : Tracer) (s : SpanRef) (n f : ℕ) {cs : List Call} (nested : Nested cs) (a : Agent)
    → IsActive s (suc n) f a
    → IsActive s (suc n) f (run t s cs a)
unfolding run
Nested-IsActive t s n f finished a h = h
Nested-IsActive t s n f (pair name id {inner} {rest} i r) a h =
    let a1 = (create_noop t name id a).1 in
    let h1 = creates-IsActive t s (suc n) f name id a h in
    let h2 = Nested-IsActive t s (suc n) f i a1 h1 in
    let h3 = ends-IsActive s n f (run t s inner a1) h2 in
    rw (run-append t s inner (ends ∷ rest) a1)
      (Nested-IsActive t s n f r (end_of s (run t s inner a1)) h3)

last_end :
    (s : SpanRef) (f : ℕ) (a : Agent)
    → IsActive s 1 f a
    → ((end_of s a).world.context ≡ some none) × ((end_of s a).so11y.finish_ignore_context ≡ suc f)
unfolding end_noop is_zero
last_end s f a h =
    let e = h.active in let c = h.counted in let fb = h.finished_before in ground (arith, e, c, fb)

-- A new noop span that is active stays so through any nested creations of spans, which all return it,
-- and their ends; its own `End` then leaves the goroutine without an active span, and counts one
-- finished noop context in all.
pub Nested-noop :
    (t : Tracer) (s : SpanRef) (f : ℕ) {cs : List Call} (a : Agent)
    → Nested cs
    → IsActive s 1 f a
    → IsActive s 1 f (run t s cs a)
      × ((run t s (cs ++ (ends ∷ [])) a).world.context ≡ some none)
      × ((run t s (cs ++ (ends ∷ [])) a).so11y.finish_ignore_context ≡ suc f)
unfolding run
Nested-noop t s f {cs} a nested h =
    let h' = Nested-IsActive t s 0 f nested a h in
    let (none_active, counts) = last_end s f (run t s cs a) h' in
    rw (run-append t s cs (ends ∷ []) a) (h', none_active, counts)
