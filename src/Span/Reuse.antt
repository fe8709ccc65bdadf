-- ===== src/Span/Reuse.antt =====
-- The reuse of an entry or an exit span: `enterReuse` and the `End` that belongs to it.
use skywalking_go.Base.{
  Bytes, ◌+◌, ℕ, suc, ◌≡◌, refl, ◌∙◌, ap, Bool, true, false, [], ◌∷◌, ◌++◌, List, none, arith,
}
use skywalking_go.Propagation.{SpanContext}
use skywalking_go.Span.{
  set_operation_name, append_ref, DefaultSpan, Scene, Op, reuses, prepares, ends, finishes,
  marks_finished, freezes, ends_unfrozen, step, run, after, end_span, enter_reuse,
}

-- The calls that do not end the span, or a part of it.
abbrev pub is_write : Op → Bool
is_write (ends now) = false
is_write (finishes now) = false
is_write marks_finished = false
is_write freezes = false
is_write (ends_unfrozen now) = false
is_write prepares = false
is_write reuses = false
is_write op = true

-- Calls in which each reuse of the span has its own `End`, later, as plugins call them.
pub data Balanced : List Op → Type 0 where
  none_left : Balanced []
  write : {op : Op} {ops : List Op} → is_write op ≡ true → Balanced ops → Balanced (op ∷ ops)
  nested :
      (now : ℕ) {ops rest : List Op}
      → Balanced ops
      → Balanced rest
      → Balanced (reuses ∷ ops ++ ends now ∷ rest)

-- The span is open, in no asynchronous mode, and is reused `n` times at present.
pub record IsOpen (n : ℕ) (d : DefaultSpan) : Type 0 where
  pub unfrozen : d.ended ≡ false
  pub untimed : d.end_time ≡ none
  pub synchronous : d.in_async_mode ≡ false
  pub reused : d.reuse_count ≡ n

run-append :
    (ops rest : List Op) (s : Scene) (n : ℕ)
    → run (ops ++ rest) s n ≡ run rest (run ops s n).0 (run ops s n).1
unfolding run
run-append [] rest s n = refl
run-append (op ∷ ops) rest s n =
    run-append ops rest (after s n (step op s)).0 (after s n (step op s)).1

write-IsOpen :
    (op : Op) (s : Scene) (n c : ℕ)
    → is_write op ≡ true
    → IsOpen c s.span
    → IsOpen c (after s n (step op s)).0.span × ((after s n (step op s)).1 ≡ n)
unfolding step
write-IsOpen op s n c w o = ground (arith, o.unfrozen, w)

reuse-IsOpen : (s : Scene) (c : ℕ) → IsOpen c s.span → IsOpen (suc c) (enter_reuse s).span
unfolding enter_reuse
reuse-IsOpen s c o = ground arith

end-IsOpen :
    (s : Scene) (now n c : ℕ)
    → IsOpen (suc c) s.span
    → IsOpen c (after s n (step (ends now) s)).0.span × ((after s n (step (ends now) s)).1 ≡ n)
unfolding step end_span
end-IsOpen s now n c o = ground arith

Balanced-IsOpen :
    {ops : List Op} (b : Balanced ops) (s : Scene) (n c : ℕ)
    → IsOpen c s.span
    → IsOpen c (run ops s n).0.span × ((run ops s n).1 ≡ n)
unfolding run step
Balanced-IsOpen none_left s n c o = (o, refl)
Balanced-IsOpen (write {op} {ops} w b) s n c o =
    let (o', same) = write-IsOpen op s n c w o in
    let (o'', more) = Balanced-IsOpen b (after s n (step op s)).0 (after s n (step op s)).1 c o' in
    (o'', more ∙ same)
Balanced-IsOpen (nested now {ops} {rest} b r) s n c o =
    let s1 = enter_reuse s in
    let (o1, e1) = Balanced-IsOpen b s1 n (suc c) (reuse-IsOpen s c o) in
    let (s2, n2) = run ops s1 n in
    let (o2, e2) = end-IsOpen s2 now n2 c o1 in
    let (s3, n3) = after s2 n2 (step (ends now) s2) in
    let (o3, e3) = Balanced-IsOpen r s3 n3 c o2 in
    rw (run-append ops (ends now ∷ rest) s1 n) (o3, e3 ∙ e2 ∙ e1)

end_handed : (s : Scene) (now n : ℕ) → IsOpen 0 s.span → (after s n (step (ends now) s)).1 ≡ suc n
unfolding step end_span
end_handed s now n o = ground arith

-- From a span that is open and not reused: after any calls in which each reuse has its own later
-- `End`, nested or one after the other, it was not handed over, and the next `End` hands it over.
pub Balanced-end :
    {ops : List Op} (s : Scene) (now : ℕ)
    → Balanced ops
    → IsOpen 0 s.span
    → ((run ops s 0).1 ≡ 0) × ((run (ops ++ ends now ∷ []) s 0).1 ≡ 1)
unfolding run
Balanced-end {ops} s now b o =
    let (o', none_yet) = Balanced-IsOpen b s 0 0 o in
    let (s', n) = run ops s 0 in
    (none_yet, rw (run-append ops (ends now ∷ []) s 0) (end_handed s' now n o' ∙ ap suc none_yet))

-- What the reuse of an open span does to it.
pub enter_reuse_lem :
    (s : Scene) (name : Bytes)
    → s.span.ended ≡ false
    → enter_reuse (set_operation_name name s) ≡ record s {
      span = record (s.span) { operation_name = name; reuse_count = s.span.reuse_count + 1 };
    }
unfolding enter_reuse set_operation_name
enter_reuse_lem s name o = ground (arith, o)

pub append_ref_lem :
    (s : Scene) (ref : SpanContext)
    → s.span.ended ≡ false
    → append_ref ref s ≡ record s { span = record (s.span) { refs = s.span.refs ++ (ref ∷ []) } }
unfolding append_ref
append_ref_lem s ref o = ground (arith, o)
