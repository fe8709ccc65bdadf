-- ===== src/Creation/Numbers.antt =====
-- The span identifiers of a segment.
use skywalking_go.Base.{
  ℕ, suc, ◌+◌, ◌<◌, ◌≡◌, ◌≢◌, ◌⊎◌, inl, inr, refl, sym, subst, Bool, true, false, [], ◌∷◌, List,
  Option, none, some, ℤ, pos, negsuc, Bytes, get_or, length, length-append, arith, Bool-cases,
  if◌then◌else◌, ◌==◌, ◌&&◌, not, All, All-imp, AllDistinct,
}
use skywalking_go.Identity.{Reading}
use skywalking_go.Propagation.{SpanContext}
use skywalking_go.Segment.{segment_register, inc_int32}
use skywalking_go.Span.{SpanRef}
use skywalking_go.Creation.{
  Cells, Heap, SegmentContext, create_child_context, ensure_correlation, create_first_context,
  no_cells, new_segment_span, create_root_segment_context,
}
use skywalking_go.Base.Memory.{put, get_or-put, length-put, get_or-put_other, get_or-append}

-- One call of `NewSegmentSpan`.
pub record Call : Type 0 where
  pub span : SpanRef
  pub refs : List SpanContext
  pub parent : Option SegmentContext
  pub now : Reading
  pub later : Reading

-- The identifiers that the calls give to spans in the segment with the counters `k`.
pub span_ids : Bytes → ℕ → List Call → Heap → List ℤ
span_ids instance_id k [] h = []
span_ids instance_id k (c ∷ cs) h =
    let ((ctx, root), h') = new_segment_span instance_id c.span c.refs c.parent c.now c.later h in
    if (ctx.shared == k) && not root
    then ctx.span_id ∷ span_ids instance_id k cs h'
    else span_ids instance_id k cs h'

generator : ℕ → Heap → ℤ
generator k h = (get_or h.cells k no_cells).span_id_generator

-- What becomes of the counter `k` when a segment with the counters `shared` makes a child.
Counts : ℕ → ℕ → ℕ → Heap → Type 0
Counts k shared n h =
    (k < length h.cells) × (generator k h ≡ (if shared == k then pos (suc n) else pos n))

child-Counts :
    (s : SpanRef) (k n : ℕ) (parent : SegmentContext) (h : Heap)
    → n < 2147483647
    → k < length h.cells
    → generator k h ≡ pos n
    → (Counts k parent.shared n (create_child_context s parent h).1)
      × ((create_child_context s parent h).0.shared ≡ parent.shared)
      × (parent.shared ≡ k → (create_child_context s parent h).0.span_id ≡ pos (suc n))
unfolding create_child_context ensure_correlation inc_int32 generator Counts
child-Counts s k n parent h b l g =
    let cell = get_or h.cells parent.shared no_cells in
    let cell' : Cells = record cell { span_id_generator = inc_int32 cell.span_id_generator } in
    let len = length-put parent.shared cell' h.cells in
    let new = get_or-put parent.shared cell' no_cells h.cells in
    let old = get_or-put_other parent.shared k cell' no_cells h.cells in
    ground (arith, b, l, g, len, new, old)

-- To write the other counter leaves this one.
put-Counts :
    (k i n : ℕ) (r : ℤ) (h : Heap)
    → Counts k i n h
    → Counts k i n
        (record h { cells = put i (record (get_or h.cells i no_cells) { ref_num = r }) h.cells })
unfolding generator Counts
put-Counts k i n r h (l, g) =
    let cell : Cells = record (get_or h.cells i no_cells) { ref_num = r } in
    let len = length-put i cell h.cells in
    let new = get_or-put i cell no_cells h.cells in
    let old = get_or-put_other i k cell no_cells h.cells in ground (arith, l, g, len, new, old)

root-Counts :
    (instance_id : Bytes) (r : Reading) (ctx : SegmentContext) (k i n : ℕ) (h : Heap)
    → Counts k i n h
    → Counts k i n (create_root_segment_context instance_id r ctx h).1
unfolding create_root_segment_context generator Counts
root-Counts instance_id r ctx k i n h (l, g) =
    let len = length-append h.cells (no_cells ∷ []) in
    let same = get_or-append k no_cells h.cells (no_cells ∷ []) l in ground (arith, l, g, len, same)

first_cells :
    (instance_id : Bytes) (s : SpanRef) (refs : List SpanContext) (r : Reading) (h : Heap)
    → (create_first_context instance_id s refs r h).1.cells ≡ h.cells
unfolding create_first_context
first_cells instance_id s [] r h = refl
first_cells instance_id s (ref ∷ refs) r h = refl

-- What a call does to the counter `k`, and the number that a span in its segment gets.
IsCounted : ℕ → ℕ → (SegmentContext × Bool) × Heap → Type 0
IsCounted k n ((ctx, root), h) =
    (k < length h.cells)
    × ((generator k h ≡ pos n) ⊎ (generator k h ≡ pos (suc n)))
    × (((ctx.shared == k) && not root) ≡ true
        → (generator k h ≡ pos (suc n)) × (ctx.span_id ≡ pos (suc n)))

counted :
    (instance_id : Bytes) (k n : ℕ) (s : SpanRef) (refs : List SpanContext)
    (parent : Option SegmentContext) (r r' : Reading) (h : Heap)
    → n < 2147483647
    → k < length h.cells
    → generator k h ≡ pos n
    → IsCounted k n (new_segment_span instance_id s refs parent r r' h)
unfolding new_segment_span IsCounted generator Counts
counted instance_id k n s refs none r r' h b l g =
    let (ctx, h') = create_first_context instance_id s refs r h in
    let same = first_cells instance_id s refs r h in
    let root = root-Counts instance_id r' ctx k (suc k) n h' (rw same l, ground (arith, g, same)) in
    ground (arith, root)
counted instance_id k n s refs (some parent) r r' h b l g =
    let (ctx, h') = create_child_context s parent h in
    let (counts, same, number) = child-Counts s k n parent h b l g in
    let reg = segment_register (get_or h'.cells parent.shared no_cells).ref_num in
    let put = put-Counts k parent.shared n reg.0 h' counts in
    let root = root-Counts instance_id r' ctx k parent.shared n h' counts in
    elim (Bool-cases reg.1) [
      | inl e ↦ ground (arith, e, put, same, number)
      | inr e ↦ ground (arith, e, root, same, number)
    ]

IsAbove : ℕ → ℤ → Type 0
IsAbove n (pos m) = n < m
IsAbove n (negsuc m) = ⊥

IsAbove-imp : (n : ℕ) (i : ℤ) → IsAbove (suc n) i → IsAbove n i
unfolding IsAbove
IsAbove-imp n (pos m) a = omega (arith, a)
IsAbove-imp n (negsuc m) a = elim a [ ]

IsAbove-distinct : (n : ℕ) (i : ℤ) → IsAbove (suc n) i → pos (suc n) ≢ i
unfolding IsAbove
IsAbove-distinct n (pos m) a e = ground (arith, a, e)
IsAbove-distinct n (negsuc m) a e = elim a [ ]

abbrev Numbered : ℕ → List ℤ → Type 0
Numbered n ids = All (IsAbove n) ids × AllDistinct ids

weaken : (n : ℕ) (ids : List ℤ) → Numbered (suc n) ids → Numbered n ids
weaken n ids (a, d) = (All-imp (IsAbove-imp n) ids a, d)

extend : (n : ℕ) (ids : List ℤ) → Numbered (suc n) ids → Numbered n (pos (suc n) ∷ ids)
unfolding IsAbove
extend n ids (a, d) =
    ((omega arith, All-imp (IsAbove-imp n) ids a), (All-imp (IsAbove-distinct n) ids a, d))

taken :
    (n : ℕ) (mine : Bool) (i : ℤ) (ids : List ℤ)
    → (mine ≡ true → (i ≡ pos (suc n)) × Numbered (suc n) ids)
    → Numbered n ids
    → Numbered n (if mine then i ∷ ids else ids)
taken n true i ids new old =
    let (e, more) = new refl in subst (λ j. Numbered n (j ∷ ids)) (sym e) (extend n ids more)
taken n false i ids new old = old

span_ids-Numbered :
    (instance_id : Bytes) (k n : ℕ) (cs : List Call) (h : Heap)
    → n + length cs < 2147483648
    → k < length h.cells
    → generator k h ≡ pos n
    → Numbered n (span_ids instance_id k cs h)
unfolding span_ids IsCounted
span_ids-Numbered instance_id k n [] h b l g = (tt, tt)
span_ids-Numbered instance_id k n (c ∷ cs) h b l g =
    let r = new_segment_span instance_id c.span c.refs c.parent c.now c.later h in
    let ((ctx, root), h') = r in
    let (l', either, number) =
      counted instance_id k n c.span c.refs c.parent c.now c.later h (omega (arith, b)) l g in
    let rest : Numbered n (span_ids instance_id k cs h') = elim either [
      | inl e ↦ span_ids-Numbered instance_id k n cs h' (omega (arith, b)) l' e
      | inr e ↦
          weaken n (span_ids instance_id k cs h')
            (span_ids-Numbered instance_id k (suc n) cs h' (omega (arith, b)) l' e)
    ] in
    taken n ((ctx.shared == k) && not root) ctx.span_id (span_ids instance_id k cs h')
      (λ e.
        let (g', i) = number e in
        (i, span_ids-Numbered instance_id k (suc n) cs h' (omega (arith, b)) l' g'))
      rest

positive : (i : ℤ) → IsAbove 0 i → pos 0 ≢ i
unfolding IsAbove
positive (pos m) a e = ground (arith, a, e)
positive (negsuc m) a e = elim a [ ]

-- In one segment no two spans have the same identifier, and none of them has that of the root, 0:
-- whatever spans are made on the way, in this segment or in others, by fewer than 2 ^ 31 calls.
pub span_ids-AllDistinct :
    (instance_id : Bytes) (k : ℕ) (cs : List Call) (h : Heap)
    → length cs < 2147483648
    → k < length h.cells
    → (get_or h.cells k no_cells).span_id_generator ≡ pos 0
    → All (λ i. pos 0 ≢ i) (span_ids instance_id k cs h) × AllDistinct (span_ids instance_id k cs h)
unfolding generator IsAbove
span_ids-AllDistinct instance_id k cs h b l g =
    let (a, d) = span_ids-Numbered instance_id k 0 cs h (omega (arith, b)) l g in
    (All-imp positive (span_ids instance_id k cs h) a, d)
