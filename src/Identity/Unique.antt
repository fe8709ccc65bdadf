-- ===== src/Identity/Unique.antt =====
-- The identifiers of one context do not repeat within ten thousand calls, whatever the clock does.
use skywalking_go.Base.{
  ℕ, suc, ◌+◌, ◌%◌, ◌^◌, ◌≤◌, ◌<◌, ◌≡◌, refl, sym, ap, subst, ◌∙◌, [], ◌∷◌, List, ℤ, pos, Bytes,
  All, AllDistinct, All-imp, length, arith, false, get_or, negsuc, if◌then◌else◌,
}
use skywalking_go.Text.Parts.{join, split, Without, split-join}
use skywalking_go.Text.Number.{itoa, parse_int, parsed}
use skywalking_go.Text.Number.Laws.{parse_int-itoa, itoa-IsDigit}
use skywalking_go.Identity.{
  is_zero, IdContext, Reading, next_id, next_ids, generate_global_id, global_ids,
}
use skywalking_go.Identity.Sequence.{time_limit, IsValid, next_id-IsValid, next_id_residue}

abbrev pub InTime : ℕ → Type 0
InTime now = now < time_limit

-- An identifier of a call that comes after at least one and at most `n` further calls.
abbrev Follows : ℕ → ℕ → ℕ → Type 0
Follows seq n id = (i : ℕ) × (1 ≤ i) × (i ≤ n) × (id % 10000 ≡ (seq + i) % 10000)

next_ids-Follows :
    (c : IdContext) (nows : List ℕ)
    → IsValid c
    → All InTime nows
    → c.shift + length nows < time_limit
    → All (Follows c.seq (length nows)) (next_ids c nows)
unfolding next_ids
next_ids-Follows c [] v t s = tt
next_ids-Follows c (now ∷ nows) v t s =
    let (r, r', fits) = next_id_residue c now v t.0 (omega arith) in
    let (v', s') = next_id-IsValid c now v t.0 (omega arith) in
    let rest = next_ids-Follows (next_id c now).1 nows v' t.1 (omega arith) in
    (
      (1, omega arith, omega arith, r),
      All-imp (λ id f. (f.0 + 1, omega arith, omega arith, omega arith)) _ rest,
    )

-- Within ten thousand calls no identifier comes twice, whatever the clock readings are, as long as
-- times fit and the clock has not gone back so often that the count of it does not.
pub next_ids-AllDistinct :
    (c : IdContext) (nows : List ℕ)
    → IsValid c
    → All InTime nows
    → c.shift + length nows < time_limit
    → length nows ≤ 10000
    → AllDistinct (next_ids c nows)
unfolding next_ids
next_ids-AllDistinct c [] v t s n = tt
next_ids-AllDistinct c (now ∷ nows) v t s n =
    let (r, r', fits) = next_id_residue c now v t.0 (omega arith) in
    let (v', s') = next_id-IsValid c now v t.0 (omega arith) in
    let rest = next_ids-Follows (next_id c now).1 nows v' t.1 (omega arith) in
    (
      All-imp (λ id f e. omega arith) _ rest,
      next_ids-AllDistinct (next_id c now).1 nows v' t.1 (omega arith) (omega arith),
    )

itoa-Without_dot : (z : ℤ) → Without b'.' (itoa z)
itoa-Without_dot z = elim z as (λ z. Without b'.' (itoa z)) [
  | pos n ↦ digits (itoa (pos n)) (itoa-IsDigit n)
  | negsuc n ↦ unfold itoa in (omega arith, digits _ (itoa-IsDigit (suc n)))
]
  where
    digits : (t : Bytes) → All (λ c. (b'0' ≤ c) × (c ≤ b'9')) t → Without b'.' t
    digits [] h = tt
    digits (c ∷ t) h = (omega arith, digits t h.1)

parsed-injective : {a b : ℕ} → parsed (pos a) ≡ parsed (pos b) → a ≡ b
parsed-injective e = cc

itoa-injective : (a b : ℕ) → a < 2 ^ 63 → b < 2 ^ 63 → itoa (pos a) ≡ itoa (pos b) → a ≡ b
itoa-injective a b ha hb e = parsed-injective (
    sym (parse_int-itoa false 64 a ha (omega arith))
    ∙ ap (parse_int false 64) e
    ∙ parse_int-itoa false 64 b hb (omega arith))

-- The text ends in the number.
abbrev Spells : Bytes → Bytes → ℕ → Type 0
Spells instance_id text id =
    (g : ℤ) × (text ≡ join b'.' (instance_id ∷ itoa g ∷ itoa (pos id) ∷ [])) × (id < 2 ^ 63)

Spells-injective :
    (instance_id text : Bytes) (a b : ℕ)
    → Without b'.' instance_id
    → Spells instance_id text a
    → Spells instance_id text b
    → a ≡ b
Spells-injective inst text a b w (g, e, ha) (g', e', hb) = itoa-injective a b ha hb (
    ap (λ parts. get_or parts 2 [])
      (sym (
          split-join b'.' inst (itoa g ∷ itoa (pos a) ∷ [])
            (w, (itoa-Without_dot g, (itoa-Without_dot (pos a), tt))))
        ∙ ap (split b'.') (sym e ∙ e')
        ∙ split-join b'.' inst (itoa g' ∷ itoa (pos b) ∷ [])
            (w, (itoa-Without_dot g', (itoa-Without_dot (pos b), tt)))))

module _ (instance_id : Bytes) where
  abbrev TextFollows : ℕ → ℕ → Bytes → Type 0
  TextFollows seq n text = (id : ℕ) × Spells instance_id text id × Follows seq n id

  abbrev pub ReadInTime : Reading → Type 0
  ReadInTime r = InTime r.now

  generate_global_id_lem :
      (c : IdContext) (r : Reading)
      → IsValid c
      → InTime r.now
      → c.shift + 1 < time_limit
      → ((id : ℕ) × Spells instance_id (generate_global_id instance_id c r).0 id
          × (id % 10000 ≡ (c.seq + 1) % 10000))
        × (((generate_global_id instance_id c r).1.seq % 10000 ≡ (c.seq + 1) % 10000)
            × IsValid (generate_global_id instance_id c r).1
            × ((generate_global_id instance_id c r).1.shift ≤ c.shift + 1))
  unfolding generate_global_id
  generate_global_id_lem c r v t s =
      let g = (if is_zero c.goid then r.go_id else c.goid) in
      let c' = record c { goid = g } in
      let v' : IsValid c' = record { bounded = v.bounded; recent = v.recent } in
      let (e, e', fits) = next_id_residue c' r.now v' t (omega arith) in
      let (v'', s'') = next_id-IsValid c' r.now v' t (omega arith) in
      (((next_id c' r.now).0, (g, refl, fits), e), (e', v'', s''))

  global_ids-TextFollows :
      (c : IdContext) (rs : List Reading)
      → IsValid c
      → All ReadInTime rs
      → c.shift + length rs < time_limit
      → All (TextFollows c.seq (length rs)) (global_ids instance_id c rs)
  unfolding global_ids
  global_ids-TextFollows c [] v t s = tt
  global_ids-TextFollows c (r ∷ rs) v t s =
      let ((id, sp, e), (e', v', s')) = generate_global_id_lem c r v t.0 (omega arith) in
      let c' = (generate_global_id instance_id c r).1 in
      let rest = global_ids-TextFollows c' rs v' t.1 (omega arith) in
      (
        (id, sp, (1, omega arith, omega arith, e)),
        All-imp (λ text f. (f.0, f.1, (f.2.0 + 1, omega arith, omega arith, omega arith))) _ rest,
      )

  -- The texts of at most ten thousand calls on one context are all different, whatever the clock
  -- reads, if the instance id holds no dot, times fit, and so does the count of steps back.
  pub global_ids-AllDistinct :
      (c : IdContext) (rs : List Reading)
      → Without b'.' instance_id
      → IsValid c
      → All ReadInTime rs
      → c.shift + length rs < time_limit
      → length rs ≤ 10000
      → AllDistinct (global_ids instance_id c rs)
  unfolding global_ids
  global_ids-AllDistinct c [] w v t s n = tt
  global_ids-AllDistinct c (r ∷ rs) w v t s n =
      let ((id, sp, e), (e', v', s')) = generate_global_id_lem c r v t.0 (omega arith) in
      let c' = (generate_global_id instance_id c r).1 in
      let text = (generate_global_id instance_id c r).0 in
      (
        All-imp
            (λ other f same.
              let same_id =
                Spells-injective instance_id other id f.0 w
                  (subst (λ x. Spells instance_id x id) same sp) f.1 in
              let (i, lo, hi, r') = f.2 in omega arith)
            _ (global_ids-TextFollows c' rs v' t.1 (omega arith)),
        global_ids-AllDistinct c' rs w v' t.1 (omega arith) (omega arith),
      )
