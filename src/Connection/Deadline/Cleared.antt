-- ===== src/Connection/Deadline/Cleared.antt =====
-- When the deadline is cleared.
use skywalking_go.Base.{
  ℕ, zero, suc, ◌+◌, ◌*◌, ◌≤◌, ◌≡◌, refl, ap, sym, subst, ◌∙◌, Bool, true, false, [], ◌∷◌, ◌++◌,
  List, Bytes, if◌then◌else◌, length, ltb, leb, arith, Bool-cases, inl, inr, concat_map,
  append_assoc, append_nil, length-append,
}
use skywalking_go.Connection.Deadline.{
  ClearDeadlineConn, new_clear_deadline_conn, copy_at, frame_len, check_frame, read, read_all,
}

-- Whether the bytes have a whole HTTP/2 frame: 9 bytes of header, of which the first three are the
-- length of what follows.
abbrev pub has_frame : Bytes → Bool
has_frame (a ∷ b ∷ c ∷ rest) = leb (6 + (a * 65536 + b * 256 + c)) (length rest)
has_frame other = false

abbrev pad : ℕ → Bytes → Bytes
pad zero xs = []
pad (suc k) [] = 0 ∷ pad k []
pad (suc k) (x ∷ xs) = x ∷ pad k xs

copy_at-pad : (k : ℕ) (xs bs : Bytes) → copy_at (length xs) bs (pad k xs) ≡ pad k (xs ++ bs)
copy_at-pad zero xs bs = refl
copy_at-pad (suc k) [] [] = refl
copy_at-pad (suc k) [] (b ∷ bs) = ap (λ ys. b ∷ ys) (copy_at-pad k [] bs)
copy_at-pad (suc k) (x ∷ xs) bs = ap (λ ys. x ∷ ys) (copy_at-pad k xs bs)

-- The header is full.
pad-append : (k : ℕ) (xs bs : Bytes) → k ≤ length xs → pad k xs ≡ pad k (xs ++ bs)
pad-append zero xs bs h = refl
pad-append (suc k) [] bs h = ground (arith, h)
pad-append (suc k) (x ∷ xs) bs h = ap (λ ys. x ∷ ys) (pad-append k xs bs (omega (arith, h)))

has_frame-pad :
    (xs : Bytes)
    → has_frame xs
      ≡ (if leb 9 (length xs) then leb (9 + frame_len (pad 9 xs)) (length xs) else false)
has_frame-pad [] = refl
has_frame-pad (a ∷ []) = refl
has_frame-pad (a ∷ b ∷ []) = refl
has_frame-pad (a ∷ b ∷ c ∷ rest) = ground arith

has_frame-append : (xs bs : Bytes) → has_frame xs ≡ true → has_frame (xs ++ bs) ≡ true
has_frame-append [] bs h = ground (arith, h)
has_frame-append (a ∷ []) bs h = ground (arith, h)
has_frame-append (a ∷ b ∷ []) bs h = ground (arith, h)
has_frame-append (a ∷ b ∷ c ∷ rest) bs h = let l = length-append rest bs in ground (arith, h, l)

record HasRead (all : Bytes) (c : ClearDeadlineConn) : Type 0 where
  pub done : c.cleared ≡ has_frame all
  pub once : c.calls ≡ (if has_frame all then 1 else 0)
  pub counted : c.cleared ≡ false → c.count_read ≡ length all
  pub header : c.cleared ≡ false → c.hdr ≡ pad 9 all

check-HasRead :
    (all : Bytes) (c : ClearDeadlineConn)
    → c.cleared ≡ false
    → c.calls ≡ 0
    → c.count_read ≡ length all
    → c.hdr ≡ pad 9 all
    → HasRead all (check_frame c)
unfolding check_frame
check-HasRead all c d o n h =
    let p = has_frame-pad all in
    let q = ap frame_len h in
    record {
      done = ground (arith, d, n, p, q);
      once = ground (arith, o, n, p, q);
      counted = λ e. ground (arith, n, e);
      header = λ e. ground (arith, h, e);
    }

copied :
    (all b hdr : Bytes) (n : ℕ)
    → n ≡ length all
    → hdr ≡ pad 9 all
    → (if ltb n 9 then copy_at n b hdr else hdr) ≡ pad 9 (all ++ b)
copied all b hdr n e h = elim (Bool-cases (ltb n 9)) [
  | inl q ↦ rw (q, e, h) (copy_at-pad 9 all b)
  | inr q ↦ rw (q, h) (pad-append 9 all b (ground (arith, q, e)))
]

read-HasRead :
    (all b : Bytes) (c : ClearDeadlineConn) → HasRead all c → HasRead (all ++ b) (read b c)
unfolding read
read-HasRead all [] c h = subst (λ x. HasRead x c) (sym (append_nil all)) h
read-HasRead all (x ∷ b) c h = elim (Bool-cases c.cleared) [
  | inl d ↦
      let f = has_frame-append all (x ∷ b) (sym h.done ∙ d) in
      let o = h.once in
      let e = h.done in
      rw d (record {
        done = ground (arith, d, f);
        once = ground (arith, d, f, e, o);
        counted = λ k. ground (arith, d, k);
        header = λ k. ground (arith, d, k);
      })
  | inr d ↦
      let o = h.once in
      let e = h.done in
      let n = h.counted d in
      let l = length-append all (x ∷ b) in
      let c' : ClearDeadlineConn = record c {
        hdr = if ltb c.count_read 9 then copy_at c.count_read (x ∷ b) c.hdr else c.hdr;
        count_read = c.count_read + length (x ∷ b);
      } in
      let same : check_frame c' ≡ read (x ∷ b) c = ground (arith, d) in
      subst (HasRead (all ++ (x ∷ b))) same (
        check-HasRead (all ++ (x ∷ b)) c' d (ground (arith, d, e, o)) (omega (arith, n, l))
          (copied all (x ∷ b) c.hdr c.count_read n (h.header d)))
]

read_all-HasRead :
    (all : Bytes) (bs : List Bytes) (c : ClearDeadlineConn)
    → HasRead all c
    → HasRead (all ++ concat_map (λ b. b) bs) (read_all bs c)
unfolding read_all
read_all-HasRead all [] c h = subst (λ x. HasRead x c) (sym (append_nil all)) h
read_all-HasRead all (b ∷ bs) c h =
    subst (λ x. HasRead x (read_all bs (read b c))) (append_assoc all b (concat_map (λ b. b) bs))
      (read_all-HasRead (all ++ b) bs (read b c) (read-HasRead all b c h))

-- However the peer's bytes are cut into reads, also in the middle of the header: the deadline is cleared
-- as soon as, and not before, the bytes that were read have a whole first frame, and then exactly once.
pub read_all_lem :
    (bs : List Bytes)
    → ((read_all bs new_clear_deadline_conn).cleared ≡ has_frame (concat_map (λ b. b) bs))
      × ((read_all bs new_clear_deadline_conn).calls
          ≡ (if has_frame (concat_map (λ b. b) bs) then 1 else 0))
unfolding new_clear_deadline_conn
read_all_lem bs =
    let h =
      read_all-HasRead [] bs new_clear_deadline_conn
        (record { done = refl; once = refl; counted = λ e. refl; header = λ e. refl }) in
    (h.done, h.once)
