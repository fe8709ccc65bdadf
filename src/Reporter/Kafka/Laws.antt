-- ===== src/Reporter/Kafka/Laws.antt =====
-- What the Kafka reporter writes.
use skywalking_go.Base.{
  ℕ, zero, suc, ◌+◌, ◌%◌, ◌/◌, ◌≤◌, ◌≡◌, refl, subst, true, ◌||◌, [], ◌∷◌, ◌++◌, List,
  if◌then◌else◌, length, leb, ◌==◌, arith, List-cases, Bool-cases, inl, inr, length-append,
}
use skywalking_go.Reporter.Kafka.{
  Written, write_fails, SendLoop, write_fails_of, write_one, round, rounds, Management, properties,
  ping, Attempt, fails, panics_out, succeeds, Check, new_check, send_ping, check_once, check_rounds,
  sends_ping,
}

abbrev pub all_fail : ℕ → List Written
all_fail zero = []
all_fail (suc n) = write_fails ∷ all_fail n

module _ {M : Type 0} where
  fail_once :
      (l : SendLoop M)
      → 1 ≤ length l.send_ch
      → ((round write_fails l).consecutive_errors ≡ l.consecutive_errors + 1)
        × (length (round write_fails l).send_ch + 1 ≡ length l.send_ch)
        × ((round write_fails l).logged ≡ (
            if (l.consecutive_errors + 1 == 1) || ((l.consecutive_errors + 1) % 30 == 0)
            then l.logged + 1
            else l.logged))
  unfolding round write_one write_fails_of
  fail_once l h = elim (List-cases l.send_ch) [
    | inl e ↦ ground (arith, h, e)
    | inr (s, rest, e) ↦ ground (arith, e)
  ]

  fails_log :
      (n : ℕ) (l : SendLoop M)
      → n ≤ length l.send_ch
      → (rounds (all_fail n) l).logged
          + (if leb 1 l.consecutive_errors then 1 else 0)
          + l.consecutive_errors / 30
        ≡ l.logged
          + (if leb 1 (l.consecutive_errors + n) then 1 else 0)
          + (l.consecutive_errors + n) / 30
  unfolding rounds
  fails_log zero l h = ground arith
  fails_log (suc n) l h =
      let (errors, shorter, logs) = fail_once l (omega (arith, h)) in
      let i = fails_log n (round write_fails l) (omega (arith, h, shorter)) in
      ground (arith, errors, logs, i)

  -- While the writer fails, the log gets the first error and then one of thirty: `n` failures after each
  -- other, of the first `n` messages that wait, are logged 1 + n / 30 times.
  pub failures_logged :
      (n : ℕ) (l : SendLoop M)
      → 1 ≤ n
      → n ≤ length l.send_ch
      → l.consecutive_errors ≡ 0
      → (rounds (all_fail n) l).logged ≡ l.logged + 1 + n / 30
  failures_logged n l p h z = let i = fails_log n l h in ground (arith, i, z, p)

-- Nothing was written, or the properties first.
abbrev pub StartsWithProperties : List Management → Type 0
StartsWithProperties [] = Unit
StartsWithProperties (properties ∷ ms) = Unit
StartsWithProperties (ping ∷ ms) = ⊥

-- The backend learns of the instance before it is pinged.
pub record IsOrdered (c : Check) : Type 0 where
  pub starts : StartsWithProperties c.log
  pub submitted : c.instance_properties_submitted ≡ true → 1 ≤ length c.log

Starts-append :
    (ms ns : List Management)
    → StartsWithProperties ms
    → (length ms ≡ 0 → StartsWithProperties ns)
    → StartsWithProperties (ms ++ ns)
Starts-append [] ns h k = k refl
Starts-append (properties ∷ ms) ns h k = tt
Starts-append (ping ∷ ms) ns h k = h

sent_ping-IsOrdered :
    (b : Attempt) (c : Check)
    → StartsWithProperties c.log
    → 1 ≤ length c.log
    → IsOrdered (send_ping b c)
unfolding send_ping
sent_ping-IsOrdered b c s l =
    let n = length-append c.log (sends_ping b) in
    record {
      starts = Starts-append c.log (sends_ping b) s (λ z. ground (arith, l, z));
      submitted = λ e. omega (arith, n, l);
    }

check_once-IsOrdered : (a b : Attempt) (c : Check) → IsOrdered c → IsOrdered (check_once a b c)
unfolding check_once
check_once-IsOrdered a b c h = elim (Bool-cases c.instance_properties_submitted) [
  | inl e ↦
      let same : send_ping b c ≡ check_once a b c = ground (arith, e) in
      subst IsOrdered same (sent_ping-IsOrdered b c h.starts (h.submitted e))
  | inr e ↦ elim a as (λ a. IsOrdered (check_once a b c)) [
    | fails ↦ rw (check_once, e) (record { starts = h.starts; submitted = λ k. ground (arith, k) })
    | panics_out ↦
        (let same : c ≡ check_once panics_out b c = ground (arith, e) in subst IsOrdered same h)
    | succeeds ↦
        let n = length-append c.log (properties ∷ []) in
        let c' : Check = record c { log = c.log ++ (properties ∷ []) } in
        let same : send_ping b c' ≡ check_once succeeds b c = ground (arith, e) in
        subst IsOrdered same (
          sent_ping-IsOrdered b c' (Starts-append c.log (properties ∷ []) h.starts (λ z. tt))
            (omega (arith, n)))
  ]
]

check_rounds_from-IsOrdered :
    (rs : List (Attempt × Attempt)) (c : Check) → IsOrdered c → IsOrdered (check_rounds rs c)
unfolding check_rounds
check_rounds_from-IsOrdered [] c h = h
check_rounds_from-IsOrdered ((a, b) ∷ rs) c h =
    check_rounds_from-IsOrdered rs (check_once a b c) (check_once-IsOrdered a b c h)

-- Whatever fails or panics in the rounds, the first message for the backend are the properties of the
-- instance, and no ping comes before them.
pub check_rounds-IsOrdered : (rs : List (Attempt × Attempt)) → IsOrdered (check_rounds rs new_check)
unfolding new_check
check_rounds-IsOrdered rs =
    check_rounds_from-IsOrdered rs new_check
      (record { starts = tt; submitted = λ e. ground (arith, e) })
