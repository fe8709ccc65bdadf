-- ===== src/Reporter/AuthFailure.antt =====
-- plugins/core/reporter/auth_failure_log.go: the log of calls that the backend rejects, at most one in
-- 30 seconds. Times are in nanoseconds, of a clock that may also go back.
use skywalking_go.Base.{
  ℕ, ◌+◌, ◌-◌, ◌≤◌, ◌≡◌, refl, Bool, true, false, [], ◌∷◌, List, Option, none, some, if◌then◌else◌,
  length, ltb, arith, Any, inl, inr,
}

-- What `status.FromError` makes of an error, as far as `note` tells it apart; `no_error` also for one
-- without a status.
pub data Code : Type 0 where
  no_error unauthenticated permission_denied other_code : Code

-- `logged` are the times of the logs, the latest one first.
pub record AuthFailureLogger : Type 0 where
  pub last_time : Option ℕ
  pub logged : List ℕ

pub new_auth_failure_logger : AuthFailureLogger
new_auth_failure_logger = record { last_time = none; logged = [] }

abbrev pub auth_failure_log_interval : ℕ
auth_failure_log_interval = 30000000000

abbrev pub is_rejection : Code → Bool
is_rejection unauthenticated = true
is_rejection permission_denied = true
is_rejection other = false

abbrev is_recent : ℕ → Option ℕ → Bool
is_recent now none = false
is_recent now (some t) = ltb (now - t) auth_failure_log_interval

-- `note`, which holds its lock, at the time `now`.
pub note : ℕ → Code → AuthFailureLogger → AuthFailureLogger
note now c a =
    if is_rejection c
    then (if is_recent now a.last_time
        then a
        else record { last_time = some now; logged = now ∷ a.logged })
    else a

pub note_all : List (ℕ × Code) → AuthFailureLogger → AuthFailureLogger
unfolding note
note_all [] a = a
note_all ((now, c) ∷ ns) a = note_all ns (note now c a)

-- Each log is at least the interval after the one before it.
abbrev pub AreSpaced : List ℕ → Type 0
AreSpaced [] = Unit
AreSpaced (t ∷ []) = Unit
AreSpaced (t ∷ u ∷ ts) = (u + auth_failure_log_interval ≤ t) × AreSpaced (u ∷ ts)

abbrev head : List ℕ → Option ℕ
head [] = none
head (t ∷ ts) = some t

record IsSound (a : AuthFailureLogger) : Type 0 where
  pub last_logged : a.last_time ≡ head a.logged
  pub spaced : AreSpaced a.logged

spaced_next :
    (now : ℕ) (ts : List ℕ) → is_recent now (head ts) ≡ false → AreSpaced ts → AreSpaced (now ∷ ts)
spaced_next now [] r s = tt
spaced_next now (t ∷ ts) r s = (ground (arith, r), s)

note-IsSound : (now : ℕ) (c : Code) (a : AuthFailureLogger) → IsSound a → IsSound (note now c a)
unfolding note
note-IsSound now c a h =
    let l = h.last_logged in
    let s = h.spaced in
    let n = spaced_next now a.logged in
    record { last_logged = ground (arith, l); spaced = ground (arith, l, s, n) }

note_all-IsSound :
    (ns : List (ℕ × Code)) (a : AuthFailureLogger) → IsSound a → IsSound (note_all ns a)
unfolding note_all
note_all-IsSound [] a h = h
note_all-IsSound ((now, c) ∷ ns) a h = note_all-IsSound ns (note now c a) (note-IsSound now c a h)

note_grows :
    (now : ℕ) (c : Code) (a : AuthFailureLogger) → length a.logged ≤ length (note now c a).logged
unfolding note
note_grows now c a = ground arith

note_all_grows :
    (ns : List (ℕ × Code)) (a : AuthFailureLogger) → length a.logged ≤ length (note_all ns a).logged
unfolding note_all
note_all_grows [] a = omega arith
note_all_grows ((now, c) ∷ ns) a =
    let h = note_grows now c a in let k = note_all_grows ns (note now c a) in omega (arith, h, k)

rejection_logged :
    (now : ℕ) (c : Code) (a : AuthFailureLogger)
    → IsSound a
    → is_rejection c ≡ true
    → 1 ≤ length (note now c a).logged
unfolding note
rejection_logged now c a h r = let l = h.last_logged in ground (arith, l, r)

some_rejection_logged :
    (ns : List (ℕ × Code)) (a : AuthFailureLogger)
    → IsSound a
    → Any (λ n. is_rejection n.1 ≡ true) ns
    → 1 ≤ length (note_all ns a).logged
unfolding note_all
some_rejection_logged [] a h n = elim n [ ]
some_rejection_logged ((now, c) ∷ ns) a h (inl r) =
    let k = note_all_grows ns (note now c a) in
    let l = rejection_logged now c a h r in omega (arith, k, l)
some_rejection_logged ((now, c) ∷ ns) a h (inr n) =
    some_rejection_logged ns (note now c a) (note-IsSound now c a h) n

-- For any calls, at any times, also of a clock that goes back: each log of a rejected call is at least 30
-- seconds after the one before, and when some call was rejected there is a log.
pub note_all_lem :
    (ns : List (ℕ × Code))
    → AreSpaced (note_all ns new_auth_failure_logger).logged
      × (Any (λ n. is_rejection n.1 ≡ true) ns
          → 1 ≤ length (note_all ns new_auth_failure_logger).logged)
unfolding new_auth_failure_logger
note_all_lem ns =
    let h : IsSound new_auth_failure_logger = record { last_logged = refl; spaced = tt } in
    (
      (note_all-IsSound ns new_auth_failure_logger h).spaced,
      some_rejection_logged ns new_auth_failure_logger h,
    )
