-- ===== src/Profile/Tasks/Overlap.antt =====
-- The tasks of the queue do not overlap.
use skywalking_go.Base.{
  ℕ, zero, suc, ◌≡◌, ◌⊎◌, Bool, false, [], ◌∷◌, ◌++◌, List, some, ℤ, lt_int, arith, Bool-cases,
  Option-cases, inl, inr,
}
use skywalking_go.Profile.Tasks.{
  Task, Manager, Event, adds, is_due, reports, finishes, step, run, new_profile_manager,
  add_profile_task, add_task, due, try_set_current_task_and_start_profile, try_start_cpu_profiling,
  generate_current_task, stop_profile, update_event, flush_writer, read_task, send_result, end_task,
  report, remove, remove_profile_task, profile_finish, get_task,
}
use skywalking_go.Base.{All, All-append}
use skywalking_go.Profile.Tasks.{
  overlaps, overlaps_some, set_status, Status, zero_task, with_end, read_args, running, finished,
  reported,
}

-- The one ends before the other starts, or at that moment.
abbrev pub Apart : Task → Task → Type 0
Apart t u = (lt_int u.start_time t.end_time ≡ false) ⊎ (lt_int t.start_time u.end_time ≡ false)

abbrev pub NoOverlap : List Task → Type 0
NoOverlap [] = Unit
NoOverlap (t ∷ ts) = All (Apart t) ts × NoOverlap ts

overlaps-Apart : (task t : Task) → overlaps task t ≡ false → Apart t task
overlaps-Apart task t e = elim (Bool-cases (lt_int task.start_time t.end_time)) [
  | inr f ↦ inl f
  | inl f ↦ inr (ground (arith, e, f))
]

overlaps_none :
    (task : Task) (ts : List Task) → overlaps_some task ts ≡ false → All (λ t. Apart t task) ts
overlaps_none task [] e = tt
overlaps_none task (t ∷ ts) e =
    (overlaps-Apart task t (ground (arith, e)), overlaps_none task ts (ground (arith, e)))

NoOverlap-append :
    (task : Task) (ts : List Task)
    → All (λ t. Apart t task) ts
    → NoOverlap ts
    → NoOverlap (ts ++ (task ∷ []))
NoOverlap-append task [] a n = (tt, tt)
NoOverlap-append task (t ∷ ts) (a, more) (n, ns) =
    (All-append (Apart t) ts (task ∷ []) n (a, tt), NoOverlap-append task ts more ns)

All-set_status :
    (t : Task) (i : ℕ) (s : Status) (ts : List Task)
    → All (Apart t) ts
    → All (Apart t) (set_status i s ts)
All-set_status t i s [] a = tt
All-set_status t zero s (u ∷ ts) a = a
All-set_status t (suc i) s (u ∷ ts) (a, more) = (a, All-set_status t i s ts more)

NoOverlap-set_status :
    (i : ℕ) (s : Status) (ts : List Task) → NoOverlap ts → NoOverlap (set_status i s ts)
NoOverlap-set_status i s [] n = tt
NoOverlap-set_status zero s (t ∷ ts) n = n
NoOverlap-set_status (suc i) s (t ∷ ts) (n, ns) =
    (All-set_status t i s ts n, NoOverlap-set_status i s ts ns)

start-NoOverlap :
    (i : ℕ) (started : Bool) (m : Manager)
    → NoOverlap m.queue
    → NoOverlap (try_start_cpu_profiling i started m).queue
unfolding try_start_cpu_profiling
start-NoOverlap i started m n =
    let s = NoOverlap-set_status i running m.queue n in ground (arith, s, n)

set-NoOverlap :
    (i : ℕ) (now : ℤ) (started : Bool) (m : Manager)
    → NoOverlap m.queue
    → NoOverlap (try_set_current_task_and_start_profile i now started m).queue
unfolding try_set_current_task_and_start_profile generate_current_task
set-NoOverlap i now started m n =
    let s = start-NoOverlap i started (generate_current_task (get_task i m.queue) m) n in
    ground (arith, s, n)

due-NoOverlap :
    (i : ℕ) (now : ℤ) (started : Bool) (m : Manager)
    → NoOverlap m.queue
    → NoOverlap (due i now started m).queue
unfolding due
due-NoOverlap i now started m n =
    let m' : Manager = record m { timers = remove i m.timers; trace_profile_task = some i } in
    let s = set-NoOverlap i now started m' n in ground (arith, s, n)

add-NoOverlap : (task : Task) (m : Manager) → NoOverlap m.queue → NoOverlap (add_task task m).queue
unfolding add_task
add-NoOverlap task m n = elim (Bool-cases (overlaps_some task m.queue)) [
  | inl o ↦ ground (arith, o, n)
  | inr o ↦
      let s = NoOverlap-append task m.queue (overlaps_none task m.queue o) n in ground (arith, o, s)
]

report-NoOverlap : (m : Manager) → NoOverlap m.queue → NoOverlap (report m).queue
unfolding report read_task send_result end_task
report-NoOverlap m n = elim (Option-cases m.trace_profile_task) [
  | inl o ↦ ground (arith, o, n)
  | inr (i, o) ↦ let s = NoOverlap-set_status i finished m.queue n in ground (arith, o, n, s)
]

finish-NoOverlap : (m : Manager) → NoOverlap m.queue → NoOverlap (step finishes m).queue
unfolding step profile_finish
finish-NoOverlap m n = elim (Option-cases m.trace_profile_task) [
  | inl o ↦ ground (arith, o, n)
  | inr (i, o) ↦ let s = NoOverlap-set_status i reported m.queue n in ground (arith, o, s)
]

step-NoOverlap : (e : Event) (m : Manager) → NoOverlap m.queue → NoOverlap (step e m).queue
unfolding step add_profile_task stop_profile update_event flush_writer remove_profile_task
step-NoOverlap (adds args t) m n = add-NoOverlap (with_end (read_args args (zero_task, t)).0) m n
step-NoOverlap (is_due i now started) m n =
    let s = due-NoOverlap i now started m n in ground (arith, s, n)
step-NoOverlap reports m n = report-NoOverlap m n
step-NoOverlap finishes m n = finish-NoOverlap m n
step-NoOverlap e m n = ground (arith, n)

run_from-NoOverlap :
    (es : List Event) (m : Manager) → NoOverlap m.queue → NoOverlap (run es m).queue
unfolding run
run_from-NoOverlap [] m n = n
run_from-NoOverlap (e ∷ es) m n = run_from-NoOverlap es (step e m) (step-NoOverlap e m n)

-- Whatever commands come, in any order and with any times in them, of any two tasks that the manager has
-- queued since it was made, one ends before the other starts, or at that moment. The end of a task is what
-- the code computes, with an int64 of nanoseconds for its duration.
pub run-NoOverlap : (es : List Event) → NoOverlap (run es new_profile_manager).queue
unfolding new_profile_manager
run-NoOverlap es = run_from-NoOverlap es new_profile_manager tt
