-- ===== src/Profile/Tasks/Blocked.antt =====
-- A CPU profile that the runtime refuses to start.
use skywalking_go.Base.{ℕ, ◌≡◌, Bool, true, false, [], ◌∷◌, List, none, some, ℤ, arith}
use skywalking_go.Profile.Tasks.{
  Manager, Event, is_due, step, run, add_profile_task, add_task, due,
  try_set_current_task_and_start_profile, try_start_cpu_profiling, generate_current_task, reports,
  read_task, send_result, end_task, report, remove, remove_profile_task, profile_finish, is_over,
}
use skywalking_go.Profile.Tasks.Invariant.{
  is_some, IsQuiet, no_task-IsQuiet, IsSound, step-IsSound, due-IsSound, could_set,
}

-- There is a current task, but no profile runs for it and no last chunk is on the way.
pub record IsBlocked (m : Manager) : Type 0 where
  pub sound : IsSound m
  pub taken : is_some m.current_task ≡ true
  pub quiet : IsQuiet m

set_blocked :
    (i : ℕ) (now : ℤ) (started : Bool) (m : Manager)
    → IsBlocked m
    → try_set_current_task_and_start_profile i now started m ≡ m
unfolding try_set_current_task_and_start_profile
set_blocked i now started m h =
    let c = could_set m h.sound in let t = h.taken in ground (arith, c, t)

due_blocked :
    (i : ℕ) (now : ℤ) (started : Bool) (m : Manager)
    → IsBlocked m
    → (is_some (due i now started m).current_task ≡ true) × IsQuiet (due i now started m)
unfolding due
due_blocked i now started m h =
    let m' : Manager = record m { timers = remove i m.timers; trace_profile_task = some i } in
    let same = set_blocked i now started m' (record {
      sound = record { runs = h.sound.runs; tracked = h.sound.tracked; bounded = h.sound.bounded };
      taken = h.taken;
      quiet = h.quiet;
    }) in
    let t = h.taken in let q = h.quiet in ground (arith, same, t, q)

report_blocked :
    (m : Manager) → IsBlocked m → (is_some (report m).current_task ≡ true) × IsQuiet (report m)
unfolding report read_task send_result end_task
report_blocked m h = let t = h.taken in let q = h.quiet in ground (arith, t, q)

step_blocked :
    (e : Event) (m : Manager)
    → IsBlocked m
    → (is_some (step e m).current_task ≡ true) × IsQuiet (step e m)
unfolding step add_profile_task add_task remove_profile_task profile_finish
step_blocked (is_due i now started) m h =
    let d = due_blocked i now started m h in
    let t = h.taken in let q = h.quiet in ground (arith, d, t, q)
step_blocked reports m h = report_blocked m h
step_blocked e m h = let t = h.taken in let q = h.quiet in ground (arith, t, q)

run_blocked : (es : List Event) (m : Manager) → IsBlocked m → (run es m).cpu ≡ false
unfolding run
run_blocked [] m h = h.quiet.0
run_blocked (e ∷ es) m h =
    let (t, q) = step_blocked e m h in
    run_blocked es (step e m) (record { sound = step-IsSound e m h.sound; taken = t; quiet = q })

due-IsBlocked :
    (i : ℕ) (now : ℤ) (m : Manager)
    → IsSound m
    → m.trace_profile_task ≡ none
    → m.current_task ≡ none
    → IsBlocked (due i now false m)
unfolding due try_set_current_task_and_start_profile generate_current_task try_start_cpu_profiling
    is_over
due-IsBlocked i now m h t c =
    let m' : Manager = record m { timers = remove i m.timers; trace_profile_task = some i } in
    let g = could_set m' (record { runs = h.runs; tracked = h.tracked; bounded = h.bounded }) in
    let q = no_task-IsQuiet m h (ground (arith, c)) in
    record {
      sound = due-IsSound i now false m h;
      taken = ground (arith, t, c, g, q);
      quiet = ground (arith, t, c, g, q);
    }

-- When the runtime refuses to start the CPU profile of a pending task, which becomes the current one,
-- no later task is ever profiled, whatever comes after, and however long one waits.
pub refused_start_blocks :
    (i : ℕ) (now : ℤ) (m : Manager) (es : List Event)
    → IsSound m
    → m.trace_profile_task ≡ none
    → m.current_task ≡ none
    → (run es (due i now false m)).cpu ≡ false
refused_start_blocks i now m es h t c =
    run_blocked es (due i now false m) (due-IsBlocked i now m h t c)
