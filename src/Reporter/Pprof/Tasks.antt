-- ===== src/Reporter/Pprof/Tasks.antt =====
-- Which pprof tasks run.
use skywalking_go.Base.{
  if◌then◌else◌, ℕ, zero, suc, ◌+◌, ◌≡◌, refl, sym, subst, Bool, false, [], ◌∷◌, List, some, ℤ,
  lt_int, lt_int_irrefl, lt_int_asym, not_lt_trans, Bytes, All, arith, Bool-cases, Option-cases,
  inl, inr,
}
use skywalking_go.Reporter.Pprof.{
  PprofTask, task_error, PprofTaskManager, new_pprof_task_manager, deserialize_pprof_task_command,
  is_event, check_command, start_task, stop_task, run_command, handle_command, take_timer, Event,
  handles, stops, uploads, step, run,
}
use skywalking_go.Reporter.Pprof.Started.{
  bit, cpu_tasks, IsRunnable, IsSound, report_keeps, stop_counts, agree-IsSound,
  run_command-IsSound,
}

handle-IsSound :
    (writer cpu : Bool) (content : Bytes) (args : List (Bytes × Bytes)) (m : PprofTaskManager)
    → IsSound m
    → IsSound (handle_command writer cpu content args m)
unfolding handle_command
handle-IsSound writer cpu content args m h =
    let c = deserialize_pprof_task_command args in
    let m' : PprofTaskManager = record m { last_update_time = c.create_time } in
    let h' : IsSound m' = agree-IsSound m m' refl refl h in
    elim (Bool-cases (lt_int m.last_update_time c.create_time)) [
      | inr z ↦ rw (handle_command, z) h
      | inl z ↦ elim (Bool-cases (check_command c)) [
        | inr k ↦ rw (handle_command, z, k) h'
        | inl k ↦ rw (handle_command, z, k) (run_command-IsSound writer cpu content c m' k h')
      ]
    ]

taken_timer :
    (i : ℕ) (cs : List PprofTask) (c : PprofTask) (ds : List PprofTask)
    → take_timer i cs ≡ some (c, ds)
    → All IsRunnable cs
    → (cpu_tasks cs ≡ bit (is_event c.events "cpu") + cpu_tasks ds) × All IsRunnable ds
taken_timer i [] c ds e h = ground (arith, e)
taken_timer zero (d ∷ cs) c ds e (_, h) =
    let t : cs ≡ ds = ground (arith, e) in (ground (arith, e), subst (All IsRunnable) t h)
taken_timer (suc i) (d ∷ cs) c ds e (g, h) = elim (Option-cases (take_timer i cs)) [
  | inl n ↦ ground (arith, e, n)
  | inr ((f, fs), n) ↦
      let (a, b) = taken_timer i cs f fs n h in
      let t : d ∷ fs ≡ ds = ground (arith, e, n) in
      (ground (arith, e, n, a), subst (All IsRunnable) t (g, b))
]

stop-IsSound :
    (content : Bytes) (c : PprofTask) (cs : List PprofTask) (m : PprofTaskManager)
    → cpu_tasks m.timers ≡ bit (is_event c.events "cpu") + cpu_tasks cs
    → All IsRunnable cs
    → IsSound m
    → IsSound (stop_task content c (record m { timers = cs }))
stop-IsSound content c cs m n b h =
    let (r, t, _) = stop_counts content c (record m { timers = cs }) in
    let a = h.one_cpu in
    record { one_cpu = ground (arith, r, t, n, a); runnable = subst (All IsRunnable) (sym t) b }

step-IsSound : (e : Event) (m : PprofTaskManager) → IsSound m → IsSound (step e m)
unfolding step
step-IsSound (handles writer cpu content args) m h = handle-IsSound writer cpu content args m h
step-IsSound (stops i content) m h = elim (Option-cases (take_timer i m.timers)) [
  | inl e ↦ rw (step, e) h
  | inr ((c, cs), e) ↦
      let (n, b) = taken_timer i m.timers c cs e h.runnable in
      rw (step, e) (stop-IsSound content c cs m n b h)
]
step-IsSound uploads m h = agree-IsSound m (step uploads m) (ground arith) (ground arith) h

run_from-IsSound : (es : List Event) (m : PprofTaskManager) → IsSound m → IsSound (run es m)
unfolding run
run_from-IsSound [] m h = h
run_from-IsSound (e ∷ es) m h = run_from-IsSound es (step e m) (step-IsSound e m h)

-- Whatever commands come, also malformed ones, and however they interleave with the timers: the flag of
-- CPU profiling holds exactly while a CPU task runs, of which there is at most one, and each task that
-- runs has a name, a known event, a duration of more than 0 and at most 15 minutes, and, for the block
-- and mutex events, a period of more than 0.
pub tasks-IsSound : (es : List Event) → IsSound (run es new_pprof_task_manager)
unfolding new_pprof_task_manager
tasks-IsSound es =
    run_from-IsSound es new_pprof_task_manager (record { one_cpu = refl; runnable = tt })

start_time_kept :
    (writer cpu : Bool) (c : PprofTask) (m : PprofTaskManager)
    → (start_task writer cpu c m).1.last_update_time ≡ m.last_update_time
unfolding start_task
start_time_kept writer cpu c m = ground arith

run_time :
    (writer cpu : Bool) (content : Bytes) (c : PprofTask) (m : PprofTaskManager)
    → (run_command writer cpu content c m).last_update_time ≡ m.last_update_time
unfolding run_command
run_time writer cpu content c m =
    let m' = (start_task writer cpu c m).1 in
    let s = start_time_kept writer cpu c m in
    let (_, _, a) = stop_counts content c m' in
    let (_, _, b) = report_keeps (task_error c.task_id) m' in ground (arith, s, a, b)

handled_time :
    (writer cpu : Bool) (content : Bytes) (args : List (Bytes × Bytes)) (m : PprofTaskManager)
    → (handle_command writer cpu content args m).last_update_time ≡ (
        if lt_int m.last_update_time (deserialize_pprof_task_command args).create_time
        then (deserialize_pprof_task_command args).create_time
        else m.last_update_time)
unfolding handle_command
handled_time writer cpu content args m =
    let c = deserialize_pprof_task_command args in
    let r = run_time writer cpu content c (record m { last_update_time = c.create_time }) in
    ground (arith, r)

-- `t` is no later than the time of the latest command.
abbrev IsPast : ℤ → PprofTaskManager → Type 0
IsPast t m = lt_int m.last_update_time t ≡ false

handle-IsPast :
    (writer cpu : Bool) (content : Bytes) (args : List (Bytes × Bytes)) (m : PprofTaskManager)
    → IsPast
        (deserialize_pprof_task_command args).create_time
        (handle_command writer cpu content args m)
handle-IsPast writer cpu content args m =
    let h = handled_time writer cpu content args m in
    let i = lt_int_irrefl (deserialize_pprof_task_command args).create_time in ground (arith, h, i)

step-IsPast : (t : ℤ) (e : Event) (m : PprofTaskManager) → IsPast t m → IsPast t (step e m)
unfolding step
step-IsPast t (handles writer cpu content args) m p =
    let u = (deserialize_pprof_task_command args).create_time in
    let h = handled_time writer cpu content args m in
    let a = lt_int_asym m.last_update_time u in
    let n = not_lt_trans t m.last_update_time u p in ground (arith, h, a, n, p)
step-IsPast t (stops i content) m p = elim (Option-cases (take_timer i m.timers)) [
  | inl e ↦ rw (step, e) p
  | inr ((c, cs), e) ↦
      let (_, _, same) = stop_counts content c (record m { timers = cs }) in rw (step, e, same) p
]
step-IsPast t uploads m p = ground (arith, p)

run-IsPast : (t : ℤ) (es : List Event) (m : PprofTaskManager) → IsPast t m → IsPast t (run es m)
unfolding run
run-IsPast t [] m p = p
run-IsPast t (e ∷ es) m p = run-IsPast t es (step e m) (step-IsPast t e m p)

past_ignored :
    (writer cpu : Bool) (content : Bytes) (args : List (Bytes × Bytes)) (m : PprofTaskManager)
    → IsPast (deserialize_pprof_task_command args).create_time m
    → handle_command writer cpu content args m ≡ m
unfolding handle_command
past_ignored writer cpu content args m p = rw (handle_command, p) refl

-- A command that was handled, whether a task started or not, does nothing when it is fetched again, no
-- matter what came between.
pub handled_once :
    (writer cpu : Bool) (content : Bytes) (args : List (Bytes × Bytes)) (m : PprofTaskManager)
    (es : List Event) (writer' cpu' : Bool) (content' : Bytes)
    → handle_command writer' cpu' content' args (run es (handle_command writer cpu content args m))
      ≡ run es (handle_command writer cpu content args m)
handled_once writer cpu content args m es writer' cpu' content' =
    let m' = handle_command writer cpu content args m in
    let t = (deserialize_pprof_task_command args).create_time in
    past_ignored writer' cpu' content' args (run es m')
      (run-IsPast t es m' (handle-IsPast writer cpu content args m))
