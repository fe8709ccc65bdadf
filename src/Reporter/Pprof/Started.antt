-- ===== src/Reporter/Pprof/Started.antt =====
-- What the start and the stop of a pprof task keep.
use skywalking_go.Base.{
  if◌then◌else◌, ℕ, ◌+◌, ◌≡◌, refl, sym, subst, ◌∙◌, Bool, true, false, ◌||◌, [], ◌∷◌, ◌++◌, List,
  pos, lt_int, Bytes, codes, str_eq, str_eq_iff, All, All-append, arith, Bool-cases, inl, inr,
}
use skywalking_go.Reporter.Pprof.{
  PprofTask, Report, task_error, PprofTaskManager, is_event, is_direct_sampling_type,
  has_dump_period, is_invalid_event, pprof_task_duration_max, check_command, report, start_task,
  stop_task, run_command,
}

abbrev pub bit : Bool → ℕ
bit true = 1
bit false = 0

abbrev pub cpu_tasks : List PprofTask → ℕ
cpu_tasks [] = 0
cpu_tasks (c ∷ cs) = bit (is_event c.events "cpu") + cpu_tasks cs

-- A task that runs for a while: for more than 0 and at most 15 minutes, with a period if it needs one.
pub record IsRunnable (c : PprofTask) : Type 0 where
  pub named : str_eq c.task_id [] ≡ false
  pub event : (is_event c.events "cpu" || has_dump_period c.events) ≡ true
  pub lasts :
      (lt_int (pos 0) c.duration ≡ true) × (lt_int pprof_task_duration_max c.duration ≡ false)
  pub dumps : has_dump_period c.events ≡ true → lt_int (pos 0) c.dump_period ≡ true

pub record IsSound (m : PprofTaskManager) : Type 0 where
  pub one_cpu : cpu_tasks m.timers ≡ bit m.profiling_is_running
  pub runnable : All IsRunnable m.timers

cpu_tasks-append :
    (cs : List PprofTask) (c : PprofTask)
    → cpu_tasks (cs ++ (c ∷ [])) ≡ cpu_tasks cs + bit (is_event c.events "cpu")
cpu_tasks-append [] c = omega arith
cpu_tasks-append (d ∷ cs) c = let h = cpu_tasks-append cs c in omega (arith, h)

checked-IsRunnable :
    (c : PprofTask)
    → check_command c ≡ true
    → is_direct_sampling_type c.events ≡ false
    → IsRunnable c
unfolding check_command is_invalid_event
checked-IsRunnable c k d = record {
  named = ground (arith, k);
  event = ground (arith, k, d);
  lasts = (ground (arith, k, d), ground (arith, k, d));
  dumps = λ p. ground (arith, k, p);
}

report-IsSound : (r : Report) (m : PprofTaskManager) → IsSound m → IsSound (report r m)
unfolding report
report-IsSound r m h =
    let a = h.one_cpu in
    let b = h.runnable in record { one_cpu = ground (arith, a); runnable = ground (arith, b) }

-- A CPU profile is not taken at once.
cpu_not_direct : (e : Bytes) → is_event e "cpu" ≡ true → is_direct_sampling_type e ≡ false
unfolding is_direct_sampling_type
cpu_not_direct e h =
    subst (λ e. is_direct_sampling_type e ≡ false) (sym ((str_eq_iff e (codes "cpu")).0 h)) refl

start_counts :
    (writer cpu : Bool) (c : PprofTask) (m : PprofTaskManager)
    → (bit (start_task writer cpu c m).1.profiling_is_running
        ≡ bit m.profiling_is_running
          + (if (start_task writer cpu c m).0 then bit (is_event c.events "cpu") else 0))
      × ((start_task writer cpu c m).1.timers ≡ m.timers)
unfolding start_task
start_counts writer cpu c m = ground arith

pub report_keeps :
    (r : Report) (m : PprofTaskManager)
    → ((report r m).profiling_is_running ≡ m.profiling_is_running)
      × ((report r m).timers ≡ m.timers)
      × ((report r m).last_update_time ≡ m.last_update_time)
unfolding report
report_keeps r m = ground arith

pub stop_counts :
    (content : Bytes) (c : PprofTask) (m : PprofTaskManager)
    → ((stop_task content c m).profiling_is_running
        ≡ (if is_event c.events "cpu" then false else m.profiling_is_running))
      × ((stop_task content c m).timers ≡ m.timers)
      × ((stop_task content c m).last_update_time ≡ m.last_update_time)
unfolding stop_task report
stop_counts content c m = ground arith

-- The invariant reads two fields.
pub agree-IsSound :
    (m m' : PprofTaskManager)
    → m'.profiling_is_running ≡ m.profiling_is_running
    → m'.timers ≡ m.timers
    → IsSound m
    → IsSound m'
agree-IsSound m m' r t h = record {
  one_cpu = let a = h.one_cpu in ground (arith, a, r, t);
  runnable = subst (All IsRunnable) (sym t) h.runnable;
}

pub run_command-IsSound :
    (writer cpu : Bool) (content : Bytes) (c : PprofTask) (m : PprofTaskManager)
    → check_command c ≡ true
    → IsSound m
    → IsSound (run_command writer cpu content c m)
unfolding run_command
run_command-IsSound writer cpu content c m k h =
    let m' = (start_task writer cpu c m).1 in
    let (counts, timers) = start_counts writer cpu c m in
    let a = h.one_cpu in
    let n = cpu_not_direct c.events in
    elim (Bool-cases (start_task writer cpu c m).0) [
      | inr z ↦
          let (r, t, _) = report_keeps (task_error c.task_id) m' in
          let same : report (task_error c.task_id) m' ≡ run_command writer cpu content c m =
            ground (arith, z) in
          subst IsSound same (record {
            one_cpu = ground (arith, r, t, counts, timers, z, a);
            runnable = subst (All IsRunnable) (sym (t ∙ timers)) h.runnable;
          })
      | inl z ↦ elim (Bool-cases (is_direct_sampling_type c.events)) [
        | inl d ↦
            let (r, t, _) = stop_counts content c m' in
            let same : stop_task content c m' ≡ run_command writer cpu content c m =
              ground (arith, z, d) in
            subst IsSound same (record {
              one_cpu = ground (arith, r, t, counts, timers, z, a, d, n);
              runnable = subst (All IsRunnable) (sym (t ∙ timers)) h.runnable;
            })
        | inr d ↦
            let l = cpu_tasks-append m.timers c in
            let same : record m' { timers = m'.timers ++ (c ∷ []) }
                ≡ run_command writer cpu content c m =
              ground (arith, z, d) in
            subst IsSound same (record {
              one_cpu = ground (arith, counts, timers, z, a, l);
              runnable =
                  subst (λ ts. All IsRunnable (ts ++ (c ∷ []))) (sym timers)
                    (All-append IsRunnable m.timers (c ∷ []) h.runnable
                      (checked-IsRunnable c k d, tt));
            })
      ]
    ]
