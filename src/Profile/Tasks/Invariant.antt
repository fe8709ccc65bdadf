-- ===== src/Profile/Tasks/Invariant.antt =====
-- What holds of the profile manager after any calls.
use skywalking_go.Base.{
  ℕ, ap, subst, ◌+◌, ◌-◌, ltb, ◌≤◌, ◌≡◌, refl, Bool, true, false, not, ◌&&◌, [], ◌∷◌, ◌++◌, List,
  Option, none, some, ℤ, arith, Bool-cases, Option-cases, inl, inr,
}
use skywalking_go.Profile.Events.{execute_complex_event, could_set_cur_task}
use skywalking_go.Profile.Events.Laws.{
  events_of, registered_events, update_if_profiling, update_cur_task_exist, could_set_cur_task_lem,
  register_cur_task_exist,
}
use skywalking_go.Profile.Tasks.{
  Task, Manager, Event, adds, is_due, writes, stops, updates, flushes, reports, finishes, removes,
  step, run, new_profile_manager, add_profile_task, add_task, due,
  try_set_current_task_and_start_profile, try_start_cpu_profiling, generate_current_task,
  stop_profile, update_event, flush_writer, read_task, send_result, end_task, report, ReportPhase,
  waits, holds, ends_task, remove, remove_profile_task, profile_finish, is_true, is_over, get_task,
}

abbrev pub is_some {ℓ} : {A : Type ℓ} → Option A → Bool
is_some none = false
is_some (some a) = true

abbrev pub bit : Bool → ℕ
bit true = 1
bit false = 0

-- How many last chunks wait.
abbrev pub lasts : List Bool → ℕ
lasts [] = 0
lasts (b ∷ bs) = bit b + lasts bs

-- Whether the goroutine of the reports is on the way with the last chunk.
abbrev pub last_held : ReportPhase → ℕ
last_held waits = 0
last_held (holds c is_last) = bit is_last
last_held ends_task = 1

-- The profile runs exactly while a monitor is timing it. The base event for profiling is on while a monitor
-- has still to turn it off, and the other one is on exactly with a current task. There is at most one monitor
-- or last chunk on its way, and only with a current task.
pub record IsSound (m : Manager) : Type 0 where
  pub runs : bit m.cpu ≡ m.timing
  pub tracked : m.events ≡ events_of (ltb 0 (m.timing + m.stopped)) (is_some m.current_task)
  pub bounded :
      lasts m.raw + m.timing + m.stopped + m.updated + last_held m.phase
      ≤ bit (is_some m.current_task)

-- No monitor and no last chunk.
abbrev pub IsQuiet : Manager → Type 0
IsQuiet m =
    (m.cpu ≡ false)
    × (m.timing ≡ 0)
    × (m.stopped ≡ 0)
    × (m.updated ≡ 0)
    × (lasts m.raw ≡ 0)
    × (last_held m.phase ≡ 0)

lasts-append : (bs cs : List Bool) → lasts (bs ++ cs) ≡ lasts bs + lasts cs
lasts-append [] cs = omega arith
lasts-append (b ∷ bs) cs = let h = lasts-append bs cs in omega arith

start-IsSound :
    (i : ℕ) (started : Bool) (m : Manager)
    → m.events ≡ events_of false true
    → is_some m.current_task ≡ true
    → IsQuiet m
    → IsSound (try_start_cpu_profiling i started m)
unfolding try_start_cpu_profiling
start-IsSound i started m e c (p, t, s, d, l, k) =
    let u = update_if_profiling false true true in
    record {
      runs = ground (arith, p, t);
      tracked = ground (arith, e, c, t, s, u);
      bounded = ground (arith, c, t, s, d, l, k);
    }

pub could_set :
    (m : Manager)
    → IsSound m
    → is_true (execute_complex_event could_set_cur_task m.events)
      ≡ not (ltb 0 (m.timing + m.stopped)) && not (is_some m.current_task)
unfolding is_true
could_set m h =
    rw (h.tracked)
      (ap is_true (could_set_cur_task_lem (ltb 0 (m.timing + m.stopped)) (is_some m.current_task)))

pub no_task-IsQuiet : (m : Manager) → IsSound m → is_some m.current_task ≡ false → IsQuiet m
no_task-IsQuiet m h e = let b = h.bounded in let r = h.runs in ground (arith, b, r, e)

generated-events :
    (t : Task) (m : Manager)
    → IsSound m
    → (generate_current_task t m).events ≡ events_of (ltb 0 (m.timing + m.stopped)) true
unfolding generate_current_task
generated-events t m h = rw (h.tracked) (
    ap (λ r. r.0)
      (update_cur_task_exist (ltb 0 (m.timing + m.stopped)) (is_some m.current_task) true))

set-IsSound :
    (i : ℕ) (now : ℤ) (started : Bool) (m : Manager)
    → IsSound m
    → IsSound (try_set_current_task_and_start_profile i now started m)
unfolding try_set_current_task_and_start_profile generate_current_task
set-IsSound i now started m h = elim (Bool-cases (is_over now m.current_task)) [
  | inr e ↦ ground (arith, e, h)
  | inl e ↦ elim (Bool-cases (is_true (execute_complex_event could_set_cur_task m.events))) [
    | inr g ↦ ground (arith, e, g, h)
    | inl g ↦
        let c = could_set m h in
        let t = get_task i m.queue in
        let q = no_task-IsQuiet m h (ground (arith, c, g)) in
        let f : ltb 0 (m.timing + m.stopped) ≡ false = ground (arith, q) in
        let events : (generate_current_task t m).events ≡ events_of false true =
          subst (λ p. (generate_current_task t m).events ≡ events_of p true) f
            (generated-events t m h) in
        let s = start-IsSound i started (generate_current_task t m) events refl q in
        ground (arith, e, g, s)
  ]
]

pub due-IsSound :
    (i : ℕ) (now : ℤ) (started : Bool) (m : Manager) → IsSound m → IsSound (due i now started m)
unfolding due
due-IsSound i now started m h = elim (Option-cases m.trace_profile_task) [
  | inl o ↦
      let m' : Manager = record m { timers = remove i m.timers; trace_profile_task = some i } in
      let s =
        set-IsSound i now started m'
          (record { runs = h.runs; tracked = h.tracked; bounded = h.bounded }) in
      ground (arith, o, s)
  | inr (j, o) ↦
      let r = h.runs in
      let e = h.tracked in
      let b = h.bounded in
      record {
        runs = ground (arith, o, r);
        tracked = ground (arith, o, e);
        bounded = ground (arith, o, b);
      }
]

stop-IsSound : (m : Manager) → ltb 0 m.timing ≡ true → IsSound m → IsSound (stop_profile m)
unfolding stop_profile
stop-IsSound m p h =
    let r = h.runs in
    let e = h.tracked in
    let b = h.bounded in
    let same : ltb 0 (m.timing + m.stopped) ≡ ltb 0 (m.timing - 1 + (m.stopped + 1)) =
      ground (arith, p) in
    record {
      runs = ground (arith, b, p);
      tracked = subst (λ f. m.events ≡ events_of f (is_some m.current_task)) same e;
      bounded = ground (arith, b, p);
    }

update-IsSound : (m : Manager) → ltb 0 m.stopped ≡ true → IsSound m → IsSound (update_event m)
unfolding update_event
update-IsSound m p h =
    let r = h.runs in
    let e = h.tracked in
    let b = h.bounded in
    let u = update_if_profiling (ltb 0 (m.timing + m.stopped)) (is_some m.current_task) false in
    let off : ltb 0 (m.timing + (m.stopped - 1)) ≡ false = ground (arith, p, b) in
    record { runs = r; tracked = rw (e, off) (ap (λ r. r.0) u); bounded = ground (arith, b, p) }

flush-IsSound : (m : Manager) → ltb 0 m.updated ≡ true → IsSound m → IsSound (flush_writer m)
unfolding flush_writer
flush-IsSound m p h =
    let b = h.bounded in
    let l = lasts-append m.raw (true ∷ []) in
    record { runs = h.runs; tracked = h.tracked; bounded = ground (arith, b, l, p) }

-- With a bound on what is on its way, the base events follow from what is left alone.
report-IsSound : (m : Manager) → IsSound m → IsSound (report m)
unfolding report read_task send_result end_task
report-IsSound m h =
    let r = h.runs in
    let e = h.tracked in
    let b = h.bounded in
    let u = register_cur_task_exist (ltb 0 (m.timing + m.stopped)) (is_some m.current_task) false in
    record { runs = ground (arith, r); tracked = ground (arith, e, u); bounded = ground (arith, b) }

pub step-IsSound : (e : Event) (m : Manager) → IsSound m → IsSound (step e m)
unfolding step add_profile_task add_task remove_profile_task profile_finish
step-IsSound (is_due i now started) m h =
    let d = due-IsSound i now started m h in ground (arith, d, h)
step-IsSound writes m h =
    let r = h.runs in
    let e = h.tracked in
    let b = h.bounded in
    let l = lasts-append m.raw (false ∷ []) in
    record { runs = ground (arith, r); tracked = ground (arith, e); bounded = ground (arith, b, l) }
step-IsSound stops m h = elim (Bool-cases (ltb 0 m.timing)) [
  | inl p ↦ let d = stop-IsSound m p h in ground (arith, d, p)
  | inr p ↦ ground (arith, h, p)
]
step-IsSound updates m h = elim (Bool-cases (ltb 0 m.stopped)) [
  | inl p ↦ let d = update-IsSound m p h in ground (arith, d, p)
  | inr p ↦ ground (arith, h, p)
]
step-IsSound flushes m h = elim (Bool-cases (ltb 0 m.updated)) [
  | inl p ↦ let d = flush-IsSound m p h in ground (arith, d, p)
  | inr p ↦ ground (arith, h, p)
]
step-IsSound reports m h = report-IsSound m h
step-IsSound (adds args t) m h =
    let r = h.runs in
    let e = h.tracked in
    let b = h.bounded in
    record { runs = ground (arith, r); tracked = ground (arith, e); bounded = ground (arith, b) }
step-IsSound finishes m h =
    let r = h.runs in
    let e = h.tracked in
    let b = h.bounded in
    record { runs = ground (arith, r); tracked = ground (arith, e); bounded = ground (arith, b) }
step-IsSound (removes now) m h =
    let r = h.runs in
    let e = h.tracked in
    let b = h.bounded in
    record { runs = ground (arith, r); tracked = ground (arith, e); bounded = ground (arith, b) }

run-IsSound : (es : List Event) (m : Manager) → IsSound m → IsSound (run es m)
unfolding run
run-IsSound [] m h = h
run-IsSound (e ∷ es) m h = run-IsSound es (step e m) (step-IsSound e m h)

-- Whatever commands come, whatever timers fire and however the steps of the monitors and of the reports
-- interleave with them, starting from a new manager, whenever no call that holds the lock is in progress:
-- the CPU profile runs exactly while a monitor is timing it; the base event IfProfiling is on exactly from
-- the start of the profile until its monitor has turned it off, and CurTaskExist exactly while there is a
-- current task; and there is at most one monitor or last chunk on its way, only with a current task.
pub manager-IsSound : (es : List Event) → IsSound (run es new_profile_manager)
unfolding new_profile_manager
manager-IsSound es =
    run-IsSound es new_profile_manager
      (record { runs = refl; tracked = registered_events; bounded = omega arith })
