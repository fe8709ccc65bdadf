-- ===== src/Profile/Tasks.antt =====
-- plugins/core/profile.go: the tasks of the profile manager. A time is a number of nanoseconds since
-- 1970. A task is named by its place in the queue, which only grows. The clock, and whether the runtime
-- starts the CPU profile, are inputs.
pub mod Invariant
pub mod Overlap
pub mod Blocked
use skywalking_go.Base.{
  ℕ, zero, suc, ◌+◌, ◌-◌, ltb, wrap_int64, Bool, true, false, not, ◌&&◌, ◌||◌, [], ◌∷◌, ◌++◌, List,
  Option, none, some, ℤ, pos, negsuc, ◌+ℤ◌, scale, lt_int, Bytes, codes, str_eq, ◌==◌,
  if◌then◌else◌, length,
}
use skywalking_go.Text.Number.{Parsed, parsed, failed, parse_int}
use skywalking_go.Profile.Events.{
  EventManager, Evaluated, value, new_event_manager, register_base_event, update_base_event_status,
  execute_complex_event, register_profile_events, if_profiling, cur_task_exist, could_profile,
  could_set_cur_task,
}

pub data Status : Type 0 where
  pending running finished reported : Status

pub record Task : Type 0 where
  pub serial_number : Bytes
  pub task_id : Bytes
  pub endpoint_name : Bytes
  pub duration : ℤ
  pub min_duration_threshold : ℤ
  pub dump_period : ℤ
  pub max_sampling_count : ℤ
  pub start_time : ℤ
  pub create_time : ℤ
  pub end_time : ℤ
  pub status : Status

pub record CurrentTask : Type 0 where
  pub serial_number : Bytes
  pub task_id : Bytes
  pub min_duration_threshold : ℤ
  pub endpoint_name : Bytes
  pub end_time : ℤ
  pub duration : ℤ

-- Where the goroutine of `initReportChannel` is: it waits for a chunk; it has one, which may be the last
-- one, and has read the current task; or it has sent the last one and comes to the end of the task.
pub data ReportPhase : Type 0 where
  waits : ReportPhase
  holds : CurrentTask → Bool → ReportPhase
  ends_task : ReportPhase

-- `timers` are the calls of `time.AfterFunc` that wait; `cpu` says that the CPU profile of the manager
-- runs. Of the goroutines of `monitor`, `timing` have not stopped the profile yet, `stopped` come next to
-- the base event, and `updated` to the flush; `raw` are the chunks in `rawCh`, by whether each is the last one; `results` are those that were
-- sent to `FinalReportResults`, with the identifier of their task.
pub record Manager : Type 0 where
  pub trace_profile_task : Option ℕ
  pub queue : List Task
  pub timers : List ℕ
  pub current_task : Option CurrentTask
  pub events : EventManager
  pub cpu : Bool
  pub timing : ℕ
  pub stopped : ℕ
  pub updated : ℕ
  pub phase : ReportPhase
  pub raw : List Bool
  pub results : List (Bytes × Bool)

unfoldable pub new_profile_manager : Manager
new_profile_manager = record {
  trace_profile_task = none;
  queue = [];
  timers = [];
  current_task = none;
  events = register_profile_events new_event_manager;
  cpu = false;
  timing = 0;
  stopped = 0;
  updated = 0;
  phase = waits;
  raw = [];
  results = [];
}

-- `parseInt64` and `parseInt` drop the error and keep the value.
pub parse_number : Bytes → ℤ
parse_number text = elim (parse_int false 64 text) [ parsed n ↦ n | failed n ↦ n ]

-- The zero `time.Time`, in the year 1.
abbrev zero_time : ℤ
zero_time = negsuc 62135596799999999999

abbrev pub zero_task : Task
zero_task = record {
  serial_number = [];
  task_id = [];
  endpoint_name = [];
  duration = pos 0;
  min_duration_threshold = pos 0;
  dump_period = pos 0;
  max_sampling_count = pos 0;
  start_time = zero_time;
  create_time = zero_time;
  end_time = zero_time;
  status = pending;
}

-- One argument of the command, and the time of the latest command.
unfoldable pub read_arg : Bytes → Bytes → Task × ℤ → Task × ℤ
unfolding parse_number
read_arg key text (task, t) =
    if str_eq key (codes "TaskId")
    then (record task { task_id = text }, t)
    else if str_eq key (codes "EndpointName")
    then (record task { endpoint_name = text }, t)
    else if str_eq key (codes "Duration")
    then (record task { duration = parse_number text }, t)
    else if str_eq key (codes "MinDurationThreshold")
    then (record task { min_duration_threshold = parse_number text }, t)
    else if str_eq key (codes "DumpPeriod")
    then (record task { dump_period = parse_number text }, t)
    else if str_eq key (codes "MaxSamplingCount")
    then (record task { max_sampling_count = parse_number text }, t)
    else if str_eq key (codes "StartTime")
    then (record task { start_time = scale 1000000 (parse_number text) }, t)
    else if str_eq key (codes "CreateTime")
    then (
      record task { create_time = scale 1000000 (parse_number text) },
      if lt_int t (parse_number text) then parse_number text else t,
    )
    else if str_eq key (codes "SerialNumber")
    then (record task { serial_number = text }, t)
    else (task, t)

unfoldable pub read_args : List (Bytes × Bytes) → Task × ℤ → Task × ℤ
unfolding read_arg
read_args [] s = s
read_args ((key, text) ∷ args) s = read_args args (read_arg key text s)

-- The two tasks share a moment.
abbrev pub overlaps : Task → Task → Bool
overlaps task t = lt_int t.start_time task.end_time && lt_int task.start_time t.end_time

abbrev pub overlaps_some : Task → List Task → Bool
overlaps_some task [] = false
overlaps_some task (t ∷ ts) = if overlaps task t then true else overlaps_some task ts

pub add_task : Task → Manager → Manager
add_task task m =
    if overlaps_some task m.queue
    then m
    else record m { queue = m.queue ++ (task ∷ []); timers = m.timers ++ (length m.queue ∷ []) }

-- `time.Duration(task.Duration) * time.Minute` is an int64 of nanoseconds.
unfoldable pub with_end : Task → Task
with_end task = record task {
  end_time = task.start_time +ℤ wrap_int64 (scale 60000000000 task.duration);
  status = pending;
}

unfoldable pub add_profile_task : List (Bytes × Bytes) → ℤ → Manager → Manager × ℤ
unfolding read_args add_task with_end
add_profile_task args t m =
    let (task, t') = read_args args (zero_task, t) in (add_task (with_end task) m, t')

abbrev pub time_out : ℤ
time_out = pos 120000000000

abbrev get_task : ℕ → List Task → Task
get_task i [] = zero_task
get_task zero (t ∷ ts) = t
get_task (suc i) (t ∷ ts) = get_task i ts

abbrev pub set_status : ℕ → Status → List Task → List Task
set_status i s [] = []
set_status zero s (t ∷ ts) = record t { status = s } ∷ ts
set_status (suc i) s (t ∷ ts) = t ∷ set_status i s ts

pub is_true : Evaluated → Bool
is_true (value b) = b
is_true (Evaluated.failed e) = false

is_pending : Status → Bool
is_pending pending = true
is_pending other = false

pub generate_current_task : Task → Manager → Manager
generate_current_task t m = record m {
  current_task = some (record {
    serial_number = t.serial_number;
    task_id = t.task_id;
    min_duration_threshold = t.min_duration_threshold;
    endpoint_name = t.endpoint_name;
    end_time = t.end_time;
    duration = t.duration;
  });
  events = (update_base_event_status cur_task_exist true m.events).0;
}

-- `i` is the `TraceProfileTask`.
pub try_start_cpu_profiling : ℕ → Bool → Manager → Manager
unfolding is_true is_pending
try_start_cpu_profiling i started m =
    if is_true (execute_complex_event could_profile m.events)
      && is_pending (get_task i m.queue).status
    then (if started
        then record m {
          cpu = true;
          timing = m.timing + 1;
          events = (update_base_event_status if_profiling true m.events).0;
          queue = set_status i running m.queue;
        }
        else m)
    else m

-- Whether the current task may be replaced at the time `now`.
is_over : ℤ → Option CurrentTask → Bool
is_over now none = true
is_over now (some c) = not (lt_int now (c.end_time +ℤ time_out))

pub try_set_current_task_and_start_profile : ℕ → ℤ → Bool → Manager → Manager
unfolding is_over is_true generate_current_task try_start_cpu_profiling
try_set_current_task_and_start_profile i now started m =
    if is_over now m.current_task
    then (if is_true (execute_complex_event could_set_cur_task m.events)
        then try_start_cpu_profiling i started (generate_current_task (get_task i m.queue) m)
        else m)
    else m

abbrev remove : ℕ → List ℕ → List ℕ
remove i [] = []
remove i (j ∷ js) = if i == j then js else j ∷ remove i js

abbrev contains : ℕ → List ℕ → Bool
contains i [] = false
contains i (j ∷ js) = if i == j then true else contains i js

-- The function that `time.AfterFunc` calls.
pub due : ℕ → ℤ → Bool → Manager → Manager
unfolding try_set_current_task_and_start_profile
due i now started m =
    let m' = record m { timers = remove i m.timers } in
    elim m'.trace_profile_task [
      | some j ↦ m'
      | none ↦
          try_set_current_task_and_start_profile i now started
            (record m' { trace_profile_task = some i })
    ]

-- What `monitor` does when its time is over, without the lock of the manager: it stops the profile, updates
-- the base event, and flushes the writer.
pub stop_profile : Manager → Manager
stop_profile m = record m { cpu = false; timing = m.timing - 1; stopped = m.stopped + 1 }

pub update_event : Manager → Manager
update_event m = record m {
  events = (update_base_event_status if_profiling false m.events).0;
  stopped = m.stopped - 1;
  updated = m.updated + 1;
}

pub flush_writer : Manager → Manager
flush_writer m = record m { raw = m.raw ++ (true ∷ []); updated = m.updated - 1 }

-- A round of the goroutine of `initReportChannel`: it reads the current task under the lock, sends, and
-- ends the task under the lock again.
pub read_task : Bool → List Bool → Manager → Manager
read_task is_last raw m = elim m.current_task [
  | none ↦ record m { raw = raw }
  | some c ↦ record m { raw = raw; phase = holds c is_last }
]

pub send_result : CurrentTask → Bool → Manager → Manager
send_result c is_last m = record m {
  results = m.results ++ ((c.task_id, is_last) ∷ []);
  phase = if is_last then ends_task else waits;
}

pub end_task : Manager → Manager
end_task m = record m {
  queue = elim m.trace_profile_task [ none ↦ m.queue | some i ↦ set_status i finished m.queue ];
  current_task = none;
  events = register_base_event cur_task_exist false m.events;
  phase = waits;
}

pub report : Manager → Manager
unfolding read_task send_result end_task
report m = elim m.phase [
  | waits ↦ elim m.raw [ [] ↦ m | is_last ∷ raw ↦ read_task is_last raw m ]
  | holds c is_last ↦ send_result c is_last m
  | ends_task ↦ end_task m
]

is_reported : Status → Bool
is_reported reported = true
is_reported other = false

unfoldable pub remove_profile_task : ℤ → Manager → Manager
unfolding is_reported
remove_profile_task now m = elim m.trace_profile_task [
  | none ↦ m
  | some i ↦
      if is_reported (get_task i m.queue).status
        || lt_int ((get_task i m.queue).end_time +ℤ time_out) now
      then record m { trace_profile_task = none }
      else m
]

-- `ProfileFinish`, which panics with none without a task.
pub profile_finish : Manager → Option Manager
profile_finish m = elim m.trace_profile_task [
  | none ↦ none
  | some i ↦ some (record m { queue = set_status i reported m.queue })
]

pub check_if_profile_target : Bytes → Manager → Bool
check_if_profile_target endpoint m = elim m.current_task [
  | none ↦ false
  | some c ↦ str_eq c.endpoint_name endpoint
]

-- What the callers and the goroutines do, in any order. `is_due i` is for a timer that waits; `writes` for
-- the CPU profile that runs; `stops`, `updates` and `flushes` for a monitor that comes to it; `reports` is
-- the next step of the goroutine of `initReportChannel`.
pub data Event : Type 0 where
  adds : List (Bytes × Bytes) → ℤ → Event
  is_due : ℕ → ℤ → Bool → Event
  writes stops updates flushes reports finishes : Event
  removes : ℤ → Event

pub step : Event → Manager → Manager
unfolding add_profile_task due stop_profile update_event flush_writer report remove_profile_task
    profile_finish
step (adds args t) m = (add_profile_task args t m).0
step (is_due i now started) m = if contains i m.timers then due i now started m else m
step writes m = if m.cpu then record m { raw = m.raw ++ (false ∷ []) } else m
step stops m = if ltb 0 m.timing then stop_profile m else m
step updates m = if ltb 0 m.stopped then update_event m else m
step flushes m = if ltb 0 m.updated then flush_writer m else m
step reports m = report m
step finishes m = elim (profile_finish m) [ none ↦ m | some m' ↦ m' ]
step (removes now) m = remove_profile_task now m

unfoldable pub run : List Event → Manager → Manager
unfolding step
run [] m = m
run (e ∷ es) m = run es (step e m)
