-- ===== src/Reporter/Pprof.antt =====
-- plugins/core/reporter/pprof_manager.go and plugins/core/pprof.go: the pprof tasks that the backend
-- commands, and the upload of their data. The writers, and whether the runtime starts the CPU profile,
-- are inputs.
pub mod Started
pub mod Tasks
pub mod Upload
use skywalking_go.Base.{
  ℕ, zero, suc, ◌+◌, ◌-◌, ◌*◌, ◌%◌, ◌^◌, Bool, true, false, not, ◌&&◌, ◌||◌, [], ◌∷◌, ◌++◌, List,
  Option, none, some, ℤ, pos, negsuc, lt_int, Bytes, codes, str_eq, if◌then◌else◌, length, ltb,
}
use Prim.Native.String.{String}
use skywalking_go.Text.Number.{Parsed, parsed, failed, parse_int}

-- `PprofTaskCommandImpl`, without the places for its files. A duration is in nanoseconds.
pub record PprofTask : Type 0 where
  pub task_id : Bytes
  pub events : Bytes
  pub duration : ℤ
  pub create_time : ℤ
  pub dump_period : ℤ

-- What goes into `pprofSendCh`.
pub data Report : Type 0 where
  success : Bytes → Bytes → Report
  task_error : Bytes → Report

-- `timers` are the tasks whose `StopTask` waits in `time.AfterFunc`.
pub record PprofTaskManager : Type 0 where
  pub last_update_time : ℤ
  pub profiling_is_running : Bool
  pub block_profile_rate : ℤ
  pub mutex_profile_fraction : ℤ
  pub timers : List PprofTask
  pub pprof_send_ch : List Report

pub new_pprof_task_manager : PprofTaskManager
new_pprof_task_manager = record {
  last_update_time = pos 0;
  profiling_is_running = false;
  block_profile_rate = pos 0;
  mutex_profile_fraction = pos 0;
  timers = [];
  pprof_send_ch = [];
}

abbrev max_pprof_send_queue_size : ℕ
max_pprof_send_queue_size = 30000

-- A signed 64-bit number, from its value.
abbrev wrap64 : ℕ → ℤ
wrap64 n = if ltb (n % 2 ^ 64) (2 ^ 63) then pos (n % 2 ^ 64) else negsuc (2 ^ 64 - 1 - n % 2 ^ 64)

-- `time.Duration(n) * time.Minute` of a number that is not negative.
abbrev minutes : ℤ → ℤ
minutes (pos n) = wrap64 (n * 60000000000)
minutes (negsuc n) = pos 0

-- `strconv.Atoi` with the test that follows it; what fails the test is dropped.
abbrev read_number : (ℤ → Bool) → Bytes → ℤ → ℤ
read_number good text old = elim (parse_int false 64 text) [
  | parsed n ↦ if good n then n else old
  | failed n ↦ old
]

abbrev parse_time : Bytes → ℤ
parse_time text = elim (parse_int false 64 text) [ parsed n ↦ n | failed n ↦ n ]

-- The variables of `deserializePprofTaskCommand`; the duration is in minutes here.
pub read_args : List (Bytes × Bytes) → PprofTask → PprofTask
read_args [] c = c
read_args ((key, text) ∷ args) c = read_args args (
    if str_eq key (codes "TaskId")
    then record c { task_id = text }
    else if str_eq key (codes "Events")
    then record c { events = text }
    else if str_eq key (codes "Duration")
    then record c { duration = read_number (λ n. lt_int (pos 0) n) text c.duration }
    else if str_eq key (codes "DumpPeriod")
    then record c { dump_period = read_number (λ n. not (lt_int n (pos 0))) text c.dump_period }
    else if str_eq key (codes "CreateTime")
    then record c { create_time = parse_time text }
    else c)

pub deserialize_pprof_task_command : List (Bytes × Bytes) → PprofTask
unfolding read_args
deserialize_pprof_task_command args =
    let c = read_args args (record {
      task_id = [];
      events = [];
      duration = pos 0;
      create_time = pos 0;
      dump_period = pos 0;
    }) in
    record c { duration = minutes c.duration }

abbrev pub is_event : Bytes → String → Bool
is_event e name = str_eq e (codes name)

pub is_direct_sampling_type : Bytes → Bool
is_direct_sampling_type e =
    is_event e "heap" || is_event e "allocs" || is_event e "goroutine" || is_event e "threadcreate"

pub has_dump_period : Bytes → Bool
has_dump_period e = is_event e "block" || is_event e "mutex"

pub is_invalid_event : Bytes → Bool
unfolding is_direct_sampling_type has_dump_period
is_invalid_event e = not (is_direct_sampling_type e || is_event e "cpu" || has_dump_period e)

-- 15 minutes.
abbrev pub pprof_task_duration_max : ℤ
pprof_task_duration_max = pos 900000000000

pub check_command : PprofTask → Bool
unfolding is_invalid_event is_direct_sampling_type has_dump_period
check_command c =
    if str_eq c.task_id []
    then false
    else if is_invalid_event c.events
    then false
    else if not (is_direct_sampling_type c.events)
        && (not (lt_int (pos 0) c.duration) || lt_int pprof_task_duration_max c.duration)
    then false
    else not (has_dump_period c.events && not (lt_int (pos 0) c.dump_period))

-- The `select` of `ReportPprof` and `ReportPprofError`.
pub report : Report → PprofTaskManager → PprofTaskManager
report r m =
    if ltb (length m.pprof_send_ch) max_pprof_send_queue_size
    then record m { pprof_send_ch = m.pprof_send_ch ++ (r ∷ []) }
    else m

-- `StartTask`: whether it succeeds. `writer` says that `getWriter` does, and `cpu` that the runtime
-- starts the CPU profile.
pub start_task : Bool → Bool → PprofTask → PprofTaskManager → Bool × PprofTaskManager
start_task writer cpu c m =
    if is_event c.events "cpu"
    then (if m.profiling_is_running
        then (false, m)
        else (writer && cpu, record m { profiling_is_running = writer && cpu }))
    else if not writer
    then (false, m)
    else if is_event c.events "block"
    then (true, record m { block_profile_rate = c.dump_period })
    else if is_event c.events "mutex"
    then (true, record m { mutex_profile_fraction = c.dump_period })
    else (true, m)

-- `StopTask`, when the profile wrote `content`.
pub stop_task : Bytes → PprofTask → PprofTaskManager → PprofTaskManager
unfolding report
stop_task content c m = report (success c.task_id content) (
    if is_event c.events "cpu"
    then record m { profiling_is_running = false }
    else if is_event c.events "block"
    then record m { block_profile_rate = pos 0 }
    else if is_event c.events "mutex"
    then record m { mutex_profile_fraction = pos 0 }
    else m)

-- The end of `HandleCommand`, for a command that is new and valid.
pub run_command : Bool → Bool → Bytes → PprofTask → PprofTaskManager → PprofTaskManager
unfolding start_task stop_task is_direct_sampling_type report
run_command writer cpu content c m =
    let (ok, m') = start_task writer cpu c m in
    if ok
    then (if is_direct_sampling_type c.events
        then stop_task content c m'
        else record m' { timers = m'.timers ++ (c ∷ []) })
    else report (task_error c.task_id) m'

pub handle_command :
    Bool → Bool → Bytes → List (Bytes × Bytes) → PprofTaskManager → PprofTaskManager
unfolding deserialize_pprof_task_command check_command run_command
handle_command writer cpu content args m =
    let c = deserialize_pprof_task_command args in
    if lt_int m.last_update_time c.create_time
    then (if check_command c
        then run_command writer cpu content c (record m { last_update_time = c.create_time })
        else record m { last_update_time = c.create_time })
    else m

abbrev pub take_timer : ℕ → List PprofTask → Option (PprofTask × List PprofTask)
take_timer i [] = none
take_timer zero (c ∷ cs) = some (c, cs)
take_timer (suc i) (c ∷ cs) = elim (take_timer i cs) [
  | none ↦ none
  | some (d, ds) ↦ some (d, c ∷ ds)
]

-- The fetch of commands, the timers, and the goroutine of `initPprofSendPipeline`, in any order.
pub data Event : Type 0 where
  handles : Bool → Bool → Bytes → List (Bytes × Bytes) → Event
  stops : ℕ → Bytes → Event
  uploads : Event

pub step : Event → PprofTaskManager → PprofTaskManager
unfolding handle_command stop_task
step (handles writer cpu content args) m = handle_command writer cpu content args m
step (stops i content) m = elim (take_timer i m.timers) [
  | none ↦ m
  | some (c, cs) ↦ stop_task content c (record m { timers = cs })
]
step uploads m = elim m.pprof_send_ch [ [] ↦ m | r ∷ rest ↦ record m { pprof_send_ch = rest } ]

pub run : List Event → PprofTaskManager → PprofTaskManager
unfolding step
run [] m = m
run (e ∷ es) m = run es (step e m)
