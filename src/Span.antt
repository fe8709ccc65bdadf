-- ===== src/Span.antt =====
-- plugins/core/span_default.go and the `End` and `AsyncFinish` of plugins/core/span_tracing.go: the
-- life of one span. What a method reads and writes of the span under one hold of `opLock` is one
-- step. A time is a number of nanoseconds; the zero time is none. A span is named by a number.
pub mod Frozen
pub mod Report
pub mod Reuse
pub mod Async
pub mod Active
pub mod Examples
use skywalking_go.Base.{
  ℕ, zero, suc, ◌+◌, ◌-◌, Bool, true, false, not, ◌&&◌, [], ◌∷◌, ◌++◌, List, Option, none, some, ℤ,
  pos, Bytes, codes, str_eq, ◌==◌, ltb, if◌then◌else◌,
}
use skywalking_go.Propagation.{SpanContext}

pub data SpanType : Type 0 where
  entry exit local : SpanType

abbrev pub KeyValue : Type 0
KeyValue = Bytes × Bytes

pub record Log : Type 0 where
  pub time : ℕ
  pub fields : List KeyValue

abbrev pub SpanRef : Type 0
SpanRef = ℕ

pub record DefaultSpan : Type 0 where
  pub refs : List SpanContext
  pub start_time : ℕ
  pub end_time : Option ℕ
  pub operation_name : Bytes
  pub peer : Bytes
  pub layer : ℤ
  pub component_id : ℤ
  pub tags : List KeyValue
  pub logs : List Log
  pub is_error : Bool
  pub span_type : SpanType
  pub parent : Option SpanRef
  pub in_async_mode : Bool
  pub async_mode_finished : Bool
  pub ended : Bool
  pub dropped_logged : Bool
  pub reuse_count : ℕ

-- A warning of `logDroppedWrite`.
pub record Warning : Type 0 where
  pub operation_name : Bytes
  pub op : Bytes
  pub detail : Bytes

-- What the methods act on beside the span: the tracing context of the goroutine that calls, if it has
-- one, with its active span; the counter of finished contexts of plugins/core/so11y.go; the log.
pub record World : Type 0 where
  pub context : Option (Option SpanRef)
  pub finished : ℕ
  pub warnings : List Warning

pub record Scene : Type 0 where
  pub span : DefaultSpan
  pub world : World

-- `NewDefaultSpan`: `now` is what the clock reads. The tracer of the span has a logger.
unfoldable pub new_default_span : ℕ → Option SpanRef → DefaultSpan
new_default_span now parent = record {
  refs = [];
  start_time = now;
  end_time = none;
  operation_name = [];
  peer = [];
  layer = pos 0;
  component_id = pos 0;
  tags = [];
  logs = [];
  is_error = false;
  span_type = local;
  parent = parent;
  in_async_mode = false;
  async_mode_finished = false;
  ended = false;
  dropped_logged = false;
  reuse_count = 0;
}

-- Only the first dropped write is logged.
log_dropped_write : Bytes → Bytes → Scene → Scene
log_dropped_write op detail s = if s.span.dropped_logged then s else record {
  span = record (s.span) { dropped_logged = true };
  world = record (s.world) {
    warnings =
        s.world.warnings
        ++ (record { operation_name = s.span.operation_name; op = op; detail = detail } ∷ []);
  };
}

-- The guard of each mutator: a write to an ended span is dropped.
mutate : Bytes → Bytes → (DefaultSpan → DefaultSpan) → Scene → Scene
unfolding log_dropped_write
mutate op detail f s =
    if s.span.ended then log_dropped_write op detail s else record s { span = f (s.span) }

pub set_operation_name : Bytes → Scene → Scene
unfolding mutate
set_operation_name name =
    mutate (codes "operation name") name (λ d. record d { operation_name = name })

pub set_peer : Bytes → Scene → Scene
unfolding mutate
set_peer peer = mutate (codes "peer") peer (λ d. record d { peer = peer })

pub set_span_layer : ℤ → Scene → Scene
unfolding mutate
set_span_layer layer = mutate (codes "span layer") [] (λ d. record d { layer = layer })

pub set_component : ℤ → Scene → Scene
unfolding mutate
set_component id = mutate (codes "component") [] (λ d. record d { component_id = id })

-- The first tag with the key gets the value; a new key goes to the end.
unfoldable pub put_tag : Bytes → Bytes → List KeyValue → List KeyValue
put_tag key value [] = (key, value) ∷ []
put_tag key value ((k, v) ∷ tags) =
    if str_eq k key then (k, value) ∷ tags else (k, v) ∷ put_tag key value tags

pub tag : Bytes → Bytes → Scene → Scene
unfolding mutate put_tag
tag key value = mutate (codes "tag") key (λ d. record d { tags = put_tag key value d.tags })

-- Texts at even places are keys, the next ones their values; a last key alone has the value "".
unfoldable pub log_pairs : List Bytes → List KeyValue
log_pairs [] = []
log_pairs (key ∷ []) = (key, []) ∷ []
log_pairs (key ∷ value ∷ ll) = (key, value) ∷ log_pairs ll

log0 : ℕ → List Bytes → DefaultSpan → DefaultSpan
unfolding log_pairs
log0 now ll d = record d { logs = d.logs ++ (record { time = now; fields = log_pairs ll } ∷ []) }

pub log : ℕ → List Bytes → Scene → Scene
unfolding mutate log0
log now ll = mutate (codes "log") [] (log0 now ll)

pub error : ℕ → List Bytes → Scene → Scene
unfolding mutate log0
error now ll = mutate (codes "error") [] (λ d. log0 now ll (record d { is_error = true }))

pub error_occured : Scene → Scene
unfolding mutate
error_occured = mutate (codes "error flag") [] (λ d. record d { is_error = true })

pub append_ref : SpanContext → Scene → Scene
unfolding mutate
append_ref ref = mutate (codes "ref") [] (λ d. record d { refs = d.refs ++ (ref ∷ []) })

-- A reuse of an ended span is not counted, and not logged.
pub enter_reuse : Scene → Scene
enter_reuse s =
    if s.span.ended
    then s
    else record s { span = record (s.span) { reuse_count = s.span.reuse_count + 1 } }

-- `ctx.SaveActiveSpan(ds.Parent)`, if the goroutine has a context.
save_active : Option SpanRef → World → World
save_active parent w = elim w.context [ none ↦ w | some _ ↦ record w { context = some parent } ]

-- `MeasureTracingContextCompletion(false)`.
measure_completion : World → World
measure_completion w = record w { finished = w.finished + 1 }

-- `DefaultSpan.End`.
pub end_default : Bool → ℕ → Scene → Scene
unfolding save_active measure_completion
end_default change_parent now s =
    let d = (if s.span.ended then s.span else record (s.span) { end_time = some now }) in
    let w = measure_completion (s.world) in
    record { span = d; world = if change_parent then save_active d.parent w else w }

pub end_and_freeze : Scene → Scene × Bool
end_and_freeze s =
    if s.span.ended
    then (s, false)
    else (record s { span = record (s.span) { ended = true } }, true)

pub end_sync_and_freeze : ℕ → Scene → Scene × Bool
unfolding save_active measure_completion
end_sync_and_freeze now s =
    if ltb 0 s.span.reuse_count
    then (
      record {
        span = record (s.span) { reuse_count = s.span.reuse_count - 1 };
        world = save_active s.span.parent (s.world);
      },
      false,
    )
    else elim s.span.end_time [
      | some _ ↦ (s, false)
      | none ↦
          let frozen = not s.span.in_async_mode && not s.span.ended in
          (
            record {
              span = record (s.span) {
                end_time = some now;
                ended = if frozen then true else s.span.ended;
              };
              world = save_active s.span.parent (measure_completion (s.world));
            },
            frozen,
          )
    ]

-- A panic; the lock is released, and the span is as it was.
pub data Outcome (A : Type 0) : Type 0 where
  returned : A → Outcome A
  panicked : Bytes → Outcome A

pub prepare_async : Scene → Outcome Scene
unfolding mutate
prepare_async s =
    if s.span.ended
    then returned (mutate (codes "prepare async") [] (λ d. d) s)
    else if s.span.in_async_mode
    then panicked (codes "already in async mode")
    else returned
        (record s { span = record (s.span) { in_async_mode = true; async_mode_finished = false } })

pub async_finish_default : Scene → Outcome Scene
unfolding mutate
async_finish_default s =
    if s.span.ended
    then returned (mutate (codes "async finish") [] (λ d. d) s)
    else if not s.span.in_async_mode
    then panicked (codes "not in async mode")
    else if s.span.async_mode_finished
    then panicked (codes "already finished async")
    else returned (record s { span = record (s.span) { async_mode_finished = true } })

-- `End` of a segment span: the second part says whether the span was handed to the collector.
pub end_span : ℕ → Scene → Scene × Bool
unfolding end_sync_and_freeze
end_span now s = end_sync_and_freeze now s

-- `AsyncFinish` of a segment span.
pub async_finish : ℕ → Scene → Outcome (Scene × Bool)
unfolding async_finish_default end_default end_and_freeze
async_finish now s = elim (async_finish_default s) [
  | panicked message ↦ panicked message
  | returned s' ↦ returned (end_and_freeze (end_default false now s'))
]

-- The calls that the program and the plugins make on a span, in the order in which they take the
-- lock. A time is what the clock reads. The last three are the parts of `AsyncFinish`, which take the
-- lock one after the other: with them a list of calls is any interleaving of the callers.
pub data Op : Type 0 where
  sets_operation_name sets_peer : Bytes → Op
  sets_span_layer sets_component : ℤ → Op
  tags : Bytes → Bytes → Op
  logs errors : ℕ → List Bytes → Op
  errs reuses prepares : Op
  refers : SpanContext → Op
  ends finishes : ℕ → Op
  marks_finished freezes : Op
  ends_unfrozen : ℕ → Op

abbrev quiet : Outcome Scene → Outcome (Scene × Bool)
quiet (returned s) = returned (s, false)
quiet (panicked message) = panicked message

pub step : Op → Scene → Outcome (Scene × Bool)
unfolding set_operation_name set_peer set_span_layer set_component tag log error error_occured
    append_ref enter_reuse prepare_async end_span async_finish end_and_freeze
step (sets_operation_name name) s = returned (set_operation_name name s, false)
step (sets_peer peer) s = returned (set_peer peer s, false)
step (sets_span_layer layer) s = returned (set_span_layer layer s, false)
step (sets_component id) s = returned (set_component id s, false)
step (tags key value) s = returned (tag key value s, false)
step (logs now ll) s = returned (log now ll s, false)
step (errors now ll) s = returned (error now ll s, false)
step errs s = returned (error_occured s, false)
step reuses s = returned (enter_reuse s, false)
step prepares s = quiet (prepare_async s)
step (refers ref) s = returned (append_ref ref s, false)
step (ends now) s = returned (end_span now s)
step (finishes now) s = async_finish now s
step marks_finished s = quiet (async_finish_default s)
step (ends_unfrozen now) s = returned (end_default false now s, false)
step freezes s = returned (end_and_freeze s)

-- A panic of one caller leaves the span to the others. The number counts the hand-overs.
abbrev after : Scene → ℕ → Outcome (Scene × Bool) → Scene × ℕ
after s n (returned (s', handed)) = (s', if handed then suc n else n)
after s n (panicked message) = (s, n)

pub run : List Op → Scene → ℕ → Scene × ℕ
unfolding step
run [] s n = (s, n)
run (op ∷ ops) s n = let (s', n') = after s n (step op s) in run ops s' n'
