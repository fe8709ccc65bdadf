-- ===== src/Lib.antt =====
-- Verification library of SkyWalking Go, the Go agent of Apache SkyWalking: the core under plugins/core
-- and its reporters. A request makes spans; the spans of one goroutine and of those that continue it make a
-- segment; a segment is collected, and sent when its root and all its children have ended; the headers
-- `sw8` and `sw8-correlation` carry a trace to the next process.
--
-- The parts, and the files that model them:
--   Ignore: plugins/core/tracer_ignore.go. `tracer_ignore` is `tracerIgnore`, by suffix and by path
--     pattern. Ignore/Pattern describes the language of a pattern as a relation.
--   Propagation: plugins/core/propagating.go. `decode` and `encode` of a `SpanContext`, over a carrier
--     of headers with the laws of Propagation/Carrier. Text models the standard library's base64,
--     decimal numbers and `strings.Split`, as far as they are used.
--   Identity: plugins/core/id.go. `next_id`, with the clock as a list of readings.
--   Store: plugins/core/correlation.go, the runtime context of plugins/core/context.go, and
--     `SetCorrelationContextValue` of plugins/core/tracing.go, whose test of the length and write are two
--     steps of a goroutine among others.
--   Span: plugins/core/span_default.go, with `End` and `AsyncFinish` of a segment span. A call is a
--     step on the span and its surroundings; a list of calls is any interleaving of the callers.
--   Segment: the collector of plugins/core/span_tracing.go. An `Event` is what a caller, a goroutine of
--     `end0` or the collector does; `Reachable` are the states that events bring about.
--   Creation: `NewSegmentSpan` and `newSnapshotSpan` of plugins/core/span_tracing.go. What contexts
--     share by pointers is in a heap.
--   Tracer: plugins/core/tracing.go, with plugins/core/span_noop.go and the counters of
--     plugins/core/so11y.go. `create_entry_span` and its like act on an `Agent`, the store of the spans
--     with the goroutine's context; the sampler's decision is an input. Tracer/Goroutine has what
--     crosses to another goroutine.
--   Transform: `TransformSegmentObject` of plugins/core/reporter/transform.go.
--   Profile: trace profiling. Profile/Events is the event manager of
--     plugins/core/trace_profiling_event_manager.go; Profile/Tasks is `ProfileManager` of
--     plugins/core/profile.go, whose `Event` is a command, a timer, or a step of the monitor of the
--     profile or of the goroutine of the reports;
--     Profile/Writer and Profile/Labels are plugins/core/profile_writer.go and prof_labels.go.
--   Connection: plugins/core/reporter/conn_manager.go. An `Event` is one locked section of
--     `GetConnection`, `ReleaseConnection`, `GetConnectionStatus` or `checkConnectionStatus`, or the look
--     of the last one at the state of a connection;
--     Connection/Deadline is `clearDeadlineAfterFirstReadConn`.
--   Reporter: Reporter/Pipeline, Heartbeat and Commands are the goroutines of
--     plugins/core/reporter/grpc/grpc.go; Reporter/Pipeline/Refinement has the abstract pipeline, a
--     bounded queue that may lose messages, as a relation. Reporter/Kafka is kafka/kafka.go beside it,
--     Reporter/Pprof is pprof_manager.go with plugins/core/pprof.go, and Reporter/AuthFailure is
--     auth_failure_log.go.
--   Meter: the histograms of plugins/core/metrics.go.
--   Backend: `parseBackendServiceList` of plugins/core/reporter/backend_addresses.go.
--   Discovery: plugins/core/reporter/config_discovery.go.
--   Config: one value of the configuration, tools/go-agent/config/loader.go.
--
-- They meet as the code does: a `SpanContext` of Propagation is what a span refers to and what a
-- context without a parent starts from; Creation takes identifiers from Identity, stores from Store and
-- the registration of a child from Segment; Transform reads the contexts of Creation and what Span
-- freezes. The pipelines and the heartbeat read the status of Connection, and Reporter/Commands hands
-- the commands that it fetches to Profile/Tasks. Base has the names that all share, tests on numbers, lists,
-- texts as lists of bytes, maps as association lists, and stores of numbered cells.
--
-- Bounds: int32 and int64 wrap around where the code adds to them; a theorem that needs no wrap says
-- how many calls it allows. The matcher of Ignore runs on fuel, one more than the length of the pattern:
-- each call moves forward in the pattern, and the equivalence with the relation shows that it is enough.
-- The loops over a buffer, over the chunks of an upload and over the buckets of a histogram run on fuel as
-- large as the length of what they go through, which the theorems about them show to be enough. The loop
-- that closes the stream of an upload reads what the server sends; its fuel is more than the responses that
-- come before the end of the stream. Times are in nanoseconds where the code has `time.Time`.
--
-- Not modelled: gRPC, Kafka and their options, the resolver of addresses, the sampler, the counters
-- and gauges, the hooks of profiling in the tracer, the plugins' interceptors, and the tool that rewrites
-- Go programs, but for a value of its configuration. A data race outside the locks and atomic operations
-- is not either.
mod Base
pub mod Text
pub mod Ignore
pub mod Propagation
pub mod Identity
pub mod Store
pub mod Span
pub mod Segment
pub mod Creation
pub mod Transform
pub mod Tracer
pub mod Profile
pub mod Connection
pub mod Reporter
pub mod Meter
pub mod Discovery
pub mod Config
pub mod Backend
