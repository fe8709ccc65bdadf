-- ===== src/Reporter.antt =====
-- The gRPC reporter, plugins/core/reporter/grpc/grpc.go: its send pipelines, its heartbeat and the
-- commands of trace profiling that it fetches; the Kafka reporter, kafka/kafka.go; the pprof tasks,
-- pprof_manager.go; and the log of rejected calls, auth_failure_log.go.
pub mod Pipeline
pub mod Heartbeat
pub mod Commands
pub mod Kafka
pub mod Pprof
pub mod AuthFailure
pub mod Examples
