-- ===== src/Profile.antt =====
-- Trace profiling, plugins/core: the event manager (trace_profiling_event_manager.go and
-- profile_event_manager.go), the tasks (profile.go), the
-- labels of goroutines (prof_labels.go) and the
-- writer of the profile (profile_writer.go).
pub mod Events
pub mod Writer
pub mod Labels
pub mod Tasks
pub mod Examples
