-- ===== src/Tools.antt =====
-- tools/: what the agents may do, and how their calls are watched.
pub mod CmdSafety
pub mod LoopDetect
pub mod Retry
pub mod AsciiGuard
pub mod CommentGuard
pub mod MultiEdit
pub mod Paths
pub mod EditFiles
pub mod FileTracker
pub mod Messages
pub mod EditEnforcer
pub mod PhaseEnforcer
pub mod ReadCache
pub mod Stats
pub mod Summary
pub mod Calibration
pub mod Rolling
pub mod Compaction
pub mod Dispatch
pub mod Transcript
pub mod ToolLoop
pub mod Task
pub mod Findings
mod Tests
