-- ===== src/Routine.antt =====
-- routine/: agent runs on a schedule.
pub mod Manifest
pub mod Scope
pub mod Catchup
mod Tests
