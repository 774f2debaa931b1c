-- ===== src/Shard.antt =====
-- runner/shard.go: an agent that runs once for each shard of the files it has to work on. Files builds
-- the work-list and cuts it, Claims is the check of one report, Single one shard, Pool the workers,
-- and Merge what the run returns. Config is the block `execution` of agent/bundle.go.
pub mod Config
pub mod Files
pub mod Claims
pub mod Merge
pub mod Single
pub mod Pool
pub mod Covers
pub mod Ends
mod Tests
