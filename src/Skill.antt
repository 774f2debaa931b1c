-- ===== src/Skill.antt =====
-- skill/: the skills that an agent activates in a run.
pub mod Stack
mod Tests
