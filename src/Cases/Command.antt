-- ===== src/Cases/Command.antt =====
-- packages/case-store/src/index.ts: business commands, and the eighteen mutations of `applyMutation`.
pub mod Base
pub mod Subjects
pub mod Claims
pub mod Findings
pub mod Work
pub mod Decisions
pub mod Progress
pub mod Steady
pub mod Apply
