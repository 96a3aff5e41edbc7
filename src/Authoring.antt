-- ===== src/Authoring.antt =====
-- The authoring plane of packages/persistence/src/index.ts: drafts of plans, and who may release them.
pub mod Drafts
pub mod Duties
mod Tests
