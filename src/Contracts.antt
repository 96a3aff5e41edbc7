-- ===== src/Contracts.antt =====
-- packages/contracts/src/index.ts: values, their canonical form, and the stable digest.
pub mod Value
pub mod Canonical
pub mod Read
