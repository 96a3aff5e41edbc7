-- ===== src/Worker.antt =====
-- apps/runtime-worker/src/worker.ts: what a worker makes of a run that it has claimed.
pub mod Settle
pub mod Superseded
pub mod Backoff
mod Tests
