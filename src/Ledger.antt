-- ===== src/Ledger.antt =====
-- packages/persistence/src/index.ts: the run ledger.
pub mod Row
pub mod Plans
pub mod Store
pub mod Journal
pub mod Attempts
pub mod Machine
pub mod Invariant
pub mod Graph
pub mod Fencing
pub mod Terminal
pub mod Cancelling
pub mod System
pub mod Guarantees
mod Tests
mod AttemptTests
