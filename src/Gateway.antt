-- ===== src/Gateway.antt =====
-- The receipts and budgets of the capability gateway (packages/persistence/src/index.ts).
pub mod Receipts
pub mod Spending
pub mod Reservations
pub mod Invoke
pub mod Callable
pub mod Claimed
mod Tests
mod InvokeTests
