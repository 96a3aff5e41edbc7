-- ===== src/Cases.antt =====
-- packages/case-store/src/index.ts: cases, the commands that change them, and the ledger of their events.
pub mod Payload
pub mod Tables
pub mod Status
pub mod Command
pub mod Events
pub mod Chain
pub mod Sealed
pub mod Relay
pub mod Drain
pub mod Outbox
pub mod Delivery
pub mod Batches
pub mod Db
pub mod Submit
pub mod Create
pub mod Register
pub mod Registered
pub mod View
pub mod Lawful
pub mod Accepted
pub mod Opened
pub mod Rows
pub mod Growth
pub mod History
pub mod Later
pub mod Repeats
pub mod Courses
mod Tests
mod CommandTests
mod RelayTests
mod RegisterTests
