-- ===== src/Access.antt =====
-- Who may do what: packages/identity/src/authorization.ts, and the authority of a runtime in
-- apps/control-api/src/envelope-broker.ts and apps/control-api/src/runtime-state-routes.ts.
pub mod Roles
pub mod Decisions
pub mod Grants
pub mod Broker
pub mod Authority
mod Tests
