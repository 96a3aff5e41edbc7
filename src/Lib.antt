-- ===== src/Lib.antt =====
-- The executable harness framework runs long, audited workflows. A plan is admitted to the control plane;
-- runs of it are queued; a worker claims a run under a lease and a fence and hands a runtime a grant; the
-- runtime exchanges the grant for envelopes, one per node, calls capabilities through a gateway that
-- accounts for them, and reports its progress. Plans come from drafts that people write and release.
--
-- Files, and the code that each models:
--
-- Prelude: names of the libraries, Boolean tests, tables as lists of rows, results of code that
--   throws.
-- Contracts: packages/contracts/src/index.ts. Value has the exchanged values; Canonical has
--   byCodeUnit, canonicalize, canonicalJson and stableDigest, where JSON.stringify and SHA-256 are the
--   parameter Hashing; Read reads fields of a document.
-- Ledger: the run queue of packages/persistence/src/index.ts. Row has one row of the table of runs and
--   what each statement makes of a row; Plans has admitPlan, getPlan and verifyPlanDigest; Store has
--   createRun, claimRun, renewLease, scheduleRunRetry, failExhaustedRuns, requestRunCancellation,
--   completeCancelledRun, finalizeAbandonedCancellations, updateRunNode and completeRun under the same
--   names in snake case; Attempts has beginNodeAttempt and finishNodeAttempt; Journal has appendEvent,
--   listEvents, bindRunTrace and the state writes of packages/persistence/src/runtime-state.ts and
--   apps/control-api/src/runtime-state-routes.ts. Machine, Graph, Invariant, Fencing, Terminal and
--   Cancelling describe the life of one run as a relation; System is the whole table under any
--   sequence of transactions, and its children relate it to the life of each run; Guarantees has what
--   callers rely on.
-- Access: packages/identity/src/authorization.ts in Roles and Decisions;
--   packages/execution-auth/src/index.ts in Grants; apps/control-api/src/envelope-broker.ts and the
--   authorization of state writes in Broker and Authority.
-- Authoring: the drafts of packages/persistence/src/index.ts. An operation (Drafts) is a call that
--   does one statement at a time, because the source has no transaction there; Duties has the calls
--   that run at the same time.
-- Gateway: receipts and budgets of packages/persistence/src/index.ts in Receipts, and the handler of
--   POST /v1/invoke of apps/capability-gateway/src/app.ts in Invoke, with what other transactions do
--   between its statements (Others); Spending, Reservations, Callable and Claimed have the theorems.
-- Cases: packages/case-store/src/index.ts. Payload reads the payload of a command; Tables has the
--   tables of a case; Status has allowedTransitions; the children of Command have applyMutation, one
--   definition for each of the eighteen commands; Events has appendCaseEvent, listCaseEvents and
--   verifyCaseLedger; Db has the statements on cases, events, lineage edges and receipts with the keys
--   that may refuse them; Submit has submitBusinessCommand, Create has createKycCase, Register has
--   registerEvidence, and View has getCaseView and getEvidence. Lawful, Chain, Sealed, Accepted,
--   Opened, Rows, Growth, History, Later, Repeats, Registered and Courses have the theorems, from the
--   single mutation to any sequence of transactions. Relay has the statements of drainOutbox and
--   purgePublished of packages/case-store/src/outbox-relay.ts, Drain their order; Delivery and Batches
--   have what relays that run at the same time promise.
-- Worker: apps/runtime-worker/src/worker.ts, from the answer of the provider on: Settle has retryable,
--   backoffMs, handleFailure, recordTerminalFailure and the branches of workOnce, with what other
--   transactions do between its statements; Superseded and Backoff have the theorems.
--
-- State is passed explicitly. One transaction of the database is one step, with its `now()` as an
-- argument; a transaction that throws has rolled back. Code that does several transactions is cut
-- between them: it is a call that does its next statement, or it takes what others do meanwhile as a
-- parameter. Rows that other transactions hold are a predicate that a claim skips. Numbers are natural
-- numbers: times in microseconds, costs in 10^-8 dollars. There is no fuel: every function is
-- structurally recursive.
--
-- Parameters: JSON.stringify and SHA-256 (Hashing), and the signing and verification of tokens by the
-- jose library (Tokens), the print of numbers and what the database makes of a timestamp (Platform).
-- The guard of callers, the schema of a request, the reading of numbers and the providers are
-- parameters of the gateway; the bytes of a base64 text and their SHA-256 are those of a registration
-- (Vault). One theorem on cases assumes of single timestamps that they come back as they were written.
--
-- Not modelled: listCases of the case store, the loop of the worker up to the call of the provider,
-- the transforms of the runtime core, the resolution of principals, HTTP routes, telemetry, the user
-- interface, provider transports and the compiler.
mod Prelude
pub mod Contracts
pub mod Ledger
pub mod Access
pub mod Authoring
pub mod Gateway
pub mod Cases
pub mod Worker
