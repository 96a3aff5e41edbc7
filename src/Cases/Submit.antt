-- ===== src/Cases/Submit.antt =====
-- packages/case-store/src/index.ts: `submitBusinessCommand`.
use ehfconcept.Prelude.{
  ℕ, suc, Bool, true, String, [], ◌∷◌, Option, none, some, ◌==◌, compare_texts, compare_numbers,
  if◌then◌else◌, or_else, update_rows, Result, ok, err, ◌>>=◌, ◌>>◌, require,
}
use ehfconcept.Contracts.Value.{Value, undefined, string, number, boolean, object}
use ehfconcept.Contracts.Canonical.{stable_digest}
use ehfconcept.Contracts.Read.{set_property}
use ehfconcept.Cases.Payload.{Failure, case_error, schema_error, opaque_id, normalize_digest}
use ehfconcept.Cases.Tables.{ActorType, agent, human, system, integration, CaseActor, Tables}
use ehfconcept.Cases.Events.{Platform, EventInput, CaseLedger, event_of, digest_of, head_digest}
use ehfconcept.Cases.Command.Base
use ehfconcept.Cases.Command.Base.{
  CommandType, CaseAuthority, BusinessCommand, CaseRow, MutationResult, Call, ◌⇒◌, fields_of,
  strings,
}
use ehfconcept.Cases.Command.Apply.{apply_mutation}
use ehfconcept.Cases.Db.{
  Receipt, CaseDb, find_case, advance_row, insert_event, insert_edges, find_receipt, write_receipt,
  committed, as_conflict, on_error,
}

-- What a submission draws from outside: the platform, the two readings of the clock, the fresh
-- identifiers and the configuration.
pub record Surroundings : Type 0 where
  pub platform : Platform
  pub mutated_at : String
  pub recorded_at : String
  pub uuid : ℕ → String
  pub event_uuid : String
  pub outbox_uuid : String
  pub edge_uuid : ℕ → String
  pub evidence_require_scan : Bool

abbrev pub call_of : Surroundings → Call
call_of e = record {
  hashing = e.platform.hashing;
  print = e.platform.print;
  now = e.mutated_at;
  uuid = e.uuid;
  evidence_require_scan = e.evidence_require_scan;
}

abbrev pub actor_type_name : ActorType → String
actor_type_name agent = "AGENT"
actor_type_name human = "HUMAN"
actor_type_name system = "SYSTEM"
actor_type_name integration = "INTEGRATION"

abbrev pub text_or_undefined : Option String → Value
text_or_undefined none = undefined
text_or_undefined (some s) = string s

abbrev pub actor_value : CaseActor → Value
actor_value a = object (
    fields_of (
      "type" ⇒ string (actor_type_name a.actor_type)
      ∷ "principalId" ⇒ string a.principal_id
      ∷ "executionId" ⇒ text_or_undefined a.execution_id
      ∷ "roles" ⇒ strings a.roles
      ∷ []))

abbrev pub authority_value : CaseAuthority → Value
authority_value a = object (
    fields_of (
      "planDigest" ⇒ string a.plan_digest
      ∷ "permissionEnvelopeDigest" ⇒ string a.permission_envelope_digest
      ∷ "policySnapshotDigest" ⇒ string a.policy_snapshot_digest
      ∷ []))

abbrev pub command_name : CommandType → String
command_name Base.add_subject = "AddSubject"
command_name Base.link_evidence = "LinkEvidence"
command_name Base.propose_claim = "ProposeClaim"
command_name Base.accept_claim_as_fact = "AcceptClaimAsFact"
command_name Base.record_screening_finding = "RecordScreeningFinding"
command_name Base.record_assumption = "RecordAssumption"
command_name Base.raise_contradiction = "RaiseContradiction"
command_name Base.resolve_contradiction = "ResolveContradiction"
command_name Base.propose_work_item = "ProposeWorkItem"
command_name Base.complete_work_item = "CompleteWorkItem"
command_name Base.link_execution = "LinkExecution"
command_name Base.submit_decision_recommendation = "SubmitDecisionRecommendation"
command_name Base.record_gate_result = "RecordGateResult"
command_name Base.record_qa_result = "RecordQAResult"
command_name Base.record_review = "RecordReview"
command_name Base.request_human_review = "RequestHumanReview"
command_name Base.transition_case_status = "TransitionCaseStatus"
command_name Base.finalize_disposition = "FinalizeDisposition"

abbrev pub number_or_undefined : (ℕ → String) → Option ℕ → Value
number_or_undefined print none = undefined
number_or_undefined print (some n) = number (print n)

-- The command as it is hashed.
unfoldable pub command_value : (ℕ → String) → BusinessCommand → Value
command_value print c = object (
    fields_of (
      "commandId" ⇒ string c.command_id
      ∷ "commandType" ⇒ string (command_name c.command_type)
      ∷ "commandVersion" ⇒ string c.command_version
      ∷ "tenantId" ⇒ string c.tenant_id
      ∷ "caseId" ⇒ string c.case_id
      ∷ "actor" ⇒ actor_value c.actor
      ∷ "authority" ⇒ authority_value c.authority
      ∷ "payload" ⇒ c.payload
      ∷ "preconditions"
        ⇒ object (
            fields_of (
              "caseSequence" ⇒ number (print c.case_sequence)
              ∷ "subjectRevision" ⇒ number_or_undefined print c.subject_revision
              ∷ []))
      ∷ "idempotencyKey" ⇒ string c.idempotency_key
      ∷ "occurredAt" ⇒ text_or_undefined c.occurred_at
      ∷ []))

unfoldable pub command_digest : Platform → BusinessCommand → String
unfolding command_value
command_digest p c = stable_digest p.hashing (command_value p.print c)

-- `{ ...response, replayed: true }`
unfoldable pub as_replay : Value → Value
unfolding set_property
as_replay (object fs) = object (set_property "replayed" (boolean true) fs)
as_replay _ = object (fields_of ("replayed" ⇒ boolean true ∷ []))

-- A schema error of a mutation is the command's.
unfoldable pub as_invalid_payload : Failure → Failure
as_invalid_payload schema_error = case_error "command.payload_invalid" 400
as_invalid_payload e = e

-- The checks of a new command against its case.
unfoldable pub admit_command : BusinessCommand → CaseRow → Result Failure (Unit {0})
unfolding normalize_digest
admit_command command current = do
  require (command.case_sequence == current.case_sequence)
      (case_error "command.case_sequence_conflict" 409)
  require
      (normalize_digest command.authority.plan_digest
        == normalize_digest current.harness_plan_digest)
      (case_error "command.plan_authority_mismatch" 403)
  require
      (normalize_digest command.authority.policy_snapshot_digest
        == normalize_digest current.policy_snapshot_digest)
      (case_error "command.policy_authority_mismatch" 403)

unfoldable pub event_input :
    Surroundings → BusinessCommand → CaseRow → MutationResult → CaseLedger → EventInput
event_input e command current mutation ledger = record {
  tenant_id = command.tenant_id;
  case_id = command.case_id;
  sequence = suc current.case_sequence;
  event_type = mutation.event_type;
  event_schema = mutation.event_schema;
  occurred_at = or_else command.occurred_at e.recorded_at;
  recorded_at = e.recorded_at;
  actor = actor_value command.actor;
  command_id = command.command_id;
  authority = authority_value command.authority;
  payload = mutation.payload;
  evidence_refs = mutation.evidence_refs;
  previous_event_digest = head_digest command.tenant_id command.case_id ledger.heads;
  classification = current.classification;
}

unfoldable pub response_of :
    Surroundings → BusinessCommand → CaseRow → MutationResult → CaseLedger → Value
unfolding event_of digest_of event_input opaque_id
response_of e command current mutation ledger =
    let event_id = opaque_id "evt" e.event_uuid in
    object (
      fields_of (
        "outcome" ⇒ string "ACCEPTED"
        ∷ "caseId" ⇒ string command.case_id
        ∷ "caseSequence" ⇒ number (e.platform.print (suc current.case_sequence))
        ∷ "eventId" ⇒ string event_id
        ∷ "eventDigest"
          ⇒ string
              (event_of e.platform event_id
                (event_input e command current mutation ledger)).event_digest
        ∷ "createdIdentifiers" ⇒ object mutation.identifiers
        ∷ []))

unfoldable pub receipt_of :
    Surroundings → BusinessCommand → CaseRow → MutationResult → CaseLedger → Receipt
unfolding response_of command_digest
receipt_of e command current mutation ledger =
    let response = response_of e command current mutation ledger in
    record {
      tenant_id = command.tenant_id;
      case_id = command.case_id;
      command_id = command.command_id;
      command_type = command_name command.command_type;
      idempotency_key = command.idempotency_key;
      request_digest = command_digest e.platform command;
      accepted_sequence_from = suc current.case_sequence;
      accepted_sequence_to = suc current.case_sequence;
      created_identifiers = mutation.identifiers;
      response = response;
      response_digest = stable_digest e.platform.hashing response;
      created_at = e.recorded_at;
    }

-- What is written for a command whose mutation has been applied.
unfoldable pub record_command :
    Surroundings
    → BusinessCommand
    → CaseRow
    → Tables
    → MutationResult
    → CaseDb
    → Result Failure (CaseDb × Value)
unfolding event_input response_of receipt_of insert_event insert_edges advance_row write_receipt
    opaque_id
record_command e command current tables mutation db = do
  let event_id = opaque_id "evt" e.event_uuid
  let sequence = suc current.case_sequence
  ledger ←
      insert_event e.platform event_id (opaque_id "outbox" e.outbox_uuid)
        (event_input e command current mutation db.ledger) db.ledger
  edges ←
      insert_edges command event_id e.recorded_at e.edge_uuid 0 mutation.lineage db.lineage_edges
  let cases =
      update_rows
        (advance_row command.tenant_id command.case_id sequence mutation.next_status e.recorded_at)
        db.cases
  receipts ← write_receipt (receipt_of e command current mutation db.ledger) db.receipts
  ok (
    record {
      cases = cases;
      tables = tables;
      ledger = ledger;
      receipts = receipts;
      lineage_edges = edges;
    },
    response_of e command current mutation db.ledger,
  )

-- A command whose key has no receipt.
unfoldable pub accept_command :
    Surroundings → BusinessCommand → CaseRow → CaseDb → Result Failure (CaseDb × Value)
unfolding admit_command apply_mutation as_invalid_payload on_error record_command
accept_command e command current db = do
  admit_command command current
  applied ← on_error as_invalid_payload (apply_mutation (call_of e) command current db.tables)
  record_command e command current applied.0 applied.1 db

-- The transaction.
unfoldable pub submit : Surroundings → BusinessCommand → CaseDb → Result Failure (CaseDb × Value)
unfolding find_case find_receipt command_digest as_replay accept_command
submit e command db = elim (find_case command.tenant_id command.case_id db.cases) [
  | none ↦ err (case_error "case.not_found" 404)
  | some current ↦
      elim (find_receipt command.tenant_id command.case_id command.idempotency_key db.receipts) [
        | some prior ↦
            if prior.request_digest == command_digest e.platform command
            then ok (db, as_replay prior.response)
            else err (case_error "command.idempotency_conflict" 409)
        | none ↦ accept_command e command current db
      ]
]

unfoldable pub submit_business_command :
    Surroundings → BusinessCommand → CaseDb → CaseDb × Result Failure Value
unfolding submit committed on_error as_conflict
submit_business_command e command db =
    committed db (on_error (as_conflict "command.conflict") (submit e command db))
