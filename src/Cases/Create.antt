-- ===== src/Cases/Create.antt =====
-- packages/case-store/src/index.ts: `createKycCase`.
use Prim.Native.String.{◌++◌ as ◌<>◌, slice}
use ehfconcept.Prelude.{
  Bool, true, false, String, [], ◌∷◌, Option, none, some, ◌==◌, compare_texts, if◌then◌else◌,
  Result, ok, err, ◌>>=◌, ◌>>◌, forbid,
}
use ehfconcept.Contracts.Value.{Value, string, number, object}
use ehfconcept.Contracts.Canonical.{Hashing, stable_digest}
use ehfconcept.Contracts.Read.{property}
use ehfconcept.Cases.Payload.{Failure, case_error, database_error, opaque_id, normalize_digest}
use ehfconcept.Cases.Tables.{CaseActor, intake}
use ehfconcept.Cases.Events.{Platform, EventInput}
use ehfconcept.Cases.Command.Base.{CaseAuthority, CaseRow, ◌⇒◌, fields_of}
use ehfconcept.Cases.Db.{
  Receipt, CaseDb, find_case, insert_case, insert_event, find_receipt, write_receipt, committed,
  as_conflict, on_error,
}
use ehfconcept.Cases.Submit.{actor_value, authority_value, text_or_undefined}

pub record CreateKycCaseRequest : Type 0 where
  pub tenant_id : String
  pub case_type : String
  pub schema_version : String
  pub jurisdiction : String
  pub external_ref : Option String
  pub policy_snapshot_digest : String
  pub harness_plan_digest : String
  pub classification : String
  pub actor : CaseActor

abbrev pub request_value : CreateKycCaseRequest → Value
request_value r = object (
    fields_of (
      "tenantId" ⇒ string r.tenant_id
      ∷ "caseType" ⇒ string r.case_type
      ∷ "schemaVersion" ⇒ string r.schema_version
      ∷ "jurisdiction" ⇒ string r.jurisdiction
      ∷ "externalRef" ⇒ text_or_undefined r.external_ref
      ∷ "policySnapshotDigest" ⇒ string r.policy_snapshot_digest
      ∷ "harnessPlanDigest" ⇒ string r.harness_plan_digest
      ∷ "classification" ⇒ string r.classification
      ∷ "actor" ⇒ actor_value r.actor
      ∷ []))

-- The identifier of the case that a key of a tenant creates, and of its first command.
unfoldable pub case_id_for : Hashing → String → String → String
case_id_for h tenant_id key =
    "case_"
    <> slice
        (stable_digest h
          (object (fields_of ("tenantId" ⇒ string tenant_id ∷ "idempotencyKey" ⇒ string key ∷ []))))
        0 32

unfoldable pub command_id_for : Hashing → String → String → String
command_id_for h case_id key =
    "cmd_"
    <> slice
        (stable_digest h
          (object (fields_of ("caseId" ⇒ string case_id ∷ "idempotencyKey" ⇒ string key ∷ []))))
        0 32

-- What a creation draws from outside.
pub record Occasion : Type 0 where
  pub platform : Platform
  pub now : String
  pub event_uuid : String
  pub outbox_uuid : String

pub record Created : Type 0 where
  pub created : Bool
  pub kyc_case : CaseRow
  pub event_id : Value

unfoldable pub new_case : Occasion → CreateKycCaseRequest → String → CaseRow
unfolding normalize_digest
new_case o request case_id = record {
  tenant_id = request.tenant_id;
  case_id = case_id;
  case_type = request.case_type;
  schema_version = request.schema_version;
  jurisdiction = request.jurisdiction;
  status = intake;
  case_sequence = 1;
  external_ref = request.external_ref;
  policy_snapshot_digest = normalize_digest request.policy_snapshot_digest;
  harness_plan_digest = normalize_digest request.harness_plan_digest;
  classification = request.classification;
  created_by = request.actor;
  created_at = o.now;
  updated_at = o.now;
}

unfoldable pub creation_authority : Hashing → CreateKycCaseRequest → CaseAuthority
unfolding normalize_digest
creation_authority h request = record {
  plan_digest = normalize_digest request.harness_plan_digest;
  permission_envelope_digest = stable_digest h (
      object
        (fields_of ("action" ⇒ string "CreateCase" ∷ "actor" ⇒ actor_value request.actor ∷ [])));
  policy_snapshot_digest = normalize_digest request.policy_snapshot_digest;
}

unfoldable pub creation_event : Occasion → CreateKycCaseRequest → String → String → EventInput
unfolding creation_authority command_id_for
creation_event o request case_id key = record {
  tenant_id = request.tenant_id;
  case_id = case_id;
  sequence = 1;
  event_type = "case.created";
  event_schema = "kyc.case.created.v1";
  occurred_at = o.now;
  recorded_at = o.now;
  actor = actor_value request.actor;
  command_id = command_id_for o.platform.hashing case_id key;
  authority = authority_value (creation_authority o.platform.hashing request);
  payload = object (
      fields_of (
        "caseType" ⇒ string request.case_type
        ∷ "jurisdiction" ⇒ string request.jurisdiction
        ∷ "status" ⇒ string "INTAKE"
        ∷ []));
  evidence_refs = [];
  previous_event_digest = none;
  classification = request.classification;
}

unfoldable pub creation_receipt : Occasion → CreateKycCaseRequest → String → String → Receipt
unfolding command_id_for opaque_id
creation_receipt o request case_id key =
    let event_id = opaque_id "evt" o.event_uuid in
    let response = object (
      fields_of (
        "outcome" ⇒ string "ACCEPTED"
        ∷ "caseId" ⇒ string case_id
        ∷ "caseSequence" ⇒ number (o.platform.print 1)
        ∷ "eventId" ⇒ string event_id
        ∷ [])) in
    record {
      tenant_id = request.tenant_id;
      case_id = case_id;
      command_id = command_id_for o.platform.hashing case_id key;
      command_type = "CreateCase";
      idempotency_key = key;
      request_digest = stable_digest o.platform.hashing (request_value request);
      accepted_sequence_from = 1;
      accepted_sequence_to = 1;
      created_identifiers =
          fields_of ("caseId" ⇒ string case_id ∷ "eventId" ⇒ string event_id ∷ []);
      response = response;
      response_digest = stable_digest o.platform.hashing response;
      created_at = o.now;
    }

-- A creation whose key has no receipt.
unfoldable pub create_case :
    Occasion → CreateKycCaseRequest → String → String → CaseDb → Result Failure (CaseDb × Created)
unfolding insert_case new_case insert_event creation_event creation_receipt write_receipt opaque_id
create_case o request case_id key db = do
  let event_id = opaque_id "evt" o.event_uuid
  cases ← insert_case (new_case o request case_id) db.cases
  ledger ←
      insert_event o.platform event_id (opaque_id "outbox" o.outbox_uuid)
        (creation_event o request case_id key) db.ledger
  receipts ← write_receipt (creation_receipt o request case_id key) db.receipts
  ok (
    record db { cases = cases; ledger = ledger; receipts = receipts },
    record { created = true; kyc_case = new_case o request case_id; event_id = string event_id },
  )

-- The transaction. A receipt stands only for a case that is there; `row.rows[0]!` of one that is not
-- makes `mapCase` throw.
unfoldable pub create :
    Occasion → CreateKycCaseRequest → String → CaseDb → Result Failure (CaseDb × Created)
unfolding case_id_for find_receipt find_case property create_case
create o request key db =
    let case_id = case_id_for o.platform.hashing request.tenant_id key in
    elim (find_receipt request.tenant_id case_id key db.receipts) [
      | none ↦ create_case o request case_id key db
      | some prior ↦
          if prior.request_digest == stable_digest o.platform.hashing (request_value request)
          then (elim (find_case request.tenant_id case_id db.cases) [
            | none ↦ err database_error
            | some row ↦ ok (
              db,
              record {
                created = false;
                kyc_case = row;
                event_id = property "eventId" prior.response;
              },
            )
          ])
          else err (case_error "case.idempotency_conflict" 409)
    ]

unfoldable pub create_kyc_case :
    Occasion → CreateKycCaseRequest → String → CaseDb → CaseDb × Result Failure Created
unfolding create committed on_error as_conflict
create_kyc_case o request key db = committed db (
    on_error (as_conflict "case.conflict") (do
      forbid (key == "") (case_error "case.idempotency_key_required" 400)
      create o request key db))
