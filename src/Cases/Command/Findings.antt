-- ===== src/Cases/Command/Findings.antt =====
-- packages/case-store/src/index.ts, `applyMutation`: RecordScreeningFinding, RecordAssumption,
-- RaiseContradiction and ResolveContradiction.
use ehfconcept.Prelude.{
  ◌+◌, Bool, ◌&&◌, ◌||◌, String, [], ◌∷◌, ◌++◌, Option, none, some, ◌==◌, compare_texts,
  compare_numbers, if◌then◌else◌, length, update_rows, row_count, Result, ok, ◌>>=◌, ◌>>◌, forbid,
  require,
}
use ehfconcept.Contracts.Value.{Value, null, string, object}
use ehfconcept.Contracts.Read.{property}
use ehfconcept.Cases.Payload.{
  Failure, case_error, required_string, optional_string, coalesce_value, string_array,
  string_array_or_empty, object_value, enum_value, given_or_fresh,
}
use ehfconcept.Cases.Tables.{Row, Finding, Assumption, Contradiction, Tables, insert_row, is_row}
use ehfconcept.Cases.Command.Base.{
  BusinessCommand, MutationResult, Call, ◌⇒◌, fields_of, strings, given, row_of,
  ensure_linked_evidence, edges_from,
}

unfoldable pub record_screening_finding :
    Call → BusinessCommand → String → Tables → Result Failure (Tables × MutationResult)
unfolding optional_string required_string given_or_fresh string_array_or_empty
    ensure_linked_evidence coalesce_value insert_row property
record_screening_finding call command classification t = do
  evidence_refs ← string_array_or_empty 0 (given command "evidenceRefs")
  fact_refs ← string_array_or_empty 0 (given command "factRefs")
  forbid (length evidence_refs + length fact_refs == 0) (case_error "finding.basis_required" 400)
  ensure_linked_evidence command evidence_refs t
  own_id ← optional_string (given command "findingId")
  let finding_id = given_or_fresh own_id "finding" (call.uuid 0)
  finding_type ← required_string (given command "findingType")
  subject_ref ← optional_string (given command "subjectRef")
  reason ← required_string (given command "reason")
  policy_relevance ← optional_string (given command "policyRelevance")
  let finding : Row Finding = row_of command finding_id (record {
    finding_type = finding_type;
    subject_ref = subject_ref;
    classification = classification;
    confidence = coalesce_value (given command "confidence") null;
    uncertainty = coalesce_value (given command "uncertainty") null;
    reason = reason;
    evidence_refs = evidence_refs;
    fact_refs = fact_refs;
    policy_relevance = policy_relevance;
    status = "ACTIVE";
    created_by = command.actor;
    created_at = call.now;
  })
  findings ← insert_row finding t.findings
  ok (
    record t { findings = findings },
    record {
      event_type = "finding.created";
      event_schema = "kyc.finding.created.v1";
      payload = object (
          fields_of (
            "findingId" ⇒ string finding_id
            ∷ "classification" ⇒ given command "findingType"
            ∷ "subjectRef" ⇒ coalesce_value (given command "subjectRef") null
            ∷ []));
      evidence_refs = evidence_refs;
      identifiers = fields_of ("findingId" ⇒ string finding_id ∷ []);
      next_status = none;
      lineage =
          edges_from "Evidence" "SUPPORTS" "Finding" finding_id evidence_refs
          ++ edges_from "Fact" "SUPPORTS" "Finding" finding_id fact_refs;
    },
  )

unfoldable pub record_assumption :
    Call → BusinessCommand → String → Tables → Result Failure (Tables × MutationResult)
unfolding optional_string required_string given_or_fresh string_array_or_empty insert_row property
record_assumption call command classification t = do
  own_id ← optional_string (given command "assumptionId")
  let assumption_id = given_or_fresh own_id "assumption" (call.uuid 0)
  proposition ← required_string (given command "proposition")
  materiality ← required_string (given command "materiality")
  basis_refs ← string_array_or_empty 0 (given command "basisRefs")
  let assumption : Row Assumption = row_of command assumption_id (record {
    proposition = proposition;
    materiality = materiality;
    basis_refs = basis_refs;
    status = "UNVERIFIED";
    classification = classification;
    created_by = command.actor;
    created_at = call.now;
  })
  assumptions ← insert_row assumption t.assumptions
  ok (
    record t { assumptions = assumptions },
    record {
      event_type = "assumption.recorded";
      event_schema = "kyc.assumption.recorded.v1";
      payload = object (
          fields_of (
            "assumptionId" ⇒ string assumption_id
            ∷ "materiality" ⇒ given command "materiality"
            ∷ []));
      evidence_refs = [];
      identifiers = fields_of ("assumptionId" ⇒ string assumption_id ∷ []);
      next_status = none;
      lineage = [];
    },
  )

unfoldable pub raise_contradiction :
    Call → BusinessCommand → String → Tables → Result Failure (Tables × MutationResult)
unfolding optional_string required_string given_or_fresh string_array insert_row property
raise_contradiction call command classification t = do
  own_id ← optional_string (given command "contradictionId")
  let contradiction_id = given_or_fresh own_id "contradiction" (call.uuid 0)
  object_refs ← string_array 2 (given command "objectRefs")
  description ← required_string (given command "description")
  materiality ← required_string (given command "materiality")
  detection_method ← required_string (given command "detectionMethod")
  let contradiction : Row Contradiction = row_of command contradiction_id (record {
    object_refs = object_refs;
    description = description;
    materiality = materiality;
    detection_method = detection_method;
    status = "OPEN";
    resolution = none;
    classification = classification;
    created_by = command.actor;
    created_at = call.now;
    updated_at = call.now;
  })
  contradictions ← insert_row contradiction t.contradictions
  ok (
    record t { contradictions = contradictions },
    record {
      event_type = "contradiction.raised";
      event_schema = "kyc.contradiction.raised.v1";
      payload = object (
          fields_of (
            "contradictionId" ⇒ string contradiction_id
            ∷ "objectRefs" ⇒ strings object_refs
            ∷ "materiality" ⇒ given command "materiality"
            ∷ []));
      evidence_refs = [];
      identifiers = fields_of ("contradictionId" ⇒ string contradiction_id ∷ []);
      next_status = none;
      lineage = [];
    },
  )

-- `status in ('OPEN','UNDER_INVESTIGATION')`
abbrev pub is_unresolved : Contradiction → Bool
is_unresolved c = c.status == "OPEN" || c.status == "UNDER_INVESTIGATION"

abbrev pub resolve_row :
    Call
    → BusinessCommand
    → String
    → String
    → Value
    → Row Contradiction
    → Option (Row Contradiction)
resolve_row call command id status resolution r =
    if is_row command.tenant_id command.case_id id r && is_unresolved r.columns
    then some (record r {
      columns = record r.columns {
        status = status;
        resolution = some resolution;
        updated_at = call.now;
      };
    })
    else none

unfoldable pub resolve_contradiction :
    Call → BusinessCommand → Tables → Result Failure (Tables × MutationResult)
unfolding required_string enum_value object_value string_array_or_empty update_rows row_count
    property
resolve_contradiction call command t = do
  contradiction_id ← required_string (given command "contradictionId")
  status ← enum_value ("RESOLVED" ∷ "ACCEPTED_RISK" ∷ "SUPERSEDED" ∷ []) (given command "status")
  resolution ← object_value (given command "resolution")
  let change = resolve_row call command contradiction_id status resolution
  require (row_count change t.contradictions == 1) (case_error "contradiction.not_open" 409)
  evidence_refs ← string_array_or_empty 0 (given command "evidenceRefs")
  ok (
    record t { contradictions = update_rows change t.contradictions },
    record {
      event_type = "contradiction.resolved";
      event_schema = "kyc.contradiction.resolved.v1";
      payload =
          object (
            fields_of
              ("contradictionId" ⇒ string contradiction_id ∷ "status" ⇒ string status ∷ []));
      evidence_refs = evidence_refs;
      identifiers = fields_of ("contradictionId" ⇒ string contradiction_id ∷ []);
      next_status = none;
      lineage = [];
    },
  )
