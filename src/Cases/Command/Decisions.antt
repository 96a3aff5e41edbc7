-- ===== src/Cases/Command/Decisions.antt =====
-- packages/case-store/src/index.ts, `applyMutation`: SubmitDecisionRecommendation, RecordGateResult,
-- RecordQAResult and RecordReview.
use ehfconcept.Prelude.{
  ◌+◌, String, [], ◌∷◌, none, some, ◌==◌, compare_texts, compare_numbers, length, Result, ok, err,
  ◌>>=◌, ◌>>◌, forbid,
}
use ehfconcept.Contracts.Value.{Value, number, string, array, object, Items, nil, item}
use ehfconcept.Contracts.Read.{property}
use ehfconcept.Cases.Payload.{
  Failure, case_error, schema_error, required_string, optional_string, string_array_or_empty,
  object_value, enum_value, given_or_fresh, normalize_digest,
}
use ehfconcept.Cases.Tables.{Row, Recommendation, GateResult, Review, Tables, insert_row, find_row}
use ehfconcept.Cases.Command.Base.{
  BusinessCommand, CaseRow, MutationResult, Call, ◌⇒◌, fields_of, given, row_of, edges_from,
}

unfoldable pub submit_decision_recommendation :
    Call → BusinessCommand → String → CaseRow → Tables → Result Failure (Tables × MutationResult)
unfolding optional_string required_string given_or_fresh string_array_or_empty enum_value
    normalize_digest insert_row property
submit_decision_recommendation call command classification current t = do
  own_id ← optional_string (given command "recommendationId")
  let recommendation_id = given_or_fresh own_id "recommendation" (call.uuid 0)
  finding_refs ← string_array_or_empty 0 (given command "findingRefs")
  evidence_refs ← string_array_or_empty 0 (given command "evidenceRefs")
  forbid (length finding_refs + length evidence_refs == 0)
      (case_error "recommendation.basis_required" 400)
  outcome ← enum_value ("APPROVE" ∷ "DECLINE" ∷ "REVIEW" ∷ []) (given command "outcome")
  rationale ← required_string (given command "rationale")
  let recommendation : Row Recommendation = row_of command recommendation_id (record {
    outcome = outcome;
    case_sequence = current.case_sequence;
    rationale = rationale;
    finding_refs = finding_refs;
    evidence_refs = evidence_refs;
    policy_snapshot_digest = normalize_digest command.authority.policy_snapshot_digest;
    status = "PROPOSED";
    classification = classification;
    created_by = command.actor;
    created_at = call.now;
  })
  recommendations ← insert_row recommendation t.recommendations
  ok (
    record t { recommendations = recommendations },
    record {
      event_type = "decision.recommendation_submitted";
      event_schema = "kyc.decision.recommendation_submitted.v1";
      payload = object (
          fields_of (
            "recommendationId" ⇒ string recommendation_id
            ∷ "outcome" ⇒ given command "outcome"
            ∷ "basedOnSequence" ⇒ number (call.print current.case_sequence)
            ∷ []));
      evidence_refs = evidence_refs;
      identifiers = fields_of ("recommendationId" ⇒ string recommendation_id ∷ []);
      next_status = none;
      lineage =
          edges_from "Finding" "SUPPORTS" "DecisionRecommendation" recommendation_id finding_refs;
    },
  )

-- The recommendation that a command names, which must be there.
unfoldable pub recommendation_of :
    BusinessCommand → String → Tables → Result Failure (Row Recommendation)
unfolding find_row
recommendation_of command ref t =
    elim (find_row command.tenant_id command.case_id ref t.recommendations) [
      | none ↦ err (case_error "recommendation.not_found" 404)
      | some r ↦ ok r
    ]

objects_of : Items → Result Failure (Unit {0})
unfolding object_value
objects_of nil = ok tt
objects_of (item v vs) = do object_value v; objects_of vs

-- `z.array(z.record(z.string(), z.unknown())).min(1)`
unfoldable pub rule_results : Value → Result Failure Value
unfolding objects_of
rule_results (array (item v vs)) = do objects_of (item v vs); ok (array (item v vs))
rule_results _ = err schema_error

unfoldable pub record_gate_result :
    Call → BusinessCommand → CaseRow → Tables → Result Failure (Tables × MutationResult)
unfolding optional_string required_string given_or_fresh recommendation_of enum_value rule_results
    normalize_digest insert_row property
record_gate_result call command current t = do
  own_id ← optional_string (given command "gateResultId")
  let gate_result_id = given_or_fresh own_id "gate" (call.uuid 0)
  recommendation_ref ← required_string (given command "recommendationRef")
  recommendation_of command recommendation_ref t
  decision ← enum_value ("AUTHORIZED" ∷ "DENIED" ∷ []) (given command "decision")
  rules ← rule_results (given command "ruleResults")
  let gate : Row GateResult = row_of command gate_result_id (record {
    recommendation_ref = recommendation_ref;
    decision = decision;
    case_sequence = current.case_sequence;
    rule_results = rules;
    policy_snapshot_digest = normalize_digest command.authority.policy_snapshot_digest;
    created_by = command.actor;
    created_at = call.now;
  })
  gate_results ← insert_row gate t.gate_results
  ok (
    record t { gate_results = gate_results },
    record {
      event_type = "decision.gate_recorded";
      event_schema = "kyc.decision.gate_recorded.v1";
      payload = object (
          fields_of (
            "gateResultId" ⇒ string gate_result_id
            ∷ "recommendationRef" ⇒ string recommendation_ref
            ∷ "decision" ⇒ string decision
            ∷ "basedOnSequence" ⇒ number (call.print current.case_sequence)
            ∷ []));
      evidence_refs = [];
      identifiers = fields_of ("gateResultId" ⇒ string gate_result_id ∷ []);
      next_status = none;
      lineage =
          edges_from "DecisionRecommendation" "EVALUATED_BY" "DecisionGateResult" gate_result_id
            (recommendation_ref ∷ []);
    },
  )

unfoldable pub record_qa_result :
    Call → BusinessCommand → Tables → Result Failure (Tables × MutationResult)
unfolding optional_string required_string given_or_fresh recommendation_of enum_value
    string_array_or_empty insert_row property
record_qa_result call command t = do
  own_id ← optional_string (given command "qaResultId")
  let qa_result_id = given_or_fresh own_id "qa" (call.uuid 0)
  recommendation_ref ← required_string (given command "recommendationRef")
  recommendation ← recommendation_of command recommendation_ref t
  forbid (recommendation.columns.created_by.principal_id == command.actor.principal_id)
      (case_error "qa.separation_of_duties_required" 403)
  outcome ← enum_value ("PASS" ∷ "FAIL" ∷ "UNKNOWN" ∷ "ERROR" ∷ []) (given command "outcome")
  rationale ← required_string (given command "rationale")
  evidence_refs ← string_array_or_empty 0 (given command "evidenceRefs")
  let review : Row Review = row_of command qa_result_id (record {
    review_type = "SEMANTIC_QA";
    outcome = outcome;
    object_ref = recommendation_ref;
    rationale = rationale;
    viewed_evidence_refs = evidence_refs;
    reviewer = command.actor;
    created_at = call.now;
  })
  reviews ← insert_row review t.reviews
  ok (
    record t { reviews = reviews },
    record {
      event_type = "qa.result_recorded";
      event_schema = "kyc.qa.result_recorded.v1";
      payload = object (
          fields_of (
            "qaResultId" ⇒ string qa_result_id
            ∷ "recommendationRef" ⇒ string recommendation_ref
            ∷ "outcome" ⇒ string outcome
            ∷ []));
      evidence_refs = evidence_refs;
      identifiers = fields_of ("qaResultId" ⇒ string qa_result_id ∷ []);
      next_status = none;
      lineage = [];
    },
  )

unfoldable pub record_review :
    Call → BusinessCommand → Tables → Result Failure (Tables × MutationResult)
unfolding optional_string required_string given_or_fresh string_array_or_empty insert_row property
record_review call command t = do
  own_id ← optional_string (given command "reviewId")
  let review_id = given_or_fresh own_id "review" (call.uuid 0)
  review_type ← required_string (given command "reviewType")
  outcome ← required_string (given command "outcome")
  object_ref ← required_string (given command "objectRef")
  rationale ← required_string (given command "rationale")
  viewed ← string_array_or_empty 0 (given command "viewedEvidenceRefs")
  let review : Row Review = row_of command review_id (record {
    review_type = review_type;
    outcome = outcome;
    object_ref = object_ref;
    rationale = rationale;
    viewed_evidence_refs = viewed;
    reviewer = command.actor;
    created_at = call.now;
  })
  reviews ← insert_row review t.reviews
  ok (
    record t { reviews = reviews },
    record {
      event_type = "review.recorded";
      event_schema = "kyc.review.recorded.v1";
      payload = object (
          fields_of (
            "reviewId" ⇒ string review_id
            ∷ "reviewType" ⇒ given command "reviewType"
            ∷ "outcome" ⇒ given command "outcome"
            ∷ "objectRef" ⇒ given command "objectRef"
            ∷ []));
      evidence_refs = viewed;
      identifiers = fields_of ("reviewId" ⇒ string review_id ∷ []);
      next_status = none;
      lineage = [];
    },
  )
