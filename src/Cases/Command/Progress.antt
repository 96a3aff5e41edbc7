-- ===== src/Cases/Command/Progress.antt =====
-- packages/case-store/src/index.ts, `applyMutation`: the commands that move the status of a case.
use ehfconcept.Prelude.{
  Bool, true, false, ◌&&◌, ◌||◌, String, [], ◌∷◌, none, some, ◌==◌, compare_texts, if◌then◌else◌,
  includes, find, is_some, or_else, Result, ok, err, ◌>>=◌, ◌>>◌, forbid, require,
}
use ehfconcept.Contracts.Value.{Value, string, array, nil, object, end}
use ehfconcept.Contracts.Read.{property}
use ehfconcept.Cases.Payload.{
  Failure, case_error, schema_error, required_string, optional_string, coalesce_value,
  string_array_or_empty, given_or_fresh, opaque_id, normalize_digest,
}
use ehfconcept.Cases.Tables.{
  Row, CaseStatus, approved, declined, human_review, ActorType, human, Contradiction, Disposition,
  Tables, insert_row, find_row,
}
use ehfconcept.Cases.Status.{status_name, status_named, may_go}
use ehfconcept.Cases.Command.Base.{
  BusinessCommand, CaseRow, MutationResult, Call, ◌⇒◌, fields_of, given, row_of, edges_from,
}
use ehfconcept.Cases.Command.Findings.{is_unresolved}

abbrev pub transition_not_allowed : Failure
transition_not_allowed = case_error "case.transition_not_allowed" 409

unfoldable pub request_human_review :
    Call → BusinessCommand → CaseRow → Tables → Result Failure (Tables × MutationResult)
unfolding may_go opaque_id required_string optional_string string_array_or_empty property
request_human_review call command current t = do
  require (may_go current.status human_review) transition_not_allowed
  let review_request_id = opaque_id "review_request" (call.uuid 0)
  object_ref ← required_string (given command "objectRef")
  reason ← required_string (given command "reason")
  priority ← optional_string (given command "priority")
  evidence_refs ← string_array_or_empty 0 (given command "evidenceRefs")
  ok (
    t,
    record {
      event_type = "human_review.requested";
      event_schema = "kyc.human_review.requested.v1";
      payload = object (
          fields_of (
            "reviewRequestId" ⇒ string review_request_id
            ∷ "objectRef" ⇒ string object_ref
            ∷ "reason" ⇒ string reason
            ∷ "priority" ⇒ string (or_else priority "NORMAL")
            ∷ []));
      evidence_refs = evidence_refs;
      identifiers = fields_of ("reviewRequestId" ⇒ string review_request_id ∷ []);
      next_status = some human_review;
      lineage = [];
    },
  )

-- `z.enum([...]).parse(p.toStatus)` with the names of all statuses.
unfoldable pub parse_status : Value → Result Failure CaseStatus
unfolding status_named
parse_status (string s) = elim (status_named s) [
  | none ↦ err schema_error
  | some status ↦ ok status
]
parse_status _ = err schema_error

abbrev pub is_disposition : CaseStatus → Bool
is_disposition approved = true
is_disposition declined = true
is_disposition _ = false

unfoldable pub transition_case_status :
    Call → BusinessCommand → CaseRow → Tables → Result Failure (Tables × MutationResult)
unfolding parse_status may_go required_string property
transition_case_status call command current t = do
  to_status ← parse_status (given command "toStatus")
  require (may_go current.status to_status) transition_not_allowed
  forbid (is_disposition to_status) (case_error "case.disposition_command_required" 409)
  reason ← required_string (given command "reason")
  ok (
    t,
    record {
      event_type = "case.status_transitioned";
      event_schema = "kyc.case.status_transitioned.v1";
      payload = object (
          fields_of (
            "from" ⇒ string (status_name current.status)
            ∷ "to" ⇒ string (status_name to_status)
            ∷ "reason" ⇒ string reason
            ∷ []));
      evidence_refs = [];
      identifiers = end;
      next_status = some to_status;
      lineage = [];
    },
  )

abbrev pub is_human : ActorType → Bool
is_human human = true
is_human _ = false

abbrev pub is_under_review : CaseStatus → Bool
is_under_review human_review = true
is_under_review _ = false

-- `command.actor.type === "HUMAN"` with one of the two roles.
abbrev pub has_authority : BusinessCommand → Bool
has_authority command =
    is_human command.actor.actor_type
    && (includes command.actor.roles "KYC.Analyst"
        || includes command.actor.roles "KYC.SeniorReviewer")

unfoldable pub gate_authorizes : BusinessCommand → String → String → Tables → Bool
unfolding find_row
gate_authorizes command gate_result_ref recommendation_ref t =
    elim (find_row command.tenant_id command.case_id gate_result_ref t.gate_results) [
      | none ↦ false
      | some g ↦
          g.columns.decision == "AUTHORIZED" && g.columns.recommendation_ref == recommendation_ref
    ]

-- An unresolved contradiction of the case with materiality HIGH or MATERIAL.
abbrev pub is_open_material : BusinessCommand → Row Contradiction → Bool
is_open_material command r =
    r.tenant_id == command.tenant_id
    && r.case_id == command.case_id
    && is_unresolved r.columns
    && (r.columns.materiality == "HIGH" || r.columns.materiality == "MATERIAL")

-- `z.enum(["APPROVED", "DECLINED"])`
unfoldable pub parse_outcome : Value → Result Failure CaseStatus
parse_outcome (string s) =
    if s == "APPROVED"
    then ok approved
    else if s == "DECLINED"
    then ok declined
    else err schema_error
parse_outcome _ = err schema_error

unfoldable pub finalize_disposition :
    Call → BusinessCommand → CaseRow → Tables → Result Failure (Tables × MutationResult)
unfolding required_string optional_string parse_outcome gate_authorizes given_or_fresh
    coalesce_value normalize_digest insert_row string_array_or_empty property
finalize_disposition call command current t = do
  require (has_authority command) (case_error "disposition.human_authority_required" 403)
  require (is_under_review current.status) (case_error "disposition.case_not_under_review" 409)
  recommendation_ref ← required_string (given command "recommendationRef")
  gate_result_ref ← required_string (given command "gateResultRef")
  outcome ← parse_outcome (given command "outcome")
  require (gate_authorizes command gate_result_ref recommendation_ref t)
      (case_error "disposition.gate_not_authorized" 409)
  forbid (is_some (find (is_open_material command) t.contradictions))
      (case_error "disposition.material_contradiction_open" 409)
  own_id ← optional_string (given command "dispositionId")
  let disposition_id = given_or_fresh own_id "disposition" (call.uuid 0)
  review_ref ← optional_string (given command "reviewRef")
  rationale ← required_string (given command "rationale")
  let disposition : Row Disposition = row_of command disposition_id (record {
    outcome = status_name outcome;
    recommendation_ref = recommendation_ref;
    gate_result_ref = gate_result_ref;
    review_ref = review_ref;
    policy_snapshot_digest = normalize_digest command.authority.policy_snapshot_digest;
    rationale = rationale;
    follow_up_obligations = coalesce_value (given command "followUpObligations") (array nil);
    status = "EFFECTIVE";
    effective_at = call.now;
    authorized_actor = command.actor;
    created_at = call.now;
  })
  dispositions ← insert_row disposition t.dispositions
  evidence_refs ← string_array_or_empty 0 (given command "evidenceRefs")
  ok (
    record t { dispositions = dispositions },
    record {
      event_type = "case.dispositioned";
      event_schema = "kyc.case.dispositioned.v1";
      payload = object (
          fields_of (
            "dispositionId" ⇒ string disposition_id
            ∷ "outcome" ⇒ string (status_name outcome)
            ∷ "recommendationRef" ⇒ string recommendation_ref
            ∷ "gateResultRef" ⇒ string gate_result_ref
            ∷ "effectiveAt" ⇒ string call.now
            ∷ []));
      evidence_refs = evidence_refs;
      identifiers = fields_of ("dispositionId" ⇒ string disposition_id ∷ []);
      next_status = some outcome;
      lineage =
          edges_from "DecisionGateResult" "AUTHORIZES" "FinalDisposition" disposition_id
            (gate_result_ref ∷ []);
    },
  )
