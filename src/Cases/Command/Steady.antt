-- ===== src/Cases/Command/Steady.antt =====
-- packages/case-store/src/index.ts, `applyMutation`: the commands that leave the status of a case alone.
use ehfconcept.Prelude.{◌≡◌, String, none, Yields, Yields-bind}
use ehfconcept.Cases.Tables.{Tables}
use ehfconcept.Cases.Command.Base.{BusinessCommand, CaseRow, MutationResult, Call}
use ehfconcept.Cases.Command.Subjects.{add_subject, link_evidence}
use ehfconcept.Cases.Command.Claims.{propose_claim, accept_claim_as_fact}
use ehfconcept.Cases.Command.Findings.{
  record_screening_finding, record_assumption, raise_contradiction, resolve_contradiction,
}
use ehfconcept.Cases.Command.Work.{propose_work_item, complete_work_item, link_execution}
use ehfconcept.Cases.Command.Decisions.{
  submit_decision_recommendation, record_gate_result, record_qa_result, record_review,
}

abbrev pub KeepsStatus : Tables × MutationResult → Type 0
KeepsStatus r = r.1.next_status ≡ none

module _ (call : Call) (command : BusinessCommand) (c : String) (current : CaseRow)
    (t : Tables) where
  pub add_subject-KeepsStatus : Yields KeepsStatus (add_subject call command c t)
  unfolding add_subject
  add_subject-KeepsStatus = search (Yields-bind) depth 15

  pub link_evidence-KeepsStatus : Yields KeepsStatus (link_evidence call command t)
  unfolding link_evidence
  link_evidence-KeepsStatus = search (Yields-bind) depth 15

  pub propose_claim-KeepsStatus : Yields KeepsStatus (propose_claim call command c t)
  unfolding propose_claim
  propose_claim-KeepsStatus = search (Yields-bind) depth 15

  pub accept_claim_as_fact-KeepsStatus : Yields KeepsStatus (accept_claim_as_fact call command c t)
  unfolding accept_claim_as_fact
  accept_claim_as_fact-KeepsStatus = search (Yields-bind) depth 15

  pub record_screening_finding-KeepsStatus :
      Yields KeepsStatus (record_screening_finding call command c t)
  unfolding record_screening_finding
  record_screening_finding-KeepsStatus = search (Yields-bind) depth 15

  pub record_assumption-KeepsStatus : Yields KeepsStatus (record_assumption call command c t)
  unfolding record_assumption
  record_assumption-KeepsStatus = search (Yields-bind) depth 15

  pub raise_contradiction-KeepsStatus : Yields KeepsStatus (raise_contradiction call command c t)
  unfolding raise_contradiction
  raise_contradiction-KeepsStatus = search (Yields-bind) depth 15

  pub resolve_contradiction-KeepsStatus : Yields KeepsStatus (resolve_contradiction call command t)
  unfolding resolve_contradiction
  resolve_contradiction-KeepsStatus = search (Yields-bind) depth 15

  pub propose_work_item-KeepsStatus : Yields KeepsStatus (propose_work_item call command c t)
  unfolding propose_work_item
  propose_work_item-KeepsStatus = search (Yields-bind) depth 15

  pub complete_work_item-KeepsStatus : Yields KeepsStatus (complete_work_item call command t)
  unfolding complete_work_item
  complete_work_item-KeepsStatus = search (Yields-bind) depth 15

  pub link_execution-KeepsStatus : Yields KeepsStatus (link_execution call command t)
  unfolding link_execution
  link_execution-KeepsStatus = search (Yields-bind) depth 15

  pub submit_decision_recommendation-KeepsStatus :
      Yields KeepsStatus (submit_decision_recommendation call command c current t)
  unfolding submit_decision_recommendation
  submit_decision_recommendation-KeepsStatus = search (Yields-bind) depth 15

  pub record_gate_result-KeepsStatus :
      Yields KeepsStatus (record_gate_result call command current t)
  unfolding record_gate_result
  record_gate_result-KeepsStatus = search (Yields-bind) depth 15

  pub record_qa_result-KeepsStatus : Yields KeepsStatus (record_qa_result call command t)
  unfolding record_qa_result
  record_qa_result-KeepsStatus = search (Yields-bind) depth 15

  pub record_review-KeepsStatus : Yields KeepsStatus (record_review call command t)
  unfolding record_review
  record_review-KeepsStatus = search (Yields-bind) depth 15
