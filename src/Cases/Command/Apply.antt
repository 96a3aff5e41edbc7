-- ===== src/Cases/Command/Apply.antt =====
-- packages/case-store/src/index.ts: `applyMutation` itself.
use ehfconcept.Prelude.{String, or_else, Result, ◌>>=◌}
use ehfconcept.Contracts.Read.{property}
use ehfconcept.Cases.Payload.{Failure, optional_string}
use ehfconcept.Cases.Tables.{Tables}
use ehfconcept.Cases.Command.Base
use ehfconcept.Cases.Command.Base.{
  BusinessCommand, CommandType, CaseRow, MutationResult, Call, given,
}
use ehfconcept.Cases.Command.Subjects.{add_subject, link_evidence}
use ehfconcept.Cases.Command.Claims.{propose_claim, accept_claim_as_fact}
use ehfconcept.Cases.Command.Findings.{
  record_screening_finding, record_assumption, raise_contradiction, resolve_contradiction,
}
use ehfconcept.Cases.Command.Work.{propose_work_item, complete_work_item, link_execution}
use ehfconcept.Cases.Command.Decisions.{
  submit_decision_recommendation, record_gate_result, record_qa_result, record_review,
}
use ehfconcept.Cases.Command.Progress.{
  request_human_review, transition_case_status, finalize_disposition,
}

-- The `switch`, on the command type.
unfoldable pub mutate :
    CommandType
    → Call
    → BusinessCommand
    → String
    → CaseRow
    → Tables
    → Result Failure (Tables × MutationResult)
mutate Base.add_subject call command classification current t =
    add_subject call command classification t
mutate Base.link_evidence call command classification current t = link_evidence call command t
mutate Base.propose_claim call command classification current t =
    propose_claim call command classification t
mutate Base.accept_claim_as_fact call command classification current t =
    accept_claim_as_fact call command classification t
mutate Base.record_screening_finding call command classification current t =
    record_screening_finding call command classification t
mutate Base.record_assumption call command classification current t =
    record_assumption call command classification t
mutate Base.raise_contradiction call command classification current t =
    raise_contradiction call command classification t
mutate Base.resolve_contradiction call command classification current t =
    resolve_contradiction call command t
mutate Base.propose_work_item call command classification current t =
    propose_work_item call command classification t
mutate Base.complete_work_item call command classification current t =
    complete_work_item call command t
mutate Base.link_execution call command classification current t = link_execution call command t
mutate Base.submit_decision_recommendation call command classification current t =
    submit_decision_recommendation call command classification current t
mutate Base.record_gate_result call command classification current t =
    record_gate_result call command current t
mutate Base.record_qa_result call command classification current t = record_qa_result call command t
mutate Base.record_review call command classification current t = record_review call command t
mutate Base.request_human_review call command classification current t =
    request_human_review call command current t
mutate Base.transition_case_status call command classification current t =
    transition_case_status call command current t
mutate Base.finalize_disposition call command classification current t =
    finalize_disposition call command current t

unfoldable pub apply_mutation :
    Call → BusinessCommand → CaseRow → Tables → Result Failure (Tables × MutationResult)
unfolding optional_string mutate property
apply_mutation call command current t = do
  own ← optional_string (given command "classification")
  mutate command.command_type call command (or_else own current.classification) current t
