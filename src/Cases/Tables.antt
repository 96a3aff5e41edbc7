-- ===== src/Cases/Tables.antt =====
-- packages/case-store/src/index.ts: the tables that the commands of a case write. The rows of most of
-- them are keyed by tenant, case and an identifier of their own.
use ehfconcept.Prelude.{
  ℕ, Bool, ◌&&◌, String, List, [], ◌∷◌, ◌++◌, Option, ◌==◌, compare_texts, compare_numbers,
  if◌then◌else◌, find, is_some, Result, ok, err,
}
use ehfconcept.Contracts.Value.{Value}
use ehfconcept.Cases.Payload.{Failure, unique_violation}

pub record Row (C : Type 0) : Type 0 where
  pub tenant_id : String
  pub case_id : String
  pub id : String
  pub columns : C

module _ {C : Type 0} where
  abbrev pub is_row : String → String → String → Row C → Bool
  is_row tenant_id case_id id r = r.tenant_id == tenant_id && r.case_id == case_id && r.id == id

  unfoldable pub find_row : String → String → String → List (Row C) → Option (Row C)
  find_row tenant_id case_id id rows = find (is_row tenant_id case_id id) rows

  -- `insert into ...`, which the primary key may refuse.
  unfoldable pub insert_row : Row C → List (Row C) → Result Failure (List (Row C))
  unfolding find_row
  insert_row r rows =
      if is_some (find_row r.tenant_id r.case_id r.id rows)
      then err unique_violation
      else ok (rows ++ r ∷ [])

  -- `insert into ... on conflict do nothing`
  unfoldable pub insert_row_or_keep : Row C → List (Row C) → List (Row C)
  unfolding find_row
  insert_row_or_keep r rows =
      if is_some (find_row r.tenant_id r.case_id r.id rows) then rows else rows ++ r ∷ []

pub data CaseStatus : Type 0 where
  intake validating screening investigating ready_for_decision qa_review human_review : CaseStatus
  needs_information suspended approved declined closed : CaseStatus

pub data ActorType : Type 0 where
  agent human system integration : ActorType

pub record CaseActor : Type 0 where
  pub actor_type : ActorType
  pub principal_id : String
  pub execution_id : Option String
  pub roles : List String

pub record Subject : Type 0 where
  pub subject_type : String
  pub display_name : Option String
  pub attributes : Value
  pub classification : String
  pub created_by : CaseActor
  pub created_at : String

-- The key of an identifier has its subject too.
pub record SubjectIdentifier : Type 0 where
  pub tenant_id : String
  pub case_id : String
  pub subject_id : String
  pub identifier_id : String
  pub identifier_type : String
  pub value_digest : String
  pub masked_value : Option String
  pub source : String
  pub classification : String
  pub created_by : CaseActor
  pub created_at : String

pub record EvidenceRef : Type 0 where
  pub purpose : String
  pub status : String
  pub linked_by : CaseActor
  pub linked_at : String

pub record Claim : Type 0 where
  pub subject_ref : Option String
  pub predicate : String
  pub value : Value
  pub asserted_by : CaseActor
  pub evidence_refs : List String
  pub confidence : Value
  pub status : String
  pub classification : String
  pub created_at : String
  pub updated_at : String

pub record Fact : Type 0 where
  pub subject_ref : Option String
  pub predicate : String
  pub value : Value
  pub basis_claim_refs : List String
  pub acceptance_policy_ref : String
  pub purpose : String
  pub valid_from : Option String
  pub valid_to : Option String
  pub recorded_at : String
  pub status : String
  pub classification : String
  pub created_by : CaseActor

pub record Finding : Type 0 where
  pub finding_type : String
  pub subject_ref : Option String
  pub classification : String
  pub confidence : Value
  pub uncertainty : Value
  pub reason : String
  pub evidence_refs : List String
  pub fact_refs : List String
  pub policy_relevance : Option String
  pub status : String
  pub created_by : CaseActor
  pub created_at : String

pub record Assumption : Type 0 where
  pub proposition : String
  pub materiality : String
  pub basis_refs : List String
  pub status : String
  pub classification : String
  pub created_by : CaseActor
  pub created_at : String

pub record Contradiction : Type 0 where
  pub object_refs : List String
  pub description : String
  pub materiality : String
  pub detection_method : String
  pub status : String
  pub resolution : Option Value
  pub classification : String
  pub created_by : CaseActor
  pub created_at : String
  pub updated_at : String

pub record WorkItem : Type 0 where
  pub work_type : String
  pub status : String
  pub priority : String
  pub assigned_to : Value
  pub required_capability : Option String
  pub due_at : Option String
  pub result_refs : List String
  pub classification : String
  pub created_by : CaseActor
  pub created_at : String
  pub updated_at : String

pub record ExecutionRef : Type 0 where
  pub plan_digest : String
  pub trace_id : Option String
  pub purpose : String
  pub linked_by : CaseActor
  pub linked_at : String

pub record Recommendation : Type 0 where
  pub outcome : String
  pub case_sequence : ℕ
  pub rationale : String
  pub finding_refs : List String
  pub evidence_refs : List String
  pub policy_snapshot_digest : String
  pub status : String
  pub classification : String
  pub created_by : CaseActor
  pub created_at : String

pub record GateResult : Type 0 where
  pub recommendation_ref : String
  pub decision : String
  pub case_sequence : ℕ
  pub rule_results : Value
  pub policy_snapshot_digest : String
  pub created_by : CaseActor
  pub created_at : String

pub record Review : Type 0 where
  pub review_type : String
  pub outcome : String
  pub object_ref : String
  pub rationale : String
  pub viewed_evidence_refs : List String
  pub reviewer : CaseActor
  pub created_at : String

pub record Disposition : Type 0 where
  pub outcome : String
  pub recommendation_ref : String
  pub gate_result_ref : String
  pub review_ref : Option String
  pub policy_snapshot_digest : String
  pub rationale : String
  pub follow_up_obligations : Value
  pub status : String
  pub effective_at : String
  pub authorized_actor : CaseActor
  pub created_at : String

-- evidence.evidence_objects, keyed by tenant and `evidence_id`.
pub record EvidenceObject : Type 0 where
  pub tenant_id : String
  pub case_id : String
  pub evidence_id : String
  pub evidence_type : String
  pub source : Value
  pub subject_refs : List String
  pub trust : Value
  pub raw_digest : String
  pub artifact_ref : String
  pub classification : String
  pub retention_class : String
  pub residency : String
  pub scan_status : String
  pub verification_status : String
  pub created_by : CaseActor
  pub created_at : String

-- The tables that a command may write, and the evidence that it reads.
pub record Tables : Type 0 where
  pub subjects : List (Row Subject)
  pub identifiers : List SubjectIdentifier
  pub evidence_refs : List (Row EvidenceRef)
  pub claims : List (Row Claim)
  pub facts : List (Row Fact)
  pub findings : List (Row Finding)
  pub assumptions : List (Row Assumption)
  pub contradictions : List (Row Contradiction)
  pub work_items : List (Row WorkItem)
  pub execution_refs : List (Row ExecutionRef)
  pub recommendations : List (Row Recommendation)
  pub gate_results : List (Row GateResult)
  pub reviews : List (Row Review)
  pub dispositions : List (Row Disposition)
  pub evidence_objects : List EvidenceObject
