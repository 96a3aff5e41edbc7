-- ===== src/Cases/Command/Base.antt =====
-- packages/case-store/src/index.ts: what a command carries, what a mutation gives, and
-- `ensureLinkedEvidence`.
use ehfconcept.Prelude.{
  ℕ, Bool, ◌&&◌, String, List, [], ◌∷◌, Option, ◌==◌, compare_texts, compare_numbers, if◌then◌else◌,
  includes, filter, length, Result, ok, err, map,
}
use ehfconcept.Contracts.Value.{Value, string, array, Items, nil, item, Fields, end, field}
use ehfconcept.Contracts.Canonical.{Hashing}
use ehfconcept.Contracts.Read.{property}
use ehfconcept.Cases.Payload.{Failure, case_error}
use ehfconcept.Cases.Tables.{Row, CaseStatus, CaseActor, EvidenceRef, Tables}

pub data CommandType : Type 0 where
  add_subject link_evidence propose_claim accept_claim_as_fact : CommandType
  record_screening_finding record_assumption raise_contradiction : CommandType
  resolve_contradiction propose_work_item complete_work_item link_execution : CommandType
  submit_decision_recommendation record_gate_result record_qa_result : CommandType
  record_review request_human_review transition_case_status finalize_disposition : CommandType

pub record CaseAuthority : Type 0 where
  pub plan_digest : String
  pub permission_envelope_digest : String
  pub policy_snapshot_digest : String

pub record BusinessCommand : Type 0 where
  pub command_id : String
  pub command_type : CommandType
  pub command_version : String
  pub tenant_id : String
  pub case_id : String
  pub actor : CaseActor
  pub authority : CaseAuthority
  pub payload : Value
  -- The preconditions.
  pub case_sequence : ℕ
  pub subject_revision : Option ℕ
  pub idempotency_key : String
  pub occurred_at : Option String

pub record CaseRow : Type 0 where
  pub tenant_id : String
  pub case_id : String
  pub case_type : String
  pub schema_version : String
  pub jurisdiction : String
  pub status : CaseStatus
  pub case_sequence : ℕ
  pub external_ref : Option String
  pub policy_snapshot_digest : String
  pub harness_plan_digest : String
  pub classification : String
  pub created_by : CaseActor
  pub created_at : String
  pub updated_at : String

pub record LineageEdge : Type 0 where
  pub source_type : String
  pub source_id : String
  pub predicate : String
  pub target_type : String
  pub target_id : String

pub record MutationResult : Type 0 where
  pub event_type : String
  pub event_schema : String
  pub payload : Value
  pub evidence_refs : List String
  pub identifiers : Fields
  pub next_status : Option CaseStatus
  pub lineage : List LineageEdge

-- What a mutation draws from outside: hashing, the time, fresh identifiers, and the configuration.
pub record Call : Type 0 where
  pub hashing : Hashing
  pub print : ℕ → String
  pub now : String
  pub uuid : ℕ → String
  pub evidence_require_scan : Bool

pub record Entry : Type 0 where
  pub key : String
  pub value : Value

-- An object literal.
abbrev pub fields_of : List Entry → Fields
fields_of [] = end
fields_of (e ∷ es) = field e.key e.value (fields_of es)

infix 70 ◌⇒◌
abbrev pub ◌⇒◌ : String → Value → Entry
key ⇒ value = record { key = key; value = value }

abbrev pub strings : List String → Value
strings xs = array (items xs)
  where
    items : List String → Items
    items [] = nil
    items (x ∷ xs) = item (string x) (items xs)

-- `p.name` of the payload.
abbrev pub given : BusinessCommand → String → Value
given command name = property name command.payload

-- The row of a command's case with the given identifier.
abbrev pub row_of : {C : Type 0} → BusinessCommand → String → C → Row C
row_of command id columns = record {
  tenant_id = command.tenant_id;
  case_id = command.case_id;
  id = id;
  columns = columns;
}

-- `... where tenant_id = $1 and case_id = $2 and id = any($3) and status = 'ACCEPTED'`
abbrev pub is_linked : BusinessCommand → List String → Row EvidenceRef → Bool
is_linked command ids r =
    r.tenant_id == command.tenant_id
    && r.case_id == command.case_id
    && includes ids r.id
    && r.columns.status == "ACCEPTED"

unfoldable pub ensure_linked_evidence :
    BusinessCommand → List String → Tables → Result Failure (Unit {0})
ensure_linked_evidence command [] t = ok tt
ensure_linked_evidence command ids t =
    if length (filter (is_linked command ids) t.evidence_refs) == length ids
    then ok tt
    else err (case_error "evidence.not_linked" 409)

abbrev pub edges_from : String → String → String → String → List String → List LineageEdge
edges_from source_type predicate target_type target_id ids =
    map
      (λ id. record {
        source_type = source_type;
        source_id = id;
        predicate = predicate;
        target_type = target_type;
        target_id = target_id;
      })
      ids
