-- ===== src/Cases/View.antt =====
-- packages/case-store/src/index.ts: `getCaseView` and `getEvidence`. The statements name no order for the
-- rows of a table; they come here as they stand.
use Prim.Native.String.{◌++◌ as ◌<>◌}
use ehfconcept.Prelude.{
  ℕ, String, List, Option, none, some, ◌==◌, ◌&&◌, compare_texts, filter, find,
}
use ehfconcept.Cases.Events.{Platform}
use ehfconcept.Cases.Tables.{
  Row, Subject, Claim, Fact, Finding, Assumption, Contradiction, WorkItem, ExecutionRef,
  Recommendation, GateResult, Review, Disposition, EvidenceObject,
}
use ehfconcept.Cases.Command.Base.{CaseRow}
use ehfconcept.Cases.Db.{LineageRow, CaseDb, find_case}
use ehfconcept.Cases.Register.{Artifact, EvidenceDb}

-- `selectRows`: the rows of a case.
unfoldable pub select_rows : {C : Type 0} → List (Row C) → String → String → List (Row C)
select_rows rows tenant_id case_id =
    filter (λ r. r.tenant_id == tenant_id && r.case_id == case_id) rows

pub record CaseView : Type 0 where
  pub generated_at : String
  pub etag : String
  pub kyc_case : CaseRow
  pub subjects : List (Row Subject)
  pub evidence : List EvidenceObject
  pub claims : List (Row Claim)
  pub facts : List (Row Fact)
  pub findings : List (Row Finding)
  pub assumptions : List (Row Assumption)
  pub contradictions : List (Row Contradiction)
  pub work_items : List (Row WorkItem)
  pub decision_recommendations : List (Row Recommendation)
  pub gate_results : List (Row GateResult)
  pub reviews : List (Row Review)
  pub final_dispositions : List (Row Disposition)
  pub execution_refs : List (Row ExecutionRef)
  pub lineage_edges : List LineageRow

abbrev pub etag_of : Platform → CaseRow → String
etag_of p r = "W/\"" <> r.case_id <> ":" <> p.print r.case_sequence <> "\""

unfoldable pub get_case_view : Platform → String → CaseDb → String → String → Option CaseView
unfolding select_rows find_case
get_case_view p now db tenant_id case_id = elim (find_case tenant_id case_id db.cases) [
  | none ↦ none
  | some r ↦
      let t = db.tables in
      some (record {
        generated_at = now;
        etag = etag_of p r;
        kyc_case = r;
        subjects = select_rows t.subjects tenant_id case_id;
        evidence =
            filter (λ (e : EvidenceObject). e.tenant_id == tenant_id && e.case_id == case_id)
              t.evidence_objects;
        claims = select_rows t.claims tenant_id case_id;
        facts = select_rows t.facts tenant_id case_id;
        findings = select_rows t.findings tenant_id case_id;
        assumptions = select_rows t.assumptions tenant_id case_id;
        contradictions = select_rows t.contradictions tenant_id case_id;
        work_items = select_rows t.work_items tenant_id case_id;
        decision_recommendations = select_rows t.recommendations tenant_id case_id;
        gate_results = select_rows t.gate_results tenant_id case_id;
        reviews = select_rows t.reviews tenant_id case_id;
        final_dispositions = select_rows t.dispositions tenant_id case_id;
        execution_refs = select_rows t.execution_refs tenant_id case_id;
        lineage_edges =
            filter (λ (e : LineageRow). e.tenant_id == tenant_id && e.case_id == case_id)
              db.lineage_edges;
      })
]

-- The columns that `getEvidence` joins to those of the evidence.
pub record StoredEvidence : Type 0 where
  pub evidence : EvidenceObject
  pub media_type : String
  pub byte_length : ℕ

-- `join artifacts a on a.tenant_id = e.tenant_id and a.artifact_ref = e.artifact_ref`
unfoldable pub artifact_of : EvidenceObject → List Artifact → Option Artifact
artifact_of e artifacts =
    find (λ (a : Artifact). a.tenant_id == e.tenant_id && a.artifact_ref == e.artifact_ref)
      artifacts

unfoldable pub get_evidence : EvidenceDb → String → String → Option StoredEvidence
unfolding artifact_of
get_evidence db tenant_id evidence_id =
    elim (find (λ (e : EvidenceObject). e.tenant_id == tenant_id && e.evidence_id == evidence_id)
      db.case_db.tables.evidence_objects) [
        | none ↦ none
        | some e ↦ elim (artifact_of e db.artifacts) [
          | none ↦ none
          | some a ↦
              some (record { evidence = e; media_type = a.media_type; byte_length = a.byte_length })
        ]
      ]
