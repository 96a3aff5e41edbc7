-- ===== src/Cases/Command/Claims.antt =====
-- packages/case-store/src/index.ts, `applyMutation`: ProposeClaim and AcceptClaimAsFact. Dates that a
-- command gives are kept as their texts.
use ehfconcept.Prelude.{
  Bool, ◌&&◌, String, List, [], ◌∷◌, Option, none, some, ◌==◌, compare_texts, compare_numbers,
  if◌then◌else◌, includes, filter, length, or_else, coalesce, update_rows, Result, ok, err, ◌>>=◌,
  ◌>>◌,
}
use ehfconcept.Contracts.Value.{Value, null, string, object}
use ehfconcept.Contracts.Read.{property}
use ehfconcept.Cases.Payload.{
  Failure, case_error, database_error, required_string, optional_string, coalesce_value,
  string_array, string_array_or_empty, json_column, given_or_fresh,
}
use ehfconcept.Cases.Tables.{Row, Claim, Fact, Tables, insert_row}
use ehfconcept.Cases.Command.Base.{
  BusinessCommand, MutationResult, Call, ◌⇒◌, fields_of, strings, given, row_of,
  ensure_linked_evidence, edges_from,
}

-- A column that may not be null.
abbrev pub not_null : Option Value → Result Failure Value
not_null none = err database_error
not_null (some v) = ok v

unfoldable pub propose_claim :
    Call → BusinessCommand → String → Tables → Result Failure (Tables × MutationResult)
unfolding optional_string required_string given_or_fresh string_array_or_empty
    ensure_linked_evidence json_column coalesce_value insert_row property
propose_claim call command classification t = do
  own_id ← optional_string (given command "claimId")
  let claim_id = given_or_fresh own_id "claim" (call.uuid 0)
  evidence_refs ← string_array_or_empty 1 (given command "evidenceRefs")
  ensure_linked_evidence command evidence_refs t
  subject_ref ← optional_string (given command "subjectRef")
  predicate ← required_string (given command "predicate")
  value ← not_null (json_column (given command "value"))
  let claim : Row Claim = row_of command claim_id (record {
    subject_ref = subject_ref;
    predicate = predicate;
    value = value;
    asserted_by = command.actor;
    evidence_refs = evidence_refs;
    confidence = coalesce_value (given command "confidence") null;
    status = "PROPOSED";
    classification = classification;
    created_at = call.now;
    updated_at = call.now;
  })
  claims ← insert_row claim t.claims
  ok (
    record t { claims = claims },
    record {
      event_type = "claim.proposed";
      event_schema = "kyc.claim.proposed.v1";
      payload = object (
          fields_of (
            "claimId" ⇒ string claim_id
            ∷ "predicate" ⇒ given command "predicate"
            ∷ "subjectRef" ⇒ coalesce_value (given command "subjectRef") null
            ∷ []));
      evidence_refs = evidence_refs;
      identifiers = fields_of ("claimId" ⇒ string claim_id ∷ []);
      next_status = none;
      lineage = edges_from "Evidence" "ASSERTS" "Claim" claim_id evidence_refs;
    },
  )

abbrev pub is_cited : BusinessCommand → List String → Row Claim → Bool
is_cited command ids r =
    r.tenant_id == command.tenant_id && r.case_id == command.case_id && includes ids r.id

-- The first claim, where as many rows were found as claims are cited.
unfoldable pub cited_claim : List String → List (Row Claim) → Result Failure Claim
cited_claim ids [] = err (case_error "claim.not_found" 404)
cited_claim ids (c ∷ cs) =
    if length (c ∷ cs) == length ids then ok c.columns else err (case_error "claim.not_found" 404)

abbrev accept_row : Call → BusinessCommand → List String → Row Claim → Option (Row Claim)
accept_row call command ids r =
    if is_cited command ids r
    then some
        (record r { columns = record r.columns { status = "ACCEPTED"; updated_at = call.now } })
    else none

unfoldable pub accept_claim_as_fact :
    Call → BusinessCommand → String → Tables → Result Failure (Tables × MutationResult)
unfolding optional_string required_string given_or_fresh string_array cited_claim coalesce_value
    insert_row update_rows property
accept_claim_as_fact call command classification t = do
  claim_refs ← string_array 1 (given command "claimRefs")
  source ← cited_claim claim_refs (filter (is_cited command claim_refs) t.claims)
  own_id ← optional_string (given command "factId")
  let fact_id = given_or_fresh own_id "fact" (call.uuid 0)
  subject_ref ← optional_string (given command "subjectRef")
  own_predicate ← optional_string (given command "predicate")
  let predicate = or_else own_predicate source.predicate
  acceptance_policy_ref ← required_string (given command "acceptancePolicyRef")
  purpose ← required_string (given command "purpose")
  valid_from ← optional_string (given command "validFrom")
  valid_to ← optional_string (given command "validTo")
  let fact : Row Fact = row_of command fact_id (record {
    subject_ref = coalesce subject_ref source.subject_ref;
    predicate = predicate;
    value = coalesce_value (given command "value") source.value;
    basis_claim_refs = claim_refs;
    acceptance_policy_ref = acceptance_policy_ref;
    purpose = purpose;
    valid_from = valid_from;
    valid_to = valid_to;
    recorded_at = call.now;
    status = "ACTIVE";
    classification = classification;
    created_by = command.actor;
  })
  facts ← insert_row fact t.facts
  ok (
    record t { facts = facts; claims = update_rows (accept_row call command claim_refs) t.claims },
    record {
      event_type = "claim.accepted_as_fact";
      event_schema = "kyc.claim.accepted_as_fact.v1";
      payload = object (
          fields_of (
            "factId" ⇒ string fact_id
            ∷ "claimRefs" ⇒ strings claim_refs
            ∷ "predicate" ⇒ string predicate
            ∷ []));
      evidence_refs = [];
      identifiers = fields_of ("factId" ⇒ string fact_id ∷ []);
      next_status = none;
      lineage = edges_from "Claim" "ACCEPTED_AS" "Fact" fact_id claim_refs;
    },
  )
