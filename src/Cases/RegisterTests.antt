-- ===== src/Cases/RegisterTests.antt =====
-- packages/case-store/src/index.ts: `registerEvidence` on a concrete request.
use ehfconcept.Prelude.{◌≡◌, refl, [], ◌∷◌, true, false, some, Result, ok, err}
use ehfconcept.Contracts.Value.{null}
use ehfconcept.Contracts.Canonical.{canonicalize, stable_digest}
use ehfconcept.Contracts.Read.{text}
use ehfconcept.Cases.Create.{create_kyc_case}
use ehfconcept.Cases.CommandTests.{platform, analyst, with_case}
use ehfconcept.Cases.Payload.{Failure, case_error}
use ehfconcept.Cases.Register.{
  RegisterEvidenceRequest, EvidenceDb, Vault, Registered, register_evidence,
}
use ehfconcept.Cases.Registered.{here, registration, on_cases, registration_replays}

abbrev vault : Vault
vault = record {
  platform = platform;
  bytes_of = λ t. 104 ∷ 105 ∷ [];
  sha256_of = λ bytes. "0123456789";
  evidence_max_bytes = 2;
  now = "t3";
  evidence_uuid = "1";
  outbox_uuid = "9";
}

abbrev passport : RegisterEvidenceRequest
passport = record {
  tenant_id = "T";
  case_id = "case_";
  schema_version = "harness.evidence.v1";
  evidence_type = "PASSPORT";
  media_type = "text/plain";
  content_base64 = "aGk=";
  declared_digest = some "sha256:0123456789";
  source = null;
  subject_refs = [];
  trust = null;
  classification = "CONFIDENTIAL";
  retention_class = "KYC_REGULATED";
  residency = "US";
  created_by = analyst;
}

abbrev empty_store : EvidenceDb
empty_store = record { case_db = with_case; artifacts = []; receipts = []; outbox = [] }

abbrev stored : EvidenceDb
stored = (register_evidence vault passport "k" empty_store).0

abbrev registered_of : Result Failure Registered → Registered
registered_of (ok r) = r
registered_of (err e) = record { created = false; evidence = null }

abbrev first : Registered
first = registered_of ((register_evidence vault passport "k" empty_store).1)

first_is_created : first.created ≡ true
unfolding register_evidence create_kyc_case stable_digest text canonicalize
first_is_created = refl

long_content_is_refused :
    register_evidence (record vault { evidence_max_bytes = 1 }) passport "k" empty_store
    ≡ (empty_store, err (case_error "evidence.content_too_large" 413))
unfolding register_evidence
long_content_is_refused = refl

false_digest_is_refused :
    register_evidence vault (record passport { declared_digest = some "0" }) "k" empty_store
    ≡ (empty_store, err (case_error "evidence.digest_mismatch" 400))
unfolding register_evidence
false_digest_is_refused = refl

-- The same content is registered under another key, and then the case is gone.
abbrev after : EvidenceDb
after = record ((register_evidence (record vault { evidence_uuid = "5" }) passport "k2" stored).0) {
  case_db = record with_case { cases = [] };
}

registration_replays_example :
    register_evidence
      (record vault { now = "t4"; evidence_uuid = "2"; outbox_uuid = "10" })
      passport
      "k"
      after
    ≡ (after, ok (record { created = false; evidence = first.evidence }))
unfolding register_evidence create_kyc_case stable_digest text canonicalize
registration_replays_example =
    registration_replays vault passport "k" "t4" "2" "10" empty_store stored after first refl (
      on_cases (registration here (record vault { evidence_uuid = "5" }) passport "k2")
        (record with_case { cases = [] }))
