-- ===== src/Cases/Register.antt =====
-- packages/case-store/src/index.ts: `registerEvidence`. What Buffer.from makes of a base64 text, and the
-- SHA-256 of bytes, are parameters.
use Prim.Native.Nat.{◌%◌}
use Prim.Native.Char.{code}
use Prim.Native.String.{◌++◌ as ◌<>◌, slice}
use ehfconcept.Prelude.{
  ℕ, zero, suc, Bool, true, false, not, ◌&&◌, ◌||◌, String, List, [], ◌∷◌, ◌++◌, Option, none, some,
  ◌==◌, compare_texts, compare_numbers, ltb, leb, length, if◌then◌else◌, find, is_some, Result, ok,
  err, ◌>>=◌, ◌>>◌, require, forbid,
}
use ehfconcept.Contracts.Value.{Value, string, null, boolean, object}
use ehfconcept.Contracts.Read.{property}
use ehfconcept.Contracts.Canonical.{stable_digest}
use ehfconcept.Cases.Payload.{Failure, case_error, unique_violation, opaque_id, normalize_digest}
use ehfconcept.Cases.Tables.{CaseActor, EvidenceObject}
use ehfconcept.Cases.Events.{Platform}
use ehfconcept.Cases.Command.Base.{◌⇒◌, fields_of, strings}
use ehfconcept.Cases.Db.{CaseDb, find_case}
use ehfconcept.Cases.Submit.{actor_value, text_or_undefined}

pub record RegisterEvidenceRequest : Type 0 where
  pub tenant_id : String
  pub case_id : String
  pub schema_version : String
  pub evidence_type : String
  pub media_type : String
  pub content_base64 : String
  pub declared_digest : Option String
  pub source : Value
  pub subject_refs : List String
  pub trust : Value
  pub classification : String
  pub retention_class : String
  pub residency : String
  pub created_by : CaseActor

abbrev pub request_value : RegisterEvidenceRequest → Value
request_value r = object (
    fields_of (
      "tenantId" ⇒ string r.tenant_id
      ∷ "caseId" ⇒ string r.case_id
      ∷ "schemaVersion" ⇒ string r.schema_version
      ∷ "type" ⇒ string r.evidence_type
      ∷ "mediaType" ⇒ string r.media_type
      ∷ "contentBase64" ⇒ string r.content_base64
      ∷ "declaredDigest" ⇒ text_or_undefined r.declared_digest
      ∷ "source" ⇒ r.source
      ∷ "subjectRefs" ⇒ strings r.subject_refs
      ∷ "trust" ⇒ r.trust
      ∷ "classification" ⇒ string r.classification
      ∷ "retentionClass" ⇒ string r.retention_class
      ∷ "residency" ⇒ string r.residency
      ∷ "createdBy" ⇒ actor_value r.created_by
      ∷ []))

-- evidence.artifacts, evidence.registration_receipts and evidence.outbox.
pub record Artifact : Type 0 where
  pub tenant_id : String
  pub artifact_digest : String
  pub artifact_ref : String
  pub media_type : String
  pub byte_length : ℕ
  pub content : List ℕ
  pub created_at : String

pub record RegistrationReceipt : Type 0 where
  pub tenant_id : String
  pub idempotency_key : String
  pub request_digest : String
  pub evidence_id : String
  pub response : Value
  pub response_digest : String
  pub created_at : String

pub record EvidenceEvent : Type 0 where
  pub outbox_id : String
  pub tenant_id : String
  pub case_id : String
  pub evidence_id : String
  pub classification : String
  pub payload : Value
  pub created_at : String

pub record EvidenceDb : Type 0 where
  pub case_db : CaseDb
  pub artifacts : List Artifact
  pub receipts : List RegistrationReceipt
  pub outbox : List EvidenceEvent

pub record Vault : Type 0 where
  pub platform : Platform
  pub bytes_of : String → List ℕ
  pub sha256_of : List ℕ → String
  pub evidence_max_bytes : ℕ
  pub now : String
  pub evidence_uuid : String
  pub outbox_uuid : String

-- `[A-Za-z0-9+/]`
unfoldable pub is_base64 : ℕ → Bool
is_base64 c =
    (leb 65 c && leb c 90)
    || (leb 97 c && leb c 122)
    || (leb 48 c && leb c 57)
    || c == 43
    || c == 47

abbrev pub only_padding : ℕ → String → Bool
only_padding n String.[] = true
only_padding zero (String.◌∷◌ c s) = false
only_padding (suc n) (String.◌∷◌ c s) = code c == 61 && only_padding n s

-- `/^[A-Za-z0-9+/]*={0,2}$/`
unfoldable pub is_base64_text : String → Bool
unfolding is_base64
is_base64_text String.[] = true
is_base64_text (String.◌∷◌ c s) =
    if is_base64 (code c) then is_base64_text s else only_padding 2 (String.◌∷◌ c s)

abbrev pub text_length : String → ℕ
text_length String.[] = 0
text_length (String.◌∷◌ c s) = suc (text_length s)

-- `declaredDigest && normalizeDigest(declaredDigest) !== digest`, where an empty text declares nothing.
abbrev pub contradicts : Option String → String → Bool
contradicts none digest = false
contradicts (some d) digest = not (d == "") && not (normalize_digest d == digest)

-- The checks before the transaction: the bytes and their digest.
unfoldable pub check_content : Vault → RegisterEvidenceRequest → Result Failure (List ℕ × String)
unfolding is_base64_text normalize_digest
check_content v request = do
  require (text_length request.content_base64 % 4 == 0 && is_base64_text request.content_base64)
      (case_error "evidence.content_invalid" 400)
  let content = v.bytes_of request.content_base64
  forbid (length content == 0) (case_error "evidence.content_invalid" 400)
  forbid (ltb v.evidence_max_bytes (length content)) (case_error "evidence.content_too_large" 413)
  let digest = v.sha256_of content
  forbid (contradicts request.declared_digest digest) (case_error "evidence.digest_mismatch" 400)
  ok (content, digest)

unfoldable pub artifact_ref_of : Vault → String → String → String
artifact_ref_of v tenant_id digest =
    "artifact://postgres/"
    <> slice (stable_digest v.platform.hashing (string tenant_id)) 0 16
    <> "/sha256/"
    <> slice digest 0 2
    <> "/"
    <> slice digest 2 4
    <> "/"
    <> digest

-- `on conflict (tenant_id, artifact_digest) do nothing`; the reference is unique too.
unfoldable pub put_artifact : Artifact → List Artifact → Result Failure (List Artifact)
put_artifact a artifacts =
    if is_some (
      find (λ (x : Artifact). x.tenant_id == a.tenant_id && x.artifact_digest == a.artifact_digest)
        artifacts)
    then ok artifacts
    else if is_some (find (λ (x : Artifact). x.artifact_ref == a.artifact_ref) artifacts)
    then err unique_violation
    else ok (artifacts ++ a ∷ [])

unfoldable pub new_evidence : Vault → RegisterEvidenceRequest → String → EvidenceObject
unfolding opaque_id artifact_ref_of
new_evidence v request digest = record {
  tenant_id = request.tenant_id;
  case_id = request.case_id;
  evidence_id = opaque_id "ev" v.evidence_uuid;
  evidence_type = request.evidence_type;
  source = request.source;
  subject_refs = request.subject_refs;
  trust = request.trust;
  raw_digest = digest;
  artifact_ref = artifact_ref_of v request.tenant_id digest;
  classification = request.classification;
  retention_class = request.retention_class;
  residency = request.residency;
  scan_status = "POC_NOT_SCANNED";
  verification_status = "DIGEST_VERIFIED";
  created_by = request.created_by;
  created_at = v.now;
}

-- The key is the tenant and the identifier.
unfoldable pub insert_evidence :
    EvidenceObject → List EvidenceObject → Result Failure (List EvidenceObject)
insert_evidence e es =
    if is_some (
      find (λ (x : EvidenceObject). x.tenant_id == e.tenant_id && x.evidence_id == e.evidence_id)
        es)
    then err unique_violation
    else ok (es ++ e ∷ [])

unfoldable pub evidence_value : RegisterEvidenceRequest → EvidenceObject → Value
evidence_value request e = object (
    fields_of (
      "evidenceId" ⇒ string e.evidence_id
      ∷ "tenantId" ⇒ string e.tenant_id
      ∷ "caseId" ⇒ string e.case_id
      ∷ "schemaVersion" ⇒ string request.schema_version
      ∷ "type" ⇒ string e.evidence_type
      ∷ "source" ⇒ e.source
      ∷ "subjectRefs" ⇒ strings e.subject_refs
      ∷ "trust" ⇒ e.trust
      ∷ "integrity"
        ⇒ object (
            fields_of (
              "rawDigest" ⇒ string e.raw_digest
              ∷ "normalizedDigest" ⇒ null
              ∷ "artifactRef" ⇒ string e.artifact_ref
              ∷ []))
      ∷ "classification" ⇒ string e.classification
      ∷ "retentionClass" ⇒ string e.retention_class
      ∷ "residency" ⇒ string e.residency
      ∷ "scanStatus" ⇒ string e.scan_status
      ∷ "verificationStatus" ⇒ string e.verification_status
      ∷ "createdBy" ⇒ actor_value e.created_by
      ∷ "createdAt" ⇒ string e.created_at
      ∷ []))

pub record Registered : Type 0 where
  pub created : Bool
  pub evidence : Value

unfoldable pub registration_receipt :
    Vault → RegisterEvidenceRequest → String → String → RegistrationReceipt
unfolding new_evidence evidence_value
registration_receipt v request key digest =
    let e = new_evidence v request digest in
    let response =
      object (fields_of ("created" ⇒ boolean true ∷ "evidence" ⇒ evidence_value request e ∷ [])) in
    record {
      tenant_id = request.tenant_id;
      idempotency_key = key;
      request_digest = stable_digest v.platform.hashing (request_value request);
      evidence_id = e.evidence_id;
      response = response;
      response_digest = stable_digest v.platform.hashing response;
      created_at = v.now;
    }

-- A registration whose key has no receipt.
unfoldable pub register_new :
    Vault
    → RegisterEvidenceRequest
    → String
    → List ℕ
    → String
    → EvidenceDb
    → Result Failure (EvidenceDb × Registered)
unfolding find_case put_artifact new_evidence insert_evidence evidence_value opaque_id
    artifact_ref_of registration_receipt
register_new v request key content digest db = do
  require (is_some (find_case request.tenant_id request.case_id db.case_db.cases))
      (case_error "case.not_found" 404)
  artifacts ←
      put_artifact
        (record {
          tenant_id = request.tenant_id;
          artifact_digest = digest;
          artifact_ref = artifact_ref_of v request.tenant_id digest;
          media_type = request.media_type;
          byte_length = length content;
          content = content;
          created_at = v.now;
        })
        db.artifacts
  let e = new_evidence v request digest
  objects ← insert_evidence e db.case_db.tables.evidence_objects
  ok (
    record {
      case_db = record db.case_db {
        tables = record db.case_db.tables { evidence_objects = objects };
      };
      artifacts = artifacts;
      receipts = db.receipts ++ registration_receipt v request key digest ∷ [];
      outbox =
          db.outbox
          ++ record {
            outbox_id = opaque_id "outbox" v.outbox_uuid;
            tenant_id = request.tenant_id;
            case_id = request.case_id;
            evidence_id = e.evidence_id;
            classification = request.classification;
            payload = object (
                fields_of (
                  "evidenceId" ⇒ string e.evidence_id
                  ∷ "caseId" ⇒ string request.case_id
                  ∷ "rawDigest" ⇒ string digest
                  ∷ "artifactRef" ⇒ string e.artifact_ref
                  ∷ "verificationStatus" ⇒ string "DIGEST_VERIFIED"
                  ∷ []));
            created_at = v.now;
          }
            ∷ [];
    },
    record { created = true; evidence = evidence_value request e },
  )

unfoldable pub find_registration :
    String → String → List RegistrationReceipt → Option RegistrationReceipt
find_registration tenant_id key receipts =
    find (λ (r : RegistrationReceipt). r.tenant_id == tenant_id && r.idempotency_key == key)
      receipts

unfoldable pub register :
    Vault → RegisterEvidenceRequest → String → EvidenceDb → Result Failure (EvidenceDb × Registered)
unfolding check_content find_registration register_new property
register v request key db = do
  forbid (key == "") (case_error "evidence.idempotency_key_required" 400)
  checked ← check_content v request
  elim (find_registration request.tenant_id key db.receipts) [
    | none ↦ register_new v request key checked.0 checked.1 db
    | some prior ↦
        if prior.request_digest == stable_digest v.platform.hashing (request_value request)
        then ok (db, record { created = false; evidence = property "evidence" prior.response })
        else err (case_error "evidence.idempotency_conflict" 409)
  ]

-- An error rolls the transaction back and is passed on as it is.
unfoldable pub register_evidence :
    Vault → RegisterEvidenceRequest → String → EvidenceDb → EvidenceDb × Result Failure Registered
unfolding register
register_evidence v request key db = elim (register v request key db) [
  | ok (db', r) ↦ (db', ok r)
  | err e ↦ (db, err e)
]
