-- ===== src/Cases/Command/Subjects.antt =====
-- packages/case-store/src/index.ts, `applyMutation`: AddSubject and LinkEvidence.
use ehfconcept.Prelude.{
  ℕ, suc, Bool, true, not, ◌&&◌, String, List, [], ◌∷◌, ◌++◌, Option, none, some, ◌==◌,
  compare_texts, includes, find, length, or_else, Result, ok, err, ◌>>=◌, ◌>>◌, forbid, require,
}
use ehfconcept.Contracts.Value.{
  Value, undefined, number, string, array, object, Items, nil, item, Fields, end, field,
}
use ehfconcept.Contracts.Canonical.{stable_digest}
use ehfconcept.Contracts.Read.{property}
use ehfconcept.Cases.Payload.{
  Failure, case_error, schema_error, required_string, optional_string, coalesce_value, object_value,
  enum_value, given_or_fresh, opaque_id,
}
use ehfconcept.Cases.Tables.{
  Row, Subject, SubjectIdentifier, EvidenceObject, EvidenceRef, Tables, insert_row,
  insert_row_or_keep,
}
use ehfconcept.Cases.Command.Base.{
  BusinessCommand, MutationResult, Call, ◌⇒◌, fields_of, given, row_of,
}

-- One element of `identifiers`.
pub record IdentifierInput : Type 0 where
  pub identifier_type : String
  pub value : String
  pub masked_value : Option String
  pub source : String
  pub classification : Option String

-- `z.string().optional()`
abbrev string_or_absent : Value → Result Failure (Option String)
string_or_absent undefined = ok none
string_or_absent (string s) = ok (some s)
string_or_absent _ = err schema_error

-- `z.string().min(1).optional()`
abbrev name_or_absent : Value → Result Failure (Option String)
name_or_absent undefined = ok none
name_or_absent v = do s ← required_string v; ok (some s)

-- `.strict()`: no other keys.
only_keys : List String → Fields → Bool
only_keys names end = true
only_keys names (field k v fs) = let rest = only_keys names fs in includes names k && rest

unfoldable pub parse_identifier : Value → Result Failure IdentifierInput
unfolding only_keys required_string property
parse_identifier (object fs) = do
  identifier_type ← required_string (property "identifierType" (object fs))
  value ← required_string (property "value" (object fs))
  masked_value ← string_or_absent (property "maskedValue" (object fs))
  source ← required_string (property "source" (object fs))
  classification ← name_or_absent (property "classification" (object fs))
  require
      (only_keys ("identifierType" ∷ "value" ∷ "maskedValue" ∷ "source" ∷ "classification" ∷ []) fs)
      schema_error
  ok (record {
    identifier_type = identifier_type;
    value = value;
    masked_value = masked_value;
    source = source;
    classification = classification;
  })
parse_identifier _ = err schema_error

parse_items : Items → Result Failure (List IdentifierInput)
unfolding parse_identifier
parse_items nil = ok []
parse_items (item v vs) = do x ← parse_identifier v; xs ← parse_items vs; ok (x ∷ xs)

-- `z.array(...).default([]).parse(p.identifiers)`
unfoldable pub parse_identifiers : Value → Result Failure (List IdentifierInput)
unfolding parse_items
parse_identifiers undefined = ok []
parse_identifiers (array vs) = parse_items vs
parse_identifiers _ = err schema_error

-- The rows of the identifiers, under fresh identifiers of their own.
unfoldable pub identifier_rows :
    Call → BusinessCommand → String → String → ℕ → List IdentifierInput → List SubjectIdentifier
unfolding opaque_id
identifier_rows call command subject_id classification n [] = []
identifier_rows call command subject_id classification n (x ∷ xs) =
    record {
      tenant_id = command.tenant_id;
      case_id = command.case_id;
      subject_id = subject_id;
      identifier_id = opaque_id "identifier" (call.uuid n);
      identifier_type = x.identifier_type;
      value_digest = stable_digest call.hashing (string x.value);
      masked_value = x.masked_value;
      source = x.source;
      classification = or_else x.classification classification;
      created_by = command.actor;
      created_at = call.now;
    }
    ∷ identifier_rows call command subject_id classification (suc n) xs

unfoldable pub add_subject :
    Call → BusinessCommand → String → Tables → Result Failure (Tables × MutationResult)
unfolding optional_string given_or_fresh enum_value object_value coalesce_value parse_identifiers
    insert_row identifier_rows property
add_subject call command classification t = do
  own_id ← optional_string (given command "subjectId")
  let subject_id = given_or_fresh own_id "subject" (call.uuid 0)
  subject_type ← enum_value ("individual" ∷ "legal_entity" ∷ []) (given command "subjectType")
  attributes ← object_value (coalesce_value (given command "attributes") (object end))
  identifiers ← parse_identifiers (given command "identifiers")
  display_name ← optional_string (given command "displayName")
  let subject : Row Subject = row_of command subject_id (record {
    subject_type = subject_type;
    display_name = display_name;
    attributes = attributes;
    classification = classification;
    created_by = command.actor;
    created_at = call.now;
  })
  subjects ← insert_row subject t.subjects
  let rows = identifier_rows call command subject_id classification 1 identifiers
  ok (
    record t { subjects = subjects; identifiers = t.identifiers ++ rows },
    record {
      event_type = "subject.created";
      event_schema = "kyc.subject.created.v1";
      payload = object (
          fields_of (
            "subjectId" ⇒ string subject_id
            ∷ "subjectType" ⇒ string subject_type
            ∷ "revision" ⇒ number "1"
            ∷ "identifierCount" ⇒ number (call.print (length identifiers))
            ∷ []));
      evidence_refs = [];
      identifiers = fields_of ("subjectId" ⇒ string subject_id ∷ []);
      next_status = none;
      lineage = [];
    },
  )

abbrev pub is_evidence : BusinessCommand → String → EvidenceObject → Bool
is_evidence command evidence_id e =
    e.tenant_id == command.tenant_id && e.case_id == command.case_id && e.evidence_id == evidence_id

-- The three checks on the evidence that is linked.
unfoldable pub check_evidence : Call → Option EvidenceObject → Result Failure (Unit {0})
check_evidence call none = err (case_error "evidence.not_found" 404)
check_evidence call (some e) = do
  require (e.verification_status == "DIGEST_VERIFIED") (case_error "evidence.not_verified" 409)
  forbid (call.evidence_require_scan && not (e.scan_status == "VERIFIED_CLEAN"))
      (case_error "evidence.scan_required" 409)

unfoldable pub link_evidence :
    Call → BusinessCommand → Tables → Result Failure (Tables × MutationResult)
unfolding required_string check_evidence insert_row_or_keep property
link_evidence call command t = do
  evidence_id ← required_string (given command "evidenceId")
  check_evidence call (find (is_evidence command evidence_id) t.evidence_objects)
  purpose ← required_string (given command "purpose")
  let link : Row EvidenceRef = row_of command evidence_id (record {
    purpose = purpose;
    status = "ACCEPTED";
    linked_by = command.actor;
    linked_at = call.now;
  })
  ok (
    record t { evidence_refs = insert_row_or_keep link t.evidence_refs },
    record {
      event_type = "evidence.linked";
      event_schema = "kyc.evidence.linked.v1";
      payload = object (
          fields_of (
            "evidenceId" ⇒ string evidence_id
            ∷ "purpose" ⇒ given command "purpose"
            ∷ "status" ⇒ string "ACCEPTED"
            ∷ []));
      evidence_refs = evidence_id ∷ [];
      identifiers = fields_of ("evidenceId" ⇒ string evidence_id ∷ []);
      next_status = none;
      lineage = [];
    },
  )
