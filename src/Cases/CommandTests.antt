-- ===== src/Cases/CommandTests.antt =====
-- A case that is created, moved on by a command, and one that is decided.
use Prim.Native.String.{◌++◌ as ◌<>◌}
use ehfconcept.Prelude.{
  ◌≡◌, ◌⊎◌, inl, refl, ℕ, true, String, [], ◌∷◌, none, some, update_rows, Result, ok, err,
}
use ehfconcept.Contracts.Value.{Value, undefined, object, string, end, field}
use ehfconcept.Contracts.Read.{property, text}
use ehfconcept.Cases.Payload.{Failure, case_error, normalize_digest, opaque_id}
use ehfconcept.Cases.Tables.{
  Row, CaseActor, human, intake, human_review, approved, closed, GateResult, Tables,
}
use ehfconcept.Cases.Events.{Platform, append_case_event, head_digest, verify_case_ledger}
use ehfconcept.Cases.Command.Base
use ehfconcept.Cases.Command.Base.{
  BusinessCommand, CommandType, CaseAuthority, CaseRow, MutationResult, Call,
}
use ehfconcept.Cases.Command.Apply.{apply_mutation}
use ehfconcept.Cases.Command.Progress.{transition_case_status, finalize_disposition}
use ehfconcept.Cases.Db.{CaseDb, find_case, find_receipt, advance_row, insert_event, write_receipt}
use ehfconcept.Cases.Submit.{
  event_input, receipt_of, response_of, Surroundings, call_of, as_replay, submit_business_command,
}
use ehfconcept.Cases.Create.{CreateKycCaseRequest, Occasion, create_kyc_case}
use ehfconcept.Cases.Lawful.{IsLawful, apply_mutation-IsLawful}
use ehfconcept.Cases.Accepted.{IsAccepted, IsReplayed, submit_business_command-outcome}
use ehfconcept.Cases.Growth.{number_of, Grows, Step-Grows, created, submitted}
use ehfconcept.Cases.Courses.{disposition_is_final}
use ehfconcept.Cases.Repeats.{accepted_command_replays, expected_sequence_serves_once}
use ehfconcept.Contracts.Canonical.{stable_digest, canonicalize}
use ehfconcept.Cases.History.{
  Served, here, next, Anything, IsKept, IsNumbered, Served-IsNumbered, transacted_ledger_verifies,
}

-- A hash that tells events and commands apart by their identifiers.
abbrev pub platform : Platform
platform = record {
  hashing = record {
    stringify = λ v. text (property "eventId" v) <> text (property "commandId" v);
    sha256 = λ s. s;
  };
  print = λ n. "n";
  stored_time = λ t. t;
}

abbrev pub analyst : CaseActor
analyst = record {
  actor_type = human;
  principal_id = "user:ann";
  execution_id = none;
  roles = "KYC.Analyst" ∷ [];
}

abbrev no_rows : Tables
no_rows = record {
  subjects = [];
  identifiers = [];
  evidence_refs = [];
  claims = [];
  facts = [];
  findings = [];
  assumptions = [];
  contradictions = [];
  work_items = [];
  execution_refs = [];
  recommendations = [];
  gate_results = [];
  reviews = [];
  dispositions = [];
  evidence_objects = [];
}

abbrev empty_db : CaseDb
empty_db = record {
  cases = [];
  tables = no_rows;
  ledger = record { events = []; heads = []; outbox = [] };
  receipts = [];
  lineage_edges = [];
}

abbrev request : CreateKycCaseRequest
request = record {
  tenant_id = "T";
  case_type = "kyc_onboarding";
  schema_version = "kyc.case.v1";
  jurisdiction = "US";
  external_ref = some "crm-1";
  policy_snapshot_digest = "sha256:pol";
  harness_plan_digest = "plan";
  classification = "CONFIDENTIAL";
  actor = analyst;
}

abbrev morning : Occasion
morning = record { platform = platform; now = "t1"; event_uuid = "1"; outbox_uuid = "1" }

abbrev pub with_case : CaseDb
with_case = (create_kyc_case morning request "key-1" empty_db).0

abbrev noon : Surroundings
noon = record {
  platform = platform;
  mutated_at = "t2";
  recorded_at = "t3";
  uuid = λ n. "u";
  event_uuid = "2";
  outbox_uuid = "2";
  edge_uuid = λ n. "u";
  evidence_require_scan = true;
}

abbrev command_of : CommandType → ℕ → Value → BusinessCommand
command_of type sequence payload = record {
  command_id = "cmd-1";
  command_type = type;
  command_version = "v1";
  tenant_id = "T";
  case_id = "case_";
  actor = analyst;
  authority = record {
    plan_digest = "sha256:plan";
    permission_envelope_digest = "perm";
    policy_snapshot_digest = "pol";
  };
  payload = payload;
  case_sequence = sequence;
  subject_revision = none;
  idempotency_key = "key-2";
  occurred_at = none;
}

abbrev validate : BusinessCommand
validate =
    command_of Base.transition_case_status 1
      (object (field "toStatus" (string "VALIDATING") (field "reason" (string "complete") end)))

abbrev moved_on : CaseDb
moved_on = (submit_business_command noon validate with_case).0

abbrev value_of : Result Failure Value → Value
value_of (ok v) = v
value_of (err f) = undefined

abbrev answer : Value
answer = value_of (submit_business_command noon validate with_case).1

abbrev opened : CaseRow
opened = record {
  tenant_id = "T";
  case_id = "case_";
  case_type = "kyc_onboarding";
  schema_version = "kyc.case.v1";
  jurisdiction = "US";
  status = intake;
  case_sequence = 1;
  external_ref = some "crm-1";
  policy_snapshot_digest = "pol";
  harness_plan_digest = "plan";
  classification = "CONFIDENTIAL";
  created_by = analyst;
  created_at = "t1";
  updated_at = "t1";
}

abbrev mutation_of : Result Failure (Tables × MutationResult) → MutationResult
mutation_of (ok r) = r.1
mutation_of (err f) = record {
  event_type = "";
  event_schema = "";
  payload = undefined;
  evidence_refs = [];
  identifiers = end;
  next_status = none;
  lineage = [];
}

abbrev transition : MutationResult
transition = mutation_of (apply_mutation (call_of noon) validate opened no_rows)

validate-IsAccepted : IsAccepted noon validate with_case moved_on answer
unfolding find_case find_receipt submit_business_command create_kyc_case stable_digest text
    canonicalize transition_case_status append_case_event head_digest update_rows apply_mutation
    insert_event event_input receipt_of write_receipt response_of normalize_digest opaque_id
    advance_row
validate-IsAccepted = record {
  current = opened;
  found = refl;
  first = refl;
  expected = refl;
  same_plan = refl;
  same_policy = refl;
  mutation = transition;
  applied = refl;
  appended = refl;
  advanced = refl;
  receipted = refl;
  answered = refl;
}

abbrev evening : Surroundings
evening = record noon { recorded_at = "t9"; mutated_at = "t9"; event_uuid = "9"; outbox_uuid = "9" }

abbrev second : BusinessCommand
second =
    record (command_of Base.transition_case_status 1
      (object (field "toStatus" (string "SUSPENDED") (field "reason" (string "on hold") end)))) {
        command_id = "cmd-2";
        idempotency_key = "key-3";
      }

-- The same with the number that the case has by then.
abbrev third : BusinessCommand
third = record second { command_id = "cmd-3"; idempotency_key = "key-4"; case_sequence = 2 }

abbrev suspended_db : CaseDb
suspended_db = (submit_business_command evening third moved_on).0

suspended_at_three : number_of (find_case "T" "case_" suspended_db.cases) ≡ 3
unfolding find_case find_receipt submit_business_command create_kyc_case stable_digest text
    canonicalize transition_case_status append_case_event head_digest update_rows
suspended_at_three = refl

Served-suspended_db : Served platform Anything moved_on suspended_db
Served-suspended_db =
    next here
      (submitted evening third (submit_business_command evening third moved_on).1 refl tt tt refl)

accepted_command_replays_example :
    submit_business_command evening validate suspended_db ≡ (suspended_db, ok (as_replay answer))
accepted_command_replays_example =
    accepted_command_replays evening suspended_db refl validate-IsAccepted Served-suspended_db

expected_sequence_serves_once_example :
    submit_business_command noon second suspended_db
    ≡ (suspended_db, err (case_error "command.case_sequence_conflict" 409))
unfolding find_receipt submit_business_command create_kyc_case stable_digest text canonicalize
    transition_case_status append_case_event head_digest update_rows
expected_sequence_serves_once_example =
    expected_sequence_serves_once noon second suspended_db validate-IsAccepted Served-suspended_db
      refl refl refl refl

two_transactions :
    {Allowed : String → Type 0}
    → ((t : String) → Allowed t)
    → Served platform Allowed empty_db moved_on
two_transactions all =
    next
      (next here (
        created morning request "key-1" (create_kyc_case morning request "key-1" empty_db).1 refl
          (all "t1") refl))
      (submitted noon validate (submit_business_command noon validate with_case).1 refl (all "t3")
        (all "t3") refl)

Served-IsNumbered_example : IsNumbered moved_on
unfolding find_case
Served-IsNumbered_example =
    Served-IsNumbered (two_transactions {Allowed = Anything} (λ t. tt)) (λ t c. refl)

transacted_ledger_verifies_example :
    (verify_case_ledger platform "T" "case_" moved_on.ledger).valid ≡ true
transacted_ledger_verifies_example =
    transacted_ledger_verifies platform empty_db moved_on "T" "case_" refl refl
      (two_transactions {Allowed = IsKept platform} (λ t. refl))

abbrev under_review : CaseRow
under_review = record opened { status = human_review; case_sequence = 7 }

abbrev gate : Row GateResult
gate = record {
  tenant_id = "T";
  case_id = "case_";
  id = "gate_1";
  columns = record {
    recommendation_ref = "recommendation_1";
    decision = "AUTHORIZED";
    case_sequence = 6;
    rule_results = undefined;
    policy_snapshot_digest = "pol";
    created_by = analyst;
    created_at = "t0";
  };
}

abbrev gated : Tables
gated = record no_rows { gate_results = gate ∷ [] }

abbrev approve : BusinessCommand
approve = command_of Base.finalize_disposition 7 (
    object (
      field "recommendationRef" (string "recommendation_1") (
        field "gateResultRef" (string "gate_1")
          (field "outcome" (string "APPROVED") (field "rationale" (string "all clear") end)))))

abbrev tables_of : Result Failure (Tables × MutationResult) → Tables
tables_of (ok r) = r.0
tables_of (err f) = no_rows

abbrev approval : Result Failure (Tables × MutationResult)
approval = apply_mutation (call_of noon) approve under_review gated

apply_mutation-IsLawful_example :
    IsLawful approve under_review gated (tables_of approval, mutation_of approval)
unfolding apply_mutation finalize_disposition
apply_mutation-IsLawful_example =
    apply_mutation-IsLawful (call_of noon) approve under_review gated (tables_of approval)
      (mutation_of approval) refl

abbrev decided_db : CaseDb
decided_db = record empty_db { cases = record opened { status = approved } ∷ [] }

abbrev finish : BusinessCommand
finish =
    command_of Base.transition_case_status 1
      (object (field "toStatus" (string "CLOSED") (field "reason" (string "done") end)))

abbrev finished : CaseDb
finished = (submit_business_command noon finish decided_db).0

disposition_is_final_example :
    (r' : CaseRow) × (find_case "T" "case_" finished.cases ≡ some r')
    × ((r'.status ≡ approved) ⊎ (r'.status ≡ closed))
unfolding find_case
disposition_is_final_example =
    disposition_is_final {p = platform} {Allowed = Anything} {db = decided_db} {db' = finished} "T"
      "case_" (record opened { status = approved })
      (next here
        (submitted noon finish (submit_business_command noon finish decided_db).1 refl tt tt refl))
      refl (inl refl)

submit_business_command-outcome_example :
    ((v : Value) × ((submit_business_command noon validate with_case).1 ≡ ok v)
      × (IsReplayed noon validate with_case moved_on v
          ⊎ IsAccepted noon validate with_case moved_on v))
    ⊎ ((f : Failure) × ((submit_business_command noon validate with_case).1 ≡ err f)
        × (moved_on ≡ with_case))
submit_business_command-outcome_example =
    submit_business_command-outcome noon validate with_case moved_on
      (submit_business_command noon validate with_case).1 refl

Step-Grows_example : (with_case ≡ empty_db) ⊎ Grows platform Anything empty_db with_case
Step-Grows_example = Step-Grows {p = platform} {Allowed = Anything} (
    created morning request "key-1" (create_kyc_case morning request "key-1" empty_db).1 refl tt
      refl)
