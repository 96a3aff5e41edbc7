-- ===== src/Cases/Tests.antt =====
-- A case with one event.
use ehfconcept.Prelude.{◌≡◌, ◌↔◌, true, String, [], Option, none}
use ehfconcept.Contracts.Value.{null}
use ehfconcept.Cases.Events.{
  Platform, EventInput, CaseLedger, append_case_event, list_case_events, verify_case_ledger,
}
use ehfconcept.Cases.Chain.{IsChain, verify_case_ledger-IsChain}

abbrev platform : Platform
platform = record {
  hashing = record { stringify = λ v. "v"; sha256 = λ s. s };
  print = λ n. "n";
  stored_time = λ t. t;
}

abbrev created : EventInput
created = record {
  tenant_id = "T";
  case_id = "C";
  sequence = 1;
  event_type = "case.created";
  event_schema = "kyc.case.created.v1";
  occurred_at = "2026-01-01T00:00:00.000Z";
  recorded_at = "2026-01-01T00:00:00.000Z";
  actor = null;
  command_id = "cmd_1";
  authority = null;
  payload = null;
  evidence_refs = [];
  previous_event_digest = none;
  classification = "CONFIDENTIAL";
}

abbrev empty_ledger : CaseLedger
empty_ledger = record { events = []; heads = []; outbox = [] }

abbrev one_event : CaseLedger
one_event = append_case_event platform "evt_1" "outbox_1" created empty_ledger

verify_case_ledger-IsChain_example :
    ((verify_case_ledger platform "T" "C" one_event).valid ≡ true) ↔ (
      (last : Option String) × IsChain platform none
        (list_case_events platform "T" "C" 0 one_event)
        last)
verify_case_ledger-IsChain_example = verify_case_ledger-IsChain platform "T" "C" one_event
