-- ===== src/Cases/Events.antt =====
-- packages/case-store/src/index.ts: `appendCaseEvent`, `listCaseEvents` and `verifyCaseLedger`. Events
-- stand in the order in which they were inserted, which is that of the sequence numbers of their case.
use ehfconcept.Prelude.{
  ℕ, Bool, true, false, ◌&&◌, String, List, [], ◌∷◌, ◌++◌, Option, none, some, ltb, ◌==◌,
  compare_texts, compare_numbers, if◌then◌else◌, filter, take, length, Result, ok, err,
}
use ehfconcept.Contracts.Value.{
  Value, null, number, string, object, end, field, array, Items, nil, item,
}
use ehfconcept.Contracts.Canonical.{Hashing, stable_digest}

-- What the runtime and the database give: hashing, the decimal print of a number, and the text that
-- `toISOString` prints for a timestamp that was stored from a text.
pub record Platform : Type 0 where
  pub hashing : Hashing
  pub print : ℕ → String
  pub stored_time : String → String

pub record EventInput : Type 0 where
  pub tenant_id : String
  pub case_id : String
  pub sequence : ℕ
  pub event_type : String
  pub event_schema : String
  pub occurred_at : String
  pub recorded_at : String
  pub actor : Value
  pub command_id : String
  pub authority : Value
  pub payload : Value
  pub evidence_refs : List String
  pub previous_event_digest : Option String
  pub classification : String

-- ledger.case_events
pub record CaseEvent : Type 0 where
  pub tenant_id : String
  pub case_id : String
  pub case_sequence : ℕ
  pub event_id : String
  pub event_type : String
  pub event_schema : String
  pub occurred_at : String
  pub recorded_at : String
  pub actor : Value
  pub command_id : String
  pub authority : Value
  pub payload : Value
  pub evidence_refs : List String
  pub previous_event_digest : Option String
  pub event_digest : String

-- ledger.event_chain_heads
pub record ChainHead : Type 0 where
  pub tenant_id : String
  pub case_id : String
  pub case_sequence : ℕ
  pub event_digest : String
  pub updated_at : String

-- ledger.outbox
pub record OutboxRow : Type 0 where
  pub outbox_id : String
  pub tenant_id : String
  pub case_id : String
  pub case_sequence : ℕ
  pub event_id : String
  pub event_type : String
  pub classification : String
  pub payload : Value
  pub source_event_digest : String
  pub created_at : String

pub record CaseLedger : Type 0 where
  pub events : List CaseEvent
  pub heads : List ChainHead
  pub outbox : List OutboxRow

abbrev pub strings : List String → Items
strings [] = nil
strings (x ∷ xs) = item (string x) (strings xs)

abbrev pub nullable : Option String → Value
nullable none = null
nullable (some s) = string s

-- The object that is hashed, both when an event is written and when it is verified.
unfoldable pub envelope_of : Platform → CaseEvent → Value
envelope_of p e = object (
    field "eventId" (string e.event_id) (
      field "tenantId" (string e.tenant_id) (
        field "caseId" (string e.case_id) (
          field "caseSequence" (number (p.print e.case_sequence)) (
            field "eventType" (string e.event_type) (
              field "eventSchema" (string e.event_schema) (
                field "occurredAt" (string e.occurred_at) (
                  field "recordedAt" (string e.recorded_at) (
                    field "actor" e.actor (
                      field "commandRef" (string e.command_id) (
                        field "authority" e.authority (
                          field "payload" e.payload (
                            field "evidenceRefs" (array (strings e.evidence_refs)) (
                              field "previousEventDigest" (nullable e.previous_event_digest)
                                end))))))))))))))

unfoldable pub digest_of : Platform → CaseEvent → String
unfolding envelope_of
digest_of p e = stable_digest p.hashing (envelope_of p e)

abbrev unsigned_event : String → EventInput → CaseEvent
unsigned_event event_id input = record {
  tenant_id = input.tenant_id;
  case_id = input.case_id;
  case_sequence = input.sequence;
  event_id = event_id;
  event_type = input.event_type;
  event_schema = input.event_schema;
  occurred_at = input.occurred_at;
  recorded_at = input.recorded_at;
  actor = input.actor;
  command_id = input.command_id;
  authority = input.authority;
  payload = input.payload;
  evidence_refs = input.evidence_refs;
  previous_event_digest = input.previous_event_digest;
  event_digest = "";
}

unfoldable pub event_of : Platform → String → EventInput → CaseEvent
unfolding digest_of
event_of p event_id input =
    let e = unsigned_event event_id input in record e { event_digest = digest_of p e }

abbrev pub is_head : String → String → ChainHead → Bool
is_head tenant_id case_id h = h.tenant_id == tenant_id && h.case_id == case_id

-- `insert ... on conflict (tenant_id, case_id) do update`
unfoldable pub put_head : ChainHead → List ChainHead → List ChainHead
put_head h [] = h ∷ []
put_head h (x ∷ xs) =
    let rest = put_head h xs in if is_head h.tenant_id h.case_id x then h ∷ xs else x ∷ rest

-- `select event_digest from heads where tenant_id = $1 and case_id = $2`
unfoldable pub head_digest : String → String → List ChainHead → Option String
head_digest tenant_id case_id [] = none
head_digest tenant_id case_id (x ∷ xs) =
    let rest = head_digest tenant_id case_id xs in
    if is_head tenant_id case_id x then some x.event_digest else rest

abbrev outbox_payload : Platform → CaseEvent → Value
outbox_payload p e = object (
    field "eventId" (string e.event_id) (
      field "tenantId" (string e.tenant_id) (
        field "caseId" (string e.case_id) (
          field "caseSequence" (number (p.print e.case_sequence)) (
            field "eventType" (string e.event_type) (
              field "recordedAt" (string e.recorded_at)
                (field "evidenceRefs" (array (strings e.evidence_refs)) end)))))))

-- `event_id` and `outbox_id` are fresh identifiers.
unfoldable pub append_case_event : Platform → String → String → EventInput → CaseLedger → CaseLedger
unfolding event_of put_head
append_case_event p event_id outbox_id input s =
    let e = event_of p event_id input in
    record {
      events = s.events ++ e ∷ [];
      heads =
          put_head
            (record {
              tenant_id = input.tenant_id;
              case_id = input.case_id;
              case_sequence = input.sequence;
              event_digest = e.event_digest;
              updated_at = input.recorded_at;
            })
            s.heads;
      outbox =
          s.outbox
          ++ record {
            outbox_id = outbox_id;
            tenant_id = input.tenant_id;
            case_id = input.case_id;
            case_sequence = input.sequence;
            event_id = event_id;
            event_type = input.event_type;
            classification = input.classification;
            payload = outbox_payload p e;
            source_event_digest = e.event_digest;
            created_at = input.recorded_at;
          }
            ∷ [];
    }

abbrev pub is_listed : String → String → ℕ → CaseEvent → Bool
is_listed tenant_id case_id after e =
    e.tenant_id == tenant_id && e.case_id == case_id && ltb after e.case_sequence

-- An event as it is read back: the two times go through the database.
unfoldable pub read_event : Platform → CaseEvent → CaseEvent
read_event p e = record e {
  occurred_at = p.stored_time e.occurred_at;
  recorded_at = p.stored_time e.recorded_at;
}

unfoldable pub read_events : Platform → List CaseEvent → List CaseEvent
unfolding read_event
read_events p [] = []
read_events p (e ∷ es) = read_event p e ∷ read_events p es

unfoldable pub list_case_events : Platform → String → String → ℕ → CaseLedger → List CaseEvent
unfolding read_events
list_case_events p tenant_id case_id after s =
    read_events p (take 1000 (filter (is_listed tenant_id case_id after) s.events))

abbrev pub same_digest : Option String → Option String → Bool
same_digest none none = true
same_digest (some a) (some b) = a == b
same_digest _ _ = false

-- The loop of `verifyCaseLedger`: the sequence number of the first event that fails, or the head.
unfoldable pub check_events : Platform → Option String → List CaseEvent → Result ℕ (Option String)
unfolding digest_of
check_events p previous [] = ok previous
check_events p previous (e ∷ es) =
    let rest = check_events p (some e.event_digest) es in
    if same_digest e.previous_event_digest previous && e.event_digest == digest_of p e
    then rest
    else err e.case_sequence

pub record Verification : Type 0 where
  pub valid : Bool
  pub checked_events : ℕ
  pub failed_sequence : Option ℕ
  pub head : Option String

unfoldable pub verify_case_ledger : Platform → String → String → CaseLedger → Verification
unfolding list_case_events check_events
verify_case_ledger p tenant_id case_id s =
    let events = list_case_events p tenant_id case_id 0 s in
    elim (check_events p none events) [
      | ok digest ↦ record {
        valid = true;
        checked_events = length events;
        failed_sequence = none;
        head = digest;
      }
      | err sequence ↦ record {
        valid = false;
        checked_events = length events;
        failed_sequence = some sequence;
        head = none;
      }
    ]
