-- ===== src/Cases/Db.antt =====
-- packages/case-store/src/index.ts: what the case store keeps, and its statements on cases, events,
-- lineage edges and receipts.
use ehfconcept.Prelude.{
  ℕ, Bool, ◌&&◌, ◌||◌, String, List, [], ◌∷◌, ◌++◌, Option, none, some, ◌==◌, compare_texts,
  compare_numbers, if◌then◌else◌, is_text, is_some, find, or_else, Result, ok, err, ◌>>=◌,
}
use ehfconcept.Contracts.Value.{Value, Fields}
use ehfconcept.Cases.Payload.{Failure, case_error, unique_violation, opaque_id}
use ehfconcept.Cases.Tables.{CaseStatus, CaseActor, Tables}
use ehfconcept.Cases.Events.{
  Platform, EventInput, CaseEvent, OutboxRow, CaseLedger, event_of, append_case_event,
}
use ehfconcept.Cases.Command.Base.{BusinessCommand, CaseRow, LineageEdge}

-- ledger.command_receipts, whose outcome is always ACCEPTED.
pub record Receipt : Type 0 where
  pub tenant_id : String
  pub case_id : String
  pub command_id : String
  pub command_type : String
  pub idempotency_key : String
  pub request_digest : String
  pub accepted_sequence_from : ℕ
  pub accepted_sequence_to : ℕ
  pub created_identifiers : Fields
  pub response : Value
  pub response_digest : String
  pub created_at : String

-- evidence.lineage_edges
pub record LineageRow : Type 0 where
  pub tenant_id : String
  pub case_id : String
  pub edge_id : String
  pub edge : LineageEdge
  pub creation_event_id : String
  pub created_by : CaseActor
  pub created_at : String

pub record CaseDb : Type 0 where
  pub cases : List CaseRow
  pub tables : Tables
  pub ledger : CaseLedger
  pub receipts : List Receipt
  pub lineage_edges : List LineageRow

abbrev pub is_case : String → String → CaseRow → Bool
is_case tenant_id case_id r = r.tenant_id == tenant_id && r.case_id == case_id

unfoldable pub find_case : String → String → List CaseRow → Option CaseRow
find_case tenant_id case_id cases = find (is_case tenant_id case_id) cases

abbrev pub shares_reference : CaseRow → CaseRow → Bool
shares_reference a b = elim b.external_ref [
  | none ↦ Bool.false
  | some r ↦ a.tenant_id == b.tenant_id && is_text a.external_ref r
]

abbrev pub clashes_with : CaseRow → CaseRow → Bool
clashes_with r x = is_case r.tenant_id r.case_id x || shares_reference x r

unfoldable pub insert_case : CaseRow → List CaseRow → Result Failure (List CaseRow)
insert_case r cases =
    if is_some (find (clashes_with r) cases) then err unique_violation else ok (cases ++ r ∷ [])

-- `update ... set case_sequence = $3, status = coalesce($4, status), updated_at = $5`
unfoldable pub advance_row :
    String → String → ℕ → Option CaseStatus → String → CaseRow → Option CaseRow
advance_row tenant_id case_id sequence next_status at r =
    if is_case tenant_id case_id r
    then some (record r {
      case_sequence = sequence;
      status = or_else next_status r.status;
      updated_at = at;
    })
    else none

-- The keys of `case_events`: the sequence number and the digest within the case, and the identifier.
abbrev pub same_event_key : CaseEvent → CaseEvent → Bool
same_event_key e x =
    (x.tenant_id == e.tenant_id
      && x.case_id == e.case_id
      && (x.case_sequence == e.case_sequence || x.event_digest == e.event_digest))
    || x.event_id == e.event_id

abbrev pub same_outbox_key : String → String → OutboxRow → Bool
same_outbox_key outbox_id event_id x = x.outbox_id == outbox_id || x.event_id == event_id

-- `appendCaseEvent` with the keys that may refuse it.
unfoldable pub insert_event :
    Platform → String → String → EventInput → CaseLedger → Result Failure CaseLedger
unfolding event_of
insert_event p event_id outbox_id input s =
    if is_some (find (same_event_key (event_of p event_id input)) s.events)
      || is_some (find (same_outbox_key outbox_id event_id) s.outbox)
    then err unique_violation
    else ok (append_case_event p event_id outbox_id input s)

abbrev pub same_edge_key : LineageRow → LineageRow → Bool
same_edge_key e x = x.tenant_id == e.tenant_id && x.case_id == e.case_id && x.edge_id == e.edge_id

unfoldable pub insert_edge : LineageRow → List LineageRow → Result Failure (List LineageRow)
insert_edge e edges =
    if is_some (find (same_edge_key e) edges) then err unique_violation else ok (edges ++ e ∷ [])

-- The loop over `mutation.lineage`; each edge takes a fresh identifier.
unfoldable pub insert_edges :
    BusinessCommand
    → String
    → String
    → (ℕ → String)
    → ℕ
    → List LineageEdge
    → List LineageRow
    → Result Failure (List LineageRow)
unfolding insert_edge opaque_id
insert_edges command event_id at uuid n [] rows = ok rows
insert_edges command event_id at uuid n (edge ∷ edges) rows =
    insert_edge
      (record {
        tenant_id = command.tenant_id;
        case_id = command.case_id;
        edge_id = opaque_id "edge" (uuid n);
        edge = edge;
        creation_event_id = event_id;
        created_by = command.actor;
        created_at = at;
      })
      rows
    >>= λ rows'. insert_edges command event_id at uuid (ℕ.suc n) edges rows'

abbrev pub is_keyed : String → String → String → Receipt → Bool
is_keyed tenant_id case_id key r =
    r.tenant_id == tenant_id && r.case_id == case_id && r.idempotency_key == key

unfoldable pub find_receipt : String → String → String → List Receipt → Option Receipt
find_receipt tenant_id case_id key receipts = find (is_keyed tenant_id case_id key) receipts

abbrev pub same_receipt_key : Receipt → Receipt → Bool
same_receipt_key r x =
    x.tenant_id == r.tenant_id
    && x.case_id == r.case_id
    && (x.command_id == r.command_id || x.idempotency_key == r.idempotency_key)

unfoldable pub write_receipt : Receipt → List Receipt → Result Failure (List Receipt)
write_receipt r receipts =
    if is_some (find (same_receipt_key r) receipts)
    then err unique_violation
    else ok (receipts ++ r ∷ [])

-- What a transaction leaves: on an error the database is as it was.
unfoldable pub committed :
    {A : Type 0} → CaseDb → Result Failure (CaseDb × A) → CaseDb × Result Failure A
committed db (ok (db', a)) = (db', ok a)
committed db (err e) = (db, err e)

-- The error handlers: a unique violation is a conflict under the given code.
unfoldable pub as_conflict : String → Failure → Failure
as_conflict code unique_violation = case_error code 409
as_conflict code e = e

unfoldable pub on_error : {A : Type 0} → (Failure → Failure) → Result Failure A → Result Failure A
on_error f (ok a) = ok a
on_error f (err e) = err (f e)
