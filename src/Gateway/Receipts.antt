-- ===== src/Gateway/Receipts.antt =====
-- packages/persistence/src/index.ts: gateway receipts, and the budget that a call is reserved against.
use ehfconcept.Prelude.{
  ℕ, Bool, true, false, not, ◌&&◌, String, List, [], ◌∷◌, ◌++◌, Option, none, some, ◌==◌,
  compare_texts, compare_numbers, if◌then◌else◌, find, is_some, update_rows, delete_rows, Result,
  ok, err,
}
use ehfconcept.Contracts.Value.{Value}
use ehfconcept.Ledger.Row.{Run, Budget, reserve_row, record_cost_row}
use ehfconcept.Ledger.Store.{Db, get_run, update_run}

-- `CapabilityResult`: its keys, and the rest of the document.
pub record CapabilityResult : Type 0 where
  pub invocation_id : String
  pub receipt_digest : String
  pub document : Value

-- harness_gateway.receipts
pub record Receipt : Type 0 where
  pub invocation_id : String
  pub run_id : String
  pub tenant_id : String
  pub node_id : String
  pub attempt : ℕ
  pub fencing_epoch : ℕ
  pub plan_digest : String
  pub permission_digest : String
  pub capability_id : String
  pub effect : String
  pub decision : String
  pub reason_code : String
  pub request_digest : String
  pub trace_id : Option String
  pub span_id : Option String
  pub result : Option CapabilityResult
  pub receipt_digest : Option String
  pub completed_at : Option ℕ

pub record GatewayReceiptInput : Type 0 where
  pub invocation_id : String
  pub run_id : String
  pub node_id : String
  pub attempt : ℕ
  pub fencing_epoch : ℕ
  pub plan_digest : String
  pub permission_digest : String
  pub capability_id : String
  pub effect : String
  pub decision : String
  pub reason_code : String
  pub request_digest : String
  pub trace_id : Option String
  pub span_id : Option String
  pub model_call : Bool
  pub budget : Budget

pub record GatewayDb : Type 0 where
  pub ledger : Db
  pub receipts : List Receipt

abbrev pub receipt_of : GatewayReceiptInput → Run → Receipt
receipt_of input run = record {
  invocation_id = input.invocation_id;
  run_id = input.run_id;
  tenant_id = run.tenant_id;
  node_id = input.node_id;
  attempt = input.attempt;
  fencing_epoch = input.fencing_epoch;
  plan_digest = input.plan_digest;
  permission_digest = input.permission_digest;
  capability_id = input.capability_id;
  effect = input.effect;
  decision = input.decision;
  reason_code = input.reason_code;
  request_digest = input.request_digest;
  trace_id = input.trace_id;
  span_id = input.span_id;
  result = none;
  receipt_digest = none;
  completed_at = none;
}

unfoldable pub find_receipt : String → List Receipt → Option Receipt
find_receipt invocation_id rs = find (λ (r : Receipt). r.invocation_id == invocation_id) rs

pub record Reservation : Type 0 where
  pub created : Bool
  pub result : Option CapabilityResult

-- `insert ... select ... from runs where run_id = $2 on conflict (invocation_id) do nothing`: the run
-- that the new receipt takes its tenant from, where a row is inserted.
unfoldable pub inserts_receipt : GatewayReceiptInput → GatewayDb → Option Run
unfolding find_receipt get_run
inserts_receipt input g =
    if is_some (find_receipt input.invocation_id g.receipts)
    then none
    else get_run input.run_id none g.ledger

-- The answer from the receipt that stands in the way.
unfoldable pub prior_reservation : GatewayReceiptInput → List Receipt → Result String Reservation
prior_reservation input receipts =
    elim (find (λ (r : Receipt). r.invocation_id == input.invocation_id && r.run_id == input.run_id)
      receipts) [
        | none ↦ err "gateway.idempotency_conflict"
        | some existing ↦
            if existing.request_digest == input.request_digest
            then ok (record { created = false; result = existing.result })
            else err "gateway.idempotency_conflict"
      ]

unfoldable pub reserve_gateway_receipt :
    ℕ → GatewayReceiptInput → GatewayDb → GatewayDb × Result String Reservation
unfolding inserts_receipt prior_reservation update_run
reserve_gateway_receipt now input g = elim (inserts_receipt input g) [
  | none ↦ (g, prior_reservation input g.receipts)
  | some run ↦
      let (ledger, spent) =
        update_run input.run_id (reserve_row now input.model_call input.budget) g.ledger in
      if spent
      then (
        record { ledger = ledger; receipts = g.receipts ++ receipt_of input run ∷ [] },
        ok (record { created = true; result = none }),
      )
      else (g, err "gateway.budget_denied")
]

unfoldable pub complete_gateway_receipt : ℕ → String → CapabilityResult → GatewayDb → GatewayDb
complete_gateway_receipt now run_id result g = record g {
  receipts =
      update_rows
        (λ r.
          if r.invocation_id == result.invocation_id && r.run_id == run_id
          then some (record r {
            result = some result;
            receipt_digest = some result.receipt_digest;
            completed_at = some now;
          })
          else none)
        g.receipts;
}

unfoldable pub abandon_gateway_receipt : String → String → GatewayDb → GatewayDb
abandon_gateway_receipt run_id invocation_id g = record g {
  receipts =
      delete_rows
        (λ r. r.invocation_id == invocation_id && r.run_id == run_id && not (is_some r.result))
        g.receipts;
}

unfoldable pub reserve_capability_budget : ℕ → String → Bool → Budget → GatewayDb → GatewayDb × Bool
unfolding update_run
reserve_capability_budget now run_id model_call budget g =
    let (ledger, spent) = update_run run_id (reserve_row now model_call budget) g.ledger in
    (record g { ledger = ledger }, spent)

unfoldable pub record_capability_cost : ℕ → String → Option ℕ → GatewayDb → GatewayDb
unfolding update_run
record_capability_cost now run_id cost_usd g = record g {
  ledger = (update_run run_id (record_cost_row now cost_usd) g.ledger).0;
}
