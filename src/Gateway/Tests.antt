-- ===== src/Gateway/Tests.antt =====
-- Two calls of one run against a budget of one.
use ehfconcept.Prelude.{[], ◌∷◌, none, true, refl, All, arith, String}
use ehfconcept.Contracts.Value.{undefined}
use ehfconcept.Ledger.Row.{Budget, new_run}
use ehfconcept.Ledger.Store.{empty_db}
use ehfconcept.Gateway.Receipts.{GatewayDb, GatewayReceiptInput, reserve_gateway_receipt}
use ehfconcept.Gateway.Spending.{Reach, here, next, IsWithinBudget, spending_bounded}
use ehfconcept.Gateway.Spending
use ehfconcept.Gateway.Reservations.{Outcome, reserve_gateway_receipt-Outcome}

abbrev one_call : Budget
one_call = record { max_capability_calls = 1; max_model_calls = 1; max_cost_usd = 100 }

abbrev budgets : String → Budget
budgets run_id = one_call

abbrev idle : GatewayDb
idle = record {
  ledger = record empty_db { runs = new_run "R" "T" "K" "d" "q" undefined 1 ∷ [] };
  receipts = [];
}

abbrev call : GatewayReceiptInput
call = record {
  invocation_id = "I1";
  run_id = "R";
  node_id = "N";
  attempt = 1;
  fencing_epoch = 1;
  plan_digest = "d";
  permission_digest = "p";
  capability_id = "C";
  effect = "read";
  decision = "allowed";
  reason_code = "ok";
  request_digest = "q1";
  trace_id = none;
  span_id = none;
  model_call = true;
  budget = one_call;
}

abbrev second_call : GatewayReceiptInput
second_call = record call { invocation_id = "I2"; request_digest = "q2" }

abbrev after_one : GatewayDb
after_one = (reserve_gateway_receipt 2 call idle).0

abbrev after_two : GatewayDb
after_two = (reserve_gateway_receipt 3 second_call after_one).0

idle-within : All (IsWithinBudget budgets) idle.ledger.runs
unfolding new_run
idle-within = (record { capability_calls = omega arith; model_calls = omega arith }, tt)

spending_bounded_example : All (IsWithinBudget budgets) after_two.ledger.runs
spending_bounded_example =
    spending_bounded budgets idle after_two
      (next (next here (Spending.reserve 2 call refl)) (Spending.reserve 3 second_call refl))
      idle-within

reserve_gateway_receipt-Outcome_example :
    Outcome 3 second_call after_one
      (reserve_gateway_receipt 3 second_call after_one).0
      (reserve_gateway_receipt 3 second_call after_one).1
reserve_gateway_receipt-Outcome_example = reserve_gateway_receipt-Outcome 3 second_call after_one
