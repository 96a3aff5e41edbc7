-- ===== src/Ledger/Fencing.antt =====
-- Fences: they only grow, and a caller with an older fence changes nothing.
use ehfconcept.Prelude.{ℕ, ◌≤◌, ◌<◌, ◌≡◌, false, String, arith}
use ehfconcept.Ledger.Row.{
  Run, is_claimable, claim_row, renew_row, retry_row, fail_exhausted_row, cancel_row,
  complete_cancelled_row, finalize_abandoned_row, update_node_row, bind_trace_row, complete_row,
  next_sequence_row, reserve_row, record_cost_row, holds_fence,
}
use ehfconcept.Ledger.Machine.{
  Move, claim, renew, retry, exhaust, cancel, complete_cancelled, finalize, enter_node, bind_trace,
  complete, number_event, reserve, record_cost,
}

-- What no statement changes.
pub record SameRequest (r r' : Run) : Type 0 where
  pub run_id : r'.run_id ≡ r.run_id
  pub tenant_id : r'.tenant_id ≡ r.tenant_id
  pub idempotency_key : r'.idempotency_key ≡ r.idempotency_key
  pub plan_digest : r'.plan_digest ≡ r.plan_digest
  pub request_digest : r'.request_digest ≡ r.request_digest
  pub input : r'.input ≡ r.input
  pub attempt_limit : r'.attempt_limit ≡ r.attempt_limit

pub Move-SameRequest : {Allowed : ℕ → Type 0} {r r' : Run} → Move Allowed r r' → SameRequest r r'
unfolding is_claimable claim_row renew_row retry_row fail_exhausted_row cancel_row
    complete_cancelled_row finalize_abandoned_row update_node_row bind_trace_row complete_row
    next_sequence_row reserve_row record_cost_row
Move-SameRequest (claim now worker lease c e) = ground arith
Move-SameRequest (renew now worker epoch lease a e) = ground arith
Move-SameRequest (retry now worker epoch code backoff a e) = ground arith
Move-SameRequest (exhaust now e) = ground arith
Move-SameRequest (cancel now reason o e) = ground arith
Move-SameRequest (complete_cancelled now code e) = ground arith
Move-SameRequest (finalize now e) = ground arith
Move-SameRequest (enter_node now worker epoch node_id checkpoint a e) = ground arith
Move-SameRequest (bind_trace now worker epoch attempt trace span flags a e) = ground arith
Move-SameRequest (complete now worker epoch status outcome output code a e) = ground arith
Move-SameRequest (number_event now e) = ground arith
Move-SameRequest (reserve now model_call budget e) = ground arith
Move-SameRequest (record_cost now cost e) = ground arith

-- What only grows.
pub record Grows (r r' : Run) : Type 0 where
  pub fence : r.fencing_epoch ≤ r'.fencing_epoch
  pub attempts : r.attempt ≤ r'.attempt
  pub sequence : r.event_sequence ≤ r'.event_sequence
  pub capability_calls : r.capability_calls ≤ r'.capability_calls
  pub model_calls : r.model_calls ≤ r'.model_calls
  pub cost : r.cost_usd ≤ r'.cost_usd

pub Move-Grows : {Allowed : ℕ → Type 0} {r r' : Run} → Move Allowed r r' → Grows r r'
unfolding is_claimable claim_row renew_row retry_row fail_exhausted_row cancel_row
    complete_cancelled_row finalize_abandoned_row update_node_row bind_trace_row complete_row
    next_sequence_row reserve_row record_cost_row
Move-Grows (claim now worker lease c e) = ground arith
Move-Grows (renew now worker epoch lease a e) = ground arith
Move-Grows (retry now worker epoch code backoff a e) = ground arith
Move-Grows (exhaust now e) = ground arith
Move-Grows (cancel now reason o e) = ground arith
Move-Grows (complete_cancelled now code e) = ground arith
Move-Grows (finalize now e) = ground arith
Move-Grows (enter_node now worker epoch node_id checkpoint a e) = ground arith
Move-Grows (bind_trace now worker epoch attempt trace span flags a e) = ground arith
Move-Grows (complete now worker epoch status outcome output code a e) = ground arith
Move-Grows (number_event now e) = ground arith
Move-Grows (reserve now model_call budget e) = ground arith
Move-Grows (record_cost now cost e) = ground arith

pub claim_row-fence :
    (now : ℕ) (worker : String) (lease : ℕ) (r : Run)
    → r.fencing_epoch < (claim_row now worker lease r).fencing_epoch
unfolding claim_row
claim_row-fence now worker lease r = omega arith

pub cancel_row-fence :
    (now : ℕ) (reason : String) (r : Run)
    → r.fencing_epoch < (cancel_row now reason r).fencing_epoch
unfolding cancel_row
cancel_row-fence now reason r = ground arith

-- The test that guards every write of a worker fails for an older fence.
pub holds_fence-stale :
    (worker : String) (epoch : ℕ) (r : Run)
    → epoch < r.fencing_epoch
    → holds_fence worker epoch r ≡ false
unfolding holds_fence
holds_fence-stale worker epoch r h = ground arith
