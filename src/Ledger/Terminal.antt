-- ===== src/Ledger/Terminal.antt =====
-- A closed run stays as it was closed.
use ehfconcept.Prelude.{ℕ, ◌≡◌, false, arith}
use ehfconcept.Ledger.Row.{
  Run, is_claimable, claim_row, renew_row, retry_row, fail_exhausted_row, cancel_row,
  complete_cancelled_row, finalize_abandoned_row, update_node_row, bind_trace_row, complete_row,
  next_sequence_row, reserve_row, record_cost_row,
}
use ehfconcept.Ledger.Machine.{
  Move, claim, renew, retry, exhaust, cancel, complete_cancelled, finalize, enter_node, bind_trace,
  complete, number_event, reserve, record_cost,
}
use ehfconcept.Ledger.Invariant.{is_open}

pub record SameResult (r r' : Run) : Type 0 where
  pub status : r'.status ≡ r.status
  pub terminal_outcome : r'.terminal_outcome ≡ r.terminal_outcome
  pub output : r'.output ≡ r.output
  pub error_code : r'.error_code ≡ r.error_code
  pub completed_at : r'.completed_at ≡ r.completed_at
  pub attempt : r'.attempt ≡ r.attempt
  pub fencing_epoch : r'.fencing_epoch ≡ r.fencing_epoch

pub Move-SameResult :
    {Allowed : ℕ → Type 0} {r r' : Run}
    → Move Allowed r r'
    → is_open r.status ≡ false
    → SameResult r r'
unfolding is_claimable claim_row renew_row retry_row fail_exhausted_row cancel_row
    complete_cancelled_row finalize_abandoned_row update_node_row bind_trace_row complete_row
    next_sequence_row reserve_row record_cost_row
Move-SameResult (claim now worker lease c e) h = ground arith
Move-SameResult (renew now worker epoch lease a e) h = ground arith
Move-SameResult (retry now worker epoch code backoff a e) h = ground arith
Move-SameResult (exhaust now e) h = ground arith
Move-SameResult (cancel now reason o e) h = ground arith
Move-SameResult (complete_cancelled now code e) h = ground arith
Move-SameResult (finalize now e) h = ground arith
Move-SameResult (enter_node now worker epoch node_id checkpoint a e) h = ground arith
Move-SameResult (bind_trace now worker epoch attempt trace span flags a e) h = ground arith
Move-SameResult (complete now worker epoch status outcome output code a e) h = ground arith
Move-SameResult (number_event now e) h = ground arith
Move-SameResult (reserve now model_call budget e) h = ground arith
Move-SameResult (record_cost now cost e) h = ground arith
