-- ===== src/Ledger/Invariant.antt =====
-- What holds of every run between two statements.
use ehfconcept.Prelude.{ℕ, ◌≤◌, ◌<◌, ◌≡◌, Bool, true, false, String, none, is_some, arith}
use ehfconcept.Contracts.Value.{Value}
use ehfconcept.Ledger.Row.{
  Run, RunStatus, queued, running, retrying, is_running, is_waiting, is_claimable, claim_row,
  renew_row, retry_row, fail_exhausted_row, cancel_row, complete_cancelled_row,
  finalize_abandoned_row, update_node_row, bind_trace_row, complete_row, next_sequence_row,
  reserve_row, record_cost_row, new_run,
}
use ehfconcept.Ledger.Machine.{
  Move, claim, renew, retry, exhaust, cancel, complete_cancelled, finalize, enter_node, bind_trace,
  complete, number_event, reserve, record_cost,
}

abbrev pub is_open : RunStatus → Bool
is_open queued = true
is_open running = true
is_open retrying = true
is_open _ = false

pub record IsSound (r : Run) : Type 0 where
  pub attempts_bounded : r.attempt ≤ r.attempt_limit
  pub attempts_fenced : r.attempt ≤ r.fencing_epoch
  pub waiting_has_room : is_waiting r.status ≡ true → r.attempt < r.attempt_limit
  pub running_owned : is_running r.status ≡ true → is_some r.lease_owner ≡ true
  pub running_leased : is_running r.status ≡ true → is_some r.lease_expires_at ≡ true
  pub resting_unowned : is_running r.status ≡ false → r.lease_owner ≡ none
  pub resting_unleased : is_running r.status ≡ false → r.lease_expires_at ≡ none
  pub open_uncompleted : is_open r.status ≡ true → r.completed_at ≡ none
  pub open_no_outcome : is_open r.status ≡ true → r.terminal_outcome ≡ none
  pub closed_completed : is_open r.status ≡ false → is_some r.completed_at ≡ true
  pub closed_outcome : is_open r.status ≡ false → is_some r.terminal_outcome ≡ true

pub new_run-IsSound :
    (run_id tenant key plan digest : String) (input : Value) (now : ℕ)
    → IsSound (new_run run_id tenant key plan digest input now)
unfolding new_run
new_run-IsSound run_id tenant key plan digest input now = ground arith

pub Move-IsSound : {Allowed : ℕ → Type 0} {r r' : Run} → Move Allowed r r' → IsSound r → IsSound r'
unfolding is_claimable claim_row renew_row retry_row fail_exhausted_row cancel_row
    complete_cancelled_row finalize_abandoned_row update_node_row bind_trace_row complete_row
    next_sequence_row reserve_row record_cost_row
Move-IsSound (claim now worker lease c e) h = ground arith
Move-IsSound (renew now worker epoch lease a e) h = ground arith
Move-IsSound (retry now worker epoch code backoff a e) h = ground arith
Move-IsSound (exhaust now e) h = ground arith
Move-IsSound (cancel now reason o e) h = ground arith
Move-IsSound (complete_cancelled now code e) h = ground arith
Move-IsSound (finalize now e) h = ground arith
Move-IsSound (enter_node now worker epoch node_id checkpoint a e) h = ground arith
Move-IsSound (bind_trace now worker epoch attempt trace span flags a e) h = ground arith
Move-IsSound (complete now worker epoch status outcome output code a e) h = ground arith
Move-IsSound (number_event now e) h = ground arith
Move-IsSound (reserve now model_call budget e) h = ground arith
Move-IsSound (record_cost now cost e) h = ground arith
