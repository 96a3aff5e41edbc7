-- ===== src/Ledger/Graph.antt =====
-- The diagram of run statuses, with the counters left out, and that every statement follows it.
use ehfconcept.Prelude.{ℕ, arith}
use ehfconcept.Ledger.Row.{
  Run, RunStatus, queued, running, retrying, completed, manual_review, denied, failed, cancelled,
  is_claimable, claim_row, renew_row, retry_row, fail_exhausted_row, cancel_row,
  complete_cancelled_row, finalize_abandoned_row, update_node_row, bind_trace_row, complete_row,
  next_sequence_row, reserve_row, record_cost_row,
}
use ehfconcept.Ledger.Machine.{
  Move, claim, renew, retry, exhaust, cancel, complete_cancelled, finalize, enter_node, bind_trace,
  complete, number_event, reserve, record_cost,
}

infix 40 ◌⟶◌
pub data ◌⟶◌ : RunStatus → RunStatus → Type 0 where
  start : queued ⟶ running
  restart : retrying ⟶ running
  steal : running ⟶ running
  back_off : running ⟶ retrying
  give_up_queued : queued ⟶ failed
  give_up_retrying : retrying ⟶ failed
  drop_queued : queued ⟶ cancelled
  drop_retrying : retrying ⟶ cancelled
  stop : running ⟶ cancelled
  finish : running ⟶ completed
  hand_over : running ⟶ manual_review
  refuse : running ⟶ denied
  break_down : running ⟶ failed
  rest : {s : RunStatus} → s ⟶ s

ruleset edges = (
  start, restart, steal, back_off, give_up_queued, give_up_retrying, drop_queued, drop_retrying,
  stop, finish, hand_over, refuse, break_down, rest,
)

-- Every move of a run, whatever statement makes it, follows an edge of the diagram of statuses: a waiting
-- run starts, fails or is cancelled, a running one is claimed again, backs off, ends or is stopped, and
-- a closed one stays as it is.
pub Move-⟶ : {Allowed : ℕ → Type 0} {r r' : Run} → Move Allowed r r' → r.status ⟶ r'.status
unfolding is_claimable claim_row renew_row retry_row fail_exhausted_row cancel_row
    complete_cancelled_row finalize_abandoned_row update_node_row bind_trace_row complete_row
    next_sequence_row reserve_row record_cost_row
Move-⟶ (claim now worker lease c e) = grind (arith, edges)
Move-⟶ (renew now worker epoch lease a e) = grind (arith, edges)
Move-⟶ (retry now worker epoch code backoff a e) = grind (arith, edges)
Move-⟶ (exhaust now e) = grind (arith, edges)
Move-⟶ (cancel now reason o e) = grind (arith, edges)
Move-⟶ (complete_cancelled now code e) = grind (arith, edges)
Move-⟶ (finalize now e) = grind (arith, edges)
Move-⟶ (enter_node now worker epoch node_id checkpoint a e) = grind (arith, edges)
Move-⟶ (bind_trace now worker epoch attempt trace span flags a e) = grind (arith, edges)
Move-⟶ (complete now worker epoch status outcome output code a e) = grind (arith, edges)
Move-⟶ (number_event now e) = grind (arith, edges)
Move-⟶ (reserve now model_call budget e) = grind (arith, edges)
Move-⟶ (record_cost now cost e) = grind (arith, edges)
