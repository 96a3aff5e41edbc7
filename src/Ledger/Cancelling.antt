-- ===== src/Ledger/Cancelling.antt =====
-- A run whose cancellation was requested while it was running, met only by fences issued before.
use ehfconcept.Prelude.{ℕ, ◌≤◌, ◌<◌, ◌≡◌, ◌⊎◌, true, false, String, is_some, arith}
use ehfconcept.Ledger.Row.{
  Run, running, cancelled, is_running, is_claimable, claim_row, renew_row, retry_row,
  fail_exhausted_row, cancel_row, complete_cancelled_row, finalize_abandoned_row, update_node_row,
  bind_trace_row, complete_row, next_sequence_row, reserve_row, record_cost_row,
}
use ehfconcept.Ledger.Machine.{
  Move, claim, renew, retry, exhaust, cancel, complete_cancelled, finalize, enter_node, bind_trace,
  complete, number_event, reserve, record_cost,
}

-- `fence` bounds the fences that were issued before the request; `r₀` is the run at the request.
pub record IsCancelling (fence : ℕ) (r₀ r : Run) : Type 0 where
  pub marked : is_some r.cancellation_requested_at ≡ true
  pub fenced : fence < r.fencing_epoch
  pub stopping : (r.status ≡ running) ⊎ (r.status ≡ cancelled)
  pub attempt : r.attempt ≡ r₀.attempt
  pub output : r.output ≡ r₀.output

pub Move-IsCancelling :
    {Allowed : ℕ → Type 0} {fence : ℕ} {r₀ r r' : Run}
    → ((epoch : ℕ) → Allowed epoch → epoch ≤ fence)
    → Move Allowed r r'
    → IsCancelling fence r₀ r
    → IsCancelling fence r₀ r'
unfolding is_claimable claim_row renew_row retry_row fail_exhausted_row cancel_row
    complete_cancelled_row finalize_abandoned_row update_node_row bind_trace_row complete_row
    next_sequence_row reserve_row record_cost_row
Move-IsCancelling bound (claim now worker lease c e) h = ground arith
Move-IsCancelling bound (renew now worker epoch lease a e) h = ground (arith, bound epoch a)
Move-IsCancelling bound (retry now worker epoch code backoff a e) h = ground (arith, bound epoch a)
Move-IsCancelling bound (exhaust now e) h = ground arith
Move-IsCancelling bound (cancel now reason o e) h = ground arith
Move-IsCancelling bound (complete_cancelled now code e) h = ground arith
Move-IsCancelling bound (finalize now e) h = ground arith
Move-IsCancelling bound (enter_node now worker epoch node_id checkpoint a e) h =
    ground (arith, bound epoch a)
Move-IsCancelling bound (bind_trace now worker epoch attempt trace span flags a e) h =
    ground (arith, bound epoch a)
Move-IsCancelling bound (complete now worker epoch status outcome output code a e) h =
    ground (arith, bound epoch a)
Move-IsCancelling bound (number_event now e) h = ground arith
Move-IsCancelling bound (reserve now model_call budget e) h = ground arith
Move-IsCancelling bound (record_cost now cost e) h = ground arith

pub cancel_row-IsCancelling :
    (now : ℕ) (reason : String) (r : Run)
    → is_running r.status ≡ true
    → IsCancelling r.fencing_epoch r (cancel_row now reason r)
unfolding cancel_row
cancel_row-IsCancelling now reason r h = ground arith

-- Such a run is not claimed again.
pub IsCancelling-unclaimable :
    {fence : ℕ} {r₀ r : Run} (now : ℕ) → IsCancelling fence r₀ r → is_claimable now r ≡ false
unfolding is_claimable
IsCancelling-unclaimable now h = ground arith
