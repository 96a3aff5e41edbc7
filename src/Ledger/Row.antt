-- ===== src/Ledger/Row.antt =====
-- One row of harness_runtime.runs, and what each statement of packages/persistence/src/index.ts
-- makes of a row that its `where` clause selects. Times are microseconds, costs 10^-8 dollars.
use ehfconcept.Prelude.{
  ℕ, ◌+◌, ◌*◌, Bool, true, false, not, ◌&&◌, ◌||◌, String, Option, none, some, ltb, leb, ◌==◌,
  compare_numbers, compare_texts, if◌then◌else◌, is_text, is_some, or_else, coalesce,
}
use ehfconcept.Contracts.Value.{Value}

pub data RunStatus : Type 0 where
  queued running retrying completed manual_review denied failed cancelled : RunStatus

abbrev pub is_running : RunStatus → Bool
is_running running = true
is_running _ = false

-- `status in ('queued','retrying')`
abbrev pub is_waiting : RunStatus → Bool
is_waiting queued = true
is_waiting retrying = true
is_waiting _ = false

pub record Run : Type 0 where
  pub run_id : String
  pub tenant_id : String
  pub idempotency_key : String
  pub plan_digest : String
  pub request_digest : String
  pub status : RunStatus
  pub terminal_outcome : Option String
  pub input : Value
  pub output : Option Value
  pub attempt : ℕ
  pub attempt_limit : ℕ
  pub fencing_epoch : ℕ
  pub lease_owner : Option String
  pub lease_expires_at : Option ℕ
  pub available_at : Option ℕ
  pub cancellation_requested_at : Option ℕ
  pub cancellation_reason : Option String
  pub latest_checkpoint_id : Option String
  pub current_node_id : Option String
  pub error_code : Option String
  pub trace_id : Option String
  pub root_span_id : Option String
  pub trace_flags : Option ℕ
  pub event_sequence : ℕ
  pub cost_usd : ℕ
  pub cost_complete : Bool
  pub model_calls : ℕ
  pub capability_calls : ℕ
  pub created_at : ℕ
  pub started_at : Option ℕ
  pub completed_at : Option ℕ
  pub updated_at : ℕ

-- `make_interval(secs => n)`
abbrev pub seconds : ℕ → ℕ
seconds n = n * 1000000

-- `t < now()`, false where `t` is null.
abbrev pub is_past : Option ℕ → ℕ → Bool
is_past none now = false
is_past (some t) now = ltb t now

-- `available_at is null or available_at <= now()`
abbrev pub is_available : Option ℕ → ℕ → Bool
is_available none now = true
is_available (some t) now = leb t now

-- The row that `createRun` inserts; what it does not name has the migrations' defaults.
unfoldable pub new_run : String → String → String → String → String → Value → ℕ → Run
new_run run_id tenant_id idempotency_key plan_digest request_digest input now = record {
  run_id = run_id;
  tenant_id = tenant_id;
  idempotency_key = idempotency_key;
  plan_digest = plan_digest;
  request_digest = request_digest;
  status = queued;
  terminal_outcome = none;
  input = input;
  output = none;
  attempt = 0;
  attempt_limit = 3;
  fencing_epoch = 0;
  lease_owner = none;
  lease_expires_at = none;
  available_at = none;
  cancellation_requested_at = none;
  cancellation_reason = none;
  latest_checkpoint_id = none;
  current_node_id = none;
  error_code = none;
  trace_id = none;
  root_span_id = none;
  trace_flags = none;
  event_sequence = 0;
  cost_usd = 0;
  cost_complete = true;
  model_calls = 0;
  capability_calls = 0;
  created_at = now;
  started_at = none;
  completed_at = none;
  updated_at = now;
}

-- `claimRun`: which rows may be claimed, and what a claim writes.
unfoldable pub is_claimable : ℕ → Run → Bool
is_claimable now r =
    ((is_waiting r.status && is_available r.available_at now)
      || (is_running r.status && is_past r.lease_expires_at now))
    && not (is_some r.cancellation_requested_at)
    && ltb r.attempt r.attempt_limit

unfoldable pub claim_row : ℕ → String → ℕ → Run → Run
claim_row now worker_id lease_seconds r = record r {
  status = running;
  lease_owner = some worker_id;
  lease_expires_at = some (now + seconds lease_seconds);
  fencing_epoch = r.fencing_epoch + 1;
  attempt = r.attempt + 1;
  available_at = none;
  started_at = some (or_else r.started_at now);
  updated_at = now;
}

-- `lease_owner = $2 and fencing_epoch = $3 and status = 'running'`
unfoldable pub holds_fence : String → ℕ → Run → Bool
holds_fence worker_id epoch r =
    is_text r.lease_owner worker_id && r.fencing_epoch == epoch && is_running r.status

unfoldable pub renew_row : ℕ → String → ℕ → ℕ → Run → Option Run
unfolding holds_fence
renew_row now worker_id epoch lease_seconds r =
    if holds_fence worker_id epoch r
    then some (record r { lease_expires_at = some (now + seconds lease_seconds); updated_at = now })
    else none

-- `backoff_ms` is in milliseconds.
unfoldable pub retry_row : ℕ → String → ℕ → String → ℕ → Run → Option Run
unfolding holds_fence
retry_row now worker_id epoch error_code backoff_ms r =
    if holds_fence worker_id epoch r && ltb r.attempt r.attempt_limit
    then some (record r {
      status = retrying;
      lease_owner = none;
      lease_expires_at = none;
      available_at = some (now + backoff_ms * 1000);
      error_code = some error_code;
      updated_at = now;
    })
    else none

unfoldable pub fail_exhausted_row : ℕ → Run → Option Run
fail_exhausted_row now r =
    if is_waiting r.status && leb r.attempt_limit r.attempt
    then some (record r {
      status = failed;
      terminal_outcome = some "failed";
      error_code = some (or_else r.error_code "runtime.attempts_exhausted");
      lease_owner = none;
      lease_expires_at = none;
      completed_at = some now;
      updated_at = now;
    })
    else none

-- `requestRunCancellation` on a row that is queued, running or retrying.
unfoldable pub cancel_row : ℕ → String → Run → Run
cancel_row now reason r =
    if is_running r.status
    then record r {
      cancellation_requested_at = some now;
      cancellation_reason = some reason;
      fencing_epoch = r.fencing_epoch + 1;
      updated_at = now;
    }
    else record r {
      cancellation_requested_at = some now;
      cancellation_reason = some reason;
      fencing_epoch = r.fencing_epoch + 1;
      status = cancelled;
      terminal_outcome = some "cancelled";
      completed_at = some now;
      lease_owner = none;
      lease_expires_at = none;
      updated_at = now;
    }

unfoldable pub close_cancelled : ℕ → Option String → Run → Run
close_cancelled now error_code r = record r {
  status = cancelled;
  terminal_outcome = some "cancelled";
  error_code = error_code;
  lease_owner = none;
  lease_expires_at = none;
  completed_at = some now;
  updated_at = now;
}

unfoldable pub complete_cancelled_row : ℕ → Option String → Run → Option Run
unfolding close_cancelled
complete_cancelled_row now error_code r =
    if is_running r.status && is_some r.cancellation_requested_at
    then some (
        close_cancelled now (some (or_else (coalesce error_code r.error_code) "runtime.cancelled"))
          r)
    else none

-- `lease_expires_at is null or lease_expires_at < now()`
abbrev pub is_abandoned : Option ℕ → ℕ → Bool
is_abandoned none now = true
is_abandoned (some t) now = ltb t now

unfoldable pub finalize_abandoned_row : ℕ → Run → Option Run
unfolding close_cancelled
finalize_abandoned_row now r =
    if is_running r.status
      && is_some r.cancellation_requested_at
      && is_abandoned r.lease_expires_at now
    then some
        (close_cancelled now (some (or_else r.error_code "runtime.cancelled_lease_expired")) r)
    else none

unfoldable pub update_node_row : ℕ → String → ℕ → Option String → Option String → Run → Option Run
unfolding holds_fence
update_node_row now worker_id epoch node_id checkpoint_id r =
    if holds_fence worker_id epoch r
    then some (record r {
      current_node_id = node_id;
      latest_checkpoint_id = coalesce checkpoint_id r.latest_checkpoint_id;
      updated_at = now;
    })
    else none

unfoldable pub bind_trace_row : ℕ → String → ℕ → ℕ → String → String → ℕ → Run → Option Run
unfolding holds_fence
bind_trace_row now worker_id epoch attempt trace_id span_id trace_flags r =
    if holds_fence worker_id epoch r && r.attempt == attempt
    then some (record r {
      trace_id = some (or_else r.trace_id trace_id);
      root_span_id = some (or_else r.root_span_id span_id);
      trace_flags = some (or_else r.trace_flags trace_flags);
      updated_at = now;
    })
    else none

-- The statuses that `completeRun` takes.
pub data FinalStatus : Type 0 where
  completed manual_review denied failed cancelled : FinalStatus

abbrev pub run_status : FinalStatus → RunStatus
run_status FinalStatus.completed = RunStatus.completed
run_status FinalStatus.manual_review = RunStatus.manual_review
run_status FinalStatus.denied = RunStatus.denied
run_status FinalStatus.failed = RunStatus.failed
run_status FinalStatus.cancelled = RunStatus.cancelled

unfoldable pub complete_row :
    ℕ → String → ℕ → FinalStatus → String → Value → Option String → Run → Option Run
unfolding holds_fence
complete_row now worker_id epoch status outcome output error_code r =
    if holds_fence worker_id epoch r
    then some (record r {
      status = run_status status;
      terminal_outcome = some outcome;
      output = some output;
      error_code = error_code;
      lease_owner = none;
      lease_expires_at = none;
      completed_at = some now;
      updated_at = now;
    })
    else none

-- `appendEvent`: the next event number of the run.
unfoldable pub next_sequence_row : ℕ → Run → Option Run
next_sequence_row now r =
    some (record r { event_sequence = r.event_sequence + 1; updated_at = now })

pub record Budget : Type 0 where
  pub max_capability_calls : ℕ
  pub max_model_calls : ℕ
  pub max_cost_usd : ℕ

-- `reserveCapabilityBudget`, and the second statement of `reserveGatewayReceipt`.
unfoldable pub reserve_row : ℕ → Bool → Budget → Run → Option Run
reserve_row now model_call budget r =
    if ltb r.capability_calls budget.max_capability_calls
      && (not model_call || ltb r.model_calls budget.max_model_calls)
      && ltb r.cost_usd budget.max_cost_usd
    then some (record r {
      capability_calls = r.capability_calls + 1;
      model_calls = r.model_calls + (if model_call then 1 else 0);
      updated_at = now;
    })
    else none

unfoldable pub record_cost_row : ℕ → Option ℕ → Run → Option Run
record_cost_row now cost_usd r = some (record r {
  cost_usd = r.cost_usd + or_else cost_usd 0;
  cost_complete = r.cost_complete && is_some cost_usd;
  updated_at = now;
})
