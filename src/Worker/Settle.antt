-- ===== src/Worker/Settle.antt =====
-- apps/runtime-worker/src/worker.ts: `retryable`, `backoffMs`, and in `workOnce` what follows the answer
-- of the runtime provider. Telemetry and the heartbeat's timer are left out; what the heartbeat found
-- is the two signals.
use Prim.Native.String.{◌++◌ as ◌<>◌}
use package.text.Mathlib.Text.{starts_with}
use ehfconcept.Prelude.{
  ℕ, ◌-◌, ◌*◌, ◌^◌, min, Bool, false, not, ◌&&◌, ◌||◌, String, Option, none, some, ◌==◌,
  compare_texts, if◌then◌else◌, or_else, Result, ok, err,
}
use ehfconcept.Contracts.Value.{Value, object, string, number, Fields, field, end}
use ehfconcept.Contracts.Read.{contains, assign_fields}
use ehfconcept.Ledger.Row.{Run, FinalStatus}
use ehfconcept.Ledger.Store.{
  EventStatus, Db, schedule_run_retry, complete_run, complete_cancelled_run,
}
use ehfconcept.Ledger.Journal.{EventInput, append_event}

unfoldable pub retryable : String → Bool
unfolding contains
retryable code =
    if contains code "denied" || contains code "authorization" || contains code "stale_fence"
    then false
    else not (starts_with code "runtime.plan_")
      && not (starts_with code "langgraph.")
      && not (contains code "contract")

pub record Settings : Type 0 where
  pub retry_base_ms : ℕ
  pub retry_max_ms : ℕ

-- `Math.min(retryMaxMs, retryBaseMs * 2 ** Math.max(0, attempt - 1))`
unfoldable pub backoff_ms : Settings → ℕ → ℕ
backoff_ms s attempt = min s.retry_max_ms (s.retry_base_ms * 2 ^ (attempt - 1))

-- A claimed run in the hands of a slot of the worker. `print` prints a number.
pub record Slot : Type 0 where
  pub run : Run
  pub worker_id : String
  pub trace_id : String
  pub provider : String
  pub print : ℕ → String

pub record RuntimeResult : Type 0 where
  pub status : String
  pub output : Value
  pub error_code : Option String
  pub provider_metadata : Fields

-- What the heartbeat has found when the provider's answer is there.
pub record Signals : Type 0 where
  pub cancelled : Bool
  pub lease_lost : Bool

abbrev pub run_event : Slot → String → String → EventStatus → Fields → EventInput
run_event slot suffix code status values = record {
  run_id = slot.run.run_id;
  event_key = "run:" <> slot.print slot.run.attempt <> ":" <> suffix;
  code = code;
  node_id = none;
  status = status;
  values = object values;
}

abbrev pub traced : Slot → Fields → Fields
traced slot rest =
    field "traceId" (string slot.trace_id) (field "runtimeProvider" (string slot.provider) rest)

-- `await appendEvent(...)` at the end of a branch.
abbrev pub journal : ℕ → EventInput → Db → Db × Result String (Unit {0})
journal now input db =
    let (db', r) = append_event now input db in (db', elim r [ ok e ↦ ok tt | err e ↦ err e ])

-- Every statement is a transaction of its own. What others make of the ledger in between.
pub record Others : Type 0 where
  pub before_completion : Db → Db
  pub before_event : Db → Db
  pub before_catch : Db → Db

-- Statements in turn; each reads a clock of its own.
abbrev pub then_journal :
    ℕ → Others → EventInput → Db × Result String (Unit {0}) → Db × Result String (Unit {0})
then_journal now others input (db, ok u) = journal now input (others.before_event db)
then_journal now others input (db, err e) = (db, err e)

unfoldable pub record_terminal_failure :
    (ℕ → ℕ) → Slot → Others → String → Bool → Db → Db × Result String (Unit {0})
unfolding complete_run append_event
record_terminal_failure clock slot others code denied db =
    then_journal (clock 2) others
      (run_event slot "failed" "run.failed"
        (if denied then EventStatus.denied else EventStatus.failed)
        (field "errorCode" (string code) (traced slot end)))
      (complete_run (clock 1) slot.run.run_id slot.worker_id slot.run.fencing_epoch
        (if denied then FinalStatus.denied else FinalStatus.failed)
        (if denied then "denied" else "failed") (object (field "error" (string code) end))
        (some code) db)

unfoldable pub handle_failure :
    (ℕ → ℕ) → Settings → Slot → Others → String → Bool → Db → Db × Result String (Unit {0})
unfolding retryable backoff_ms schedule_run_retry append_event record_terminal_failure
handle_failure clock settings slot others code denied db =
    if not denied && retryable code
    then (let (db', scheduled) =
          schedule_run_retry (clock 0) slot.run.run_id slot.worker_id slot.run.fencing_epoch code
            (backoff_ms settings slot.run.attempt) db in
        if scheduled
        then journal (clock 1)
            (run_event slot "retrying" "run.retrying" EventStatus.observed (
              field "errorCode" (string code) (
                field "attempt" (number (slot.print slot.run.attempt))
                  (field "traceId" (string slot.trace_id) end))))
            (others.before_event db')
        else record_terminal_failure clock slot others code denied (others.before_completion db'))
    else record_terminal_failure clock slot others code denied db

-- The `try` block, from the provider's answer on.
unfoldable pub in_try :
    (ℕ → ℕ)
    → Settings
    → Slot
    → Others
    → Result String RuntimeResult
    → Db
    → Db × Result String (Unit {0})
unfolding complete_run append_event handle_failure assign_fields
in_try clock settings slot others (err e) db = (db, err e)
in_try clock settings slot others (ok r) db =
    if r.status == "completed"
    then then_journal (clock 2) others
        (run_event slot "completed" "run.completed" EventStatus.passed
          (assign_fields (traced slot end) r.provider_metadata))
        (complete_run (clock 1) slot.run.run_id slot.worker_id slot.run.fencing_epoch
          FinalStatus.completed "completed" r.output none db)
    else handle_failure clock settings slot others (or_else r.error_code ("runtime." <> r.status))
        (r.status == "denied") db

-- The `catch` block.
unfoldable pub caught :
    (ℕ → ℕ) → Settings → Slot → Others → Signals → String → Db → Db × Result String (Unit {0})
unfolding complete_cancelled_run append_event handle_failure contains
caught clock settings slot others signals message db =
    let code =
      if signals.cancelled
      then "runtime.cancelled"
      else if signals.lease_lost
      then "runtime.lease_lost"
      else message in
    if code == "runtime.cancelled"
    then journal (clock 4)
        (run_event slot "cancelled" "run.cancelled" EventStatus.observed (traced slot end))
        (others.before_event (complete_cancelled_run (clock 3) slot.run.run_id (some code) db).0)
    else if code == "runtime.lease_lost"
    then (db, ok tt)
    else handle_failure (λ n. clock (ℕ.suc (ℕ.suc (ℕ.suc n)))) settings slot others code
        (contains code "denied") db

unfoldable pub settle :
    (ℕ → ℕ)
    → Settings
    → Slot
    → Others
    → Signals
    → Result String RuntimeResult
    → Db
    → Db × Result String (Unit {0})
unfolding in_try caught
settle clock settings slot others signals answer db =
    let (db', outcome) = in_try clock settings slot others answer db in
    elim outcome [
      | ok u ↦ (db', ok tt)
      | err e ↦ caught clock settings slot others signals e (others.before_catch db')
    ]
