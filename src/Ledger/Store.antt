-- ===== src/Ledger/Store.antt =====
-- packages/persistence/src/index.ts: the operations of the run ledger on the whole database.
-- Each transaction is one step; `now` is its `now()`. An operation that throws has rolled back.
use ehfconcept.Prelude.{
  ℕ, Bool, true, not, ◌&&◌, ◌||◌, String, List, [], ◌∷◌, ◌++◌, Option, none, some, leb, ◌==◌,
  compare_numbers, compare_texts, if◌then◌else◌, find, update_rows, row_count, returned, Result, ok,
  err, is_some, or_else,
}
use ehfconcept.Contracts.Value.{Value, object, field, end, string}
use ehfconcept.Contracts.Canonical.{Hashing, stable_digest}
use ehfconcept.Ledger.Plans.{PlanRow, is_admitted}
use ehfconcept.Ledger.Row.{
  Run, FinalStatus, is_running, is_waiting, new_run, is_claimable, claim_row, renew_row, retry_row,
  fail_exhausted_row, cancel_row, complete_cancelled_row, finalize_abandoned_row, update_node_row,
  complete_row,
}

-- harness_runtime.run_events
pub data EventStatus : Type 0 where
  observed passed failed denied : EventStatus

pub record Event : Type 0 where
  pub run_id : String
  pub sequence : ℕ
  pub event_key : String
  pub code : String
  pub node_id : Option String
  pub status : EventStatus
  pub values : Value
  pub occurred_at : ℕ

-- harness_runtime.node_attempts
pub record NodeAttempt : Type 0 where
  pub run_id : String
  pub node_id : String
  pub attempt : ℕ
  pub fencing_epoch : ℕ
  pub status : String
  pub input_digest : Option String
  pub output_digest : Option String
  pub checkpoint_id : Option String
  pub started_at : ℕ
  pub completed_at : Option ℕ
  pub error_code : Option String
  pub trace_id : Option String
  pub span_id : Option String

-- observability.trace_link
pub record TraceLink : Type 0 where
  pub run_id : String
  pub attempt : ℕ
  pub trace_id : String
  pub root_span_id : String
  pub trace_flags : ℕ
  pub service_name : String
  pub observed_at : ℕ

pub record Db : Type 0 where
  pub plans : List PlanRow
  pub runs : List Run
  pub events : List Event
  pub node_attempts : List NodeAttempt
  pub trace_links : List TraceLink

abbrev pub empty_db : Db
empty_db = record { plans = []; runs = []; events = []; node_attempts = []; trace_links = [] }

-- A statement whose condition starts with `run_id = $1`.
abbrev pub on_run : String → (Run → Option Run) → Run → Option Run
on_run run_id f r = if r.run_id == run_id then f r else none

abbrev pub set_runs : Db → List Run → Db
set_runs db rs = record db { runs = rs }

-- `update runs ... where run_id = $1 and ...`, with the test `rowCount === 1`.
unfoldable pub update_run : String → (Run → Option Run) → Db → Db × Bool
update_run run_id f db =
    (set_runs db (update_rows (on_run run_id f) db.runs), row_count (on_run run_id f) db.runs == 1)

-- The same where `rowCount !== 1` throws.
unfoldable pub update_run_or_throw :
    String → (Run → Option Run) → Db → Db × Result String (Unit {0})
unfolding update_run
update_run_or_throw run_id f db =
    let (db', held) = update_run run_id f db in
    (db', if held then ok tt else err "runtime.stale_fence")

-- getRun, with the optional tenant scope.
unfoldable pub get_run : String → Option String → Db → Option Run
get_run run_id none db = find (λ r. r.run_id == run_id) db.runs
get_run run_id (some tenant_id) db =
    find (λ r. r.run_id == run_id && r.tenant_id == tenant_id) db.runs

-- `createRun`. `run_id` is the fresh `RUN-` identifier. The insert meets the unique key on tenant
-- and idempotency key first, then the primary key, then the foreign key to the admitted plans.
unfoldable pub find_idempotent : String → String → Db → Option Run
find_idempotent tenant_id key db =
    find (λ r. r.tenant_id == tenant_id && r.idempotency_key == key) db.runs

unfoldable pub request_value : String → Value → Value
request_value plan_digest input =
    object (field "planDigest" (string plan_digest) (field "input" input end))

pub record RunInput : Type 0 where
  pub plan_digest : String
  pub run_input : Value
  pub idempotency_key : String
  pub tenant_id : String

module _ (h : Hashing) where
  unfoldable pub create_run :
      ℕ → String → RunInput → Db → Db × Result String (record { created : Bool; run : Run })
  unfolding find_idempotent is_admitted new_run
  create_run now run_id input db =
      let digest = stable_digest h (request_value input.plan_digest input.run_input) in
      let row =
        new_run run_id input.tenant_id input.idempotency_key input.plan_digest digest
          input.run_input now in
      elim (find_idempotent input.tenant_id input.idempotency_key db) [
        | some prior ↦
            if prior.request_digest == digest
            then (db, ok (record { created = prior.run_id == run_id; run = prior }))
            else (db, err "run.idempotency_conflict")
        | none ↦
            if is_some (get_run run_id none db)
            then (db, err "unique_violation")
            else if is_admitted input.tenant_id input.plan_digest db.plans
            then (set_runs db (db.runs ++ row ∷ []), ok (record { created = true; run = row }))
            else (db, err "foreign_key_violation")
      ]

-- `order by created_at limit 1` among the rows that pass `p`.
unfoldable pub older : Run → Option Run → Run
older r none = r
older r (some s) = if leb r.created_at s.created_at then r else s

unfoldable pub oldest : (Run → Bool) → List Run → Option Run
unfolding older
oldest p [] = none
oldest p (r ∷ rs) = let rest = oldest p rs in if p r then some (older r rest) else rest

-- `claimRun`. `locked` are the rows that other transactions hold (`for update skip locked`).
unfoldable pub claim_run : ℕ → (Run → Bool) → String → ℕ → Db → Db × Option Run
unfolding oldest is_claimable
claim_run now locked worker_id lease_seconds db =
    elim (oldest (λ r. is_claimable now r && not (locked r)) db.runs) [
      | none ↦ (db, none)
      | some selected ↦
          let claim =
            on_run selected.run_id (λ r. some (claim_row now worker_id lease_seconds r)) in
          (set_runs db (update_rows claim db.runs), returned claim db.runs)
    ]

unfoldable pub renew_lease : ℕ → String → String → ℕ → ℕ → Db → Db × Bool
unfolding update_run
renew_lease now run_id worker_id epoch lease_seconds =
    update_run run_id (renew_row now worker_id epoch lease_seconds)

unfoldable pub schedule_run_retry : ℕ → String → String → ℕ → String → ℕ → Db → Db × Bool
unfolding update_run
schedule_run_retry now run_id worker_id epoch error_code backoff_ms =
    update_run run_id (retry_row now worker_id epoch error_code backoff_ms)

unfoldable pub fail_exhausted_runs : ℕ → Db → Db × ℕ
fail_exhausted_runs now db = (
  set_runs db (update_rows (fail_exhausted_row now) db.runs),
  row_count (fail_exhausted_row now) db.runs,
)

pub data CancellationOutcome : Type 0 where
  already_terminal cancelled requested not_found : CancellationOutcome

unfoldable pub request_run_cancellation :
    ℕ → String → String → String → Db → Db × CancellationOutcome × Option Run
unfolding get_run cancel_row
request_run_cancellation now run_id tenant_id reason db =
    elim (get_run run_id (some tenant_id) db) [
      | none ↦ (db, not_found, none)
      | some current ↦
          let cancel = on_run run_id (λ r. some (cancel_row now reason r)) in
          if is_waiting current.status || is_running current.status
          then (
            set_runs db (update_rows cancel db.runs),
            if is_running current.status then requested else cancelled,
            returned cancel db.runs,
          )
          else (db, already_terminal, some current)
    ]

unfoldable pub complete_cancelled_run : ℕ → String → Option String → Db → Db × Bool
unfolding update_run
complete_cancelled_run now run_id error_code =
    update_run run_id (complete_cancelled_row now error_code)

unfoldable pub finalize_abandoned_cancellations : ℕ → Db → Db × ℕ
finalize_abandoned_cancellations now db = (
  set_runs db (update_rows (finalize_abandoned_row now) db.runs),
  row_count (finalize_abandoned_row now) db.runs,
)

unfoldable pub cancellation_requested : String → Db → Option String
unfolding get_run
cancellation_requested run_id db = elim (get_run run_id none db) [
  | none ↦ none
  | some row ↦
      if is_some row.cancellation_requested_at
      then some (or_else row.cancellation_reason "cancelled")
      else none
]

unfoldable pub current_fencing_epoch : String → Db → Option ℕ
current_fencing_epoch run_id db =
    elim (find (λ (r : Run). r.run_id == run_id && is_running r.status) db.runs) [
      | none ↦ none
      | some row ↦ some row.fencing_epoch
    ]

unfoldable pub update_run_node :
    ℕ → String → String → ℕ → Option String → Option String → Db → Db × Result String (Unit {0})
unfolding update_run_or_throw
update_run_node now run_id worker_id epoch node_id checkpoint_id =
    update_run_or_throw run_id (update_node_row now worker_id epoch node_id checkpoint_id)

unfoldable pub complete_run :
    ℕ
    → String
    → String
    → ℕ
    → FinalStatus
    → String
    → Value
    → Option String
    → Db
    → Db × Result String (Unit {0})
unfolding update_run_or_throw
complete_run now run_id worker_id epoch status outcome output error_code =
    update_run_or_throw run_id (complete_row now worker_id epoch status outcome output error_code)
