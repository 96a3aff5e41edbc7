-- ===== src/Ledger/System.antt =====
-- The ledger under every interleaving: one step is one transaction of
-- packages/persistence/src/index.ts that writes runs, plans, events or attempts, by any caller, with any
-- arguments. `spend` and `record_cost` are what the statements on receipts and budgets make of a run.
-- `Allowed` says which fences the callers present for which run.
pub mod Single
pub mod Evolve
pub mod Refine
pub mod Conforms
pub mod History
use ehfconcept.Prelude.{ℕ, Bool, String, Option}
use ehfconcept.Contracts.Value.{Value}
use ehfconcept.Contracts.Canonical.{Hashing}
use ehfconcept.Ledger.Row.{Run, FinalStatus, Budget, reserve_row, record_cost_row}
use ehfconcept.Ledger.Plans.{Plan, admit_plan}
use ehfconcept.Ledger.Store.{
  Db, RunInput, TraceLink, create_run, claim_run, renew_lease, schedule_run_retry,
  fail_exhausted_runs, request_run_cancellation, complete_cancelled_run,
  finalize_abandoned_cancellations, update_run_node, complete_run, update_run,
}
use ehfconcept.Ledger.Journal.{
  EventInput, FencedRun, StateWrite, append_event, bind_run_trace, apply_state_write,
}

pub data Step (h : Hashing) (Allowed : String → ℕ → Type 0) (s : Db) : Db → Type 0 where
  admit :
      (plan : Plan) (tenant : String)
      → Step h Allowed s (record s { plans = (admit_plan h plan tenant s.plans).0 })
  create :
      (now : ℕ) (run_id : String) (i : RunInput) → Step h Allowed s (create_run h now run_id i s).0
  claim :
      (now : ℕ) (locked : Run → Bool) (worker : String) (lease : ℕ)
      → Step h Allowed s (claim_run now locked worker lease s).0
  renew :
      (now : ℕ) (run_id worker : String) (epoch lease : ℕ)
      → Allowed run_id epoch
      → Step h Allowed s (renew_lease now run_id worker epoch lease s).0
  retry :
      (now : ℕ) (run_id worker : String) (epoch : ℕ) (code : String) (backoff : ℕ)
      → Allowed run_id epoch
      → Step h Allowed s (schedule_run_retry now run_id worker epoch code backoff s).0
  fail_exhausted : (now : ℕ) → Step h Allowed s (fail_exhausted_runs now s).0
  cancel :
      (now : ℕ) (run_id tenant reason : String)
      → Step h Allowed s (request_run_cancellation now run_id tenant reason s).0
  complete_cancelled :
      (now : ℕ) (run_id : String) (code : Option String)
      → Step h Allowed s (complete_cancelled_run now run_id code s).0
  finalize : (now : ℕ) → Step h Allowed s (finalize_abandoned_cancellations now s).0
  complete :
      (now : ℕ) (run_id worker : String) (epoch : ℕ) (status : FinalStatus) (outcome : String)
      (output : Value) (code : Option String)
      → Allowed run_id epoch
      → Step h Allowed s (complete_run now run_id worker epoch status outcome output code s).0
  append : (now : ℕ) (i : EventInput) → Step h Allowed s (append_event now i s).0
  trace :
      (now : ℕ) (worker : String) (epoch : ℕ) (link : TraceLink)
      → Allowed link.run_id epoch
      → Step h Allowed s (bind_run_trace now worker epoch link s).0
  write_state :
      (now : ℕ) (run : FencedRun) (w : StateWrite)
      → Allowed run.run_id run.fencing_epoch
      → Step h Allowed s (apply_state_write now run w s).0
  spend :
      (now : ℕ) (run_id : String) (model_call : Bool) (budget : Budget)
      → Step h Allowed s (update_run run_id (reserve_row now model_call budget) s).0
  record_cost :
      (now : ℕ) (run_id : String) (cost : Option ℕ)
      → Step h Allowed s (update_run run_id (record_cost_row now cost) s).0

pub data Reach (h : Hashing) (Allowed : String → ℕ → Type 0) (s : Db) : Db → Type 0 where
  here : Reach h Allowed s s
  next : {t u : Db} → Reach h Allowed s t → Step h Allowed t u → Reach h Allowed s u
