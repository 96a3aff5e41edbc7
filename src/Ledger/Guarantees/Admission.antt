-- ===== src/Ledger/Guarantees/Admission.antt =====
-- What the table of admitted plans holds, whatever the ledger does.
use ehfconcept.Prelude.{ℕ, ◌≡◌, String, Option, some, All, arith}
use ehfconcept.Contracts.Canonical.{Hashing, stable_digest}
use ehfconcept.Ledger.Plans.{
  Plan, IsAuthentic, get_plan, admit_plan-IsAuthentic, get_plan-IsAuthentic,
}
use ehfconcept.Ledger.Store.{
  Db, empty_db, create_run, claim_run, renew_lease, schedule_run_retry, fail_exhausted_runs,
  request_run_cancellation, complete_cancelled_run, finalize_abandoned_cancellations, complete_run,
  update_run, update_run_or_throw, update_run_node,
}
use ehfconcept.Ledger.Journal.{
  append_event, bind_run_trace, apply_state_write, insert_attempt, finish_attempt,
}
use ehfconcept.Ledger.System.{
  Step, Reach, here, next, admit, create, claim, renew, retry, fail_exhausted, cancel,
  complete_cancelled, finalize, complete, append, trace, write_state, spend, record_cost,
}
use ehfconcept.Ledger.Journal

module _ (h : Hashing) (Allowed : String → ℕ → Type 0) where
  -- Every step but an admission leaves the plans as they are.
  Step-IsAuthentic :
      {s t : Db} → Step h Allowed s t → All (IsAuthentic h) s.plans → All (IsAuthentic h) t.plans
  unfolding create_run claim_run renew_lease schedule_run_retry fail_exhausted_runs
      request_run_cancellation complete_cancelled_run finalize_abandoned_cancellations complete_run
      update_run update_run_or_throw update_run_node append_event bind_run_trace apply_state_write
      insert_attempt finish_attempt
  Step-IsAuthentic {s} (admit plan tenant) all = admit_plan-IsAuthentic h plan tenant s.plans all
  Step-IsAuthentic (create now run_id i) all = ground arith
  Step-IsAuthentic (claim now locked worker lease) all = ground arith
  Step-IsAuthentic (renew now run_id worker epoch lease a) all = all
  Step-IsAuthentic (retry now run_id worker epoch code backoff a) all = all
  Step-IsAuthentic (fail_exhausted now) all = all
  Step-IsAuthentic (cancel now run_id tenant reason) all = ground arith
  Step-IsAuthentic (complete_cancelled now run_id code) all = all
  Step-IsAuthentic (finalize now) all = all
  Step-IsAuthentic (complete now run_id worker epoch status outcome output code a) all = all
  Step-IsAuthentic (append now i) all = ground arith
  Step-IsAuthentic (trace now worker epoch link a) all = ground arith
  Step-IsAuthentic (write_state now run (Journal.node_started x y z w) a) all = ground arith
  Step-IsAuthentic (write_state now run (Journal.node_finished x y z w) a) all = all
  Step-IsAuthentic (write_state now run (Journal.events x y z w v) a) all = ground arith
  Step-IsAuthentic (write_state now run (Journal.checkpoint x y) a) all = all
  Step-IsAuthentic (spend now run_id model_call budget) all = all
  Step-IsAuthentic (record_cost now run_id cost) all = all

  Reach-IsAuthentic :
      {s t : Db} → Reach h Allowed s t → All (IsAuthentic h) s.plans → All (IsAuthentic h) t.plans
  Reach-IsAuthentic here all = all
  Reach-IsAuthentic (next r st) all = Step-IsAuthentic st (Reach-IsAuthentic r all)

  -- In every database that can be reached from the empty one, a plan that is read by a digest, with or
  -- without a tenant, carries that digest, and its content hashes to it.
  pub read_plans_authentic :
      (digest : String) (tenant : Option String) (t : Db) (plan : Plan)
      → Reach h Allowed empty_db t
      → get_plan digest tenant t.plans ≡ some plan
      → (plan.plan_digest ≡ digest) × (stable_digest h plan.content ≡ digest)
  read_plans_authentic digest tenant t plan reach =
      get_plan-IsAuthentic h digest tenant t.plans plan (Reach-IsAuthentic reach tt)
