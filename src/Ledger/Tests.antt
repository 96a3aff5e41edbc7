-- ===== src/Ledger/Tests.antt =====
-- The ledger on one small history: a plan is admitted, a run is started, claimed, lost and claimed again.
use ehfconcept.Prelude.{
  ◌≡◌, ◌≢◌, refl, Bool, true, false, String, [], none, some, arith, update_rows, returned,
  row_count, ◌==◌, compare_texts, ok, err,
}
use ehfconcept.Contracts.Value.{Value, string, object, field}
use ehfconcept.Contracts.Canonical.{
  Hashing, stable_digest, canonical_json, canonicalize, by_code_unit,
}
use ehfconcept.Ledger.Row.{
  Run, FinalStatus, new_run, claim_row, is_claimable, complete_row, holds_fence, is_running,
}
use ehfconcept.Ledger.Plans.{Plan, admit_plan, get_plan, verify_plan_digest, is_admitted}
use ehfconcept.Ledger.Machine.{Any, claim}
use ehfconcept.Ledger.Graph.{◌⟶◌, Move-⟶}
use ehfconcept.Ledger.Fencing.{SameRequest, Grows}
use ehfconcept.Ledger.Invariant.{is_open}
use ehfconcept.Ledger.Terminal.{SameResult}
use ehfconcept.Ledger.Cancelling.{IsCancelling}
use ehfconcept.Ledger.Store.{
  Db, RunInput, empty_db, get_run, find_idempotent, request_value, create_run, older, oldest,
  claim_run, request_run_cancellation, requested, complete_run, update_run, update_run_or_throw,
  fail_exhausted_runs, finalize_abandoned_cancellations,
}
use ehfconcept.Ledger.System.{Step, Reach, here, next}
use ehfconcept.Ledger.System
use ehfconcept.Ledger.System.Evolve.{Evolve}
use ehfconcept.Ledger.System.Conforms.{Step-Evolve}
use ehfconcept.Ledger.System.History.{IsConsistent}
use ehfconcept.Ledger.Guarantees.{reachable-IsConsistent, runs_persist, closed_runs_final}
use ehfconcept.Ledger.Guarantees.Writers.{Refuses, stale_writer_refused}
use ehfconcept.Ledger.Guarantees.Cancellation.{cancelled_run_stops}
use ehfconcept.Ledger.Guarantees.Claims.{IsClaim, claim_run-IsClaim}
use ehfconcept.Ledger.Guarantees.Sweeps.{IsStuck, fail_exhausted_runs_idle, exhausted_run_stuck}
use ehfconcept.Ledger.Guarantees.Requests.{create_run_replays, create_run_conflicts}
use ehfconcept.Ledger.Guarantees.Admission.{read_plans_authentic}

-- A runtime whose digest of an object is the text of its first property, and of a text the text.
abbrev text_of : Value → String
text_of (string s) = s
text_of (object (field k (string s) fs)) = s
text_of _ = "other"

abbrev runtime : Hashing
runtime = record { stringify = text_of; sha256 = λ s. s }

abbrev plan : Plan
plan = record { plan_digest = "d"; plan_id = "PLAN-1"; content = string "d" }

abbrev request : RunInput
request = record {
  plan_digest = "d";
  run_input = string "in";
  idempotency_key = "K";
  tenant_id = "T";
}

abbrev other_request : RunInput
other_request = record {
  plan_digest = "d";
  run_input = string "else";
  idempotency_key = "K";
  tenant_id = "T";
}

abbrev no_locks : Run → Bool
no_locks r = false

abbrev with_plan : Db
with_plan = record empty_db { plans = (admit_plan runtime plan "T" []).0 }

abbrev started : Db
started = (create_run runtime 10 "R" request with_plan).0

abbrev first : Db
first = (claim_run 20 no_locks "W1" 30 started).0

abbrev second : Db
second = (claim_run 40000000 no_locks "W2" 30 first).0

abbrev closed : Db
closed =
    (complete_run 40000001 "R" "W2" 2 FinalStatus.completed "Approved" (string "out") none second).0

abbrev new_row : Run
new_row = new_run "R" "T" "K" "d" "in" (string "in") 10

abbrev first_row : Run
first_row = claim_row 20 "W1" 30 new_row

abbrev second_row : Run
second_row = claim_row 40000000 "W2" 30 first_row

Reach-plan : Reach runtime (λ k. Any) empty_db with_plan
Reach-plan = next here (System.admit plan "T")

Reach-started : Reach runtime (λ k. Any) empty_db started
Reach-started = next Reach-plan (System.create 10 "R" request)

Reach-second : Reach runtime (λ k. Any) empty_db second
Reach-second =
    next (next Reach-started (System.claim 20 no_locks "W1" 30))
      (System.claim 40000000 no_locks "W2" 30)

IsConsistent-started : IsConsistent started
IsConsistent-started = reachable-IsConsistent runtime started Reach-started

IsConsistent-second : IsConsistent second
IsConsistent-second = reachable-IsConsistent runtime second Reach-second

get_second : get_run "R" none second ≡ some second_row
unfolding get_run create_run claim_run admit_plan verify_plan_digest is_admitted stable_digest
    canonical_json canonicalize request_value new_run claim_row is_claimable oldest older
    find_idempotent by_code_unit update_rows returned
get_second = refl

runs_second : is_running second_row.status ≡ true
unfolding claim_row
runs_second = refl

get_second_tenant : get_run "R" (some "T") second ≡ some second_row
unfolding get_run create_run claim_run admit_plan verify_plan_digest is_admitted stable_digest
    canonical_json canonicalize request_value new_run claim_row is_claimable oldest older
    find_idempotent by_code_unit update_rows returned
get_second_tenant = refl

fence_second : second_row.fencing_epoch ≡ 2
unfolding new_run claim_row
fence_second = refl

claimed_second : (claim_run 40000000 no_locks "W2" 30 first).1 ≡ some second_row
unfolding get_run create_run claim_run admit_plan verify_plan_digest is_admitted stable_digest
    canonical_json canonicalize request_value new_run claim_row is_claimable oldest older
    find_idempotent by_code_unit update_rows returned
claimed_second = refl

answer_started :
    (create_run runtime 10 "R" request with_plan).1 ≡ ok (record { created = true; run = new_row })
unfolding get_run create_run claim_run admit_plan verify_plan_digest is_admitted stable_digest
    canonical_json canonicalize request_value new_run claim_row is_claimable oldest older
    find_idempotent by_code_unit update_rows returned
answer_started = refl

other_digest :
    stable_digest runtime (request_value other_request.plan_digest other_request.run_input)
    ≢ stable_digest runtime (request_value request.plan_digest request.run_input)
unfolding stable_digest canonical_json canonicalize request_value by_code_unit
other_digest e = cc e

get_closed : (r : Run) × (get_run "R" none closed ≡ some r) × (is_open r.status ≡ false)
unfolding get_run create_run claim_run admit_plan verify_plan_digest is_admitted stable_digest
    canonical_json canonicalize request_value new_run claim_row is_claimable oldest older
    find_idempotent by_code_unit update_rows returned complete_run update_run update_run_or_throw
    complete_row holds_fence row_count
get_closed = (_, refl, refl)

Reach-closed : Reach runtime (λ k. Any) empty_db closed
Reach-closed =
    next Reach-second
      (System.complete 40000001 "R" "W2" 2 FinalStatus.completed "Approved" (string "out") none tt)

read_plan : get_plan "d" none with_plan.plans ≡ some plan
unfolding get_plan admit_plan verify_plan_digest is_admitted stable_digest canonical_json
    canonicalize by_code_unit
read_plan = refl

may_claim_new : is_claimable 20 new_row ≡ true
unfolding is_claimable new_run
may_claim_new = refl

Move-⟶_example : new_row.status ⟶ first_row.status
Move-⟶_example = Move-⟶ {Allowed = Any} (claim 20 "W1" 30 may_claim_new refl)

abbrev third : Db
third = (claim_run 80000000 no_locks "W3" 30 second).0

abbrev third_row : Run
third_row = claim_row 80000000 "W3" 30 second_row

get_third : get_run "R" none third ≡ some third_row
unfolding get_run create_run claim_run admit_plan verify_plan_digest is_admitted stable_digest
    canonical_json canonicalize request_value new_run claim_row is_claimable oldest older
    find_idempotent by_code_unit update_rows returned
get_third = refl

IsStuck-third : IsStuck third_row
unfolding claim_row new_run
IsStuck-third = record { runs = refl; exhausted = refl; uncancelled = refl }

exhausted_run_stuck_example :
    (get_run "R" none (claim_run 900000000 no_locks "W4" 30 third).0 ≡ some third_row)
    × (get_run "R" none (fail_exhausted_runs 900000000 third).0 ≡ some third_row)
    × (get_run "R" none (finalize_abandoned_cancellations 900000000 third).0 ≡ some third_row)
exhausted_run_stuck_example =
    exhausted_run_stuck 900000000 no_locks "W4" 30 third "R" third_row
      (reachable-IsConsistent runtime third
        (next Reach-second (System.claim 80000000 no_locks "W3" 30)))
      get_third IsStuck-third

Step-Evolve_example : Evolve (λ k. Any) first.runs second.runs
Step-Evolve_example =
    Step-Evolve runtime (λ k. Any)
      (reachable-IsConsistent runtime first
        (next Reach-started (System.claim 20 no_locks "W1" 30))).unique
      (System.claim 40000000 no_locks "W2" 30)

reachable-IsConsistent_example : IsConsistent second
reachable-IsConsistent_example = reachable-IsConsistent runtime second Reach-second

stale_writer_refused_example : Refuses "R" "W1" 1 closed
stale_writer_refused_example =
    stale_writer_refused runtime "R" "W1" 1 second closed second_row IsConsistent-second get_second
      (omega (arith, fence_second))
      (next here (
        System.complete 40000001 "R" "W2" 2 FinalStatus.completed "Approved" (string "out") none
          tt))

cancelled_run_stops_example :
    ((request_run_cancellation 50 "R" "T" "stop" second).1 ≡ requested)
    × ((r' : Run) × (get_run "R" none (request_run_cancellation 50 "R" "T" "stop" second).0
          ≡ some r')
        × IsCancelling second_row.fencing_epoch second_row r')
cancelled_run_stops_example =
    cancelled_run_stops runtime 50 "R" "T" "stop" second
      (request_run_cancellation 50 "R" "T" "stop" second).0 second_row IsConsistent-second
      get_second_tenant runs_second here

claim_run-IsClaim_example : IsClaim 40000000 no_locks "W2" 30 first second second_row
claim_run-IsClaim_example =
    claim_run-IsClaim 40000000 no_locks "W2" 30 first second_row
      (reachable-IsConsistent runtime first (next Reach-started (System.claim 20 no_locks "W1" 30)))
      claimed_second

closed_runs_final_example :
    (r' : Run) × (get_run "R" none closed ≡ some r') × SameResult get_closed.0 r'
closed_runs_final_example =
    closed_runs_final runtime "R" closed closed get_closed.0
      (reachable-IsConsistent runtime closed Reach-closed) get_closed.1 get_closed.2 here

create_run_replays_example :
    (r' : Run) × (create_run runtime 60 "R2" request started
      ≡ (started, ok (record { created = r'.run_id == "R2"; run = r' })))
    × (r'.run_id ≡ new_row.run_id)
create_run_replays_example =
    create_run_replays runtime 10 60 "R" "R2" request with_plan started
      (record { created = true; run = new_row })
      (reachable-IsConsistent runtime with_plan Reach-plan) answer_started here

create_run_conflicts_example :
    create_run runtime 60 "R2" other_request started ≡ (started, err "run.idempotency_conflict")
create_run_conflicts_example =
    create_run_conflicts runtime 10 60 "R" "R2" request other_request with_plan started
      (record { created = true; run = new_row })
      (reachable-IsConsistent runtime with_plan Reach-plan) answer_started here refl refl
      other_digest

runs_persist_example :
    (r' : Run) × (get_run "R" none closed ≡ some r')
    × SameRequest second_row r'
    × Grows second_row r'
runs_persist_example =
    runs_persist runtime "R" second closed second_row IsConsistent-second get_second (
      next here (
        System.complete 40000001 "R" "W2" 2 FinalStatus.completed "Approved" (string "out") none
          tt))

fail_exhausted_runs_idle_example : fail_exhausted_runs 90000000 second ≡ (second, 0)
fail_exhausted_runs_idle_example = fail_exhausted_runs_idle 90000000 second IsConsistent-second

read_plans_authentic_example : (plan.plan_digest ≡ "d") × (stable_digest runtime plan.content ≡ "d")
read_plans_authentic_example =
    read_plans_authentic runtime (λ k. Any) "d" none with_plan plan Reach-plan read_plan
