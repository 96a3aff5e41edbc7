-- ===== src/Worker/Tests.antt =====
-- A run whose provider is unavailable.
use ehfconcept.Prelude.{
  suc, ◌*◌, min, ◌≡◌, refl, [], ◌∷◌, true, false, not, ◌&&◌, if◌then◌else◌, update_rows, arith, err,
  ok,
}
use ehfconcept.Contracts.Value.{undefined}
use ehfconcept.Ledger.Row.{Run, new_run, claim_row}
use ehfconcept.Ledger.Store.{Db, empty_db, get_run, claim_run}
use ehfconcept.Worker.Settle.{Settings, Slot, Others, retryable, backoff_ms, handle_failure, settle}
use ehfconcept.Worker.Backoff.{backoff_ms-doubles}
use ehfconcept.Worker.Superseded.{superseded_worker_writes_nothing}
use ehfconcept.Contracts.Canonical.{Hashing}
use ehfconcept.Ledger.System
use ehfconcept.Ledger.Machine.{Any}
use ehfconcept.Ledger.Invariant.{new_run-IsSound}
use ehfconcept.Ledger.System.History.{IsConsistent, Reach-IsConsistent}
use ehfconcept.Ledger.System.{here, next}

abbrev row : Run
row = claim_row 5 "W" 30 (new_run "R" "T" "K" "d" "q" undefined 1)

abbrev ledger : Db
ledger = record empty_db { runs = row ∷ [] }

abbrev plain : Hashing
plain = record { stringify = λ v. "v"; sha256 = λ s. s }

abbrev slot : Slot
slot = record { run = row; worker_id = "W"; trace_id = "t"; provider = "local"; print = λ n. "n" }

abbrev settings : Settings
settings = record { retry_base_ms = 2000; retry_max_ms = 60000 }

-- Others claim the run again, after its lease, before and while the first worker handles the failure.
abbrev claimed_again : Db
claimed_again = (claim_run 40000000 (λ r. false) "V" 30 ledger).0

abbrev others : Others
others = record {
  before_completion = λ db. (claim_run 80000000 (λ r. false) "U" 30 db).0;
  before_event = λ db. db;
  before_catch = λ db. db;
}

IsConsistent-claimed_again : IsConsistent claimed_again
unfolding new_run claim_row claim_run update_rows
IsConsistent-claimed_again =
    Reach-IsConsistent plain (λ k. Any)
      {s = record empty_db { runs = new_run "R" "T" "K" "d" "q" undefined 1 ∷ [] }}
      (next (next here (System.claim 5 (λ r. false) "W" 30))
        (System.claim 40000000 (λ r. false) "V" 30))
      (record { unique = (tt, tt); sound = (new_run-IsSound "R" "T" "K" "d" "q" undefined 1, tt) })

superseded_worker_writes_nothing_example :
    handle_failure (λ n. 9) settings slot others "provider.unavailable" false claimed_again ≡ (
      if not false && retryable "provider.unavailable"
          then (claim_run 80000000 (λ r. false) "U" 30 claimed_again).0
          else claimed_again,
      err "runtime.stale_fence",
    )
unfolding get_run new_run claim_row claim_run update_rows
superseded_worker_writes_nothing_example =
    superseded_worker_writes_nothing (λ n. 9) slot others "provider.unavailable" false plain
      settings claimed_again (claim_row 40000000 "V" 30 row) IsConsistent-claimed_again refl
      (omega arith) (next here (System.claim 80000000 (λ r. false) "U" 30))

-- A worker that has lost its lease writes nothing.
lost :
    settle
      (λ n. 9)
      settings
      slot
      others
      (record { cancelled = false; lease_lost = true })
      (err "aborted")
      ledger
    ≡ (ledger, ok tt)
unfolding settle
lost = refl

backoff_ms-doubles_example :
    (backoff_ms settings 1 ≡ min 60000 2000)
    × (backoff_ms settings (suc (suc 3)) ≡ min 60000 (2 * backoff_ms settings (suc 3)))
backoff_ms-doubles_example = backoff_ms-doubles settings 3
