-- ===== src/Ledger/Guarantees/Writers.antt =====
-- Who may write to a run: fences, claims and cancellation.
use ehfconcept.Prelude.{
  ℕ, ◌≤◌, ◌<◌, ◌≡◌, false, String, Option, none, some, arith, err, compare_texts,
}
use ehfconcept.Contracts.Value.{Value}
use ehfconcept.Contracts.Canonical.{Hashing}
use ehfconcept.Ledger.Row.{
  Run, FinalStatus, holds_fence, renew_row, retry_row, update_node_row, complete_row,
}
use ehfconcept.Ledger.Machine.{Any}
use ehfconcept.Ledger.Fencing.{holds_fence-stale}
use ehfconcept.Ledger.Cancelling.{IsCancelling, Move-IsCancelling}
use ehfconcept.Ledger.Store.{
  Db, get_run, renew_lease, schedule_run_retry, update_run_node, complete_run,
}
use ehfconcept.Ledger.System.{Reach}
use ehfconcept.Ledger.System.Evolve.{HasUniqueIds}
use ehfconcept.Ledger.System.Single.{update_run-refused, update_run_or_throw-refused}
use ehfconcept.Ledger.System.History.{IsConsistent, History, stay, then, Reach-IsConsistent}
use ehfconcept.Ledger.Guarantees.{runs_persist}

-- Every fenced write is refused: it changes nothing and reports that the fence is stale.
pub record Refuses (k : String) (worker : String) (epoch : ℕ) (t : Db) : Type 0 where
  pub renewal : (now lease : ℕ) → renew_lease now k worker epoch lease t ≡ (t, false)
  pub retrial :
      (now : ℕ) (code : String) (backoff : ℕ)
      → schedule_run_retry now k worker epoch code backoff t ≡ (t, false)
  pub node :
      (now : ℕ) (node checkpoint : Option String)
      → update_run_node now k worker epoch node checkpoint t ≡ (t, err "runtime.stale_fence")
  pub completion :
      (now : ℕ) (status : FinalStatus) (outcome : String) (output : Value) (code : Option String)
      → complete_run now k worker epoch status outcome output code t
        ≡ (t, err "runtime.stale_fence")

module _ (k worker : String) (epoch : ℕ) (t : Db) (r : Run) (u : HasUniqueIds t.runs)
    (found : get_run k none t ≡ some r) (stale : epoch < r.fencing_epoch) where
  refused : Refuses k worker epoch t
  unfolding renew_lease schedule_run_retry update_run_node complete_run renew_row retry_row
      update_node_row complete_row
  refused =
      let no : holds_fence worker epoch r ≡ false = holds_fence-stale worker epoch r stale in
      record {
        renewal = λ now lease. update_run-refused k _ t r u found (rw no);
        retrial = λ now code backoff. update_run-refused k _ t r u found (rw no);
        node = λ now node checkpoint. update_run_or_throw-refused k _ t r u found (rw no);
        completion =
            λ now status outcome output code. update_run_or_throw-refused k _ t r u found (rw no);
      }

module _ (h : Hashing) where
  -- A writer that presents a fence below the run's present one is refused now and after any further
  -- operations: renewing the lease, scheduling a retry, entering a node or marking a checkpoint, and
  -- completing the run change nothing and report it.
  pub stale_writer_refused :
      (k worker : String) (epoch : ℕ) (s t : Db) (r : Run)
      → IsConsistent s
      → get_run k none s ≡ some r
      → epoch < r.fencing_epoch
      → Reach h (λ k. Any) s t
      → Refuses k worker epoch t
  stale_writer_refused k worker epoch s t r c f stale reach =
      let (r', found, same, grows) = runs_persist h k s t r c f reach in
      refused k worker epoch t r' (Reach-IsConsistent h (λ k. Any) reach c).unique found
        (omega (arith, grows.fence))

pub History-IsCancelling :
    {Allowed : ℕ → Type 0} {fence : ℕ} {r₀ r r' : Run}
    → ((epoch : ℕ) → Allowed epoch → epoch ≤ fence)
    → History Allowed r r'
    → IsCancelling fence r₀ r
    → IsCancelling fence r₀ r'
History-IsCancelling bound stay c = c
History-IsCancelling bound (then hist m) c =
    Move-IsCancelling bound m (History-IsCancelling bound hist c)

-- The fences that were issued for one run are at most `fence`.
abbrev pub IssuedUpTo : String → ℕ → String → ℕ → Type 0
IssuedUpTo run_id fence k epoch = k ≡ run_id → epoch ≤ fence
