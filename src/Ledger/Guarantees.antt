-- ===== src/Ledger/Guarantees.antt =====
-- What the run ledger promises its callers, over every interleaving of its operations
-- (packages/persistence/src/index.ts).
pub mod Writers
pub mod Cancellation
pub mod Claims
pub mod Sweeps
pub mod Requests
pub mod Admission
use ehfconcept.Prelude.{
  ℕ, ◌≤◌, ◌<◌, ◌≡◌, ◌⊎◌, inl, inr, refl, Bool, true, false, String, Option, none, some, All-find,
  arith, Result, ok, err, eq_iff,
}
use ehfconcept.Contracts.Value.{Value}
use ehfconcept.Contracts.Canonical.{Hashing}
use ehfconcept.Ledger.Row.{
  Run, FinalStatus, running, cancelled, is_running, is_claimable, cancel_row,
}
use ehfconcept.Ledger.Machine.{Move, Any}
use ehfconcept.Ledger.Invariant.{IsSound, is_open}
use ehfconcept.Ledger.Fencing.{SameRequest, Move-SameRequest, Grows, Move-Grows}
use ehfconcept.Ledger.Terminal.{SameResult, Move-SameResult}
use ehfconcept.Ledger.Store.{Db, empty_db, get_run}
use ehfconcept.Ledger.System.{Step, Reach}
use ehfconcept.Ledger.System.History.{
  IsConsistent, History, stay, then, Reach-IsConsistent, Reach-get_run, empty_db-IsConsistent,
}

History-Grows : {Allowed : ℕ → Type 0} {r r' : Run} → History Allowed r r' → Grows r r'
History-Grows stay = omega arith
History-Grows (then hist m) = omega (arith, History-Grows hist, Move-Grows m)

History-SameRequest : {Allowed : ℕ → Type 0} {r r' : Run} → History Allowed r r' → SameRequest r r'
History-SameRequest stay = record {
  run_id = refl;
  tenant_id = refl;
  idempotency_key = refl;
  plan_digest = refl;
  request_digest = refl;
  input = refl;
  attempt_limit = refl;
}
History-SameRequest (then hist m) = ground (arith, History-SameRequest hist, Move-SameRequest m)

History-SameResult :
    {Allowed : ℕ → Type 0} {r r' : Run}
    → History Allowed r r'
    → is_open r.status ≡ false
    → SameResult r r'
History-SameResult stay h = record {
  status = refl;
  terminal_outcome = refl;
  output = refl;
  error_code = refl;
  completed_at = refl;
  attempt = refl;
  fencing_epoch = refl;
}
History-SameResult (then {r'} hist m) h =
    let before = History-SameResult hist h in ground (arith, Move-SameResult m (rw before.status h))

-- In every database that can be reached from the empty one, by any operations in any order with any
-- arguments, run identifiers are unique and every run is sound: attempts within the limit and
-- never ahead of the fence, room for another attempt while it waits, an owner and a lease exactly
-- while it runs, an outcome and a completion time exactly once it is closed.
pub reachable-IsConsistent : (h : Hashing) (s : Db) → Reach h (λ k. Any) empty_db s → IsConsistent s
reachable-IsConsistent h s reach = Reach-IsConsistent h (λ k. Any) reach empty_db-IsConsistent

module _ (h : Hashing) where
  -- A run is found again after any further operations: its request is the same, and its fence, its
  -- attempts, its event number, its call counters and its cost have not gone back.
  pub runs_persist :
      (k : String) (s t : Db) (r : Run)
      → IsConsistent s
      → get_run k none s ≡ some r
      → Reach h (λ k. Any) s t
      → (r' : Run) × (get_run k none t ≡ some r') × SameRequest r r' × Grows r r'
  runs_persist k s t r c f reach =
      let (r', found, hist, id) = Reach-get_run h (λ k. Any) k r reach c f in
      (r', found, History-SameRequest hist, History-Grows hist)

  -- A closed run is final: after any further operations its status, outcome, output, error,
  -- completion time, attempt and fence are what they were.
  pub closed_runs_final :
      (k : String) (s t : Db) (r : Run)
      → IsConsistent s
      → get_run k none s ≡ some r
      → is_open r.status ≡ false
      → Reach h (λ k. Any) s t
      → (r' : Run) × (get_run k none t ≡ some r') × SameResult r r'
  closed_runs_final k s t r c f o reach =
      let (r', found, hist, id) = Reach-get_run h (λ k. Any) k r reach c f in
      (r', found, History-SameResult hist o)
