-- ===== src/Ledger/Machine.antt =====
-- The life of one run as a relation: every way in which a statement of the ledger may rewrite its
-- row. `Allowed` says which fences the callers may present.
use ehfconcept.Prelude.{ℕ, ◌≡◌, Bool, true, String, Option, some, ◌||◌}
use ehfconcept.Contracts.Value.{Value}
use ehfconcept.Ledger.Row.{
  Run, FinalStatus, Budget, is_running, is_waiting, is_claimable, claim_row, renew_row, retry_row,
  fail_exhausted_row, cancel_row, complete_cancelled_row, finalize_abandoned_row, update_node_row,
  bind_trace_row, complete_row, next_sequence_row, reserve_row, record_cost_row,
}

pub data Move (Allowed : ℕ → Type 0) (r r' : Run) : Type 0 where
  claim :
      (now : ℕ) (worker : String) (lease : ℕ)
      → is_claimable now r ≡ true
      → r' ≡ claim_row now worker lease r
      → Move Allowed r r'
  renew :
      (now : ℕ) (worker : String) (epoch lease : ℕ)
      → Allowed epoch
      → renew_row now worker epoch lease r ≡ some r'
      → Move Allowed r r'
  retry :
      (now : ℕ) (worker : String) (epoch : ℕ) (code : String) (backoff : ℕ)
      → Allowed epoch
      → retry_row now worker epoch code backoff r ≡ some r'
      → Move Allowed r r'
  exhaust : (now : ℕ) → fail_exhausted_row now r ≡ some r' → Move Allowed r r'
  cancel :
      (now : ℕ) (reason : String)
      → is_waiting r.status || is_running r.status ≡ true
      → r' ≡ cancel_row now reason r
      → Move Allowed r r'
  complete_cancelled :
      (now : ℕ) (code : Option String)
      → complete_cancelled_row now code r ≡ some r'
      → Move Allowed r r'
  finalize : (now : ℕ) → finalize_abandoned_row now r ≡ some r' → Move Allowed r r'
  enter_node :
      (now : ℕ) (worker : String) (epoch : ℕ) (node checkpoint : Option String)
      → Allowed epoch
      → update_node_row now worker epoch node checkpoint r ≡ some r'
      → Move Allowed r r'
  bind_trace :
      (now : ℕ) (worker : String) (epoch attempt : ℕ) (trace span : String) (flags : ℕ)
      → Allowed epoch
      → bind_trace_row now worker epoch attempt trace span flags r ≡ some r'
      → Move Allowed r r'
  complete :
      (now : ℕ) (worker : String) (epoch : ℕ) (status : FinalStatus) (outcome : String)
      (output : Value) (code : Option String)
      → Allowed epoch
      → complete_row now worker epoch status outcome output code r ≡ some r'
      → Move Allowed r r'
  number_event : (now : ℕ) → next_sequence_row now r ≡ some r' → Move Allowed r r'
  reserve :
      (now : ℕ) (model_call : Bool) (budget : Budget)
      → reserve_row now model_call budget r ≡ some r'
      → Move Allowed r r'
  record_cost :
      (now : ℕ) (cost : Option ℕ) → record_cost_row now cost r ≡ some r' → Move Allowed r r'

-- No fence is refused.
abbrev pub Any : ℕ → Type 0
Any epoch = Unit
