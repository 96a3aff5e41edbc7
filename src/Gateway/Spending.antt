-- ===== src/Gateway/Spending.antt =====
-- Budgets hold over every interleaving of gateway calls, and a repeated call is not spent twice.
use ehfconcept.Prelude.{
  ℕ, ◌≤◌, ◌≡◌, ◌⊎◌, inl, inr, refl, sym, ap, subst, ◌∙◌, Bool, String, Option, ◌==◌, compare_texts,
  compare_numbers, All, All-update_rows, or_else, arith, eq_iff, Bool-cases,
}
use ehfconcept.Ledger.Row.{Run, Budget, reserve_row, record_cost_row}
use ehfconcept.Contracts.Canonical.{Hashing}
use ehfconcept.Ledger.System
use ehfconcept.Ledger.Store.{Db, on_run, update_run}
use ehfconcept.Gateway.Receipts.{
  CapabilityResult, GatewayReceiptInput, GatewayDb, reserve_gateway_receipt,
  complete_gateway_receipt, abandon_gateway_receipt, reserve_capability_budget,
  record_capability_cost,
}

own_budget :
    (now : ℕ) (model_call : Bool) (b : Budget) (r : Run)
    → r.capability_calls ≤ b.max_capability_calls
    → r.model_calls ≤ b.max_model_calls
    → ((or_else (reserve_row now model_call b r) r).capability_calls ≤ b.max_capability_calls)
      × ((or_else (reserve_row now model_call b r) r).model_calls ≤ b.max_model_calls)
      × ((or_else (reserve_row now model_call b r) r).run_id ≡ r.run_id)
unfolding reserve_row
own_budget now model_call b r c m = ground arith

-- The budget of a run comes from its plan, so every call for a run brings the same one.
module _ (budget_of : String → Budget) where
  -- One statement of the gateway.
  pub data Step (g : GatewayDb) : GatewayDb → Type 0 where
    reserve :
        (now : ℕ) (input : GatewayReceiptInput)
        → input.budget ≡ budget_of input.run_id
        → Step g (reserve_gateway_receipt now input g).0
    reserve_budget :
        (now : ℕ) (run_id : String) (model_call : Bool)
        → Step g (reserve_capability_budget now run_id model_call (budget_of run_id) g).0
    complete :
        (now : ℕ) (run_id : String) (result : CapabilityResult)
        → Step g (complete_gateway_receipt now run_id result g)
    abandon :
        (run_id invocation_id : String) → Step g (abandon_gateway_receipt run_id invocation_id g)
    record_cost :
        (now : ℕ) (run_id : String) (cost : Option ℕ)
        → Step g (record_capability_cost now run_id cost g)

  pub data Reach (g : GatewayDb) : GatewayDb → Type 0 where
    here : Reach g g
    next : {g' g'' : GatewayDb} → Reach g g' → Step g' g'' → Reach g g''

  pub record IsWithinBudget (r : Run) : Type 0 where
    pub capability_calls : r.capability_calls ≤ (budget_of r.run_id).max_capability_calls
    pub model_calls : r.model_calls ≤ (budget_of r.run_id).max_model_calls

  reserve_row-within :
      (now : ℕ) (model_call : Bool) (b : Budget) (k : String) (r : Run)
      → b ≡ budget_of k
      → IsWithinBudget r
      → IsWithinBudget (or_else (on_run k (reserve_row now model_call b) r) r)
  reserve_row-within now model_call b k r same w = elim (Bool-cases (r.run_id == k)) [
    | inr t ↦ rw t w
    | inl t ↦
        let b' : b ≡ budget_of r.run_id = same ∙ ap budget_of (sym ((eq_iff r.run_id k).0 t)) in
        let (c, m, id) =
          own_budget now model_call b r
            (subst (λ (z : Budget). r.capability_calls ≤ z.max_capability_calls) (sym b')
              w.capability_calls)
            (subst (λ (z : Budget). r.model_calls ≤ z.max_model_calls) (sym b') w.model_calls) in
        rw t (record {
          capability_calls =
              subst
                (λ (z : Budget).
                  (or_else (reserve_row now model_call b r) r).capability_calls
                  ≤ z.max_capability_calls)
                (b' ∙ ap budget_of (sym id)) c;
          model_calls =
              subst
                (λ (z : Budget).
                  (or_else (reserve_row now model_call b r) r).model_calls ≤ z.max_model_calls)
                (b' ∙ ap budget_of (sym id)) m;
        })
  ]

  cost_row-within :
      (now : ℕ) (cost : Option ℕ) (k : String) (r : Run)
      → IsWithinBudget r
      → IsWithinBudget (or_else (on_run k (record_cost_row now cost) r) r)
  unfolding record_cost_row
  cost_row-within now cost k r w = ground arith

  spend-within :
      (now : ℕ) (model_call : Bool) (b : Budget) (k : String) (s : Db)
      → b ≡ budget_of k
      → All IsWithinBudget s.runs
      → All IsWithinBudget (update_run k (reserve_row now model_call b) s).0.runs
  unfolding update_run
  spend-within now model_call b k s same all =
      All-update_rows IsWithinBudget (on_run k (reserve_row now model_call b)) s.runs
        (λ r w. reserve_row-within now model_call b k r same w) all

  -- The runs after a reservation: as they were, or with the statement that spends.
  reserve-runs :
      (now : ℕ) (input : GatewayReceiptInput) (g : GatewayDb)
      → ((reserve_gateway_receipt now input g).0.ledger ≡ g.ledger)
        ⊎ ((reserve_gateway_receipt now input g).0.ledger
            ≡ (update_run input.run_id (reserve_row now input.model_call input.budget) g.ledger).0)
  unfolding reserve_gateway_receipt
  reserve-runs now input g = ground arith

  Step-within :
      {g g' : GatewayDb}
      → Step g g'
      → All IsWithinBudget g.ledger.runs
      → All IsWithinBudget g'.ledger.runs
  unfolding reserve_capability_budget complete_gateway_receipt abandon_gateway_receipt
      record_capability_cost
  Step-within {g} (reserve now input same) all = elim (reserve-runs now input g) [
    | inl e ↦ rw e all
    | inr e ↦ rw e (spend-within now input.model_call input.budget input.run_id g.ledger same all)
  ]
  Step-within {g} (reserve_budget now run_id model_call) all =
      spend-within now model_call (budget_of run_id) run_id g.ledger refl all
  Step-within (complete now run_id result) all = all
  Step-within (abandon run_id invocation_id) all = all
  Step-within {g} (record_cost now run_id cost) all =
      unfold update_run in
      All-update_rows IsWithinBudget (on_run run_id (record_cost_row now cost)) g.ledger.runs
        (λ r w. cost_row-within now cost run_id r w) all

  -- Runs that are within the call budgets of their plans stay within them, over every interleaving of
  -- reservations, completions, abandonments and costs.
  pub spending_bounded :
      (g g' : GatewayDb)
      → Reach g g'
      → All IsWithinBudget g.ledger.runs
      → All IsWithinBudget g'.ledger.runs
  spending_bounded g g' here all = all
  spending_bounded g g'' (next {g'} reach step) all =
      Step-within step (spending_bounded g g' reach all)

-- What a statement of the gateway does to the ledger is one step of it, or nothing.
module _ (h : Hashing) (Allowed : String → ℕ → Type 0) (budget_of : String → Budget) where
  pub Step-ledger :
      {g g' : GatewayDb}
      → Step budget_of g g'
      → (g'.ledger ≡ g.ledger) ⊎ System.Step h Allowed g.ledger g'.ledger
  unfolding reserve_capability_budget complete_gateway_receipt abandon_gateway_receipt
      record_capability_cost
  Step-ledger {g} (reserve now input same) = elim (reserve-runs budget_of now input g) [
    | inl e ↦ inl e
    | inr e ↦ inr (
        subst (System.Step h Allowed g.ledger) (sym e)
          (System.spend now input.run_id input.model_call input.budget))
  ]
  Step-ledger (reserve_budget now run_id model_call) =
      inr (System.spend now run_id model_call (budget_of run_id))
  Step-ledger (complete now run_id result) = inl refl
  Step-ledger (abandon run_id invocation_id) = inl refl
  Step-ledger (record_cost now run_id cost) = inr (System.record_cost now run_id cost)
