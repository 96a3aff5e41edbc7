-- ===== src/Ledger/System/Refine.antt =====
-- Every operation of the ledger keeps to the life of a run: each row stays or makes a move.
use ehfconcept.Prelude.{
  ℕ, ◌≡◌, ◌⊎◌, inl, inr, refl, sym, ap, subst, Bool, true, not, ◌&&◌, ◌||◌, String, List, [], ◌∷◌,
  ◌++◌, Option, none, some, compare_texts, update_rows, Bool-cases, Option-cases, arith, or_else,
  ◌∙◌,
}
use ehfconcept.Contracts.Canonical.{Hashing, stable_digest}
use ehfconcept.Ledger.Row.{
  Run, is_waiting, is_running, new_run, is_claimable, claim_row, cancel_row, update_node_row,
  bind_trace_row, next_sequence_row,
}
use ehfconcept.Ledger.Store.{
  Db, TraceLink, RunInput, on_run, get_run, request_value, create_run, older, oldest, claim_run,
  request_run_cancellation,
}
use ehfconcept.Ledger.Journal.{
  node_started, node_finished, events, checkpoint, EventInput, StateWrite, FencedRun, append_event,
  bind_run_trace, apply_state_write,
}
use ehfconcept.Ledger.System.Evolve.{In}

-- What `createRun` does to the table.
pub create_run-runs :
    (h : Hashing) (now : ℕ) (run_id : String) (i : RunInput) (s : Db)
    → ((create_run h now run_id i s).0.runs ≡ s.runs)
      ⊎ ((get_run run_id none s ≡ none)
          × ((create_run h now run_id i s).0.runs
              ≡ s.runs
                ++ new_run run_id i.tenant_id i.idempotency_key i.plan_digest
                    (stable_digest h (request_value i.plan_digest i.run_input))
                    i.run_input
                    now
                  ∷ []))
unfolding create_run
create_run-runs h now run_id i s = ground arith

older-cases : (x : Run) (o : Option Run) → (older x o ≡ x) ⊎ (o ≡ some (older x o))
unfolding older
older-cases x o = ground arith

pub In-oldest :
    (p : Run → Bool) (rs : List Run) (r : Run) → oldest p rs ≡ some r → In r rs × (p r ≡ true)
unfolding oldest
In-oldest p [] r e = cc
In-oldest p (x ∷ xs) r e = elim (Bool-cases (p x)) [
  | inl t ↦
      let same : some (older x (oldest p xs)) ≡ some r = rw t at e in
      let q : older x (oldest p xs) ≡ r = ap (λ o. or_else o x) same in
      elim (older-cases x (oldest p xs)) [
        | inl a ↦ let it : x ≡ r = sym a ∙ q in (inl (sym it), subst (λ z. p z ≡ true) it t)
        | inr b ↦ let (i, g) = In-oldest p xs r (b ∙ ap some q) in (inr i, g)
      ]
  | inr t ↦ let (i, g) = In-oldest p xs r (rw t at e) in (inr i, g)
]

-- What `claimRun` does to the table: nothing, or one claim of a row that may be claimed.
pub claim_run-runs :
    (now : ℕ) (locked : Run → Bool) (worker : String) (lease : ℕ) (s : Db)
    → ((claim_run now locked worker lease s).0.runs ≡ s.runs)
      ⊎ ((r : Run) × (oldest (λ x. is_claimable now x && not (locked x)) s.runs ≡ some r)
          × ((claim_run now locked worker lease s).0.runs
              ≡ update_rows (on_run r.run_id (λ x. some (claim_row now worker lease x))) s.runs))
unfolding claim_run
claim_run-runs now locked worker lease s =
    elim (Option-cases (oldest (λ x. is_claimable now x && not (locked x)) s.runs)) [
      | inl e ↦ inl (rw (e, claim_run))
      | inr (r, e) ↦ inr (r, e, rw (e, claim_run))
    ]

pub request_run_cancellation-runs :
    (now : ℕ) (run_id tenant reason : String) (s : Db)
    → ((request_run_cancellation now run_id tenant reason s).0.runs ≡ s.runs)
      ⊎ ((r : Run) × (get_run run_id (some tenant) s ≡ some r)
          × (is_waiting r.status || is_running r.status ≡ true)
          × ((request_run_cancellation now run_id tenant reason s).0.runs
              ≡ update_rows (on_run run_id (λ x. some (cancel_row now reason x))) s.runs))
unfolding request_run_cancellation
request_run_cancellation-runs now run_id tenant reason s = ground arith

pub append_event-runs :
    (now : ℕ) (i : EventInput) (s : Db)
    → ((append_event now i s).0.runs ≡ s.runs)
      ⊎ ((append_event now i s).0.runs
          ≡ update_rows (on_run i.run_id (next_sequence_row now)) s.runs)
unfolding append_event
append_event-runs now i s = ground arith

pub bind_run_trace-runs :
    (now : ℕ) (worker : String) (epoch : ℕ) (l : TraceLink) (s : Db)
    → ((bind_run_trace now worker epoch l s).0.runs ≡ s.runs)
      ⊎ ((bind_run_trace now worker epoch l s).0.runs
          ≡ update_rows
              (on_run l.run_id
                (bind_trace_row now worker epoch l.attempt l.trace_id l.root_span_id l.trace_flags))
              s.runs)
unfolding bind_run_trace
bind_run_trace-runs now worker epoch l s = ground arith

-- A journal write touches the runs by `updateRunNode`, by an event number, or not at all.
pub apply_state_write-runs :
    (now : ℕ) (run : FencedRun) (w : StateWrite) (s : Db)
    → ((apply_state_write now run w s).0.runs ≡ s.runs)
      ⊎ ((apply_state_write now run w s).0.runs
          ≡ update_rows (on_run run.run_id (next_sequence_row now)) s.runs)
      ⊎ ((node : Option String) × (checkpoint : Option String) × ((apply_state_write now run w
              s).0.runs
            ≡ update_rows
                (on_run run.run_id
                  (update_node_row now run.worker_id run.fencing_epoch node checkpoint))
                s.runs))
unfolding apply_state_write
apply_state_write-runs now run (node_started node digest t p) s =
    inr (inr (some node, none, ground arith))
apply_state_write-runs now run (node_finished node status digest code) s = inl refl
apply_state_write-runs now run (events key code at status values) s = ground arith
apply_state_write-runs now run (checkpoint mark at) s = inr (inr (at, mark, refl))
