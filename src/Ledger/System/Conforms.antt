-- ===== src/Ledger/System/Conforms.antt =====
-- Every operation of the ledger keeps to the life of a run: each row stays or makes a move.
use ehfconcept.Prelude.{
  ℕ, ◌≡◌, inl, inr, refl, sym, subst, Bool, true, String, List, [], ◌∷◌, ◌++◌, none, some, eq_iff,
  update_rows, arith, ◌&&◌, ◌||◌, not, ◌==◌, compare_texts, ◌∙◌,
}
use ehfconcept.Contracts.Canonical.{Hashing, stable_digest}
use ehfconcept.Ledger.Row.{
  Run, new_run, is_waiting, is_running, is_claimable, claim_row, cancel_row, next_sequence_row,
  fail_exhausted_row, finalize_abandoned_row, reserve_row, record_cost_row,
}
use ehfconcept.Ledger.Machine.{Move}
use ehfconcept.Ledger.Machine
use ehfconcept.Ledger.Store.{
  Db, RunInput, request_value, on_run, get_run, oldest, renew_lease, schedule_run_retry,
  fail_exhausted_runs, complete_cancelled_run, finalize_abandoned_cancellations, complete_run,
  update_run,
}
use ehfconcept.Ledger.System.{
  Step, admit, create, claim, renew, retry, fail_exhausted, cancel, complete_cancelled, finalize,
  complete, append, trace, write_state, spend, record_cost,
}
use ehfconcept.Ledger.System.Evolve.{
  new, Evolve, Evolve-refl, Evolve-append, Evolve-update_rows, Evolve-on_run, In-find, In-unique,
  HasUniqueIds, find-none-IsFresh,
}
use ehfconcept.Ledger.System.Refine.{
  create_run-runs, In-oldest, claim_run-runs, request_run_cancellation-runs, append_event-runs,
  bind_run_trace-runs, apply_state_write-runs,
}

claimable_left :
    (now : ℕ) (locked : Run → Bool) (r : Run)
    → (is_claimable now r && not (locked r)) ≡ true
    → is_claimable now r ≡ true
claimable_left now locked r h = ground arith

found_ids :
    (run_id tenant : String) (r : Run)
    → (r.run_id == run_id && r.tenant_id == tenant) ≡ true
    → r.run_id ≡ run_id
found_ids run_id tenant r h = ground (arith, eq_iff r.run_id run_id)

module _ (h : Hashing) (Allowed : String → ℕ → Type 0) where
  stays : {ys rs : List Run} → ys ≡ rs → Evolve Allowed rs ys
  stays {rs = rs} e = rw e (Evolve-refl Allowed rs rs)

  numbered :
      (now : ℕ) (run_id : String) (rs : List Run)
      → Evolve Allowed rs (update_rows (on_run run_id (next_sequence_row now)) rs)
  numbered now run_id rs =
      Evolve-on_run Allowed rs run_id (next_sequence_row now) rs
        (λ r r' _ _ e. Machine.number_event now e)

  created :
      (now : ℕ) (run_id : String) (i : RunInput) (s : Db)
      → get_run run_id none s ≡ none
      → Evolve Allowed s.runs (
          s.runs
          ++ new_run run_id i.tenant_id i.idempotency_key i.plan_digest
              (stable_digest h (request_value i.plan_digest i.run_input))
              i.run_input
              now
            ∷ [])
  unfolding get_run new_run
  created now run_id i s fresh =
      Evolve-append Allowed s.runs s.runs _ (new _ _ _ _ _ _ _ refl)
        (find-none-IsFresh run_id s.runs fresh)

  claimed :
      (now : ℕ) (locked : Run → Bool) (worker : String) (lease : ℕ) (rs : List Run) (c : Run)
      → HasUniqueIds rs
      → oldest (λ x. is_claimable now x && not (locked x)) rs ≡ some c
      → Evolve Allowed rs
          (update_rows (on_run c.run_id (λ x. some (claim_row now worker lease x))) rs)
  claimed now locked worker lease rs c u o =
      let (i, g) = In-oldest _ rs c o in
      Evolve-on_run Allowed rs c.run_id (λ x. some (claim_row now worker lease x)) rs
        λ r r' j same e.
          let it : r ≡ c = In-unique rs r c u j i same in
          Machine.claim now worker lease
            (claimable_left now locked r
              (subst (λ z. (is_claimable now z && not (locked z)) ≡ true) (sym it) g))
            (cc)

  cancels :
      (now : ℕ) (run_id tenant reason : String) (s : Db) (c : Run)
      → HasUniqueIds s.runs
      → get_run run_id (some tenant) s ≡ some c
      → (is_waiting c.status || is_running c.status) ≡ true
      → Evolve Allowed s.runs
          (update_rows (on_run run_id (λ x. some (cancel_row now reason x))) s.runs)
  unfolding get_run
  cancels now run_id tenant reason s c u o w =
      let (i, g) = In-find _ s.runs c o in
      Evolve-on_run Allowed s.runs run_id (λ x. some (cancel_row now reason x)) s.runs
        λ r r' j same e.
          let it : r ≡ c = In-unique s.runs r c u j i (same ∙ sym (found_ids run_id tenant c g)) in
          Machine.cancel now reason
            (subst (λ (z : Run). (is_waiting z.status || is_running z.status) ≡ true) (sym it) w)
            (cc)

  -- On a table with unique run identifiers, every transaction of the ledger keeps the rows in their places,
  -- each as it was or changed by one move of the life of a run (under a fence that was allowed for it),
  -- and adds at the end at most one newly created run, with an identifier that was free.
  pub Step-Evolve :
      {s t : Db} → HasUniqueIds s.runs → Step h Allowed s t → Evolve Allowed s.runs t.runs
  unfolding renew_lease schedule_run_retry fail_exhausted_runs complete_cancelled_run
      finalize_abandoned_cancellations complete_run
  Step-Evolve {s} u (admit plan tenant) = Evolve-refl Allowed s.runs s.runs
  Step-Evolve {s} u (create now run_id i) = elim (create_run-runs h now run_id i s) [
    | inl e ↦ stays e
    | inr (fresh, e) ↦ rw e (created now run_id i s fresh)
  ]
  Step-Evolve {s} u (claim now locked worker lease) =
      elim (claim_run-runs now locked worker lease s) [
        | inl e ↦ stays e
        | inr (c, o, e) ↦ rw e (claimed now locked worker lease s.runs c u o)
      ]
  Step-Evolve {s} u (renew now run_id worker epoch lease a) =
      Evolve-on_run Allowed s.runs run_id _ s.runs
        (λ r r' _ _ e. Machine.renew now worker epoch lease a e)
  Step-Evolve {s} u (retry now run_id worker epoch code backoff a) =
      Evolve-on_run Allowed s.runs run_id _ s.runs
        (λ r r' _ _ e. Machine.retry now worker epoch code backoff a e)
  Step-Evolve {s} u (fail_exhausted now) =
      Evolve-update_rows Allowed s.runs (fail_exhausted_row now) s.runs
        (λ r r' _ e. Machine.exhaust now e)
  Step-Evolve {s} u (cancel now run_id tenant reason) =
      elim (request_run_cancellation-runs now run_id tenant reason s) [
        | inl e ↦ stays e
        | inr (c, o, w, e) ↦ rw e (cancels now run_id tenant reason s c u o w)
      ]
  Step-Evolve {s} u (complete_cancelled now run_id code) =
      Evolve-on_run Allowed s.runs run_id _ s.runs
        (λ r r' _ _ e. Machine.complete_cancelled now code e)
  Step-Evolve {s} u (finalize now) =
      Evolve-update_rows Allowed s.runs (finalize_abandoned_row now) s.runs
        (λ r r' _ e. Machine.finalize now e)
  Step-Evolve {s} u (complete now run_id worker epoch status outcome output code a) =
      Evolve-on_run Allowed s.runs run_id _ s.runs
        (λ r r' _ _ e. Machine.complete now worker epoch status outcome output code a e)
  Step-Evolve {s} u (append now i) = elim (append_event-runs now i s) [
    | inl e ↦ stays e
    | inr e ↦ rw e (numbered now i.run_id s.runs)
  ]
  Step-Evolve {s} u (trace now worker epoch link a) =
      elim (bind_run_trace-runs now worker epoch link s) [
        | inl e ↦ stays e
        | inr e ↦ rw e (
            Evolve-on_run Allowed s.runs link.run_id _ s.runs (λ r r' _ _ e.
              Machine.bind_trace now worker epoch link.attempt link.trace_id link.root_span_id
                link.trace_flags a e))
      ]
  Step-Evolve {s} u (write_state now run w a) = elim (apply_state_write-runs now run w s) [
    | inl e ↦ stays e
    | inr (inl e) ↦ rw e (numbered now run.run_id s.runs)
    | inr (inr (node, checkpoint, e)) ↦ rw e (
        Evolve-on_run Allowed s.runs run.run_id _ s.runs (λ r r' _ _ e.
          Machine.enter_node now run.worker_id run.fencing_epoch node checkpoint a e))
  ]
  Step-Evolve {s} u (spend now run_id model_call budget) =
      unfold update_run in
      Evolve-on_run Allowed s.runs run_id (reserve_row now model_call budget) s.runs
        (λ r r' _ _ e. Machine.reserve now model_call budget e)
  Step-Evolve {s} u (record_cost now run_id cost) =
      unfold update_run in
      Evolve-on_run Allowed s.runs run_id (record_cost_row now cost) s.runs
        (λ r r' _ _ e. Machine.record_cost now cost e)
