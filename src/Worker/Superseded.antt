-- ===== src/Worker/Superseded.antt =====
-- apps/runtime-worker/src/worker.ts: a worker that was superseded, and handles a failure.
use ehfconcept.Prelude.{
  ℕ, ◌<◌, ◌≡◌, inl, inr, refl, sym, ap, subst, Bool, not, ◌&&◌, String, none, some, if◌then◌else◌,
  err, Bool-cases,
}
use ehfconcept.Contracts.Value.{object, string, field, end}
use ehfconcept.Contracts.Canonical.{Hashing}
use ehfconcept.Ledger.Row.{Run, FinalStatus}
use ehfconcept.Ledger.Machine.{Any}
use ehfconcept.Ledger.Store.{Db, get_run}
use ehfconcept.Ledger.System.{Reach, here}
use ehfconcept.Ledger.System.History.{IsConsistent}
use ehfconcept.Ledger.Guarantees.Writers.{Refuses, stale_writer_refused}
use ehfconcept.Worker.Settle.{
  retryable, Settings, backoff_ms, Slot, Others, record_terminal_failure, handle_failure,
}

module _ (clock : ℕ → ℕ) (slot : Slot) (others : Others) (code : String) (denied : Bool) where
  refused_completion :
      (db : Db)
      → Refuses slot.run.run_id slot.worker_id slot.run.fencing_epoch db
      → record_terminal_failure clock slot others code denied db ≡ (db, err "runtime.stale_fence")
  unfolding record_terminal_failure
  refused_completion db refusals =
      rw
        (
          refusals.completion (clock 1) (if denied then FinalStatus.denied else FinalStatus.failed)
              (if denied then "denied" else "failed") (object (field "error" (string code) end))
              (some code),
          record_terminal_failure,
        )
        refl

  -- A worker whose run was claimed by another since, or cancelled, so that the fence of the run is past its
  -- own, writes nothing when it handles a failure: it neither schedules a retry, nor closes the run, nor adds
  -- an event. It ends with `runtime.stale_fence`, and the ledger is as others left it: as it was found
  -- where a retry is not even tried, and else as it is when the worker comes to close the run, whatever
  -- transactions of others came in between.
  pub superseded_worker_writes_nothing :
      (h : Hashing) (settings : Settings) (db : Db) (r : Run)
      → IsConsistent db
      → get_run slot.run.run_id none db ≡ some r
      → slot.run.fencing_epoch < r.fencing_epoch
      → Reach h (λ k. Any) db (others.before_completion db)
      → handle_failure clock settings slot others code denied db ≡ (
        if not denied && retryable code then others.before_completion db else db,
        err "runtime.stale_fence",
      )
  unfolding handle_failure
  superseded_worker_writes_nothing h settings db r c found stale meanwhile =
      let now =
        stale_writer_refused h slot.run.run_id slot.worker_id slot.run.fencing_epoch db db r c found
          stale here in
      let later =
        stale_writer_refused h slot.run.run_id slot.worker_id slot.run.fencing_epoch db
          (others.before_completion db) r c found stale meanwhile in
      elim (Bool-cases (not denied && retryable code)) [
        | inr final ↦ rw (final, refused_completion db now, handle_failure) refl
        | inl again ↦
            let refused = now.retrial (clock 0) code (backoff_ms settings slot.run.attempt) in
            rw (again, ap (λ p. p.1) refused, handle_failure)
              (subst
                (λ d.
                  record_terminal_failure clock slot others code denied (others.before_completion d)
                  ≡ (others.before_completion db, err "runtime.stale_fence"))
                (sym (ap (λ p. p.0) refused))
                (refused_completion (others.before_completion db) later))
      ]
