-- ===== src/Ledger/Guarantees/Cancellation.antt =====
-- A cancellation stops the run: what follows a request, whatever the worker still tries.
use ehfconcept.Prelude.{
  ℕ, ◌≡◌, refl, sym, subst, ◌∙◌, true, ◌&&◌, String, none, some, arith, eq_iff, ◌==◌, compare_texts,
  find, update_rows,
}
use ehfconcept.Contracts.Canonical.{Hashing}
use ehfconcept.Ledger.Row.{Run, is_running, cancel_row}
use ehfconcept.Ledger.Cancelling.{IsCancelling, cancel_row-IsCancelling}
use ehfconcept.Ledger.Store.{Db, on_run, get_run, request_run_cancellation, requested}
use ehfconcept.Ledger.System.{Reach, cancel}
use ehfconcept.Ledger.System.Evolve.{In-find, HasUniqueIds}
use ehfconcept.Ledger.System.Single.{one_row, find_of_In}
use ehfconcept.Ledger.System.History.{IsConsistent, Step-IsConsistent, Reach-get_run}
use ehfconcept.Ledger.Guarantees.Writers.{IssuedUpTo, History-IsCancelling}

found_id :
    (k tenant : String) (r : Run) → (r.run_id == k && r.tenant_id == tenant) ≡ true → r.run_id ≡ k
found_id k tenant r h = ground (arith, eq_iff r.run_id k)

-- The query by identifier and tenant finds what the query by identifier finds.
pub get_run_tenant :
    (k tenant : String) (s : Db) (r : Run)
    → HasUniqueIds s.runs
    → get_run k (some tenant) s ≡ some r
    → (get_run k none s ≡ some r) × (r.run_id ≡ k)
unfolding get_run
get_run_tenant k tenant s r u f =
    let (i, g) = In-find _ s.runs r f in
    let id : r.run_id ≡ k = found_id k tenant r g in
    (
      subst (λ z. find (λ (x : Run). x.run_id == z) s.runs ≡ some r) id (find_of_In s.runs r u i),
      id,
    )

pub cancel_row-run_id :
    (now : ℕ) (reason : String) (r : Run) → (cancel_row now reason r).run_id ≡ r.run_id
unfolding cancel_row
cancel_row-run_id now reason r = ground arith

-- The answer to a request on a running run, and the table after it.
request_on_running :
    (now : ℕ) (k tenant reason : String) (s : Db) (r : Run)
    → get_run k (some tenant) s ≡ some r
    → is_running r.status ≡ true
    → ((request_run_cancellation now k tenant reason s).0.runs
        ≡ update_rows (on_run k (λ x. some (cancel_row now reason x))) s.runs)
      × ((request_run_cancellation now k tenant reason s).1 ≡ requested)
unfolding request_run_cancellation
request_on_running now k tenant reason s r f w = ground arith

marked :
    (now : ℕ) (k tenant reason : String) (s : Db) (r : Run)
    → HasUniqueIds s.runs
    → get_run k (some tenant) s ≡ some r
    → is_running r.status ≡ true
    → get_run k none (request_run_cancellation now k tenant reason s).0
      ≡ some (cancel_row now reason r)
unfolding get_run
marked now k tenant reason s r u f w =
    let (g, id) = get_run_tenant k tenant s r u f in
    let (counted, found, back) =
      one_row k (λ x. some (cancel_row now reason x)) s.runs r (cancel_row now reason r) u g refl
        (cancel_row-run_id now reason r ∙ id) in
    subst (λ rs. find (λ (x : Run). x.run_id == k) rs ≡ some (cancel_row now reason r))
      (sym (request_on_running now k tenant reason s r f w).0) found

module _ (h : Hashing) where
  -- A cancellation request on a running run is acknowledged as `requested`, and from then on, as long
  -- as callers present for this run only fences that were issued before the request, and whatever
  -- else happens, the run is found again as running or cancelled, with the request on record, on the
  -- attempt and with the output that it had: it is not completed, retried or claimed again.
  pub cancelled_run_stops :
      (now : ℕ) (k tenant reason : String) (s t : Db) (r : Run)
      → IsConsistent s
      → get_run k (some tenant) s ≡ some r
      → is_running r.status ≡ true
      → Reach h (IssuedUpTo k r.fencing_epoch) (request_run_cancellation now k tenant reason s).0 t
      → ((request_run_cancellation now k tenant reason s).1 ≡ requested)
        × ((r' : Run) × (get_run k none t ≡ some r') × IsCancelling r.fencing_epoch r r')
  cancelled_run_stops now k tenant reason s t r c f w reach =
      let Allowed = IssuedUpTo k r.fencing_epoch in
      let r₁ = cancel_row now reason r in
      let id : r₁.run_id ≡ k =
        cancel_row-run_id now reason r ∙ (get_run_tenant k tenant s r c.unique f).1 in
      let c₁ = Step-IsConsistent h Allowed (cancel now k tenant reason) c in
      let (r', found, hist, same) =
        Reach-get_run h Allowed k r₁ reach c₁ (marked now k tenant reason s r c.unique f w) in
      (
        (request_on_running now k tenant reason s r f w).1,
        (
          r',
          found,
          History-IsCancelling (λ epoch a. a id) hist (cancel_row-IsCancelling now reason r w),
        ),
      )
