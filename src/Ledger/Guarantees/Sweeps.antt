-- ===== src/Ledger/Guarantees/Sweeps.antt =====
-- The sweeps of an idle dispatcher, and a run that none of them reaches.
use ehfconcept.Prelude.{
  ℕ, ◌≡◌, ◌≢◌, inl, inr, refl, sym, ap, subst, ◌∙◌, Bool, true, false, not, ◌&&◌, String, List, [],
  ◌∷◌, Option, none, some, All, arith, eq_iff, update_rows-none, compare_texts, or_else,
}
use ehfconcept.Ledger.Row.{
  Run, is_running, is_claimable, claim_row, fail_exhausted_row, finalize_abandoned_row,
}
use ehfconcept.Ledger.Invariant.{IsSound}
use ehfconcept.Ledger.Store.{
  Db, on_run, get_run, claim_run, fail_exhausted_runs, finalize_abandoned_cancellations,
}
use ehfconcept.Ledger.System.Evolve.{HasUniqueIds, In-unique, In-find}
use ehfconcept.Ledger.System.Refine.{In-oldest, claim_run-runs}
use ehfconcept.Ledger.System.Single.{find-update_rows}
use ehfconcept.Ledger.System.History.{IsConsistent}

fail_exhausted_row-none : (now : ℕ) (r : Run) → IsSound r → fail_exhausted_row now r ≡ none
unfolding fail_exhausted_row
fail_exhausted_row-none now r h = ground arith

All-refused :
    (now : ℕ) (rs : List Run) → All IsSound rs → All (λ r. fail_exhausted_row now r ≡ none) rs
All-refused now [] h = tt
All-refused now (r ∷ rs) h = (fail_exhausted_row-none now r h.0, All-refused now rs h.1)

-- The sweep for exhausted runs never finds one in a consistent database: it changes nothing.
pub fail_exhausted_runs_idle :
    (now : ℕ) (s : Db) → IsConsistent s → fail_exhausted_runs now s ≡ (s, 0)
unfolding fail_exhausted_runs
fail_exhausted_runs_idle now s c =
    let (same, counted) =
      update_rows-none (fail_exhausted_row now) s.runs (All-refused now s.runs c.sound) in
    rw (same, counted)

-- A run whose last attempt lost its worker.
pub record IsStuck (r : Run) : Type 0 where
  pub runs : is_running r.status ≡ true
  pub exhausted : r.attempt ≡ r.attempt_limit
  pub uncancelled : r.cancellation_requested_at ≡ none

IsStuck-unclaimable : (now : ℕ) (r : Run) → IsStuck r → is_claimable now r ≡ false
unfolding is_claimable
IsStuck-unclaimable now r h = ground arith

IsStuck-unfinalized : (now : ℕ) (r : Run) → IsStuck r → finalize_abandoned_row now r ≡ none
unfolding finalize_abandoned_row
IsStuck-unfinalized now r h = ground arith

finalize-run_id :
    (now : ℕ) (r r' : Run) → finalize_abandoned_row now r ≡ some r' → r'.run_id ≡ r.run_id
unfolding finalize_abandoned_row
finalize-run_id now r r' e = ground arith

on_other :
    (k : String) (c : Run) (f : Run → Run) (x x' : Run)
    → ((y : Run) → (f y).run_id ≡ y.run_id)
    → on_run c.run_id (λ y. some (f y)) x ≡ some x'
    → x'.run_id ≡ x.run_id
on_other k c f x x' keep e = ground (arith, keep x)

on_stuck : (k : String) (f : Run → Option Run) (r : Run) → r.run_id ≢ k → on_run k f r ≡ none
on_stuck k f r h = ground (arith, eq_iff r.run_id k)

claim_row-run_id :
    (now : ℕ) (worker : String) (lease : ℕ) (r : Run)
    → (claim_row now worker lease r).run_id ≡ r.run_id
unfolding claim_row
claim_row-run_id now worker lease r = refl

left_may :
    (now : ℕ) (locked : Run → Bool) (r : Run)
    → (is_claimable now r && not (locked r)) ≡ true
    → is_claimable now r ≡ true
left_may now locked r h = ground arith

claim_passes :
    (now : ℕ) (locked : Run → Bool) (worker : String) (lease : ℕ) (s : Db) (k : String) (r : Run)
    → HasUniqueIds s.runs
    → get_run k none s ≡ some r
    → IsStuck r
    → get_run k none (claim_run now locked worker lease s).0 ≡ some r
unfolding get_run
claim_passes now locked worker lease s k r u f h = elim (claim_run-runs now locked worker lease s) [
  | inl e ↦ rw e f
  | inr (c, o, e) ↦
      let (i, g) = In-oldest _ s.runs c o in
      let (j, _) = In-find _ s.runs r f in
      let other : r.run_id ≢ c.run_id = λ same.
        let it : r ≡ c = In-unique s.runs r c u j i same in
        let may : is_claimable now r ≡ true =
          left_may now locked r
            (subst (λ z. (is_claimable now z && not (locked z)) ≡ true) (sym it) g) in
        cc (may, IsStuck-unclaimable now r h) in
      let out = on_stuck c.run_id (λ x. some (claim_row now worker lease x)) r other in
      rw e (
        find-update_rows k (on_run c.run_id (λ x. some (claim_row now worker lease x))) s.runs r
          (λ x x' p.
            on_other k c (claim_row now worker lease) x x' (claim_row-run_id now worker lease) p)
          f
        ∙ ap (λ o. some (or_else o r)) out)
]

-- A running run that is on its last allowed attempt and has no cancellation on record stays exactly as
-- it is under everything an idle dispatcher does, at any time, however long ago its lease expired:
-- claiming, failing exhausted runs, and finalizing abandoned cancellations.
pub exhausted_run_stuck :
    (now : ℕ) (locked : Run → Bool) (worker : String) (lease : ℕ) (s : Db) (k : String) (r : Run)
    → IsConsistent s
    → get_run k none s ≡ some r
    → IsStuck r
    → (get_run k none (claim_run now locked worker lease s).0 ≡ some r)
      × (get_run k none (fail_exhausted_runs now s).0 ≡ some r)
      × (get_run k none (finalize_abandoned_cancellations now s).0 ≡ some r)
unfolding finalize_abandoned_cancellations get_run
exhausted_run_stuck now locked worker lease s k r c f h = (
  unfold get_run in claim_passes now locked worker lease s k r c.unique f h,
  rw (fail_exhausted_runs_idle now s c) f,
  find-update_rows k (finalize_abandoned_row now) s.runs r (finalize-run_id now) f
      ∙ ap (λ o. some (or_else o r)) (IsStuck-unfinalized now r h),
)
