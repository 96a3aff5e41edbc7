-- ===== src/Ledger/Guarantees/Requests.antt =====
-- Starting a run is idempotent (`createRun`).
use ehfconcept.Prelude.{
  ℕ, ◌≡◌, ◌≢◌, inl, inr, sym, ◌∙◌, Bool, true, ◌&&◌, String, List, [], ◌∷◌, ◌++◌, none, some, arith,
  eq_iff, eq_refl, ◌==◌, compare_texts, find, ok, err, Bool-cases, Option-cases,
}
use ehfconcept.Contracts.Canonical.{Hashing, stable_digest}
use ehfconcept.Ledger.Row.{Run, new_run}
use ehfconcept.Ledger.Machine.{Any}
use ehfconcept.Ledger.Store.{Db, RunInput, create_run, find_idempotent, request_value}
use ehfconcept.Ledger.System.{Reach}
use ehfconcept.Ledger.System.History.{IsConsistent, Step-IsConsistent, Reach-find_idempotent}
use ehfconcept.Ledger.System
use ehfconcept.Ledger.Guarantees.{History-SameRequest}

find_last :
    (p : Run → Bool) (rs : List Run) (r : Run)
    → find p rs ≡ none
    → p r ≡ true
    → find p (rs ++ r ∷ []) ≡ some r
find_last p [] r e t = rw t
find_last p (x ∷ xs) r e t = elim (Bool-cases (p x)) [
  | inl y ↦ let no : some x ≡ none = rw y at e in cc
  | inr n ↦ rw n (find_last p xs r (rw n at e) t)
]

digest_of : Hashing → RunInput → String
digest_of h i = stable_digest h (request_value i.plan_digest i.run_input)

row_of : Hashing → ℕ → String → RunInput → Run
row_of h now run_id i =
    new_run run_id i.tenant_id i.idempotency_key i.plan_digest (digest_of h i) i.run_input now

-- A start that is answered with a run is on record with it.
prior_found :
    (h : Hashing) (now : ℕ) (run_id : String) (i : RunInput) (s : Db)
    (res : record { created : Bool; run : Run }) (r : Run)
    → find_idempotent i.tenant_id i.idempotency_key s ≡ some r
    → (create_run h now run_id i s).1 ≡ ok res
    → ((create_run h now run_id i s).0 ≡ s) × (res.run ≡ r) × (r.request_digest ≡ digest_of h i)
unfolding create_run digest_of
prior_found h now run_id i s res r f e = ground (arith, eq_iff r.request_digest (digest_of h i))

fresh_inserted :
    (h : Hashing) (now : ℕ) (run_id : String) (i : RunInput) (s : Db)
    (res : record { created : Bool; run : Run })
    → find_idempotent i.tenant_id i.idempotency_key s ≡ none
    → (create_run h now run_id i s).1 ≡ ok res
    → ((create_run h now run_id i s).0.runs ≡ s.runs ++ row_of h now run_id i ∷ [])
      × (res.run ≡ row_of h now run_id i)
unfolding create_run row_of digest_of
fresh_inserted h now run_id i s res f e = ground arith

row_of_matches :
    (h : Hashing) (now : ℕ) (run_id : String) (i : RunInput)
    → ((row_of h now run_id i).tenant_id == i.tenant_id
        && (row_of h now run_id i).idempotency_key == i.idempotency_key)
      ≡ true
unfolding row_of new_run
row_of_matches h now run_id i = rw (eq_refl i.tenant_id, eq_refl i.idempotency_key)

recorded :
    (h : Hashing) (now : ℕ) (run_id : String) (i : RunInput) (s : Db)
    (res : record { created : Bool; run : Run })
    → (create_run h now run_id i s).1 ≡ ok res
    → (find_idempotent i.tenant_id i.idempotency_key (create_run h now run_id i s).0 ≡ some res.run)
      × (res.run.request_digest ≡ digest_of h i)
unfolding find_idempotent
recorded h now run_id i s res e =
    elim (Option-cases (find_idempotent i.tenant_id i.idempotency_key s)) [
      | inl f ↦
          let (runs, it) = fresh_inserted h now run_id i s res f e in
          (
            rw (runs, it)
                (find_last
                  (λ (r : Run).
                    r.tenant_id == i.tenant_id && r.idempotency_key == i.idempotency_key)
                  s.runs (row_of h now run_id i) f (row_of_matches h now run_id i)),
            unfold row_of new_run in rw it,
          )
      | inr (r, f) ↦
          let (same, it, digest) = prior_found h now run_id i s res r f e in
          (rw (same, it) f, rw it digest)
    ]

replay :
    (h : Hashing) (now : ℕ) (run_id : String) (i : RunInput) (t : Db) (r : Run)
    → find_idempotent i.tenant_id i.idempotency_key t ≡ some r
    → r.request_digest ≡ digest_of h i
    → create_run h now run_id i t ≡ (t, ok (record { created = r.run_id == run_id; run = r }))
unfolding create_run digest_of
replay h now run_id i t r f d = ground (arith, eq_iff r.request_digest (digest_of h i))

conflict :
    (h : Hashing) (now : ℕ) (run_id : String) (i : RunInput) (t : Db) (r : Run)
    → find_idempotent i.tenant_id i.idempotency_key t ≡ some r
    → r.request_digest ≢ digest_of h i
    → create_run h now run_id i t ≡ (t, err "run.idempotency_conflict")
unfolding create_run digest_of
conflict h now run_id i t r f d = ground (arith, eq_iff r.request_digest (digest_of h i))

module _ (h : Hashing) where
  -- A start that was answered with a run is remembered: after any further operations the same request
  -- under the same key is answered with that run, under its identifier, and changes nothing; `created`
  -- is reported only to a caller that drew the same identifier.
  pub create_run_replays :
      (now now' : ℕ) (run_id run_id' : String) (i : RunInput) (s t : Db)
      (res : record { created : Bool; run : Run })
      → IsConsistent s
      → (create_run h now run_id i s).1 ≡ ok res
      → Reach h (λ k. Any) (create_run h now run_id i s).0 t
      → (r' : Run) × (create_run h now' run_id' i t
          ≡ (t, ok (record { created = r'.run_id == run_id'; run = r' })))
        × (r'.run_id ≡ res.run.run_id)
  create_run_replays now now' run_id run_id' i s t res c e reach =
      let (f, d) = recorded h now run_id i s res e in
      let c₁ = Step-IsConsistent h (λ k. Any) (System.create now run_id i) c in
      let (r', found, hist, same) =
        Reach-find_idempotent h (λ k. Any) i.tenant_id i.idempotency_key res.run reach c₁ f in
      (r', replay h now' run_id' i t r' found ((History-SameRequest hist).request_digest ∙ d), same)

  -- A different request under a key that a tenant has used is refused, after any further operations, and
  -- changes nothing.
  pub create_run_conflicts :
      (now now' : ℕ) (run_id run_id' : String) (i j : RunInput) (s t : Db)
      (res : record { created : Bool; run : Run })
      → IsConsistent s
      → (create_run h now run_id i s).1 ≡ ok res
      → Reach h (λ k. Any) (create_run h now run_id i s).0 t
      → j.tenant_id ≡ i.tenant_id
      → j.idempotency_key ≡ i.idempotency_key
      → stable_digest h (request_value j.plan_digest j.run_input)
        ≢ stable_digest h (request_value i.plan_digest i.run_input)
      → create_run h now' run_id' j t ≡ (t, err "run.idempotency_conflict")
  unfolding digest_of
  create_run_conflicts now now' run_id run_id' i j s t res c e reach tenant key differ =
      let (f, d) = recorded h now run_id i s res e in
      let c₁ = Step-IsConsistent h (λ k. Any) (System.create now run_id i) c in
      let (r', found, hist, same) =
        Reach-find_idempotent h (λ k. Any) i.tenant_id i.idempotency_key res.run reach c₁ f in
      conflict h now' run_id' j t r' (rw (tenant, key) found)
        (λ p. differ (sym p ∙ (History-SameRequest hist).request_digest ∙ d))
