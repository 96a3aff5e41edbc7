-- ===== src/Ledger/System/Single.antt =====
-- A statement with `run_id = $1` in its condition, where identifiers are unique.
use ehfconcept.Prelude.{
  ◌≡◌, ◌≢◌, inl, inr, refl, sym, ap, subst, Bool, true, false, String, List, [], ◌∷◌, Option, none,
  some, find, All, update_rows, update_rows-none, row_count, returned, or_else, arith, ◌==◌,
  compare_numbers, compare_texts, eq_iff, eq_refl, Bool-cases, if◌then◌else◌, Result, ok, err,
}
use ehfconcept.Ledger.Row.{Run}
use ehfconcept.Ledger.Store.{Db, on_run, update_run, update_run_or_throw, get_run}
use ehfconcept.Ledger.System.Evolve.{In, IsFresh, HasUniqueIds, not-In-IsFresh}

on_run-other : (k : String) (f : Run → Option Run) (r : Run) → r.run_id ≢ k → on_run k f r ≡ none
on_run-other k f r h = ground (arith, eq_iff r.run_id k)

others_none :
    (k : String) (f : Run → Option Run) (rs : List Run)
    → IsFresh k rs
    → All (λ r. on_run k f r ≡ none) rs
others_none k f [] h = tt
others_none k f (r ∷ rs) h = (on_run-other k f r h.0, others_none k f rs h.1)

-- A refused row: nothing changes.
All-none :
    (k : String) (f : Run → Option Run) (rs : List Run) (r : Run)
    → HasUniqueIds rs
    → find (λ x. x.run_id == k) rs ≡ some r
    → f r ≡ none
    → All (λ x. on_run k f x ≡ none) rs
All-none k f [] r u e n = tt
All-none k f (x ∷ xs) r u e n = elim (Bool-cases (x.run_id == k)) [
  | inl t ↦
      let same : some x ≡ some r = rw t at e in
      let q : x ≡ r = ap (λ o. or_else o x) same in
      let id : x.run_id ≡ k = (eq_iff x.run_id k).0 t in
      (
        rw t (subst (λ z. f z ≡ none) (sym q) n),
        others_none k f xs (subst (λ z. IsFresh z xs) id u.0),
      )
  | inr t ↦ (rw t, All-none k f xs r u.1 (rw t at e) n)
]

pub update_run-refused :
    (k : String) (f : Run → Option Run) (s : Db) (r : Run)
    → HasUniqueIds s.runs
    → get_run k none s ≡ some r
    → f r ≡ none
    → update_run k f s ≡ (s, false)
unfolding update_run get_run
update_run-refused k f s r u e n =
    let (same, zero_rows) = update_rows-none (on_run k f) s.runs (All-none k f s.runs r u e n) in
    rw (same, zero_rows)

pub update_run_or_throw-refused :
    (k : String) (f : Run → Option Run) (s : Db) (r : Run)
    → HasUniqueIds s.runs
    → get_run k none s ≡ some r
    → f r ≡ none
    → update_run_or_throw k f s ≡ (s, err "runtime.stale_fence")
unfolding update_run_or_throw
update_run_or_throw-refused k f s r u e n =
    ap (λ (p : Db × Bool). thrown p) (update_run-refused k f s r u e n)
  where
    thrown : Db × Bool → Db × Result String (Unit {0})
    thrown p = (p.0, if p.1 then ok tt else err "runtime.stale_fence")

-- An accepted row: one row is counted, and it is the new one that is found afterwards.
pub one_row :
    (k : String) (f : Run → Option Run) (rs : List Run) (r r' : Run)
    → HasUniqueIds rs
    → find (λ x. x.run_id == k) rs ≡ some r
    → f r ≡ some r'
    → r'.run_id ≡ k
    → (row_count (on_run k f) rs ≡ 1)
      × (find (λ x. x.run_id == k) (update_rows (on_run k f) rs) ≡ some r')
      × (returned (on_run k f) rs ≡ some r')
unfolding row_count update_rows returned
one_row k f [] r r' u e n id = cc
one_row k f (x ∷ xs) r r' u e n id = elim (Bool-cases (x.run_id == k)) [
  | inl t ↦
      let same : some x ≡ some r = rw t at e in
      let q : x ≡ r = ap (λ o. or_else o x) same in
      let fx : f x ≡ some r' = subst (λ z. f z ≡ some r') (sym q) n in
      let old : x.run_id ≡ k = (eq_iff x.run_id k).0 t in
      let (kept, none_counted) =
        update_rows-none (on_run k f) xs (others_none k f xs (subst (λ z. IsFresh z xs) old u.0)) in
      let now_k : (r'.run_id == k) ≡ true = (eq_iff r'.run_id k).1 id in
      (rw (t, fx, none_counted), rw (t, fx, now_k), rw (t, fx, returned))
  | inr t ↦
      let (counted, found, back) = one_row k f xs r r' u.1 (rw t at e) n id in
      (rw t counted, rw (t, t) found, rw (t, returned) back)
]

pub update_run-granted :
    (k : String) (f : Run → Option Run) (s : Db) (r r' : Run)
    → HasUniqueIds s.runs
    → get_run k none s ≡ some r
    → f r ≡ some r'
    → r'.run_id ≡ k
    → ((update_run k f s).1 ≡ true) × (get_run k none (update_run k f s).0 ≡ some r')
unfolding update_run get_run
update_run-granted k f s r r' u e n id =
    let (counted, found, back) = one_row k f s.runs r r' u e n id in (rw counted, found)

-- The query by identifier finds a row of the table.
pub find_of_In :
    (rs : List Run) (r : Run)
    → HasUniqueIds rs
    → In r rs
    → find (λ x. x.run_id == r.run_id) rs ≡ some r
find_of_In [] r u i = absurd i
find_of_In (x ∷ xs) r u (inl e) = rw e (rw (eq_refl x.run_id))
find_of_In (x ∷ xs) r u (inr i) = elim (Bool-cases (x.run_id == r.run_id)) [
  | inl t ↦ absurd (not-In-IsFresh xs r x.run_id u.0 i (sym ((eq_iff x.run_id r.run_id).0 t)))
  | inr t ↦ rw t (find_of_In xs r u.1 i)
]

-- After a statement on all rows the query finds what the statement made of the row.
pub find-update_rows :
    (k : String) (f : Run → Option Run) (rs : List Run) (r : Run)
    → ((x x' : Run) → f x ≡ some x' → x'.run_id ≡ x.run_id)
    → find (λ x. x.run_id == k) rs ≡ some r
    → find (λ x. x.run_id == k) (update_rows f rs) ≡ some (or_else (f r) r)
unfolding update_rows
find-update_rows k f [] r keep e = cc
find-update_rows k f (x ∷ xs) r keep e =
    let id : (or_else (f x) x).run_id ≡ x.run_id = kept (f x) (keep x) in
    elim (Bool-cases (x.run_id == k)) [
      | inl t ↦
          let same : some x ≡ some r = rw t at e in
          let q : x ≡ r = ap (λ o. or_else o x) same in
          rw (id, t) (ap (λ z. some (or_else (f z) z)) q)
      | inr t ↦ rw (id, t) (find-update_rows k f xs r keep (rw t at e))
    ]
  where
    kept :
        (o : Option Run)
        → ((x' : Run) → o ≡ some x' → x'.run_id ≡ x.run_id)
        → (or_else o x).run_id ≡ x.run_id
    kept none g = refl
    kept (some x') g = g x' refl
