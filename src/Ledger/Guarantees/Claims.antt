-- ===== src/Ledger/Guarantees/Claims.antt =====
-- What a claim gives a worker, and which runs the sweeps reach.
use ehfconcept.Prelude.{
  ℕ, ◌+◌, ◌*◌, ◌≤◌, ◌≡◌, inl, inr, refl, sym, ap, subst, ◌∙◌, Bool, true, false, not, ◌&&◌, String,
  List, [], ◌∷◌, Option, none, some, All, arith, Bool-cases, update_rows, find, ◌==◌, compare_texts,
  or_else, Option-cases, returned,
}
use ehfconcept.Ledger.Row.{Run, is_running, is_claimable, claim_row}
use ehfconcept.Ledger.Store.{Db, on_run, get_run, older, oldest, claim_run}
use ehfconcept.Ledger.System.Refine.{In-oldest}
use ehfconcept.Ledger.System.Single.{one_row, find_of_In}
use ehfconcept.Ledger.System.History.{IsConsistent}

claims :
    (now : ℕ) (locked : Run → Bool) (r : Run)
    → (is_claimable now r && not (locked r)) ≡ true
    → (is_claimable now r ≡ true) × (locked r ≡ false)
claims now locked r h = ground arith

-- `order by created_at`: the selected row is not younger than any that passes.
older-le : (x : Run) (o : Option Run) → (older x o).created_at ≤ x.created_at
unfolding older
older-le x o = ground arith

older-le-other : (x y : Run) → (older x (some y)).created_at ≤ y.created_at
unfolding older
older-le-other x y = ground arith

abbrev pub IsOldest : (Run → Bool) → Run → List Run → Type 0
IsOldest p r rs = All (λ (x : Run). p x ≡ true → r.created_at ≤ x.created_at) rs

IsOldest-le :
    (p : Run → Bool) (a b : Run) (rs : List Run)
    → a.created_at ≤ b.created_at
    → IsOldest p b rs
    → IsOldest p a rs
IsOldest-le p a b [] le h = tt
IsOldest-le p a b (x ∷ xs) le h = (λ t. omega (arith, h.0 t), IsOldest-le p a b xs le h.1)

none_pass : (p : Run → Bool) (rs : List Run) → oldest p rs ≡ none → All (λ x. p x ≡ false) rs
unfolding oldest
none_pass p [] e = tt
none_pass p (x ∷ xs) e = elim (Bool-cases (p x)) [
  | inl t ↦ let no : some (older x (oldest p xs)) ≡ none = rw t at e in cc
  | inr t ↦ (t, none_pass p xs (rw t at e))
]

IsOldest-none :
    (p : Run → Bool) (r : Run) (rs : List Run) → All (λ x. p x ≡ false) rs → IsOldest p r rs
IsOldest-none p r [] h = tt
IsOldest-none p r (x ∷ xs) h = (λ t. absurd (cc (h.0)), IsOldest-none p r xs h.1)

oldest-IsOldest :
    (p : Run → Bool) (rs : List Run) (r : Run) → oldest p rs ≡ some r → IsOldest p r rs
unfolding oldest
oldest-IsOldest p [] r e = tt
oldest-IsOldest p (x ∷ xs) r e = elim (Bool-cases (p x)) [
  | inl t ↦
      let same : some (older x (oldest p xs)) ≡ some r = rw t at e in
      let q : older x (oldest p xs) ≡ r = ap (λ o. or_else o x) same in
      elim (Option-cases (oldest p xs)) [
        | inl n ↦ (
          λ _. subst (λ (z : Run). z.created_at ≤ x.created_at) q (older-le x (oldest p xs)),
          IsOldest-none p r xs (none_pass p xs n),
        )
        | inr (y, n) ↦
            let le : r.created_at ≤ y.created_at =
              subst (λ (z : Run). z.created_at ≤ y.created_at) q
                (subst (λ o. (older x o).created_at ≤ y.created_at) (sym n) (older-le-other x y)) in
            (
              λ _. subst (λ (z : Run). z.created_at ≤ x.created_at) q (older-le x (oldest p xs)),
              IsOldest-le p r y xs le (oldest-IsOldest p xs y n),
            )
      ]
  | inr t ↦ (λ yes_x. absurd (cc t), oldest-IsOldest p xs r (rw t at e))
]

-- A claim that finds nothing, and one that finds a row.
claim_run-cases :
    (now : ℕ) (locked : Run → Bool) (worker : String) (lease : ℕ) (s : Db) (c : Run)
    → (claim_run now locked worker lease s).1 ≡ some c
    → (r : Run) × (oldest (λ x. is_claimable now x && not (locked x)) s.runs ≡ some r)
      × (returned (on_run r.run_id (λ x. some (claim_row now worker lease x))) s.runs ≡ some c)
      × ((claim_run now locked worker lease s).0.runs
          ≡ update_rows (on_run r.run_id (λ x. some (claim_row now worker lease x))) s.runs)
unfolding claim_run
claim_run-cases now locked worker lease s c e = ground arith

-- What a claim writes, and what it leaves.
pub record IsClaimed (now : ℕ) (worker : String) (lease : ℕ) (r c : Run) : Type 0 where
  pub runs : is_running c.status ≡ true
  pub owned : c.lease_owner ≡ some worker
  pub leased : c.lease_expires_at ≡ some (now + lease * 1000000)
  pub next_fence : c.fencing_epoch ≡ r.fencing_epoch + 1
  pub next_attempt : c.attempt ≡ r.attempt + 1
  pub same_plan : c.plan_digest ≡ r.plan_digest
  pub same_input : c.input ≡ r.input

claim_row-IsClaimed :
    (now : ℕ) (worker : String) (lease : ℕ) (r : Run)
    → IsClaimed now worker lease r (claim_row now worker lease r)
unfolding claim_row
claim_row-IsClaimed now worker lease r = ground arith

-- What a worker is given.
pub record IsClaim (now : ℕ) (locked : Run → Bool) (worker : String) (lease : ℕ) (s t : Db)
    (c : Run) : Type 0 where
  pub before : Run
  pub was_found : get_run c.run_id none s ≡ some before
  pub was_claimable : is_claimable now before ≡ true
  pub was_unlocked : locked before ≡ false
  pub was_oldest : IsOldest (λ x. is_claimable now x && not (locked x)) before s.runs
  pub is_found : get_run c.run_id none t ≡ some c
  pub written : IsClaimed now worker lease before c

claim_row-run_id :
    (now : ℕ) (worker : String) (lease : ℕ) (r : Run)
    → (claim_row now worker lease r).run_id ≡ r.run_id
unfolding claim_row
claim_row-run_id now worker lease r = refl

-- A claim that returns a run has taken the oldest run that may be claimed and is not locked: the run
-- was found under its identifier, it was waiting and available or had let its lease expire, had no
-- cancellation on record and an attempt left; afterwards it is found as the returned row, which is
-- running, owned by the worker, leased for the given seconds, on the next fence and the next
-- attempt, with the plan and the input that it had.
pub claim_run-IsClaim :
    (now : ℕ) (locked : Run → Bool) (worker : String) (lease : ℕ) (s : Db) (c : Run)
    → IsConsistent s
    → (claim_run now locked worker lease s).1 ≡ some c
    → IsClaim now locked worker lease s (claim_run now locked worker lease s).0 c
claim_run-IsClaim now locked worker lease s c k e =
    let (r, o, back, runs) = claim_run-cases now locked worker lease s c e in
    let (i, g) = In-oldest _ s.runs r o in
    let (may, free) = claims now locked r g in
    let found = find_of_In s.runs r k.unique i in
    let (counted, after, same) =
      one_row r.run_id (λ x. some (claim_row now worker lease x)) s.runs r
        (claim_row now worker lease r) k.unique found refl (claim_row-run_id now worker lease r) in
    let both : some (claim_row now worker lease r) ≡ some c = sym same ∙ back in
    let it : claim_row now worker lease r ≡ c = ap (λ z. or_else z c) both in
    let id : r.run_id ≡ c.run_id =
      sym (claim_row-run_id now worker lease r) ∙ ap (λ (z : Run). z.run_id) it in
    unfold get_run in
    record {
      before = r;
      was_found = subst (λ z. find (λ (x : Run). x.run_id == z) s.runs ≡ some r) id found;
      was_claimable = may;
      was_unlocked = free;
      was_oldest = oldest-IsOldest _ s.runs r o;
      is_found =
          subst (λ rs. find (λ (x : Run). x.run_id == c.run_id) rs ≡ some c) (sym runs)
            (subst
              (λ z.
                find (λ (x : Run). x.run_id == z)
                  (update_rows (on_run r.run_id (λ x. some (claim_row now worker lease x))) s.runs)
                ≡ some c)
              id (after ∙ both));
      written = subst (IsClaimed now worker lease r) it (claim_row-IsClaimed now worker lease r);
    }
