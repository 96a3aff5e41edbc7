-- ===== src/Ledger/System/History.antt =====
-- A run in every database that can be reached: the moves that led to it.
use ehfconcept.Prelude.{
  ℕ, ◌≡◌, inl, inr, refl, ap, subst, Bool, String, List, none, some, find, All, ◌&&◌, ◌==◌,
  compare_texts, ◌∙◌,
}
use ehfconcept.Contracts.Canonical.{Hashing}
use ehfconcept.Ledger.Row.{Run}
use ehfconcept.Ledger.Machine.{Move}
use ehfconcept.Ledger.Invariant.{IsSound, new_run-IsSound, Move-IsSound}
use ehfconcept.Ledger.Fencing.{Move-SameRequest}
use ehfconcept.Ledger.Store.{Db, empty_db, get_run, find_idempotent}
use ehfconcept.Ledger.System.{Step, Reach, here, next}
use ehfconcept.Ledger.System.Evolve.{
  IsNew, new, MoveOrStay, Evolve-find, Evolve-All, HasUniqueIds, HasUniqueIds-Evolve,
}
use ehfconcept.Ledger.System.Conforms.{Step-Evolve}

-- Identifiers are unique and every run is sound.
pub record IsConsistent (s : Db) : Type 0 where
  pub unique : HasUniqueIds s.runs
  pub sound : All IsSound s.runs

IsNew-IsSound : (r : Run) → IsNew r → IsSound r
IsNew-IsSound r (new run_id tenant key plan digest input now e) =
    rw e (new_run-IsSound run_id tenant key plan digest input now)

-- Some moves, one after another.
pub data History (Allowed : ℕ → Type 0) (r : Run) : Run → Type 0 where
  stay : History Allowed r r
  then : {r' r'' : Run} → History Allowed r r' → Move Allowed r' r'' → History Allowed r r''

module _ (h : Hashing) (Allowed : String → ℕ → Type 0) where
  pub Step-IsConsistent : {s t : Db} → Step h Allowed s t → IsConsistent s → IsConsistent t
  Step-IsConsistent {s} {t} st c =
      let e = Step-Evolve h Allowed c.unique st in
      record {
        unique = HasUniqueIds-Evolve Allowed s.runs s.runs t.runs (λ x i. i) e c.unique;
        sound =
            Evolve-All Allowed IsSound IsNew-IsSound (λ r r' m p. Move-IsSound m p) s.runs s.runs
              t.runs e c.sound;
      }

  pub Reach-IsConsistent : {s t : Db} → Reach h Allowed s t → IsConsistent s → IsConsistent t
  Reach-IsConsistent here c = c
  Reach-IsConsistent (next r st) c = Step-IsConsistent st (Reach-IsConsistent r c)

  extend :
      (p : Run → Bool) (k : String) (r a b : Run) (ys : List Run)
      → r.run_id ≡ k
      → History (Allowed k) r a
      → a.run_id ≡ k
      → find p ys ≡ some b
      → MoveOrStay Allowed a b
      → (r' : Run) × (find p ys ≡ some r') × History (Allowed k) r r' × (r'.run_id ≡ k)
  extend p k r a b ys rk hist ak f (inl e) = (a, f ∙ ap some e, hist, ak)
  extend p k r a b ys rk hist ak f (inr m) =
      (b, f, then hist (subst (λ z. Move (Allowed z) a b) ak m), (Move-SameRequest m).run_id ∙ ak)

  -- What a query finds by columns that no move changes.
  pub Reach-find :
      (p : Run → Bool)
      → ((r r' : Run) → MoveOrStay Allowed r r' → p r' ≡ p r)
      → {s t : Db} (r : Run) → Reach h Allowed s t
      → IsConsistent s
      → find p s.runs ≡ some r
      → (r' : Run) × (find p t.runs ≡ some r')
        × History (Allowed r.run_id) r r'
        × (r'.run_id ≡ r.run_id)
  Reach-find p keep r here c f = (r, f, stay, refl)
  Reach-find p keep {s = s} r (next {t = t} {u = u} reach st) c f =
      let (a, fa, hist, ak) = Reach-find p keep r reach c f in
      let e = Step-Evolve h Allowed (Reach-IsConsistent reach c).unique st in
      let (b, fb, m) = Evolve-find Allowed p keep t.runs t.runs u.runs a e fa in
      extend p r.run_id r a b u.runs refl hist ak fb m

  keeps_id :
      (k : String) (r r' : Run) → MoveOrStay Allowed r r' → (r'.run_id == k) ≡ (r.run_id == k)
  keeps_id k r r' (inl e) = rw e
  keeps_id k r r' (inr m) = rw (Move-SameRequest m).run_id

  keeps_key :
      (tenant key : String) (r r' : Run)
      → MoveOrStay Allowed r r'
      → (r'.tenant_id == tenant && r'.idempotency_key == key)
        ≡ (r.tenant_id == tenant && r.idempotency_key == key)
  keeps_key tenant key r r' (inl e) = rw e
  keeps_key tenant key r r' (inr m) =
      let s = Move-SameRequest m in rw (s.tenant_id, s.idempotency_key)

  pub Reach-get_run :
      (k : String) {s t : Db} (r : Run)
      → Reach h Allowed s t
      → IsConsistent s
      → get_run k none s ≡ some r
      → (r' : Run) × (get_run k none t ≡ some r')
        × History (Allowed r.run_id) r r'
        × (r'.run_id ≡ r.run_id)
  unfolding get_run
  Reach-get_run k r = Reach-find (λ x. x.run_id == k) (keeps_id k) r

  pub Reach-find_idempotent :
      (tenant key : String) {s t : Db} (r : Run)
      → Reach h Allowed s t
      → IsConsistent s
      → find_idempotent tenant key s ≡ some r
      → (r' : Run) × (find_idempotent tenant key t ≡ some r')
        × History (Allowed r.run_id) r r'
        × (r'.run_id ≡ r.run_id)
  unfolding find_idempotent
  Reach-find_idempotent tenant key r =
      Reach-find (λ x. x.tenant_id == tenant && x.idempotency_key == key) (keeps_key tenant key) r

pub empty_db-IsConsistent : IsConsistent empty_db
empty_db-IsConsistent = record { unique = tt; sound = tt }
