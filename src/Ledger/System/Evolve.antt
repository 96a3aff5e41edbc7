-- ===== src/Ledger/System/Evolve.antt =====
-- How one step may change the table of runs: every row stays or makes a move, new rows come last.
use ehfconcept.Prelude.{
  ℕ, ◌≡◌, ◌≢◌, ◌⊎◌, inl, inr, refl, sym, ap, Bool, true, String, List, [], ◌∷◌, ◌++◌, Option, none,
  some, ◌==◌, compare_texts, eq_iff, find, All, update_rows, or_else, Bool-cases, arith, subst, ◌∙◌,
}
use ehfconcept.Contracts.Value.{Value}
use ehfconcept.Ledger.Row.{Run, new_run}
use ehfconcept.Ledger.Machine.{Move}
use ehfconcept.Ledger.Fencing.{Move-SameRequest}
use ehfconcept.Ledger.Store.{on_run}

pub data IsNew (r : Run) : Type 0 where
  new :
      (run_id tenant key plan digest : String) (input : Value) (now : ℕ)
      → r ≡ new_run run_id tenant key plan digest input now
      → IsNew r

abbrev pub MoveOrStay : (String → ℕ → Type 0) → Run → Run → Type 0
MoveOrStay Allowed r r' = (r' ≡ r) ⊎ Move (Allowed r.run_id) r r'

-- No row has this identifier; no two rows have one identifier.
abbrev pub IsFresh : String → List Run → Type 0
IsFresh run_id rs = All (λ (r : Run). r.run_id ≢ run_id) rs

abbrev pub HasUniqueIds : List Run → Type 0
HasUniqueIds [] = Unit
HasUniqueIds (r ∷ rs) = IsFresh r.run_id rs × HasUniqueIds rs

-- `base` is the whole table before the step.
abbrev pub EvolveFrom : (String → ℕ → Type 0) → List Run → List Run → List Run → Type 0
EvolveFrom Allowed base [] [] = Unit
EvolveFrom Allowed base [] (y ∷ []) = IsNew y × IsFresh y.run_id base
EvolveFrom Allowed base [] (y ∷ z ∷ ys) = ⊥
EvolveFrom Allowed base (r ∷ rs) [] = ⊥
EvolveFrom Allowed base (r ∷ rs) (y ∷ ys) = MoveOrStay Allowed r y × EvolveFrom Allowed base rs ys

abbrev pub Evolve : (String → ℕ → Type 0) → List Run → List Run → Type 0
Evolve Allowed rs ys = EvolveFrom Allowed rs rs ys

-- Membership by recursion.
abbrev pub In : Run → List Run → Type 0
In r [] = ⊥
In r (x ∷ xs) = (r ≡ x) ⊎ In r xs

-- A statement on one run.
pub on_run-some :
    (run_id : String) (f : Run → Option Run) (r r' : Run)
    → on_run run_id f r ≡ some r'
    → (r.run_id ≡ run_id) × (f r ≡ some r')
on_run-some run_id f r r' e = ground (arith, eq_iff r.run_id run_id)

module _ (Allowed : String → ℕ → Type 0) (base : List Run) where
  pub Evolve-refl : (rs : List Run) → EvolveFrom Allowed base rs rs
  Evolve-refl [] = tt
  Evolve-refl (r ∷ rs) = (inl refl, Evolve-refl rs)

  pub Evolve-append :
      (rs : List Run) (y : Run)
      → IsNew y
      → IsFresh y.run_id base
      → EvolveFrom Allowed base rs (rs ++ y ∷ [])
  Evolve-append [] y h f = (h, f)
  Evolve-append (r ∷ rs) y h f = (inl refl, Evolve-append rs y h f)

  row_moves :
      (o : Option Run) (r : Run)
      → ((r' : Run) → o ≡ some r' → Move (Allowed r.run_id) r r')
      → MoveOrStay Allowed r (or_else o r)
  row_moves none r move = inl refl
  row_moves (some r') r move = inr (move r' refl)

  pub Evolve-update_rows :
      (f : Run → Option Run) (rs : List Run)
      → ((r r' : Run) → In r rs → f r ≡ some r' → Move (Allowed r.run_id) r r')
      → EvolveFrom Allowed base rs (update_rows f rs)
  unfolding update_rows
  Evolve-update_rows f [] move = tt
  Evolve-update_rows f (r ∷ rs) move = (
    row_moves (f r) r (λ r' e. move r r' (inl refl) e),
    Evolve-update_rows f rs (λ x x' i e. move x x' (inr i) e),
  )

  pub Evolve-on_run :
      (run_id : String) (f : Run → Option Run) (rs : List Run)
      → ((r r' : Run) → In r rs → r.run_id ≡ run_id → f r ≡ some r' → Move (Allowed run_id) r r')
      → EvolveFrom Allowed base rs (update_rows (on_run run_id f) rs)
  Evolve-on_run run_id f rs move = Evolve-update_rows (on_run run_id f) rs λ r r' i e.
      let (same, g) = on_run-some run_id f r r' e in
      subst (λ k. Move (Allowed k) r r') (sym same) (move r r' i same g)

pub MoveOrStay-run_id :
    (Allowed : String → ℕ → Type 0) {r r' : Run} → MoveOrStay Allowed r r' → r'.run_id ≡ r.run_id
MoveOrStay-run_id Allowed (inl e) = ap (λ (z : Run). z.run_id) e
MoveOrStay-run_id Allowed (inr m) = (Move-SameRequest m).run_id

pub not-In-IsFresh :
    (rs : List Run) (s : Run) (run_id : String) → IsFresh run_id rs → In s rs → s.run_id ≢ run_id
not-In-IsFresh [] s run_id h i = absurd i
not-In-IsFresh (r ∷ rs) s run_id h (inl e) = λ p. h.0 (rw (← e) p)
not-In-IsFresh (r ∷ rs) s run_id h (inr i) = not-In-IsFresh rs s run_id h.1 i

pub In-unique :
    (rs : List Run) (r s : Run) → HasUniqueIds rs → In r rs → In s rs → r.run_id ≡ s.run_id → r ≡ s
In-unique [] r s u i j e = absurd i
In-unique (x ∷ xs) r s u (inl p) (inl q) e = p ∙ sym q
In-unique (x ∷ xs) r s u (inl p) (inr j) e =
    absurd (not-In-IsFresh xs s x.run_id u.0 j (sym e ∙ ap (λ (z : Run). z.run_id) p))
In-unique (x ∷ xs) r s u (inr i) (inl q) e =
    absurd (not-In-IsFresh xs r x.run_id u.0 i (e ∙ ap (λ (z : Run). z.run_id) q))
In-unique (x ∷ xs) r s u (inr i) (inr j) e = In-unique xs r s u.1 i j e

pub In-find :
    (p : Run → Bool) (rs : List Run) (r : Run) → find p rs ≡ some r → In r rs × (p r ≡ true)
In-find p [] r e = cc
In-find p (x ∷ xs) r e = elim (Bool-cases (p x)) [
  | inl t ↦
      let same : some x ≡ some r = rw t at e in
      let q : x ≡ r = ap (λ o. or_else o x) same in (inl (sym q), subst (λ z. p z ≡ true) q t)
  | inr t ↦ let (i, g) = In-find p xs r (rw t at e) in (inr i, g)
]

-- A row that a query finds by columns that no move changes is found again after the step, and has
-- stayed or moved.
pub Evolve-find :
    (Allowed : String → ℕ → Type 0) (p : Run → Bool)
    → ((r r' : Run) → MoveOrStay Allowed r r' → p r' ≡ p r)
    → (base rs ys : List Run) (r : Run) → EvolveFrom Allowed base rs ys
    → find p rs ≡ some r
    → (r' : Run) × (find p ys ≡ some r') × MoveOrStay Allowed r r'
Evolve-find Allowed p keep base [] ys r h e = cc
Evolve-find Allowed p keep base (x ∷ xs) [] r h e = absurd h
Evolve-find Allowed p keep base (x ∷ xs) (y ∷ ys) r h e =
    let id : p y ≡ p x = keep x y h.0 in
    elim (Bool-cases (p x)) [
      | inl t ↦
          let same : some x ≡ some r = rw t at e in
          let q : x ≡ r = ap (λ o. or_else o x) same in
          (y, rw (id, t), subst (λ z. MoveOrStay Allowed z y) q h.0)
      | inr t ↦
          let (r', found, moved) = Evolve-find Allowed p keep base xs ys r h.1 (rw t at e) in
          (r', rw (id, t) found, moved)
    ]

-- An invariant of new rows and of moves is an invariant of the table.
pub Evolve-All {κ} :
    (Allowed : String → ℕ → Type 0) (P : Run → Type κ)
    → ((r : Run) → IsNew r → P r)
    → ((r r' : Run) → Move (Allowed r.run_id) r r' → P r → P r')
    → (base rs ys : List Run) → EvolveFrom Allowed base rs ys
    → All P rs
    → All P ys
Evolve-All Allowed P start keep base [] [] h p = tt
Evolve-All Allowed P start keep base [] (y ∷ []) h p = (start y h.0, tt)
Evolve-All Allowed P start keep base [] (y ∷ z ∷ ys) h p = absurd h
Evolve-All Allowed P start keep base (r ∷ rs) [] h p = absurd h
Evolve-All Allowed P start keep base (r ∷ rs) (y ∷ ys) h p =
    (kept h.0, Evolve-All Allowed P start keep base rs ys h.1 p.1)
  where
    kept : MoveOrStay Allowed r y → P y
    kept (inl e) = subst P (sym e) p.0
    kept (inr m) = keep r y m p.0

IsFresh-Evolve :
    (Allowed : String → ℕ → Type 0) (k : String) (x : Run) (base rs ys : List Run)
    → In x base
    → x.run_id ≡ k
    → EvolveFrom Allowed base rs ys
    → IsFresh k rs
    → IsFresh k ys
IsFresh-Evolve Allowed k x base [] [] i e h f = tt
IsFresh-Evolve Allowed k x base [] (y ∷ []) i e h f =
    (λ p. not-In-IsFresh base x y.run_id h.1 i (e ∙ sym p), tt)
IsFresh-Evolve Allowed k x base [] (y ∷ z ∷ ys) i e h f = absurd h
IsFresh-Evolve Allowed k x base (r ∷ rs) [] i e h f = absurd h
IsFresh-Evolve Allowed k x base (r ∷ rs) (y ∷ ys) i e h f = (
  λ p. f.0 (sym (MoveOrStay-run_id Allowed h.0) ∙ p),
  IsFresh-Evolve Allowed k x base rs ys i e h.1 f.1,
)

-- Identifiers stay unique.
pub HasUniqueIds-Evolve :
    (Allowed : String → ℕ → Type 0) (base rs ys : List Run)
    → ((x : Run) → In x rs → In x base)
    → EvolveFrom Allowed base rs ys
    → HasUniqueIds rs
    → HasUniqueIds ys
HasUniqueIds-Evolve Allowed base [] [] within h u = tt
HasUniqueIds-Evolve Allowed base [] (y ∷ []) within h u = (tt, tt)
HasUniqueIds-Evolve Allowed base [] (y ∷ z ∷ ys) within h u = absurd h
HasUniqueIds-Evolve Allowed base (r ∷ rs) [] within h u = absurd h
HasUniqueIds-Evolve Allowed base (r ∷ rs) (y ∷ ys) within h u = (
  IsFresh-Evolve Allowed y.run_id r base rs ys (within r (inl refl))
      (sym (MoveOrStay-run_id Allowed h.0)) h.1
      (subst (λ k. IsFresh k rs) (sym (MoveOrStay-run_id Allowed h.0)) u.0),
  HasUniqueIds-Evolve Allowed base rs ys (λ x i. within x (inr i)) h.1 u.1,
)

-- A lookup that finds nothing makes the identifier fresh.
pub find-none-IsFresh :
    (k : String) (rs : List Run) → find (λ x. x.run_id == k) rs ≡ none → IsFresh k rs
find-none-IsFresh k [] e = tt
find-none-IsFresh k (r ∷ rs) e = elim (Bool-cases (r.run_id == k)) [
  | inl t ↦ let no : some r ≡ none = rw t at e in cc
  | inr t ↦ (ground (arith, eq_iff r.run_id k), find-none-IsFresh k rs (rw t at e))
]
