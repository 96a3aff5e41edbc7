-- ===== src/Prelude/Table.antt =====
-- Tables of a database, as the statements of the source use them.
use Prim.Native.Nat.{ℕ, suc}
use mathlib.Core.Path.{◌≡◌, refl}
use mathlib.Core.Bool.{Bool}
use mathlib.Core.Option.{Option, none, some}
use mathlib.Core.List.{List, [], ◌∷◌}
use native.Mathlib.Omega.{arith}
use ehfconcept.Prelude.Tests.{or_else, is_some, if◌then◌else◌}
use ehfconcept.Prelude.Lists.{All}

module _ {ℓ} {A : Type ℓ} where
  -- `update t set ... where ...`: `f` gives the new row where the condition holds.
  unfoldable pub update_rows : (A → Option A) → List A → List A
  update_rows f [] = []
  update_rows f (r ∷ rs) = or_else (f r) r ∷ update_rows f rs

  -- The statement's `rowCount`.
  unfoldable pub row_count : (A → Option A) → List A → ℕ
  row_count f [] = 0
  row_count f (r ∷ rs) = let rest = row_count f rs in if is_some (f r) then suc rest else rest

  -- The first row that an `update ... returning` gives back.
  unfoldable pub returned : (A → Option A) → List A → Option A
  returned f [] = none
  returned f (r ∷ rs) = let rest = returned f rs in elim (f r) [ none ↦ rest | some r' ↦ some r' ]

  -- `delete from t where p`.
  unfoldable pub delete_rows : (A → Bool) → List A → List A
  delete_rows p [] = []
  delete_rows p (r ∷ rs) = let rest = delete_rows p rs in if p r then rest else r ∷ rest

  pub All-update_rows {κ} :
      (P : A → Type κ) (f : A → Option A) (rs : List A)
      → ((r : A) → P r → P (or_else (f r) r))
      → All P rs
      → All P (update_rows f rs)
  unfolding update_rows
  All-update_rows P f [] keep h = h
  All-update_rows P f (r ∷ rs) keep h = (keep r h.0, All-update_rows P f rs keep h.1)

  -- A statement whose condition holds of no row changes nothing and counts nothing.
  pub update_rows-none :
      (f : A → Option A) (rs : List A)
      → All (λ r. f r ≡ none) rs
      → (update_rows f rs ≡ rs) × (row_count f rs ≡ 0)
  unfolding update_rows row_count
  update_rows-none f [] h = (refl, refl)
  update_rows-none f (r ∷ rs) h = ground (arith, update_rows-none f rs h.1, h.0)

  -- The same where the predicate changes with the statement.
  pub All-update_rows_to {κ} :
      (P Q : A → Type κ) (f : A → Option A) (rs : List A)
      → ((r : A) → P r → Q (or_else (f r) r))
      → All P rs
      → All Q (update_rows f rs)
  unfolding update_rows
  All-update_rows_to P Q f [] keep h = h
  All-update_rows_to P Q f (r ∷ rs) keep h = (keep r h.0, All-update_rows_to P Q f rs keep h.1)
