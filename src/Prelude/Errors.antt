-- ===== src/Prelude/Errors.antt =====
-- Code that throws: `err` carries what is thrown.
use mathlib.Core.Path.{◌≡◌, refl, sym, ap, subst, ◌∙◌}
use mathlib.Core.Logic.{◌⊎◌, inl, inr}
use mathlib.Core.Bool.{Bool, true, false}
use ehfconcept.Prelude.Tests.{if◌then◌else◌}

pub data Result (E A : Type 0) : Type 0 where
  ok : A → Result E A
  err : E → Result E A

module _ {E A B : Type 0} where
  infixl 5 ◌>>=◌ ◌>>◌
  abbrev pub ◌>>=◌ : Result E A → (A → Result E B) → Result E B
  ok a >>= f = f a
  err e >>= f = err e

  abbrev pub ◌>>◌ : Result E A → Result E B → Result E B
  m >> k = m >>= λ _. k

-- `if (!b) throw e`.
abbrev pub require : {E : Type 0} → Bool → E → Result E (Unit {0})
require true e = ok tt
require false e = err e

-- `if (b) throw e`.
abbrev pub forbid : {E : Type 0} → Bool → E → Result E (Unit {0})
forbid true e = err e
forbid false e = ok tt

module _ {E A : Type 0} where
  -- What holds of a result, where there is one.
  abbrev pub Yields : (A → Type 0) → Result E A → Type 0
  Yields P (ok a) = P a
  Yields P (err e) = Unit

  pub Yields-ok : (P : A → Type 0) (r : Result E A) (a : A) → Yields P r → r ≡ ok a → P a
  Yields-ok P (ok b) a y e = subst P (ap (λ r. given r b) e) y
    where
      given : Result E A → A → A
      given (ok x) d = x
      given (err x) d = d
  Yields-ok P (err b) a y e = absurd (cc e)

module _ {E A B : Type 0} where
  pub Yields-bind :
      (P : B → Type 0) (m : Result E A) (f : A → Result E B)
      → ((a : A) → Yields P (f a))
      → Yields P (m >>= f)
  Yields-bind P (ok a) f h = h a
  Yields-bind P (err e) f h = tt

  pub Yields-bind_with :
      (P : B → Type 0) (m : Result E A) (f : A → Result E B)
      → ((a : A) → m ≡ ok a → Yields P (f a))
      → Yields P (m >>= f)
  Yields-bind_with P (ok a) f h = h a refl
  Yields-bind_with P (err e) f h = tt

module _ {E B : Type 0} where
  pub Yields-require :
      (P : B → Type 0) (b : Bool) (e : E) (k : Unit {0} → Result E B)
      → (b ≡ true → Yields P (k tt))
      → Yields P (require b e >>= k)
  Yields-require P true e k h = h refl
  Yields-require P false e k h = tt

  pub Yields-forbid :
      (P : B → Type 0) (b : Bool) (e : E) (k : Unit {0} → Result E B)
      → (b ≡ false → Yields P (k tt))
      → Yields P (forbid b e >>= k)
  Yields-forbid P true e k h = tt
  Yields-forbid P false e k h = h refl

module _ {E A : Type 0} where
  pub Yields-weaken :
      (P Q : A → Type 0) (r : Result E A) → ((a : A) → P a → Q a) → Yields P r → Yields Q r
  Yields-weaken P Q (ok a) h y = h a y
  Yields-weaken P Q (err e) h y = tt

  answer : A → Result E A → A
  answer d (ok x) = x
  answer d (err x) = d

  -- What is given for an answer is one value.
  pub ok-inj : (r : Result E A) (a b : A) → r ≡ ok a → r ≡ ok b → a ≡ b
  unfolding answer
  ok-inj r a b e e' = sym (ap (answer a) e) ∙ ap (answer a) e'

module _ {E A : Type 0} where
  -- A write that a test refuses.
  pub unless-ok :
      (b : Bool) (e : E) (x y : A)
      → if◌then◌else◌ {A = Result E A} b (err e) (ok x) ≡ ok y
      → (b ≡ false) × (y ≡ x)
  unless-ok true e x y h = absurd (cc h)
  unless-ok false e x y h = (refl, sym (ok-inj (ok x) x y refl h))

module _ {E : Type 0} where
  pub Yields-last :
      (P : Unit {0} → Type 0) (b : Bool) (e : E) → (b ≡ true → P tt) → Yields P (require b e)
  Yields-last P true e h = h refl
  Yields-last P false e h = tt

pub Result-cases :
    {E A : Type 0} (r : Result E A) → ((e : E) × (r ≡ err e)) ⊎ ((a : A) × (r ≡ ok a))
Result-cases (err e) = inl (e, refl)
Result-cases (ok a) = inr (a, refl)
