-- ===== src/Base/Gives.antt =====
-- Postconditions of calls that may fail: what holds of the value if there is one, with a rule for
-- each way to build a call.
use mathlib.Core.Path.{◌≡◌, refl, ap, subst, sym}
use mathlib.Core.Bool.{Bool, true, false}
use inc_sim.Base.Tests.{if◌then◌else◌}
use inc_sim.Base.Outcome.{Fault, Outcome, ok, err, ◌>>=◌}

pub record Gives {ℓ κ} {A : Type ℓ} (P : A → Type κ) (m : Outcome A) : Type (ℓ ⊔ κ) where
  pub at : (a : A) → m ≡ ok a → P a

value_of {ℓ} : {A : Type ℓ} → A → Outcome A → A
value_of d (ok a) = a
value_of d (err e) = d

module _ {ℓ κ} {A : Type ℓ} {P : A → Type κ} where
  pub Gives-ok : (a : A) → P a → Gives P (ok a)
  unfolding value_of
  Gives-ok a p = record { at = λ a' e. subst P (ap (value_of a) e) p }

  pub Gives-err : (e : Fault) → Gives P (err e)
  Gives-err e = record { at = λ a h. cc }

  pub Gives-if : (c : Bool) (m n : Outcome A) → Gives P m → Gives P n → Gives P (if c then m else n)
  Gives-if true m n p q = p
  Gives-if false m n p q = q

module _ {ℓ κ} {A : Type ℓ} {P : A → Type κ} where
  -- The same, with the condition.
  pub Gives-when :
      (c : Bool) (m n : Outcome A)
      → (c ≡ true → Gives P m)
      → (c ≡ false → Gives P n)
      → Gives P (if c then m else n)
  Gives-when true m n p q = p refl
  Gives-when false m n p q = q refl

module _ {ℓ κ ι} {A : Type ℓ} {B : Type κ} {P : B → Type ι} where
  -- What follows a call may use that it succeeded.
  pub Gives-bind :
      (m : Outcome A) (f : A → Outcome B) → ((a : A) → m ≡ ok a → Gives P (f a)) → Gives P (m >>= f)
  Gives-bind (ok a) f k = k a refl
  Gives-bind (err e) f k = Gives-err e

-- Total correctness: the call gives a value, of which something holds.
pub record Succeeds {ℓ κ} {A : Type ℓ} (P : A → Type κ) (m : Outcome A) : Type (ℓ ⊔ κ) where
  pub value : A
  pub returns : m ≡ ok value
  pub holds : P value

module _ {ℓ κ} {A : Type ℓ} {P : A → Type κ} where
  pub Succeeds-ok : (a : A) → P a → Succeeds P (ok a)
  Succeeds-ok a p = record { value = a; returns = refl; holds = p }

  -- Each branch may use its condition.
  pub Succeeds-if :
      (c : Bool) (m n : Outcome A)
      → (c ≡ true → Succeeds P m)
      → (c ≡ false → Succeeds P n)
      → Succeeds P (if c then m else n)
  Succeeds-if true m n p q = p refl
  Succeeds-if false m n p q = q refl

  pub Succeeds-bind {ι} :
      {B : Type ι} (m : Outcome B) (b : B) (f : B → Outcome A)
      → m ≡ ok b
      → Succeeds P (f b)
      → Succeeds P (m >>= f)
  Succeeds-bind m b f e s = subst (λ x. Succeeds P (x >>= f)) (sym e) s

module _ {ℓ κ ι} {A : Type ℓ} {P : A → Type κ} {Q : A → Type ι} where
  pub Succeeds-mono : (m : Outcome A) → ((a : A) → P a → Q a) → Succeeds P m → Succeeds Q m
  Succeeds-mono m f s = record { value = s.value; returns = s.returns; holds = f s.value s.holds }
