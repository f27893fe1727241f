-- ===== src/Base/Outcome.antt =====
-- What a call gives where the source can fail: a value, an exception of the standard library, or
-- behaviour that C++ leaves undefined. None of the code modelled catches an exception, so the state
-- behind one is not kept.
use mathlib.Core.Path.{◌≡◌, refl}
use mathlib.Core.Option.{Option, none, some}
use mathlib.Core.List.{List}
use Prim.Native.Nat.{ℕ}
use inc_sim.Base.Lists.{get_elem?}

pub data Fault : Type 0 where
  -- `std::out_of_range` and `std::invalid_argument`
  out_of_range invalid_argument : Fault
  -- control flows off the end of a function that returns a value
  no_return : Fault
  -- `operator[]` outside a vector
  bad_index : Fault
  -- a member access through a null pointer
  null_pointer : Fault
  -- the value of a variable that has none is read
  uninitialized : Fault
  -- `NS_FATAL_ERROR` or a failed `NS_ASSERT` of ns-3 ends the program
  aborted : Fault

pub data Outcome {ℓ} (A : Type ℓ) : Type ℓ where
  ok : A → Outcome A
  err : Fault → Outcome A

infixl 5 ◌>>=◌
abbrev pub ◌>>=◌ {ℓ κ} : {A : Type ℓ} {B : Type κ} → Outcome A → (A → Outcome B) → Outcome B
ok a >>= f = f a
err e >>= f = err e

abbrev pub or_fault {ℓ} : {A : Type ℓ} → Option A → Fault → Outcome A
or_fault none e = err e
or_fault (some a) e = ok a

-- `v.at(i)`
abbrev pub at {ℓ} : {A : Type ℓ} → List A → ℕ → Outcome A
at xs i = or_fault (get_elem? xs i) out_of_range

-- `v[i]`
abbrev pub index {ℓ} : {A : Type ℓ} → List A → ℕ → Outcome A
index xs i = or_fault (get_elem? xs i) bad_index

-- A chain that gives a value was given one by its first call.
pub >>=-eq-ok {ℓ κ} :
    {A : Type ℓ} {B : Type κ} (call : Outcome A) (rest : A → Outcome B) {last : B}
    → (call >>= rest) ≡ ok last
    → (first : A) × (call ≡ ok first) × (rest first ≡ ok last)
>>=-eq-ok (err fault) rest e = cc
>>=-eq-ok (ok first) rest e = (first, refl, e)
