-- ===== src/Base/Turned.antt =====
-- Lists turned round, for loops that go down from the last position.
use Prim.Native.Nat.{ℕ, suc, ◌+◌}
use mathlib.Core.Path.{◌≡◌, refl, ap, ◌∙◌}
use mathlib.Core.Bool.{Bool, ◌||◌}
use mathlib.Core.List.{List, [], ◌∷◌, map}
use native.Mathlib.Omega.{arith}
use inc_sim.Base.Lists.{length, any, set, get_elem?}

module _ {ℓ} {A : Type ℓ} where
  -- The first list turned round, in front of the second.
  abbrev pub turned : List A → List A → List A
  turned [] ys = ys
  turned (x ∷ xs) ys = turned xs (x ∷ ys)

  get_elem?-turned :
      (xs ys : List A) (k : ℕ) → get_elem? (turned xs ys) (length xs + k) ≡ get_elem? ys k
  get_elem?-turned [] ys k = let moved : 0 + k ≡ k = omega arith in ap (get_elem? ys) moved
  get_elem?-turned (x ∷ xs) ys k =
      let moved : suc (length xs) + k ≡ length xs + suc k = omega arith in
      ap (get_elem? (turned xs (x ∷ ys))) moved ∙ get_elem?-turned xs (x ∷ ys) (suc k)

  set-turned :
      (xs ys : List A) (k : ℕ) (v : A)
      → set (turned xs ys) (length xs + k) v ≡ turned xs (set ys k v)
  set-turned [] ys k v = let moved : 0 + k ≡ k = omega arith in ap (λ n. set ys n v) moved
  set-turned (x ∷ xs) ys k v =
      let moved : suc (length xs) + k ≡ length xs + suc k = omega arith in
      ap (λ n. set (turned xs (x ∷ ys)) n v) moved ∙ set-turned xs (x ∷ ys) (suc k) v

  -- The place behind two lists that are turned round.
  pub get_elem?-turned2 :
      (xs ys zs : List A)
      → get_elem? (turned xs (turned ys zs)) (length ys + length xs) ≡ get_elem? zs 0
  get_elem?-turned2 xs ys zs =
      let moved : length ys + length xs ≡ length xs + (length ys + 0) = omega arith in
      ap (get_elem? (turned xs (turned ys zs))) moved
      ∙ get_elem?-turned xs (turned ys zs) (length ys + 0)
      ∙ get_elem?-turned ys zs 0

  pub set-turned2 :
      (xs ys zs : List A) (v : A)
      → set (turned xs (turned ys zs)) (length ys + length xs) v
        ≡ turned xs (turned ys (set zs 0 v))
  set-turned2 xs ys zs v =
      let moved : length ys + length xs ≡ length xs + (length ys + 0) = omega arith in
      ap (λ n. set (turned xs (turned ys zs)) n v) moved
      ∙ set-turned xs (turned ys zs) (length ys + 0) v
      ∙ ap (turned xs) (set-turned ys zs 0 v)

  pub turned-again : (xs ys : List A) → turned (turned xs ys) [] ≡ turned ys xs
  turned-again [] ys = refl
  turned-again (x ∷ xs) ys = turned-again xs (x ∷ ys)

  pub length-turned : (xs ys : List A) → length (turned xs ys) ≡ length xs + length ys
  length-turned [] ys = omega arith
  length-turned (x ∷ xs) ys = omega (arith, length-turned xs (x ∷ ys))

  pub any-turned : (p : A → Bool) (xs ys : List A) → any p (turned xs ys) ≡ (any p xs || any p ys)
  any-turned p [] ys = refl
  any-turned p (x ∷ xs) ys = ground (arith, any-turned p xs (x ∷ ys))

  pub map-turned :
      (f : A → A) (xs ys : List A) → map f (turned xs ys) ≡ turned (map f xs) (map f ys)
  map-turned f [] ys = refl
  map-turned f (x ∷ xs) ys = map-turned f xs (x ∷ ys)
