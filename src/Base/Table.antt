-- ===== src/Base/Table.antt =====
-- `std::map<std::string, V>` as the list of its entries in the order of its iterators.
use mathlib.Core.Path.{◌≡◌, refl}
use mathlib.Core.Logic.{inl, inr}
use mathlib.Core.Bool.{Bool, true, false}
use mathlib.Core.Option.{Option, none, some}
use mathlib.Core.List.{List, [], ◌∷◌}
use native.Mathlib.Omega.{arith}
use inc_sim.Base.Tests.{if◌then◌else◌, Bool-cases}
use inc_sim.Base.Text.{
  Text, text_eq, text_lt, text_eq_iff, text_lt_irrefl, text_lt_trans, text_lt_total,
}

abbrev pub Table {ℓ} : Type ℓ → Type ℓ
Table V = List (Text × V)

module _ {ℓ} {V : Type ℓ} where
  -- `m.find(k)`, `none` for `m.end()`
  unfoldable pub find : Text → Table V → Option V
  find k [] = none
  find k ((j, v) ∷ m) = if text_eq j k then some v else find k m

  -- `m.insert({k, v})`: whether it was inserted, and the map; an entry of that key stays.
  unfoldable pub insert : Text → V → Table V → Bool × Table V
  insert k v [] = (true, (k, v) ∷ [])
  insert k v ((j, w) ∷ m) =
      let rest : Bool × Table V = insert k v m in
      if text_eq j k
      then (false, (j, w) ∷ m)
      else if text_lt k j
      then (true, (k, v) ∷ (j, w) ∷ m)
      else (rest.0, (j, w) ∷ rest.1)

  -- A write through the iterator that `find` returned; nothing if there is no entry.
  unfoldable pub update : Text → (V → V) → Table V → Table V
  update k f [] = []
  update k f ((j, v) ∷ m) = if text_eq j k then (j, f v) ∷ m else (j, v) ∷ update k f m

  -- `m.emplace(k, v)` of a map without an order: an entry of that key stays.
  unfoldable pub emplace : Text → V → Table V → Table V
  emplace k v [] = (k, v) ∷ []
  emplace k v ((j, w) ∷ m) =
      let rest = emplace k v m in if text_eq j k then (j, w) ∷ m else (j, w) ∷ rest

  abbrev pub keys : Table V → List Text
  keys [] = []
  keys ((j, v) ∷ m) = j ∷ keys m

  -- All keys of `m` come after `k`.
  abbrev pub Above : Text → Table V → Type 0
  Above k [] = Unit {0}
  Above k ((j, v) ∷ m) = (text_lt k j ≡ true) × Above j m

  -- The keys ascend, so that none occurs twice.
  abbrev pub IsSorted : Table V → Type 0
  IsSorted [] = Unit {0}
  IsSorted ((j, v) ∷ m) = Above j m

  pub find-update :
      (k j : Text) (f : V → V) (v : V) (m : Table V)
      → find k m ≡ some v
      → find j (update k f m) ≡ (if text_eq k j then some (f v) else find j m)
  unfolding find update
  find-update k j f v [] h = cc
  find-update k j f v ((i, w) ∷ m) h =
      ground (arith, text_eq_iff i k, text_eq_iff i j, text_eq_iff k j, find-update k j f v m)

  pub find-update_ne :
      (k j : Text) (f : V → V) (m : Table V)
      → text_eq k j ≡ false
      → find j (update k f m) ≡ find j m
  unfolding find update
  find-update_ne k j f [] h = refl
  find-update_ne k j f ((i, w) ∷ m) h =
      ground (arith, text_eq_iff i k, text_eq_iff i j, text_eq_iff k j, find-update_ne k j f m)

  pub keys-update : (k : Text) (f : V → V) (m : Table V) → keys (update k f m) ≡ keys m
  unfolding update
  keys-update k f [] = refl
  keys-update k f ((j, v) ∷ m) = ground (arith, keys-update k f m)

  Above-lt : (a b : Text) (m : Table V) → text_lt a b ≡ true → Above b m → Above a m
  Above-lt a b [] h s = tt
  Above-lt a b ((j, v) ∷ m) h s = (text_lt_trans a b j h s.0, s.1)

  find-Above : (k : Text) (m : Table V) → Above k m → find k m ≡ none
  unfolding find
  find-Above k [] s = refl
  find-Above k ((j, v) ∷ m) s =
      ground (arith, text_eq_iff j k, text_lt_irrefl k, find-Above k m (Above-lt k j m s.0 s.1))

  insert-Above :
      (a k : Text) (v : V) (m : Table V) → text_lt a k ≡ true → Above a m → Above a (insert k v m).1
  unfolding insert
  insert-Above a k v [] h s = (h, tt)
  insert-Above a k v ((j, w) ∷ m) h s = elim (Bool-cases (text_eq j k)) [
    | inl e ↦ ground (arith, e)
    | inr n ↦ elim (Bool-cases (text_lt k j)) [
      | inl e ↦ ground (arith, e, n)
      | inr o ↦ ground (arith, n, o, insert-Above j k v m (text_lt_total k j (flip n) o) s.1)
    ]
  ]
    where
      flip : text_eq j k ≡ false → text_eq k j ≡ false
      flip n = ground (arith, text_eq_iff j k, text_eq_iff k j)

  -- An insertion keeps the keys ascending.
  pub insert-IsSorted : (k : Text) (v : V) (m : Table V) → IsSorted m → IsSorted (insert k v m).1
  unfolding insert
  insert-IsSorted k v [] s = tt
  insert-IsSorted k v ((j, w) ∷ m) s =
      ground (arith, text_eq_iff j k, text_eq_iff k j, text_lt_total k j, insert-Above j k v m)

  update-Above : (a k : Text) (f : V → V) (m : Table V) → Above a m → Above a (update k f m)
  unfolding update
  update-Above a k f [] s = tt
  update-Above a k f ((j, v) ∷ m) s = ground (arith, update-Above j k f m s.1)

  pub update-IsSorted : (k : Text) (f : V → V) (m : Table V) → IsSorted m → IsSorted (update k f m)
  unfolding update
  update-IsSorted k f [] s = tt
  update-IsSorted k f ((j, v) ∷ m) s = ground (arith, update-Above j k f m s)

  Above-IsSorted : (a : Text) (m : Table V) → Above a m → IsSorted m
  Above-IsSorted a [] s = tt
  Above-IsSorted a ((b, u) ∷ m) s = s.1

  find_below : (a b : Text) (m : Table V) → Above b m → text_lt a b ≡ true → find a m ≡ none
  find_below a b m s h = find-Above a m (Above-lt a b m h s)

  -- After an insertion the old entry of the key is found, or else the new one.
  pub find-insert :
      (k j : Text) (v : V) (m : Table V)
      → IsSorted m
      → find j (insert k v m).1
        ≡ (if text_eq k j then elim (find k m) [ none ↦ some v | some w ↦ some w ] else find j m)
  unfolding find insert
  find-insert k j v [] s = refl
  find-insert k j v ((i, w) ∷ m) s = ground (
    arith,
    text_eq_iff i k,
    text_eq_iff i j,
    text_eq_iff k j,
    find-insert k j v m (Above-IsSorted i m s),
    find_below k i m s,
  )

  -- It says whether the key was new.
  pub insert-new :
      (k : Text) (v : V) (m : Table V)
      → IsSorted m
      → (insert k v m).0 ≡ elim (find k m) [ none ↦ true | some w ↦ false ]
  unfolding find insert
  insert-new k v [] s = refl
  insert-new k v ((i, w) ∷ m) s =
      ground (arith, insert-new k v m (Above-IsSorted i m s), find_below k i m s)

  -- The same of a new key, in whatever order the entries stand.
  pub find-insert_new :
      (k : Text) (v : V) (m : Table V) → find k m ≡ none → find k (insert k v m).1 ≡ some v
  unfolding find insert
  find-insert_new k v [] h = ground (arith, text_eq_iff k k)
  find-insert_new k v ((i, w) ∷ m) h = ground (arith, text_eq_iff k k, find-insert_new k v m)

  pub find-insert_ne :
      (k j : Text) (v : V) (m : Table V) → text_eq k j ≡ false → find j (insert k v m).1 ≡ find j m
  unfolding find insert
  find-insert_ne k j v [] h = ground (arith, h)
  find-insert_ne k j v ((i, w) ∷ m) h =
      ground (arith, text_eq_iff i k, text_eq_iff i j, text_eq_iff k j, find-insert_ne k j v m)

  -- The same of a map without an order, whatever its entries.
  pub find-emplace :
      (k j : Text) (v : V) (m : Table V)
      → find j (emplace k v m)
        ≡ (if text_eq k j then elim (find k m) [ none ↦ some v | some w ↦ some w ] else find j m)
  unfolding find emplace
  find-emplace k j v [] = refl
  find-emplace k j v ((i, w) ∷ m) =
      ground (arith, text_eq_iff i k, text_eq_iff i j, text_eq_iff k j, find-emplace k j v m)

pub ruleset table_laws = (find-update, find-update_ne, keys-update)
