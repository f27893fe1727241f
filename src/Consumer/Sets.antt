-- ===== src/Consumer/Sets.antt =====
-- The containers of sequence numbers: an ordered set, a `SeqTimeoutsContainer`, and a map of counts.
use inc_sim.Base.{
  ℕ, ◌+◌, ◌%◌, ◌≡◌, Bool, false, not, ◌&&◌, ◌||◌, Option, none, some, List, [], ◌∷◌, if◌then◌else◌,
  ltb, ◌==◌, arith,
}
use inc_sim.Base.Number.{u32}

-- `std::set<uint32_t>`, in order.
unfoldable pub has_seq : ℕ → List ℕ → Bool
has_seq k [] = false
has_seq k (x ∷ xs) = (x == k) || has_seq k xs

unfoldable pub insert_seq : ℕ → List ℕ → List ℕ
insert_seq k [] = k ∷ []
insert_seq k (x ∷ xs) =
    let rest = insert_seq k xs in
    if k == x then x ∷ xs else if ltb k x then k ∷ x ∷ xs else x ∷ rest

unfoldable pub erase_seq : ℕ → List ℕ → List ℕ
erase_seq k [] = []
erase_seq k (x ∷ xs) = let rest = erase_seq k xs in if x == k then rest else x ∷ rest

pub has_seq-insert_seq :
    (j k : ℕ) (xs : List ℕ) → has_seq k (insert_seq j xs) ≡ (j == k || has_seq k xs)
unfolding has_seq insert_seq
has_seq-insert_seq j k [] = ground arith
has_seq-insert_seq j k (x ∷ xs) = ground (arith, has_seq-insert_seq j k xs)

pub has_seq-erase_seq :
    (j k : ℕ) (xs : List ℕ) → has_seq k (erase_seq j xs) ≡ (not (j == k) && has_seq k xs)
unfolding has_seq erase_seq
has_seq-erase_seq j k [] = ground arith
has_seq-erase_seq j k (x ∷ xs) = ground (arith, has_seq-erase_seq j k xs)

-- `m[k]++` and `m.erase (k)` of a map of counts, `m[k]` being 0 where there is no entry.
unfoldable pub count_of : ℕ → List (ℕ × ℕ) → ℕ
count_of k [] = 0
count_of k ((j, n) ∷ m) = let rest = count_of k m in if j == k then n else rest

unfoldable pub bump_count : ℕ → List (ℕ × ℕ) → List (ℕ × ℕ)
bump_count k [] = (k, 1) ∷ []
bump_count k ((j, n) ∷ m) =
    let rest = bump_count k m in if j == k then (j, (n + 1) % u32) ∷ m else (j, n) ∷ rest

unfoldable pub erase_count : ℕ → List (ℕ × ℕ) → List (ℕ × ℕ)
erase_count k [] = []
erase_count k ((j, n) ∷ m) = let rest = erase_count k m in if j == k then rest else (j, n) ∷ rest

pub count_of-bump_count :
    (j k : ℕ) (m : List (ℕ × ℕ))
    → count_of k (bump_count j m) ≡ (if j == k then (count_of j m + 1) % u32 else count_of k m)
unfolding count_of bump_count
count_of-bump_count j k [] = ground arith
count_of-bump_count j k ((i, n) ∷ m) = ground (arith, count_of-bump_count j k m)

pub count_of-erase_count :
    (j k : ℕ) (m : List (ℕ × ℕ))
    → count_of k (erase_count j m) ≡ (if j == k then 0 else count_of k m)
unfolding count_of erase_count
count_of-erase_count j k [] = ground arith
count_of-erase_count j k ((i, n) ∷ m) = ground (arith, count_of-erase_count j k m)

module _ {T : Type 0} where
  unfoldable pub find_time : ℕ → List (ℕ × T) → Option T
  find_time k [] = none
  find_time k ((j, t) ∷ es) = let rest = find_time k es in if j == k then some t else rest

  unfoldable pub erase_time : ℕ → List (ℕ × T) → List (ℕ × T)
  erase_time k [] = []
  erase_time k ((j, t) ∷ es) = let rest = erase_time k es in if j == k then rest else (j, t) ∷ rest

  pub find_time-erase_time :
      (j k : ℕ) (es : List (ℕ × T))
      → find_time k (erase_time j es) ≡ (if j == k then none else find_time k es)
  unfolding find_time erase_time
  find_time-erase_time j k [] = ground arith
  find_time-erase_time j k ((i, t) ∷ es) = ground (arith, find_time-erase_time j k es)

  -- No number has two entries.
  abbrev pub Distinct : List (ℕ × T) → Type 0
  Distinct [] = Unit {0}
  Distinct ((k, t) ∷ es) = (find_time k es ≡ none) × Distinct es

  pub erase_time-Distinct : (j : ℕ) (es : List (ℕ × T)) → Distinct es → Distinct (erase_time j es)
  unfolding erase_time
  erase_time-Distinct j [] d = tt
  erase_time-Distinct j ((k, t) ∷ es) d =
      ground (arith, find_time-erase_time j k es, erase_time-Distinct j es d.1)

  module _ (at_most : T → T → Bool) where
    -- In the order of the times, behind entries of the same time.
    unfoldable pub place : ℕ → T → List (ℕ × T) → List (ℕ × T)
    place k t [] = (k, t) ∷ []
    place k t ((j, u) ∷ es) =
        let rest = place k t es in if at_most u t then (j, u) ∷ rest else (k, t) ∷ (j, u) ∷ es

    -- `insert (SeqTimeout (k, t))`; an entry of that number stays.
    unfoldable pub insert_time : ℕ → T → List (ℕ × T) → List (ℕ × T)
    unfolding find_time place
    insert_time k t es = elim (find_time k es) [ none ↦ place k t es | some u ↦ es ]

    find_time-place :
        (j k : ℕ) (t : T) (es : List (ℕ × T))
        → find_time j es ≡ none
        → find_time k (place j t es) ≡ (if j == k then some t else find_time k es)
    unfolding find_time place
    find_time-place j k t [] h = ground arith
    find_time-place j k t ((i, u) ∷ es) h = ground (arith, find_time-place j k t es)

    pub find_time-insert_time :
        (j k : ℕ) (t : T) (es : List (ℕ × T))
        → find_time k (insert_time j t es) ≡ (
            if j == k
            then elim (find_time j es) [ none ↦ some t | some u ↦ some u ]
            else find_time k es)
    unfolding insert_time
    find_time-insert_time j k t es = ground (arith, find_time-place j k t es)

    place-Distinct :
        (k : ℕ) (t : T) (es : List (ℕ × T))
        → find_time k es ≡ none
        → Distinct es
        → Distinct (place k t es)
    unfolding find_time place
    place-Distinct k t [] h d = ground arith
    place-Distinct k t ((j, u) ∷ es) h d =
        ground (arith, find_time-place k j t es, place-Distinct k t es)

    pub insert_time-Distinct :
        (k : ℕ) (t : T) (es : List (ℕ × T)) → Distinct es → Distinct (insert_time k t es)
    unfolding insert_time
    insert_time-Distinct k t es d = ground (arith, place-Distinct k t es)
