-- ===== src/Consumer/Ledger.antt =====
-- The numbers that wait for data and those that are to be sent again, without the rest of the app.
use inc_sim.Base.{
  ℕ, ◌+◌, ◌<◌, ◌≤◌, ◌≡◌, Bool, true, false, ◌&&◌, ◌||◌, none, some, List, [], ◌∷◌, arith,
}
use inc_sim.Consumer.Sets.{
  has_seq, insert_seq, erase_seq, has_seq-insert_seq, has_seq-erase_seq, find_time, insert_time,
  erase_time, find_time-insert_time, find_time-erase_time, Distinct, insert_time-Distinct,
  erase_time-Distinct,
}

-- The numbers ascend from above `a`.
abbrev pub Above : ℕ → List ℕ → Type 0
Above a [] = Unit {0}
Above a (x ∷ xs) = (a < x) × Above x xs

abbrev pub Ascending : List ℕ → Type 0
Ascending [] = Unit {0}
Ascending (x ∷ xs) = Above x xs

Above-lower : (a b : ℕ) (xs : List ℕ) → a ≤ b → Above b xs → Above a xs
Above-lower a b [] h s = tt
Above-lower a b (x ∷ xs) h s = ground (arith, h, s)

pub has_seq-Above : (a k : ℕ) (xs : List ℕ) → k ≤ a → Above a xs → has_seq k xs ≡ false
unfolding has_seq
has_seq-Above a k [] h s = ground arith
has_seq-Above a k (x ∷ xs) h s = ground (arith, has_seq-Above x k xs)

pub Above-Ascending : (a : ℕ) (xs : List ℕ) → Above a xs → Ascending xs
Above-Ascending a [] s = tt
Above-Ascending a (x ∷ xs) s = s.1

insert_seq-Above : (a k : ℕ) (xs : List ℕ) → a < k → Above a xs → Above a (insert_seq k xs)
unfolding insert_seq
insert_seq-Above a k [] h s = ground arith
insert_seq-Above a k (x ∷ xs) h s = ground (arith, insert_seq-Above x k xs)

insert_seq-Ascending : (k : ℕ) (xs : List ℕ) → Ascending xs → Ascending (insert_seq k xs)
unfolding insert_seq
insert_seq-Ascending k [] s = ground arith
insert_seq-Ascending k (x ∷ xs) s = ground (arith, insert_seq-Above x k xs)

erase_seq-Above : (a k : ℕ) (xs : List ℕ) → Above a xs → Above a (erase_seq k xs)
unfolding erase_seq
erase_seq-Above a k [] s = tt
erase_seq-Above a k (x ∷ xs) s =
    ground (arith, erase_seq-Above x k xs, Above-lower a x (erase_seq k xs))

erase_seq-Ascending : (k : ℕ) (xs : List ℕ) → Ascending xs → Ascending (erase_seq k xs)
unfolding erase_seq
erase_seq-Ascending k [] s = tt
erase_seq-Ascending k (x ∷ xs) s =
    ground (arith, erase_seq-Above x k xs, Above-Ascending x (erase_seq k xs))

module _ {T : Type 0} where
  abbrev pub waits_in : ℕ → List (ℕ × T) → Bool
  waits_in k ts = elim (find_time k ts) [ none ↦ false | some t ↦ true ]

  -- No number both waits and is to be sent again, and all are below `s`.
  pub record Ledger (ts : List (ℕ × T)) (rs : List ℕ) (s : ℕ) : Type 0 where
    pub distinct : Distinct ts
    pub ascending : Ascending rs
    pub apart : (k : ℕ) → (waits_in k ts && has_seq k rs) ≡ false
    pub below : (k : ℕ) → (waits_in k ts || has_seq k rs) ≡ true → k < s

  module _ (at_most : T → T → Bool) (now : T) where
    pub new-Ledger :
        (ts : List (ℕ × T)) (rs : List ℕ) (s : ℕ)
        → Ledger ts rs s
        → Ledger (insert_time at_most s now ts) rs (s + 1)
    new-Ledger ts rs s l = record {
      distinct = insert_time-Distinct at_most s now ts l.distinct;
      ascending = l.ascending;
      apart = λ k. ground (arith, find_time-insert_time at_most s k now ts, l.apart k, l.below k);
      below = λ k h. ground (arith, find_time-insert_time at_most s k now ts, l.below k);
    }

    pub again-Ledger :
        (ts : List (ℕ × T)) (r s : ℕ) (rs : List ℕ)
        → Ledger ts (r ∷ rs) s
        → Ledger (insert_time at_most r now ts) rs s
    unfolding has_seq
    again-Ledger ts r s rs l = record {
      distinct = insert_time-Distinct at_most r now ts l.distinct;
      ascending = Above-Ascending r rs l.ascending;
      apart = λ k. ground (
        arith,
        find_time-insert_time at_most r k now ts,
        l.apart k,
        has_seq-Above r k rs,
        l.ascending,
      );
      below = λ k h. ground (arith, find_time-insert_time at_most r k now ts, l.below k);
    }

  pub timeout-Ledger :
      (k : ℕ) (t : T) (ts : List (ℕ × T)) (rs : List ℕ) (s : ℕ)
      → Ledger ((k, t) ∷ ts) rs s
      → Ledger ts (insert_seq k rs) s
  unfolding find_time
  timeout-Ledger k t ts rs s l = record {
    distinct = l.distinct.1;
    ascending = insert_seq-Ascending k rs l.ascending;
    apart = λ j. ground (arith, has_seq-insert_seq k j rs, l.apart j, l.distinct);
    below = λ j h. ground (arith, has_seq-insert_seq k j rs, l.below j);
  }

  pub answer-Ledger :
      (k : ℕ) (ts : List (ℕ × T)) (rs : List ℕ) (s : ℕ)
      → Ledger ts rs s
      → Ledger (erase_time k ts) (erase_seq k rs) s
  answer-Ledger k ts rs s l = record {
    distinct = erase_time-Distinct k ts l.distinct;
    ascending = erase_seq-Ascending k rs l.ascending;
    apart = λ j. ground (arith, has_seq-erase_seq k j rs, find_time-erase_time k j ts, l.apart j);
    below = λ j h. ground (arith, has_seq-erase_seq k j rs, find_time-erase_time k j ts, l.below j);
  }
