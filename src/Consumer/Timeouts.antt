-- ===== src/Consumer/Timeouts.antt =====
-- `CheckRetxTimeout` without its loop, and the order of the container that it goes through.
use inc_sim.Base.{
  ℕ, ◌≡◌, refl, sym, ap, ◌∙◌, Bool, true, false, not, ◌||◌, List, [], ◌∷◌, select, any, inl, inr,
  Bool-cases, ◌==◌, arith,
}
use inc_sim.Ndn.{Ndn}
use inc_sim.Consumer.Sets.{insert_seq, has_seq-insert_seq, erase_time, place, insert_time}
use inc_sim.Consumer.{
  Estimator, EstimatorLaws, Consumer, on_timeout, check_entries, check_retx_timeout,
}
use inc_sim.Consumer.Outstanding.{is_queued, schedule_same}

module _ (E : Estimator) where
  -- The times of the entries are not before `t`.
  abbrev pub Later : E.Time → List (ℕ × E.Time) → Type 0
  Later t [] = Unit {0}
  Later t ((k, u) ∷ es) = (E.at_most t u ≡ true) × Later t es

  abbrev pub Ordered : List (ℕ × E.Time) → Type 0
  Ordered [] = Unit {0}
  Ordered ((k, t) ∷ es) = Later t es × Ordered es

  -- The timeout of the entry is over.
  abbrev pub is_due : E.Time → E.Time → ℕ × E.Time → Bool
  is_due now rto (k, t) = E.at_most (E.plus t rto) now

  abbrev pub has_number : ℕ → ℕ × E.Time → Bool
  has_number k (j, t) = j == k

module _ {E : Estimator} (laws : EstimatorLaws E) where
  Later-before :
      (s t : E.Time) (es : List (ℕ × E.Time)) → E.at_most s t ≡ true → Later E t es → Later E s es
  Later-before s t [] h l = tt
  Later-before s t ((k, u) ∷ es) h l = (laws.trans s t u h l.0, Later-before s t es h l.1)

  place-Later :
      (s t : E.Time) (k : ℕ) (es : List (ℕ × E.Time))
      → E.at_most s t ≡ true
      → Later E s es
      → Later E s (place E.at_most k t es)
  unfolding place
  place-Later s t k [] h l = (h, tt)
  place-Later s t k ((j, u) ∷ es) h l = ground (arith, place-Later s t k es)

  place-Ordered :
      (k : ℕ) (t : E.Time) (es : List (ℕ × E.Time))
      → Ordered E es
      → Ordered E (place E.at_most k t es)
  unfolding place
  place-Ordered k t [] o = (tt, tt)
  place-Ordered k t ((j, u) ∷ es) o = elim (Bool-cases (E.at_most u t)) [
    | inl e ↦ rw e (place-Later u t k es e o.0, place-Ordered k t es o.1)
    | inr e ↦ let before = laws.total u t e in rw e ((before, Later-before t u es before o.0), o)
  ]

  pub insert_time-Ordered :
      (k : ℕ) (t : E.Time) (es : List (ℕ × E.Time))
      → Ordered E es
      → Ordered E (insert_time E.at_most k t es)
  unfolding insert_time
  insert_time-Ordered k t es o = ground (arith, place-Ordered k t es o)

  erase_time-Later :
      (s : E.Time) (k : ℕ) (es : List (ℕ × E.Time)) → Later E s es → Later E s (erase_time k es)
  unfolding erase_time
  erase_time-Later s k [] l = tt
  erase_time-Later s k ((j, u) ∷ es) l = ground (arith, erase_time-Later s k es)

  pub erase_time-Ordered :
      (k : ℕ) (es : List (ℕ × E.Time)) → Ordered E es → Ordered E (erase_time k es)
  unfolding erase_time
  erase_time-Ordered k [] o = tt
  erase_time-Ordered k ((j, u) ∷ es) o =
      ground (arith, erase_time-Later u k es, erase_time-Ordered k es)

  -- Behind an entry that is not due, none is due.
  none_due :
      (now rto t : E.Time) (es : List (ℕ × E.Time))
      → E.at_most (E.plus t rto) now ≡ false
      → Later E t es
      → any (is_due E now rto) es ≡ false
  none_due now rto t [] h l = refl
  none_due now rto t ((k, u) ∷ es) h l = ground (
    arith,
    laws.plus_mono t u rto l.0,
    laws.trans (E.plus t rto) (E.plus u rto) now,
    none_due now rto t es h l.1,
  )

module _ {A : Type 0} where
  select-none : (p : A → Bool) (xs : List A) → any p xs ≡ false → select (λ x. not (p x)) xs ≡ xs
  select-none p [] h = refl
  select-none p (x ∷ xs) h = ground (arith, select-none p xs)

  select_empty : (p : A → Bool) (xs : List A) → any p xs ≡ false → select p xs ≡ []
  select_empty p [] h = refl
  select_empty p (x ∷ xs) h = ground (arith, select_empty p xs)

module _ {N : Ndn} {E : Estimator} (laws : EstimatorLaws E) where
  on_timeout_same :
      (now : E.Time) (j : ℕ) (entries : List (ℕ × E.Time)) (c : Consumer N E)
      → let d = on_timeout now j (record c { seq_timeouts = entries }) in
        (d.seq_timeouts ≡ entries) × (d.retx_seqs ≡ insert_seq j c.retx_seqs)
  unfolding on_timeout
  on_timeout_same now j entries c =
      let same = schedule_same (record c {
        seq_timeouts = entries;
        rtt = E.sent_seq now j (E.increase_multiplier c.rtt);
        retx_seqs = insert_seq j c.retx_seqs;
      }) in
      (same.0, same.1)

  check_entries_lem :
      (now rto : E.Time) (entries : List (ℕ × E.Time)) (c : Consumer N E) (k : ℕ)
      → c.seq_timeouts ≡ entries
      → Ordered E entries
      → let c' = check_entries now rto entries c in
        (c'.seq_timeouts ≡ select (λ e. not (is_due E now rto e)) entries)
        × (is_queued k c'
            ≡ (is_queued k c || any (has_number E k) (select (is_due E now rto) entries)))
  unfolding check_entries
  check_entries_lem now rto [] c k e o = (e, ground arith)
  check_entries_lem now rto ((j, t) ∷ entries) c k e o =
      let d = on_timeout now j (record c { seq_timeouts = entries }) in
      let same = on_timeout_same now j entries c in
      elim (Bool-cases (E.at_most (E.plus t rto) now)) [
        | inl due ↦
            let rest = check_entries_lem now rto entries d k same.0 o.1 in
            rw due (rest.0, ground (arith, rest.1, same.1, has_seq-insert_seq j k c.retx_seqs))
        | inr not_due ↦
            let none_of = none_due laws now rto t entries not_due o.0 in
            rw not_due (
              e ∙ sym (ap (λ es. (j, t) ∷ es) (select-none (is_due E now rto) entries none_of)),
              ground (arith, select_empty (is_due E now rto) entries none_of),
            )
      ]

  -- Times having a total, transitive order that sums keep: let the entries of a consumer be in the
  -- order of their times, then `CheckRetxTimeout` leaves exactly the entries whose timeout, computed
  -- once at its begin, is not over, in their order; a number is to be sent again exactly if it was so
  -- before or has an entry whose timeout is over; and the next check is scheduled.
  pub check_retx_timeout_lem :
      (now : E.Time) (c : Consumer N E) (k : ℕ)
      → Ordered E c.seq_timeouts
      → let rto = E.retransmit_timeout c.rtt in
        let c' = check_retx_timeout now c in
        (c'.seq_timeouts ≡ select (λ e. not (is_due E now rto e)) c.seq_timeouts)
        × (is_queued k c'
            ≡ (is_queued k c || any (has_number E k) (select (is_due E now rto) c.seq_timeouts)))
        × (c'.retx_scheduled ≡ true)
  unfolding check_retx_timeout
  check_retx_timeout_lem now c k o =
      let all = check_entries_lem now (E.retransmit_timeout c.rtt) c.seq_timeouts c k refl o in
      (all.0, all.1, refl)
