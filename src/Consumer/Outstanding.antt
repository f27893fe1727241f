-- ===== src/Consumer/Outstanding.antt =====
-- The numbers that were sent and not answered: where they are, and that none is lost.
use inc_sim.Base.{
  ℕ, ◌+◌, ◌%◌, ◌<◌, ◌≤◌, ◌≡◌, refl, sym, subst, ◌∙◌, Bool, true, false, not, ◌&&◌, ◌||◌, List, [],
  ◌∷◌, ◌++◌, inl, inr, Bool-cases, leb, ltb, ◌==◌, arith,
}
use inc_sim.Base.Number.{u32}
use inc_sim.Ndn.{Ndn}
use inc_sim.Consumer.Sets.{
  has_seq, insert_seq, has_seq-insert_seq, find_time, insert_time, find_time-insert_time,
}
use inc_sim.Consumer.Ledger.{waits_in, Ledger, new-Ledger, again-Ledger, timeout-Ledger}
use inc_sim.Consumer.{
  Estimator, Consumer, interest_sent, no_seq, schedule_next_packet, will_send_out_interest,
  send_seq, send_new, send_packet, on_timeout, check_entries,
}

module _ {N : Ndn} {E : Estimator} where
  -- The number waits for data or for its timeout.
  abbrev pub waits : ℕ → Consumer N E → Bool
  waits k c = waits_in k c.seq_timeouts

  -- The number is to be sent again.
  abbrev pub is_queued : ℕ → Consumer N E → Bool
  is_queued k c = has_seq k c.retx_seqs

  abbrev pub is_pending : ℕ → Consumer N E → Bool
  is_pending k c = waits k c || is_queued k c

  abbrev pub IsTracked : Consumer N E → Type 0
  IsTracked c = Ledger c.seq_timeouts c.retx_seqs c.seq

  -- The number was sent for the first time between the two states.
  abbrev pub is_new : ℕ → Consumer N E → Consumer N E → Bool
  is_new k c c' = leb c.seq k && ltb k c'.seq

  -- What a step that is no answer does to the numbers.
  pub record Steps (c c' : Consumer N E) : Type 0 where
    pub tracked : IsTracked c'
    pub active : c'.active ≡ c.active
    pub later : c.seq ≤ c'.seq
    pub soon : c'.seq ≤ c.seq + 1
    pub pending : (k : ℕ) → is_pending k c' ≡ (is_pending k c || is_new k c c')

  pub schedule_same :
      (c : Consumer N E)
      → ((schedule_next_packet c).seq_timeouts ≡ c.seq_timeouts)
        × ((schedule_next_packet c).retx_seqs ≡ c.retx_seqs)
        × ((schedule_next_packet c).seq ≡ c.seq)
        × ((schedule_next_packet c).active ≡ c.active)
  unfolding schedule_next_packet
  schedule_same c = ground arith

  pub send_seq_same :
      (now : E.Time) (s : ℕ) (c : Consumer N E)
      → ((send_seq now s c).seq_timeouts ≡ insert_time E.at_most s now c.seq_timeouts)
        × ((send_seq now s c).retx_seqs ≡ c.retx_seqs)
        × ((send_seq now s c).seq ≡ c.seq)
        × ((send_seq now s c).active ≡ c.active)
  unfolding send_seq will_send_out_interest
  send_seq_same now s c =
      let c' = will_send_out_interest now s c in
      schedule_same (record c' { outputs = c'.outputs ++ interest_sent s ∷ [] })

  -- The fields that matter, rewritten.
  like :
      (c c' : Consumer N E) (ts : List (ℕ × E.Time)) (rs : List ℕ) (s : ℕ)
      → (c'.seq_timeouts ≡ ts) × (c'.retx_seqs ≡ rs) × (c'.seq ≡ s) × (c'.active ≡ c.active)
      → Ledger ts rs s
      → c.seq ≤ s
      → s ≤ c.seq + 1
      → ((k : ℕ) → (waits_in k ts || has_seq k rs) ≡ (is_pending k c || (leb c.seq k && ltb k s)))
      → Steps c c'
  like c c' ts rs s same l from to p = record {
    tracked = rw (same.0, same.1, same.2) l;
    active = same.3;
    later = omega (arith, same.2);
    soon = omega (arith, same.2);
    pending = λ k. rw (same.0, same.1, same.2) (p k);
  }

  pub stays-Steps : (c : Consumer N E) → IsTracked c → Steps c c
  stays-Steps c l =
      like c c c.seq_timeouts c.retx_seqs c.seq (refl, refl, refl, refl) l (omega arith)
        (omega arith) (λ k. ground arith)

  send_new-Steps :
      (now : E.Time) (c : Consumer N E) → IsTracked c → c.seq < no_seq → Steps c (send_new now c)
  unfolding send_new
  send_new-Steps now c l small =
      elim (Bool-cases (not (c.seq_max == no_seq) && leb c.seq_max c.seq)) [
        | inl e ↦ rw e (stays-Steps c l)
        | inr e ↦
            let next : Consumer N E = record c { seq = (c.seq + 1) % u32 } in
            let same = send_seq_same now c.seq next in
            let counted : (c.seq + 1) % u32 ≡ c.seq + 1 = omega arith in
            rw e (
              like c (send_seq now c.seq next) (insert_time E.at_most c.seq now c.seq_timeouts)
                c.retx_seqs (c.seq + 1) (same.0, same.1, same.2 ∙ counted, same.3)
                (new-Ledger E.at_most now c.seq_timeouts c.retx_seqs c.seq l) (omega arith)
                (omega arith)
                (λ k.
                  ground
                    (arith, find_time-insert_time E.at_most c.seq k now c.seq_timeouts, l.below k)))
      ]

  pub send_packet_off : (now : E.Time) (c : Consumer N E) → c.active ≡ false → send_packet now c ≡ c
  unfolding send_packet
  send_packet_off now c off = simp off refl

  pub send_packet_new :
      (now : E.Time) (c : Consumer N E)
      → c.active ≡ true
      → c.retx_seqs ≡ []
      → send_packet now c ≡ send_new now c
  unfolding send_packet
  send_packet_new now c on e = ground arith

  pub send_packet_again :
      (now : E.Time) (c : Consumer N E) (r : ℕ) (rs : List ℕ)
      → c.active ≡ true
      → c.retx_seqs ≡ r ∷ rs
      → r < no_seq
      → send_packet now c ≡ send_seq now r (record c { retx_seqs = rs })
  unfolding send_packet
  send_packet_again now c r rs on e small =
      let other : (r == no_seq) ≡ false = ground (arith, small) in ground arith

  pub send_packet-Steps :
      (now : E.Time) (rs : List ℕ) (c : Consumer N E)
      → c.active ≡ true
      → c.retx_seqs ≡ rs
      → IsTracked c
      → c.seq < no_seq
      → Steps c (send_packet now c)
  unfolding has_seq
  send_packet-Steps now [] c on e l small =
      subst (Steps c) (sym (send_packet_new now c on e)) (send_new-Steps now c l small)
  send_packet-Steps now (r ∷ rs) c on e l small =
      let c' : Consumer N E = record c { retx_seqs = rs } in
      let l' : Ledger c.seq_timeouts (r ∷ rs) c.seq =
        subst (λ q. Ledger c.seq_timeouts q c.seq) e l in
      let sent : r < c.seq = l'.below r (ground arith) in
      subst (Steps c) (sym (send_packet_again now c r rs on e (omega (arith, sent, small)))) (
        like c (send_seq now r c') (insert_time E.at_most r now c.seq_timeouts) rs c.seq
          (send_seq_same now r c') (again-Ledger E.at_most now c.seq_timeouts r c.seq rs l')
          (omega arith) (omega arith)
          (λ k. ground (arith, e, find_time-insert_time E.at_most r k now c.seq_timeouts)))

  after-Steps : (c d c' : Consumer N E) → d.seq ≡ c.seq → Steps c d → Steps d c' → Steps c c'
  after-Steps c d c' e s t = record {
    tracked = t.tracked;
    active = t.active ∙ s.active;
    later = omega (arith, t.later);
    soon = omega (arith, t.soon);
    pending = λ k. ground (arith, t.pending k, s.pending k);
  }

  on_timeout-Steps :
      (now time : E.Time) (k : ℕ) (entries : List (ℕ × E.Time)) (c : Consumer N E)
      → c.seq_timeouts ≡ (k, time) ∷ entries
      → IsTracked c
      → let d = on_timeout now k (record c { seq_timeouts = entries }) in
        (d.seq_timeouts ≡ entries) × (d.seq ≡ c.seq) × Steps c d
  unfolding on_timeout find_time
  on_timeout-Steps now time k entries c e l =
      let d : Consumer N E = record c {
        seq_timeouts = entries;
        rtt = E.sent_seq now k (E.increase_multiplier c.rtt);
        retx_seqs = insert_seq k c.retx_seqs;
      } in
      let same = schedule_same d in
      (
        same.0,
        same.2,
        like c (schedule_next_packet d) entries (insert_seq k c.retx_seqs) c.seq same
            (timeout-Ledger k time entries c.retx_seqs c.seq (rw (← e) l)) (omega arith)
            (omega arith) (λ j. ground (arith, has_seq-insert_seq k j c.retx_seqs, e)),
      )

  pub check_entries-Steps :
      (now rto : E.Time) (entries : List (ℕ × E.Time)) (c : Consumer N E)
      → c.seq_timeouts ≡ entries
      → IsTracked c
      → Steps c (check_entries now rto entries c)
  unfolding check_entries
  check_entries-Steps now rto [] c e l = stays-Steps c l
  check_entries-Steps now rto ((k, time) ∷ entries) c e l =
      let d = on_timeout now k (record c { seq_timeouts = entries }) in
      let (kept, same, first) = on_timeout-Steps now time k entries c e l in
      elim (Bool-cases (E.at_most (E.plus time rto) now)) [
        | inl due ↦ rw due (
            after-Steps c d (check_entries now rto entries d) same first
              (check_entries-Steps now rto entries d kept first.tracked))
        | inr not_due ↦ rw not_due (stays-Steps c l)
      ]
