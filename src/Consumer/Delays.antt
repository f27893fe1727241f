-- ===== src/Consumer/Delays.antt =====
-- The delays that a consumer reports when data comes.
use inc_sim.Base.{
  ℕ, ◌+◌, ◌%◌, ◌≡◌, ap, ◌∙◌, false, none, some, [], ◌∷◌, ◌++◌, if◌then◌else◌, ◌==◌, arith,
}
use inc_sim.Base.Number.{u32}
use inc_sim.Ndn.{Ndn}
use inc_sim.Consumer.Sets.{
  has_seq, has_seq-erase_seq, count_of, count_of-bump_count, count_of-erase_count, find_time,
  erase_time, find_time-erase_time, find_time-insert_time,
}
use inc_sim.Consumer.{
  Estimator, Consumer, interest_sent, last_delay, first_delay, schedule_next_packet,
  will_send_out_interest, send_seq, on_answer,
}

module _ {N : Ndn} {E : Estimator} where
  -- When the number was first sent, a sending at `now` included.
  abbrev pub first_sent : E.Time → ℕ → Consumer N E → E.Time
  first_sent now s c = elim (find_time s c.seq_full_delay) [ none ↦ now | some time ↦ time ]

  -- A schedule leaves what is known of numbers.
  schedule_times :
      (c : Consumer N E)
      → ((schedule_next_packet c).seq_last_delay ≡ c.seq_last_delay)
        × ((schedule_next_packet c).seq_full_delay ≡ c.seq_full_delay)
        × ((schedule_next_packet c).seq_retx_counts ≡ c.seq_retx_counts)
        × ((schedule_next_packet c).seq_timeouts ≡ c.seq_timeouts)
        × ((schedule_next_packet c).retx_seqs ≡ c.retx_seqs)
  unfolding schedule_next_packet
  schedule_times c = ground arith

  send_seq_times :
      (now : E.Time) (s j : ℕ) (c : Consumer N E)
      → let c' = send_seq now s c in
        (find_time j c'.seq_last_delay
          ≡ (if s == j then some now else find_time j c.seq_last_delay))
        × (find_time j c'.seq_full_delay
            ≡ (if s == j then some (first_sent now s c) else find_time j c.seq_full_delay))
        × (count_of j c'.seq_retx_counts ≡ (
            if s == j
            then (count_of s c.seq_retx_counts + 1) % u32
            else count_of j c.seq_retx_counts))
        × (find_time j c'.seq_timeouts ≡ (
            if s == j
            then elim (find_time s c.seq_timeouts) [ none ↦ some now | some time ↦ some time ]
            else find_time j c.seq_timeouts))
        × (has_seq j c'.retx_seqs ≡ has_seq j c.retx_seqs)
  unfolding send_seq will_send_out_interest
  send_seq_times now s j c =
      let d = will_send_out_interest now s c in
      let same = schedule_times (record d { outputs = d.outputs ++ interest_sent s ∷ [] }) in
      (
        ap (find_time j) same.0
            ∙ ground (
              arith,
              find_time-insert_time E.at_most s j now (erase_time s c.seq_last_delay),
              find_time-erase_time s s c.seq_last_delay,
              find_time-erase_time s j c.seq_last_delay,
            ),
        ap (find_time j) same.1
            ∙ ground (arith, find_time-insert_time E.at_most s j now c.seq_full_delay),
        ap (count_of j) same.2 ∙ count_of-bump_count s j c.seq_retx_counts,
        ap (find_time j) same.3 ∙ find_time-insert_time E.at_most s j now c.seq_timeouts,
        ap (has_seq j) same.4,
      )

  -- Let an interest for a number be sent, at which time others for it may have been sent before, and
  -- let data for the number come immediately next, before any other event. Then the delays that are
  -- reported are those from this sending and from the first one, with the number of sendings and the
  -- hops. Afterwards the number has no time of a last or first sending, no count of sendings and no
  -- timeout, and is not to be sent again; for every other number all these are what they were before
  -- the sending.
  pub answer_after_sending :
      (now later : E.Time) (s j hops : ℕ) (c : Consumer N E)
      → let sent = send_seq now s c in
        let c' = on_answer later s hops sent in
        (c'.outputs
          ≡ sent.outputs
            ++ last_delay s (E.minus later now) hops
              ∷ first_delay s
                  (E.minus later (first_sent now s c))
                  ((count_of s c.seq_retx_counts + 1) % u32)
                  hops
              ∷ [])
        × (find_time j c'.seq_last_delay ≡ (if s == j then none else find_time j c.seq_last_delay))
        × (find_time j c'.seq_full_delay ≡ (if s == j then none else find_time j c.seq_full_delay))
        × (count_of j c'.seq_retx_counts ≡ (if s == j then 0 else count_of j c.seq_retx_counts))
        × (find_time j c'.seq_timeouts ≡ (if s == j then none else find_time j c.seq_timeouts))
        × (has_seq j c'.retx_seqs ≡ (if s == j then false else has_seq j c.retx_seqs))
  unfolding on_answer
  answer_after_sending now later s j hops c =
      let sent = send_seq now s c in
      let own = send_seq_times now s s c in
      let others = send_seq_times now s j c in
      (
        ground (arith, own.0, own.1, own.2),
        ground (arith, others.0, find_time-erase_time s j sent.seq_last_delay),
        ground (arith, others.1, find_time-erase_time s j sent.seq_full_delay),
        ground (arith, others.2, count_of-erase_count s j sent.seq_retx_counts),
        ground (arith, others.3, find_time-erase_time s j sent.seq_timeouts),
        ground (arith, others.4, has_seq-erase_seq s j sent.retx_seqs),
      )
