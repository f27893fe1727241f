-- ===== src/Consumer/Ready.antt =====
-- What stays true of a consumer while it runs: what is to be sent again will be.
use inc_sim.Base.{
  ℕ, ◌+◌, ◌%◌, ◌<◌, ◌≡◌, refl, sym, subst, Bool, true, false, not, ◌&&◌, Option, none, some, List,
  [], ◌∷◌, ◌++◌, inl, inr, Bool-cases, leb, ◌==◌, length, some_in, arith,
}
use inc_sim.Base.Number.{u32}
use inc_sim.Base.Outcome.{Outcome, ok, ◌>>=◌}
use inc_sim.Base.Gives.{Succeeds, Succeeds-ok, Succeeds-bind, Gives, Gives-ok, Gives-if, Gives-bind}
use inc_sim.Ndn.{Ndn, NameParts}
use inc_sim.Consumer.Sets.{has_seq, insert_seq, erase_seq}
use inc_sim.Consumer.Ledger.{Ledger}
use inc_sim.Consumer.{
  Estimator, EstimatorLaws, Consumer, interest_sent, no_seq, schedule_next_packet,
  will_send_out_interest, send_seq, send_new, send_packet, on_timeout, check_entries,
  check_retx_timeout, on_answer, hop_count, trace_data, on_data,
}
use inc_sim.Consumer.Events.{Event, send_due, check_due, data_came, happen, run, all_numbered}
use inc_sim.Consumer.Outstanding.{IsTracked, schedule_same, send_packet_new, send_packet_again}
use inc_sim.Consumer.Runs.{happen-Moves}
use inc_sim.Consumer.Timeouts.{Ordered, insert_time-Ordered, erase_time-Ordered}

abbrev pub is_some {ℓ} : {A : Type ℓ} → Option A → Bool
is_some none = false
is_some (some a) = true

erase_seq-some_in : (k : ℕ) (xs : List ℕ) → some_in xs ≡ false → some_in (erase_seq k xs) ≡ false
unfolding erase_seq
erase_seq-some_in k [] h = refl
erase_seq-some_in k (x ∷ xs) h = cc

module _ {N : Ndn} {E : Estimator} where
  pub record IsReady (c : Consumer N E) : Type 0 where
    pub active : c.active ≡ true
    -- the timeouts are in the order of their times
    pub ordered : Ordered E c.seq_timeouts
    -- if a number is to be sent again, a sending is scheduled
    pub resends : (some_in c.retx_seqs && not (is_some c.send_event)) ≡ false
    -- the numbers do not exceed the maximum
    pub within : leb c.seq c.seq_max ≡ true

  schedule-IsReady :
      (c : Consumer N E)
      → c.active ≡ true
      → Ordered E c.seq_timeouts
      → leb c.seq c.seq_max ≡ true
      → IsReady (schedule_next_packet c)
  unfolding schedule_next_packet
  schedule-IsReady c on o w = ground arith

module _ {N : Ndn} {E : Estimator} (laws : EstimatorLaws E) where
  send_seq-IsReady :
      (now : E.Time) (s : ℕ) (c : Consumer N E)
      → c.active ≡ true
      → Ordered E c.seq_timeouts
      → leb c.seq c.seq_max ≡ true
      → IsReady (send_seq now s c)
  unfolding send_seq will_send_out_interest
  send_seq-IsReady now s c on o w =
      let c' = will_send_out_interest now s c in
      schedule-IsReady (record c' { outputs = c'.outputs ++ interest_sent s ∷ [] }) on
        (insert_time-Ordered laws s now c.seq_timeouts o) w

  send_new-IsReady : (now : E.Time) (c : Consumer N E) → IsReady c → IsReady (send_new now c)
  unfolding send_new
  send_new-IsReady now c r = elim (Bool-cases (not (c.seq_max == no_seq) && leb c.seq_max c.seq)) [
    | inl e ↦ rw e r
    | inr e ↦ rw e (
        send_seq-IsReady now c.seq (record c { seq = (c.seq + 1) % u32 }) r.active r.ordered
          (ground (arith, e, r.within)))
  ]

  send_packet-IsReady :
      (now : E.Time) (rs : List ℕ) (c : Consumer N E)
      → c.retx_seqs ≡ rs
      → IsTracked c
      → c.seq < no_seq
      → IsReady c
      → IsReady (send_packet now (record c { send_event = none }))
  unfolding has_seq
  send_packet-IsReady now [] c e l small r =
      let d : Consumer N E = record c { send_event = none } in
      subst IsReady (sym (send_packet_new now d r.active e)) (
        send_new-IsReady now d (record {
          active = r.active;
          ordered = r.ordered;
          resends = ground (arith, e);
          within = r.within;
        }))
  send_packet-IsReady now (s ∷ rs) c e l small r =
      let d : Consumer N E = record c { send_event = none } in
      let l' : Ledger c.seq_timeouts (s ∷ rs) c.seq =
        subst (λ q. Ledger c.seq_timeouts q c.seq) e l in
      let sent : s < c.seq = l'.below s (ground arith) in
      subst IsReady (sym (send_packet_again now d s rs r.active e (omega (arith, sent, small))))
        (send_seq-IsReady now s (record d { retx_seqs = rs }) r.active r.ordered r.within)

  check_entries-IsReady :
      (now rto : E.Time) (entries : List (ℕ × E.Time)) (c : Consumer N E)
      → c.seq_timeouts ≡ entries
      → IsReady c
      → IsReady (check_entries now rto entries c)
  unfolding check_entries on_timeout
  check_entries-IsReady now rto [] c e r = r
  check_entries-IsReady now rto ((k, t) ∷ entries) c e r =
      let d : Consumer N E = record c {
        seq_timeouts = entries;
        rtt = E.sent_seq now k (E.increase_multiplier c.rtt);
        retx_seqs = insert_seq k c.retx_seqs;
      } in
      let o : Ordered E ((k, t) ∷ entries) = subst (Ordered E) e r.ordered in
      elim (Bool-cases (E.at_most (E.plus t rto) now)) [
        | inl due ↦ rw due (
            check_entries-IsReady now rto entries (schedule_next_packet d) (schedule_same d).0
              (schedule-IsReady d r.active o.1 r.within))
        | inr not_due ↦ rw not_due r
      ]

  on_answer-IsReady :
      (now : E.Time) (s hops : ℕ) (c : Consumer N E) → IsReady c → IsReady (on_answer now s hops c)
  unfolding on_answer
  on_answer-IsReady now s hops c r = record {
    active = r.active;
    ordered = erase_time-Ordered laws s c.seq_timeouts r.ordered;
    resends = ground (arith, r.resends, erase_seq-some_in s c.retx_seqs);
    within = r.within;
  }

  module _ (names : NameParts N) (sequence_number : N.Name → Outcome ℕ) where
    trace_data-IsReady :
        (name : N.Name) (c : Consumer N E) → IsReady c → IsReady (trace_data names name c)
    unfolding trace_data
    trace_data-IsReady name c r = ground arith

    happen-IsReady :
        (event : Event N E) (c : Consumer N E)
        → IsTracked c
        → c.seq < no_seq
        → IsReady c
        → Gives IsReady (happen names sequence_number event c)
    unfolding happen check_retx_timeout on_data
    happen-IsReady (send_due now) c l small r =
        let d : Consumer N E = record c { send_event = none } in
        elim c.send_event
          as (λ o. Gives IsReady (elim o [ none ↦ ok c | some delay ↦ ok (send_packet now d) ])) [
            | none ↦ Gives-ok c r
            | some delay ↦
                Gives-ok (send_packet now d) (send_packet-IsReady now c.retx_seqs c refl l small r)
          ]
    happen-IsReady (check_due now) c l small r =
        let d : Consumer N E = record c { retx_scheduled = false } in
        let q =
          check_entries-IsReady now (E.retransmit_timeout c.rtt) c.seq_timeouts d refl (record {
            active = r.active;
            ordered = r.ordered;
            resends = r.resends;
            within = r.within;
          }) in
        Gives-if c.retx_scheduled (ok (check_retx_timeout now d)) (ok c)
          (Gives-ok (check_retx_timeout now d) (record {
            active = q.active;
            ordered = q.ordered;
            resends = q.resends;
            within = q.within;
          }))
          (Gives-ok c r)
    happen-IsReady (data_came now name hops) c l small r =
        let answer : ℕ → Outcome (Consumer N E) =
          λ number. ok (on_answer now (number % u32) (hop_count hops) (trace_data names name c)) in
        Gives-if (not c.active) (ok c) (sequence_number name >>= answer) (Gives-ok c r) (
          Gives-bind (sequence_number name) answer (λ number e.
            Gives-ok (on_answer now (number % u32) (hop_count hops) (trace_data names name c)) (
              on_answer-IsReady now (number % u32) (hop_count hops) (trace_data names name c)
                (trace_data-IsReady name c r))))

    -- Times having a total, transitive order that sums keep: let an active consumer be as for
    -- `run-Handled`, its timeouts in the order of their times, its numbers within the maximum, and a
    -- sending be scheduled if a number is to be sent again. Then any sequence of sendings, checks of
    -- timeouts and data leaves it so: what is to be sent again has a sending scheduled, the timeouts
    -- are in order, and the numbers are within the maximum.
    pub run-IsReady :
        (events : List (Event N E)) (c : Consumer N E)
        → all_numbered names sequence_number events ≡ true
        → IsTracked c
        → c.seq + length events < no_seq
        → IsReady c
        → Succeeds IsReady (run names sequence_number events c)
    unfolding run all_numbered
    run-IsReady [] c h l small r = Succeeds-ok c r
    run-IsReady (event ∷ events) c h l small r =
        let first : c.seq < no_seq = omega (arith, small) in
        let s = happen-Moves names sequence_number event c (ground (arith, h)) r.active l first in
        let m = s.holds in
        let ready = (happen-IsReady event c l first r).at s.value s.returns in
        Succeeds-bind (happen names sequence_number event c) s.value
          (run names sequence_number events) s.returns
          (run-IsReady events s.value (ground (arith, h)) m.tracked (omega (arith, m.soon, small))
            ready)
