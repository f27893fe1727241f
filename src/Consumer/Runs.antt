-- ===== src/Consumer/Runs.antt =====
-- No interest of a consumer is lost, whatever the order of its events.
use inc_sim.Base.{
  ℕ, ◌+◌, ◌%◌, ◌<◌, ◌≤◌, ◌≡◌, refl, ◌∙◌, Bool, true, false, not, ◌&&◌, ◌||◌, Option, none, some,
  List, [], ◌∷◌, length, arith,
}
use inc_sim.Base.Number.{u32}
use inc_sim.Base.Outcome.{Outcome, ok, err}
use inc_sim.Base.Gives.{Succeeds, Succeeds-ok, Succeeds-bind}
use inc_sim.Ndn.{Ndn, NameParts}
use inc_sim.Consumer.Sets.{has_seq-erase_seq, find_time-erase_time}
use inc_sim.Consumer.Ledger.{answer-Ledger}
use inc_sim.Consumer.{
  Estimator, Consumer, Delay, no_seq, send_packet, check_entries, check_retx_timeout, on_answer,
  hop_count, trace_data, on_data,
}
use inc_sim.Consumer.Events.{
  Event, send_due, check_due, data_came, happen, run, is_answer, answered, is_numbered,
  all_numbered,
}
use inc_sim.Consumer.Outstanding.{
  is_pending, is_new, IsTracked, Steps, stays-Steps, send_packet-Steps, check_entries-Steps,
}

module _ {N : Ndn} {E : Estimator} (names : NameParts N)
    (sequence_number : N.Name → Outcome ℕ) where
  -- What an event does to the numbers.
  pub record Moves (event : Event N E) (c c' : Consumer N E) : Type 0 where
    pub tracked : IsTracked c'
    pub active : c'.active ≡ c.active
    pub later : c.seq ≤ c'.seq
    pub soon : c'.seq ≤ c.seq + 1
    pub pending :
        (k : ℕ)
        → is_pending k c'
          ≡ ((not (is_answer names sequence_number k event) && is_pending k c) || is_new k c c')

  Steps-Moves :
      (event : Event N E) (c d c' : Consumer N E)
      → ((k : ℕ) → is_answer names sequence_number k event ≡ false)
      → d.seq_timeouts ≡ c.seq_timeouts
      → d.retx_seqs ≡ c.retx_seqs
      → d.seq ≡ c.seq
      → d.active ≡ c.active
      → Steps d c'
      → Moves event c c'
  Steps-Moves event c d c' none_of ts rs s on steps = record {
    tracked = steps.tracked;
    active = steps.active ∙ on;
    later = omega (arith, steps.later);
    soon = omega (arith, steps.soon);
    pending = λ k. ground (arith, steps.pending k, none_of k, ts, rs, s);
  }

  send-Moves :
      (now : E.Time) (due : Option Delay) (c : Consumer N E)
      → c.send_event ≡ due
      → c.active ≡ true
      → IsTracked c
      → c.seq < no_seq
      → Succeeds (Moves (send_due now) c) (happen names sequence_number (send_due now) c)
  unfolding happen
  send-Moves now none c e on l small = record {
    value = c;
    returns = ground (arith, e);
    holds = Steps-Moves (send_due now) c c c (λ k. refl) refl refl refl refl (stays-Steps c l);
  }
  send-Moves now (some delay) c e on l small =
      let d : Consumer N E = record c { send_event = none } in
      record {
        value = send_packet now d;
        returns = ground (arith, e);
        holds =
            Steps-Moves (send_due now) c d (send_packet now d) (λ k. refl) refl refl refl refl
              (send_packet-Steps now c.retx_seqs d on refl l small);
      }

  check-Moves :
      (now : E.Time) (due : Bool) (c : Consumer N E)
      → c.retx_scheduled ≡ due
      → IsTracked c
      → Succeeds (Moves (check_due now) c) (happen names sequence_number (check_due now) c)
  unfolding happen check_retx_timeout
  check-Moves now false c e l = record {
    value = c;
    returns = ground (arith, e);
    holds = Steps-Moves (check_due now) c c c (λ k. refl) refl refl refl refl (stays-Steps c l);
  }
  check-Moves now true c e l =
      let d : Consumer N E = record c { retx_scheduled = false } in
      let rto = E.retransmit_timeout c.rtt in
      let s = check_entries-Steps now rto c.seq_timeouts d refl l in
      let m =
        Steps-Moves (check_due now) c d (check_entries now rto c.seq_timeouts d) (λ k. refl) refl
          refl refl refl s in
      record {
        value = check_retx_timeout now d;
        returns = ground (arith, e);
        holds = record {
          tracked = m.tracked;
          active = m.active;
          later = m.later;
          soon = m.soon;
          pending = m.pending;
        };
      }

  trace_data_same :
      (name : N.Name) (c : Consumer N E)
      → ((trace_data names name c).seq_timeouts ≡ c.seq_timeouts)
        × ((trace_data names name c).retx_seqs ≡ c.retx_seqs)
        × ((trace_data names name c).seq ≡ c.seq)
        × ((trace_data names name c).active ≡ c.active)
  unfolding trace_data
  trace_data_same name c = ground arith

  data-Moves :
      (now : E.Time) (name : N.Name) (hops : Option ℕ) (c : Consumer N E) (number : ℕ)
      → sequence_number name ≡ ok number
      → c.active ≡ true
      → IsTracked c
      → Succeeds
          (Moves (data_came now name hops) c)
          (happen names sequence_number (data_came now name hops) c)
  unfolding happen on_data on_answer
  data-Moves now name hops c number e on l =
      let s = number % u32 in
      let same = trace_data_same name c in
      record {
        value = on_answer now s (hop_count hops) (trace_data names name c);
        returns = ground (arith, e, on);
        holds = record {
          tracked =
              rw (same.0, same.1, same.2) (answer-Ledger s c.seq_timeouts c.retx_seqs c.seq l);
          active = same.3;
          later = omega (arith, same.2);
          soon = omega (arith, same.2);
          pending = λ k. ground (
            arith,
            e,
            same,
            find_time-erase_time s k c.seq_timeouts,
            has_seq-erase_seq s k c.retx_seqs,
          );
        };
      }

  pub happen-Moves :
      (event : Event N E) (c : Consumer N E)
      → is_numbered names sequence_number event ≡ true
      → c.active ≡ true
      → IsTracked c
      → c.seq < no_seq
      → Succeeds (Moves event c) (happen names sequence_number event c)
  happen-Moves (send_due now) c h on l small = send-Moves now c.send_event c refl on l small
  happen-Moves (check_due now) c h on l small = check-Moves now c.retx_scheduled c refl l
  happen-Moves (data_came now name hops) c h on l small = numbered (sequence_number name) refl
    where
      numbered :
          (number : Outcome ℕ)
          → sequence_number name ≡ number
          → Succeeds
              (Moves (data_came now name hops) c)
              (happen names sequence_number (data_came now name hops) c)
      numbered (ok number) e = data-Moves now name hops c number e on l
      numbered (err fault) e = absurd (ground (arith, e, h))

  -- What a sequence of events did to the numbers.
  pub record Handled (events : List (Event N E)) (c c' : Consumer N E) : Type 0 where
    pub tracked : IsTracked c'
    pub later : c.seq ≤ c'.seq
    pub kept :
        (k : ℕ)
        → answered names sequence_number k events ≡ false
        → is_pending k c' ≡ (is_pending k c || is_new k c c')
    pub settled :
        (k : ℕ)
        → k < c.seq
        → answered names sequence_number k events ≡ true
        → is_pending k c' ≡ false

  Moves-Handled :
      (event : Event N E) (events : List (Event N E)) (c d c' : Consumer N E)
      → Moves event c d
      → Handled events d c'
      → Handled (event ∷ events) c c'
  unfolding answered
  Moves-Handled event events c d c' m q = record {
    tracked = q.tracked;
    later = omega (arith, q.later, m.later);
    kept = λ k e. ground (arith, q.kept k, m.pending k, q.later, m.later);
    settled = λ k e f. ground (arith, q.kept k, q.settled k, m.pending k, q.later, m.later);
  }

  -- Let an active consumer have sent no number from `seq` on, hold no number both as waiting and as
  -- to be sent again, and let what comes have sequence numbers and the numbers not run out. Then any
  -- sequence of sendings, checks of timeouts and data, in any order, is handled, and at the end:
  -- again no number is held both ways; the numbers that were not answered are pending exactly if they
  -- were so before or were sent for the first time since; and a number that was sent before and was
  -- answered is not pending.
  pub run-Handled :
      (events : List (Event N E)) (c : Consumer N E)
      → all_numbered names sequence_number events ≡ true
      → c.active ≡ true
      → IsTracked c
      → c.seq + length events < no_seq
      → Succeeds (Handled events c) (run names sequence_number events c)
  unfolding run all_numbered answered
  run-Handled [] c h on l small = Succeeds-ok c (record {
    tracked = l;
    later = omega arith;
    kept = λ k e. ground arith;
    settled = λ k e f. cc;
  })
  run-Handled (event ∷ events) c h on l small =
      let s = happen-Moves event c (ground (arith, h)) on l (omega (arith, small)) in
      let m = s.holds in
      let r =
        run-Handled events s.value (ground (arith, h)) (m.active ∙ on) m.tracked
          (omega (arith, m.soon, small)) in
      Succeeds-bind (happen names sequence_number event c) s.value
        (run names sequence_number events) s.returns
        (record {
          value = r.value;
          returns = r.returns;
          holds = Moves-Handled event events c s.value r.value m r.holds;
        })
