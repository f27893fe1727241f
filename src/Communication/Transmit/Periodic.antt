-- ===== src/Communication/Transmit/Periodic.antt =====
-- How often the app sends.
use inc_sim.Base.{
  ℕ, zero, suc, ◌+◌, ◌<◌, ◌≡◌, refl, true, false, Option, none, some, if◌then◌else◌, ltb, ◌==◌,
  length, take, arith, Bool-cases, inl, inr, subst,
}
use inc_sim.Base.Number.{u32}
use inc_sim.Base.Outcome.{ok, err, bad_index}
use inc_sim.Base.Gives.{Succeeds, Succeeds-ok, Succeeds-bind}
use inc_sim.Communication.Fill.Pattern.{IsSized}
use inc_sim.Communication.Transmit.{
  Sender, Delay, exe_time, interval, Event, send_event, with_data, with_zeros, schedule_transmit,
  schedule_once, send, send_once, data_packet, start_application, fire, fires,
}

-- How many packets there are to send: at least one.
abbrev pub total : ℕ → ℕ
total count = if ltb 1 count then count else 1

-- What is to come after `k` packets.
abbrev pub next_event : ℕ → ℕ → Option (Delay × Event)
next_event count k =
    if ltb k (total count) then some (if k == 0 then exe_time else interval, send_event) else none

-- The app has sent `k` packets on its own, behind those there were.
pub record HasSent (count before k : ℕ) (s : Sender) : Type 0 where
  pub sent : s.sent ≡ k
  pub packets : length s.packets ≡ before + k
  pub pending : s.pending ≡ next_event count k
  pub same_count : s.count ≡ count
  pub not_first : s.first_time ≡ false
  pub sized : IsSized s.fill

send-HasSent :
    (count before k : ℕ) (s : Sender)
    → count < u32
    → k < total count
    → HasSent count before k s
    → Succeeds (HasSent count before (k + 1)) (send (record s { pending = none }))
unfolding send schedule_transmit
send-HasSent count before k s w m h =
    Succeeds-bind
      (if s.fill.data_size == 0
        then ok (with_zeros s.fill.size)
        else data_packet s.fill.data_size s.fill.buffer)
      (if s.fill.data_size == 0
        then with_zeros s.fill.size
        else with_data (take s.fill.data_size s.fill.buffer))
      _ (ground (arith, h.sized))
      (Succeeds-ok _ (record {
        sent = ground (arith, h.sent, h.same_count);
        packets = ground (arith, h.packets);
        pending = ground (arith, h.sent, h.same_count, h.not_first);
        same_count = ground (arith, h.same_count);
        not_first = ground (arith, h.not_first);
        sized = ground (arith, h.sized);
      }))

-- As many rounds as are left.
abbrev pub after : ℕ → ℕ → ℕ
after count n = if ltb n (total count) then n else total count

fire_nothing : (s : Sender) → s.pending ≡ none → fire s ≡ ok s
unfolding fire
fire_nothing s e = rw e refl

fire-HasSent :
    (count before k : ℕ) (s : Sender)
    → count < u32
    → HasSent count before (after count k) s
    → Succeeds (HasSent count before (after count (k + 1))) (fire s)
unfolding fire
fire-HasSent count before k s w h = elim (Bool-cases (ltb k (total count))) [
  | inl more ↦
      let same : after count k ≡ k = rw more refl in
      let next : k + 1 ≡ after count (k + 1) = ground (arith, more) in
      rw (h.pending) (
        rw same (
          rw more (
            subst (λ j. Succeeds (HasSent count before j) (send (record s { pending = none }))) next
              (send-HasSent count before k s w (ground (arith, more))
                (subst (λ j. HasSent count before j s) same h)))))
  | inr done ↦ record {
    value = s;
    returns = fire_nothing s (ground (arith, h.pending, done));
    holds = subst (λ j. HasSent count before j s) (all_sent done) h;
  }
]
  where
    all_sent : ltb k (total count) ≡ false → after count k ≡ after count (k + 1)
    all_sent done = ground (arith, done)

fires-HasSent :
    (count before n k : ℕ) (s : Sender)
    → count < u32
    → HasSent count before (after count k) s
    → Succeeds (HasSent count before (after count (k + n))) (fires n s)
unfolding fires
fires-HasSent count before zero k s w h =
    Succeeds-ok s (subst (λ j. HasSent count before (after count j) s) (none_more k) h)
  where
    none_more : (k : ℕ) → k ≡ k + 0
    none_more k = omega arith
fires-HasSent count before (suc n) k s w h =
    let first = fire-HasSent count before k s w h in
    Succeeds-bind (fire s) first.value _ first.returns (
      subst (λ j. Succeeds (HasSent count before (after count j)) (fires n first.value))
        (one_more k n) (fires-HasSent count before n (k + 1) first.value w first.holds))
  where
    one_more : (k n : ℕ) → k + 1 + n ≡ k + suc n
    one_more k n = omega arith

-- Let the app be periodic, have sent nothing and have its buffer of the size it says, and let the
-- maximal number of packets be one of 32 bits. Then, if the simulator makes the next call of the app
-- `n` times after its start and nothing else is called, no call fails, and the app has sent `n` packets, but
-- no more than that maximal number, or one if it is 0; and unless that many were sent there is a
-- next call to come, the first after the execution time and all others after the interval.
pub periodic_sends :
    (n : ℕ) (s : Sender)
    → s.periodic ≡ true
    → s.sent ≡ 0
    → s.count < u32
    → IsSized s.fill
    → Succeeds
        (HasSent s.count (length s.packets) (after s.count n))
        (fires n (start_application s))
periodic_sends n s p z w sized =
    subst
      (λ j.
        Succeeds (HasSent s.count (length s.packets) (after s.count j))
          (fires n (start_application s)))
      (from_start n) (fires-HasSent s.count (length s.packets) n 0 (start_application s) w started)
  where
    from_start : (n : ℕ) → 0 + n ≡ n
    from_start n = omega arith

    started : HasSent s.count (length s.packets) (after s.count 0) (start_application s)
    started =
        unfold start_application schedule_transmit in
        record {
          sent = ground (arith, p, z);
          packets = ground (arith, p);
          pending = ground (arith, p);
          same_count = ground (arith, p);
          not_first = ground (arith, p);
          sized = ground (arith, p, sized);
        }

-- Let the app not be periodic, with a buffer that is not empty and as large as the app says, and that is
-- smaller than 2³² - 1. Then the one call after its start reads the byte behind the buffer.
pub once_reads_behind :
    (s : Sender)
    → s.periodic ≡ false
    → 0 < s.fill.data_size
    → s.fill.data_size + 1 < u32
    → IsSized s.fill
    → fires 1 (start_application s) ≡ err bad_index
unfolding fires fire send_once start_application schedule_once
once_reads_behind s p d w sized = rw p (ground (arith, sized))
