-- ===== src/Consumer.antt =====
-- apps/inc_compute_node_apps/inc_compute_app/inc-consumer-base-app.{hpp,cpp} and inc-consumer-app.cpp:
-- a consumer, which asks for numbered data and asks again for what does not come.
pub mod Sets
pub mod Ledger
pub mod Events
pub mod Outstanding
pub mod Runs
pub mod Timeouts
pub mod Ready
pub mod Delays
mod Tests
use inc_sim.Base.{
  ℕ, ◌+◌, ◌-◌, ◌%◌, ◌≡◌, Bool, true, false, not, ◌&&◌, Option, none, some, List, [], ◌∷◌, ◌++◌,
  if◌then◌else◌, leb, ◌==◌,
}
use inc_sim.Base.Number.{u32}
use inc_sim.Base.Text.{Text, text, text_eq}
use inc_sim.Base.Outcome.{Outcome, ok, ◌>>=◌}
use inc_sim.Ndn.{Ndn, NameParts, sub_name}
use inc_sim.Consumer.Sets.{
  insert_seq, erase_seq, count_of, bump_count, erase_count, find_time, erase_time, insert_time,
}

-- What the code takes of `ns3::Time`, and of the round-trip estimator of ndnSIM: its calls, at the
-- time they are made.
pub record Estimator : Type 1 where
  pub Time : Type 0
  pub plus : Time → Time → Time
  pub minus : Time → Time → Time
  -- `a <= b`
  pub at_most : Time → Time → Bool
  pub Rtt : Type 0
  -- `RttMeanDeviation ()`
  pub new_rtt : Rtt
  pub retransmit_timeout : Rtt → Time
  pub increase_multiplier : Rtt → Rtt
  pub sent_seq : Time → ℕ → Rtt → Rtt
  pub ack_seq : Time → ℕ → Rtt → Rtt

-- What the documentation of `Time` says: its order is total and transitive, and kept by sums.
pub record EstimatorLaws (E : Estimator) : Type 0 where
  pub total : (a b : E.Time) → E.at_most a b ≡ false → E.at_most b a ≡ true
  pub trans : (a b c : E.Time) → E.at_most a b ≡ true → E.at_most b c ≡ true → E.at_most a c ≡ true
  pub plus_mono :
      (a b c : E.Time) → E.at_most a b ≡ true → E.at_most (E.plus a c) (E.plus b c) ≡ true

-- The time after which `SendPacket` is scheduled: none, `m_interval`, or a value of `m_random`.
pub data Delay : Type 0 where
  at_once interval drawn : Delay

-- The random variable `m_random`, if there is one.
pub data Distribution : Type 0 where
  uniform exponential : Distribution

module _ (N : Ndn) (E : Estimator) where
  -- What leaves the app: an interest with a sequence number, and the calls of the traces
  -- `m_lastRetransmittedInterestDataDelay`, `m_firstInterestDataDelay` and `m_onDataTrace`.
  pub data Output : Type 0 where
    interest_sent : ℕ → Output
    last_delay : ℕ → E.Time → ℕ → Output
    first_delay : ℕ → E.Time → ℕ → ℕ → Output
    data_traced : N.Name → Output

  -- `send_event` is the event of `m_sendEvent` while it is to come, `retx_scheduled` says whether
  -- `CheckRetxTimeout` is to come. A container of times is kept in their order.
  pub record Consumer : Type 0 where
    pub active : Bool
    pub compute_flag : Bool
    pub seq : ℕ
    pub seq_max : ℕ
    pub first_time : Bool
    pub random : Option Distribution
    pub random_type : Text
    pub send_event : Option Delay
    pub retx_timer : Option E.Time
    pub retx_scheduled : Bool
    pub retx_seqs : List ℕ
    pub seq_timeouts : List (ℕ × E.Time)
    pub seq_last_delay : List (ℕ × E.Time)
    pub seq_full_delay : List (ℕ × E.Time)
    pub seq_retx_counts : List (ℕ × ℕ)
    pub rtt : E.Rtt
    pub outputs : List Output

-- `hopCount`, 0 for data with no tag.
abbrev pub hop_count : Option ℕ → ℕ
hop_count none = 0
hop_count (some hops) = hops

-- `std::numeric_limits<uint32_t>::max ()`
abbrev pub no_seq : ℕ
no_seq = u32 - 1

module _ {N : Ndn} {E : Estimator} where
  -- `ConsumerApp ()`, whose base is constructed first.
  unfoldable pub new_consumer : Consumer N E
  new_consumer = record {
    active = false;
    compute_flag = false;
    seq = 0;
    seq_max = no_seq;
    first_time = true;
    random = none;
    random_type = text "none";
    send_event = none;
    retx_timer = none;
    retx_scheduled = false;
    retx_seqs = [];
    seq_timeouts = [];
    seq_last_delay = [];
    seq_full_delay = [];
    seq_retx_counts = [];
    rtt = E.new_rtt;
    outputs = [];
  }

  unfoldable pub set_randomize : Text → Consumer N E → Consumer N E
  set_randomize value c = record c {
    random =
        if text_eq value (text "uniform")
        then some uniform
        else if text_eq value (text "exponential")
        then some exponential
        else none;
    random_type = value;
  }

  unfoldable pub schedule_next_packet : Consumer N E → Consumer N E
  schedule_next_packet c =
      if c.first_time
      then record c { send_event = some at_once; first_time = false }
      else elim c.send_event [
        | some delay ↦ c
        | none ↦ record c {
          send_event = some (elim c.random [ none ↦ interval | some distribution ↦ drawn ]);
        }
      ]

  unfoldable pub start_application : Consumer N E → Consumer N E
  unfolding schedule_next_packet
  start_application c = schedule_next_packet c

  unfoldable pub stop_application : Consumer N E → Consumer N E
  stop_application c = record c { send_event = none }

  unfoldable pub set_retx_timer : E.Time → Consumer N E → Consumer N E
  set_retx_timer retx_timer c = record c { retx_timer = some retx_timer; retx_scheduled = true }

  unfoldable pub will_send_out_interest : E.Time → ℕ → Consumer N E → Consumer N E
  unfolding insert_time erase_time bump_count
  will_send_out_interest now seq c = record c {
    seq_timeouts = insert_time E.at_most seq now c.seq_timeouts;
    seq_full_delay = insert_time E.at_most seq now c.seq_full_delay;
    seq_last_delay = insert_time E.at_most seq now (erase_time seq c.seq_last_delay);
    seq_retx_counts = bump_count seq c.seq_retx_counts;
    rtt = E.sent_seq now seq c.rtt;
  }

  -- The part of `SendPacket` behind the choice of the number.
  unfoldable pub send_seq : E.Time → ℕ → Consumer N E → Consumer N E
  unfolding will_send_out_interest schedule_next_packet
  send_seq now seq c =
      let c' = will_send_out_interest now seq c in
      schedule_next_packet (record c' { outputs = c'.outputs ++ interest_sent seq ∷ [] })

  -- The part for a number that was not sent before.
  unfoldable pub send_new : E.Time → Consumer N E → Consumer N E
  unfolding send_seq
  send_new now c =
      if not (c.seq_max == no_seq) && leb c.seq_max c.seq
      then c
      else send_seq now c.seq (record c { seq = (c.seq + 1) % u32 })

  unfoldable pub send_packet : E.Time → Consumer N E → Consumer N E
  unfolding send_new send_seq
  send_packet now c = if not c.active then c else elim c.retx_seqs [
    | [] ↦ send_new now c
    | seq ∷ seqs ↦
        let c' : Consumer N E = record c { retx_seqs = seqs } in
        if seq == no_seq then send_new now c' else send_seq now seq c'
  ]

  unfoldable pub on_timeout : E.Time → ℕ → Consumer N E → Consumer N E
  unfolding schedule_next_packet insert_seq
  on_timeout now seq c = schedule_next_packet (record c {
    rtt = E.sent_seq now seq (E.increase_multiplier c.rtt);
    retx_seqs = insert_seq seq c.retx_seqs;
  })

  -- The loop of `CheckRetxTimeout` over the entries that are left.
  unfoldable pub check_entries : E.Time → E.Time → List (ℕ × E.Time) → Consumer N E → Consumer N E
  unfolding on_timeout
  check_entries now rto [] c = c
  check_entries now rto ((seq, time) ∷ entries) c =
      let rest =
        check_entries now rto entries (on_timeout now seq (record c { seq_timeouts = entries })) in
      if E.at_most (E.plus time rto) now then rest else c

  unfoldable pub check_retx_timeout : E.Time → Consumer N E → Consumer N E
  unfolding check_entries
  check_retx_timeout now c =
      let c' = check_entries now (E.retransmit_timeout c.rtt) c.seq_timeouts c in
      record c' { retx_scheduled = true }

  -- The part of `OnData` for the number of the data and its number of hops.
  unfoldable pub on_answer : E.Time → ℕ → ℕ → Consumer N E → Consumer N E
  unfolding find_time erase_time erase_seq count_of erase_count
  on_answer now seq hops c =
      let last : List (Output N E) = elim (find_time seq c.seq_last_delay) [
        | none ↦ []
        | some time ↦ last_delay seq (E.minus now time) hops ∷ []
      ] in
      let first : List (Output N E) = elim (find_time seq c.seq_full_delay) [
        | none ↦ []
        | some time ↦ first_delay seq (E.minus now time) (count_of seq c.seq_retx_counts) hops ∷ []
      ] in
      record c {
        seq_retx_counts = erase_count seq c.seq_retx_counts;
        seq_full_delay = erase_time seq c.seq_full_delay;
        seq_last_delay = erase_time seq c.seq_last_delay;
        seq_timeouts = erase_time seq c.seq_timeouts;
        retx_seqs = erase_seq seq c.retx_seqs;
        rtt = E.ack_seq now seq c.rtt;
        outputs = c.outputs ++ (last ++ first);
      }

  module _ (names : NameParts N) where
    -- The call of `m_onDataTrace`, for what is not data of a compute node.
    unfoldable pub trace_data : N.Name → Consumer N E → Consumer N E
    trace_data name c =
        if N.name_eq (sub_name names 0 name) (N.name (text "/Data")) && c.compute_flag
        then c
        else record c { outputs = c.outputs ++ data_traced name ∷ [] }

    module _ (sequence_number : N.Name → Outcome ℕ) where
      -- `data->getName ().at (-1).toSequenceNumber ()` is `sequence_number`, the value of the tag with
      -- the number of hops `hop_tag`.
      unfoldable pub on_data : E.Time → N.Name → Option ℕ → Consumer N E → Outcome (Consumer N E)
      unfolding on_answer trace_data
      on_data now name hop_tag c = if not c.active then ok c else do
        number ← sequence_number name
        ok (on_answer now (number % u32) (hop_count hop_tag) (trace_data name c))
