-- ===== src/Consumer/Tests.antt =====
-- Tests of a consumer.
use inc_sim.Base.{
  ℕ, ◌+◌, ◌-◌, ◌*◌, ◌≡◌, refl, true, false, none, some, List, [], ◌∷◌, ◌++◌, leb, arith,
}
use inc_sim.Base.Text.{Text, text, text_eq}
use inc_sim.Boost.{split_text}
use inc_sim.Base.Outcome.{Outcome, ok, err, out_of_range}
use inc_sim.Base.Gives.{Succeeds}
use inc_sim.Ndn.{plain_names}
use inc_sim.Samples.{plain_parts}
use inc_sim.Consumer.Sets.{has_seq, find_time, count_of}
use inc_sim.Consumer.{
  Estimator, EstimatorLaws, Consumer, at_once, interest_sent, data_traced, last_delay, first_delay,
  send_seq, on_answer, check_retx_timeout,
}
use inc_sim.Consumer.Events.{Event, send_due, check_due, data_came, run, all_numbered}
use inc_sim.Consumer.Outstanding.{is_queued, IsTracked}
use inc_sim.Consumer.Runs.{Handled, run-Handled}
use inc_sim.Consumer.Timeouts.{check_retx_timeout_lem}
use inc_sim.Consumer.Ready.{IsReady, run-IsReady}
use inc_sim.Consumer.Delays.{answer_after_sending}

-- Times are numbers, and the estimator is the timeout that it gives.
abbrev ticks : Estimator
ticks = record {
  Time = ℕ;
  plus = λ a b. a + b;
  minus = λ a b. a - b;
  at_most = leb;
  Rtt = ℕ;
  new_rtt = 100;
  retransmit_timeout = λ r. r;
  increase_multiplier = λ r. r * 2;
  sent_seq = λ now seq r. r;
  ack_seq = λ now seq r. r;
}

ticks-EstimatorLaws : EstimatorLaws ticks
ticks-EstimatorLaws = record {
  total = λ a b h. ground arith;
  trans = λ a b c h k. ground arith;
  plus_mono = λ a b c h. ground arith;
}

-- The number of data is the first byte of its name.
abbrev first_byte : Text → Outcome ℕ
first_byte [] = err out_of_range
first_byte (c ∷ s) = ok c

abbrev started : Consumer plain_names ticks
started = record {
  active = true;
  compute_flag = false;
  seq = 0;
  seq_max = 3;
  first_time = false;
  random = none;
  random_type = text "none";
  send_event = some at_once;
  retx_timer = some 50;
  retx_scheduled = true;
  retx_seqs = [];
  seq_timeouts = [];
  seq_last_delay = [];
  seq_full_delay = [];
  seq_retx_counts = [];
  rtt = 100;
  outputs = [];
}

-- Two interests time out; the first is sent again, and the second is answered meanwhile.
abbrev events : List (Event plain_names ticks)
events =
    send_due 0 ∷ send_due 10 ∷ check_due 150 ∷ send_due 160 ∷ data_came 170 (1 ∷ []) (some 4) ∷ []

run_test :
    (c : Consumer plain_names ticks) × (run plain_parts first_byte events started ≡ ok c)
    × (c.seq ≡ 2)
    × (c.seq_timeouts ≡ (0, 160) ∷ [])
    × (c.retx_seqs ≡ [])
    × (c.outputs
        ≡ interest_sent 0
          ∷ interest_sent 1
          ∷ interest_sent 0
          ∷ data_traced (1 ∷ [])
          ∷ last_delay 1 160 4
          ∷ first_delay 1 160 1 4
          ∷ [])
unfolding run text_eq split_text
run_test = (_, refl, refl, refl, refl, refl)

all_numbered_test : all_numbered plain_parts first_byte events ≡ true
unfolding all_numbered
all_numbered_test = refl

started-IsTracked : IsTracked started
started-IsTracked =
    unfold has_seq find_time in
    record { distinct = tt; ascending = tt; apart = λ k. refl; below = λ k h. cc }

run-Handled_example :
    Succeeds
      (Handled plain_parts first_byte events started)
      (run plain_parts first_byte events started)
run-Handled_example =
    run-Handled plain_parts first_byte events started all_numbered_test refl started-IsTracked
      (omega arith)

run-IsReady_example : Succeeds IsReady (run plain_parts first_byte events started)
run-IsReady_example =
    run-IsReady ticks-EstimatorLaws plain_parts first_byte events started all_numbered_test
      started-IsTracked (omega arith)
      (record { active = refl; ordered = tt; resends = refl; within = refl })

abbrev waiting : Consumer plain_names ticks
waiting = record started { seq = 3; seq_timeouts = (2, 20) ∷ (0, 40) ∷ (1, 90) ∷ [] }

check_retx_timeout_lem_example :
    let c' = check_retx_timeout 150 waiting in
    (c'.seq_timeouts ≡ (1, 90) ∷ []) × (is_queued 0 c' ≡ true) × (c'.retx_scheduled ≡ true)
unfolding has_seq
check_retx_timeout_lem_example =
    check_retx_timeout_lem ticks-EstimatorLaws 150 waiting 0
      ((refl, (refl, tt)), ((refl, tt), (tt, tt)))

answer_after_sending_example :
    let sent = send_seq 160 1 waiting in
    let c' = on_answer 170 1 4 sent in
    (c'.outputs ≡ sent.outputs ++ last_delay 1 10 4 ∷ first_delay 1 10 1 4 ∷ [])
    × (find_time 0 c'.seq_last_delay ≡ none)
    × (find_time 0 c'.seq_full_delay ≡ none)
    × (count_of 0 c'.seq_retx_counts ≡ 0)
    × (find_time 0 c'.seq_timeouts ≡ some 40)
    × (has_seq 0 c'.retx_seqs ≡ false)
unfolding find_time count_of has_seq
answer_after_sending_example = answer_after_sending 160 170 1 0 4 waiting
