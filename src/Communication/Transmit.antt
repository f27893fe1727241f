-- ===== src/Communication/Transmit.antt =====
-- What udp-orchestration-communication-app.cpp sends and when. `NS_ASSERT` stands for nothing, as in
-- an optimized build, and logs and traces are left out.
pub mod Periodic
use inc_sim.Base.{
  ℕ, zero, suc, ◌+◌, ◌%◌, ◌≡◌, Bool, true, false, Option, none, some, List, [], ◌∷◌, if◌then◌else◌,
  ltb, leb, ◌==◌, length, take,
}
use inc_sim.Base.Number.{u32}
use inc_sim.Base.Text.{Text}
use inc_sim.Base.Outcome.{Outcome, ok, err, bad_index, ◌>>=◌}
use inc_sim.Ndn.{Ndn}
use inc_sim.Communication.Fill.{Fill}

-- The time after which an event is scheduled, `m_ExeTime` or `m_interval`.
pub data Delay : Type 0 where
  exe_time interval : Delay

-- `Send` or `SendOnce`
pub data Event : Type 0 where
  send_event once_event : Event

-- What goes to the socket: a buffer, zero bytes, or a text.
pub data Packet : Type 0 where
  with_data : List (Option ℕ) → Packet
  with_zeros : ℕ → Packet
  with_text : Text → Packet

-- The members that sending reads and writes; `send_event` is the event of `m_sendEvent` while it is
-- to come, and `packets` what was sent.
pub record Sender : Type 0 where
  pub fill : Fill
  pub sent : ℕ
  pub count : ℕ
  pub periodic : Bool
  pub first_time : Bool
  pub pending : Option (Delay × Event)
  pub packets : List Packet

-- `Create<Packet> (m_data, n)`
abbrev pub data_packet : ℕ → List (Option ℕ) → Outcome Packet
data_packet n buffer =
    if leb n (length buffer) then ok (with_data (take n buffer)) else err bad_index

unfoldable pub schedule_transmit : Sender → Sender
schedule_transmit s =
    if s.first_time
    then record s { pending = some (exe_time, send_event); first_time = false }
    else record s { pending = some (interval, send_event) }

unfoldable pub schedule_once : Sender → Sender
schedule_once s = record s { pending = some (exe_time, once_event) }

-- `m_socket->Send (p); ++m_sent`
abbrev pub sent_packet : Packet → Sender → Sender
sent_packet p s = record s { sent = (s.sent + 1) % u32; packets = p ∷ s.packets }

unfoldable pub send : Sender → Outcome Sender
unfolding schedule_transmit
send s = do
  p ←
      if s.fill.data_size == 0
      then ok (with_zeros s.fill.size)
      else data_packet s.fill.data_size s.fill.buffer
  let s' = sent_packet p s
  ok (if ltb s'.sent s'.count then schedule_transmit s' else s')

-- `SendOnce`, with the size of the packet one above that of the buffer.
unfoldable pub send_once : Sender → Outcome Sender
send_once s = do
  p ←
      if s.fill.data_size == 0
      then ok (with_zeros ((s.fill.size + 1) % u32))
      else data_packet ((s.fill.data_size + 1) % u32) s.fill.buffer
  ok (sent_packet p s)

unfoldable pub send_once_with_fill : Text → Sender → Sender
send_once_with_fill fill s = sent_packet (with_text fill) s

-- The end of `StartApplication`.
unfoldable pub start_application : Sender → Sender
unfolding schedule_transmit schedule_once
start_application s =
    let s' = record s { first_time = true } in
    if s'.periodic then schedule_transmit s' else schedule_once s'

unfoldable pub stop_application : Sender → Sender
stop_application s = record s { pending = none }

-- The simulator makes the call that is to come, if there is one.
unfoldable pub fire : Sender → Outcome Sender
unfolding send send_once
fire s = elim s.pending [
  | none ↦ ok s
  | some (delay, send_event) ↦ send (record s { pending = none })
  | some (delay, once_event) ↦ send_once (record s { pending = none })
]

-- So many times.
unfoldable pub fires : ℕ → Sender → Outcome Sender
unfolding fire
fires zero s = ok s
fires (suc n) s = do s' ← fire s; fires n s'
