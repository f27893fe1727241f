-- ===== src/Consumer/Events.antt =====
-- What happens to a consumer, as a sequence of events in any order.
use inc_sim.Base.{
  ℕ, ◌%◌, Bool, true, false, ◌||◌, Option, none, some, List, [], ◌∷◌, ◌==◌, if◌then◌else◌,
}
use inc_sim.Base.Number.{u32}
use inc_sim.Base.Outcome.{Outcome, ok, err, ◌>>=◌}
use inc_sim.Ndn.{Ndn, NameParts}
use inc_sim.Consumer.{Estimator, Consumer, send_packet, check_retx_timeout, on_data}

-- The simulator calls `SendPacket` or `CheckRetxTimeout`, if it is scheduled, or data comes.
pub data Event (N : Ndn) (E : Estimator) : Type 0 where
  send_due check_due : E.Time → Event N E
  data_came : E.Time → N.Name → Option ℕ → Event N E

module _ {N : Ndn} {E : Estimator} (names : NameParts N)
    (sequence_number : N.Name → Outcome ℕ) where
  unfoldable pub happen : Event N E → Consumer N E → Outcome (Consumer N E)
  unfolding send_packet check_retx_timeout on_data
  happen (send_due now) c = elim c.send_event [
    | none ↦ ok c
    | some delay ↦ ok (send_packet now (record c { send_event = none }))
  ]
  happen (check_due now) c =
      if c.retx_scheduled
      then ok (check_retx_timeout now (record c { retx_scheduled = false }))
      else ok c
  happen (data_came now name hop_tag) c = on_data names sequence_number now name hop_tag c

  unfoldable pub run : List (Event N E) → Consumer N E → Outcome (Consumer N E)
  unfolding happen
  run [] c = ok c
  run (event ∷ events) c = do c' ← happen event c; run events c'

  -- The event brings the data of the number.
  abbrev pub is_answer : ℕ → Event N E → Bool
  is_answer k (send_due now) = false
  is_answer k (check_due now) = false
  is_answer k (data_came now name hop_tag) = elim (sequence_number name) [
    | ok number ↦ number % u32 == k
    | err fault ↦ false
  ]

  unfoldable pub answered : ℕ → List (Event N E) → Bool
  answered k [] = false
  answered k (event ∷ events) = let rest = answered k events in is_answer k event || rest

  -- What comes has a sequence number.
  abbrev pub is_numbered : Event N E → Bool
  is_numbered (send_due now) = true
  is_numbered (check_due now) = true
  is_numbered (data_came now name hop_tag) = elim (sequence_number name) [
    | ok number ↦ true
    | err fault ↦ false
  ]

  unfoldable pub all_numbered : List (Event N E) → Bool
  all_numbered [] = true
  all_numbered (event ∷ events) =
      let rest = all_numbered events in if is_numbered event then rest else false
