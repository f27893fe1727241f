-- ===== src/Communication/Tests.antt =====
-- Tests of the communication apps.
use inc_sim.Base.{◌≡◌, refl, true, false, some, none, [], ◌∷◌, List, arith}
use inc_sim.Base.Text.{text, text_eq, is_prefix}
use inc_sim.Base.Number.{stoi}
use inc_sim.Base.Outcome.{ok, err, bad_index}
use inc_sim.Base.Gives.{Succeeds}
use inc_sim.Ndn.{plain_names}
use inc_sim.Boost.{plain_split, plain_split-SplitLaws, split_text}
use inc_sim.Samples.{plain_parts, plain_parts-UriLaws, reported, reported_node}
use inc_sim.Storage.{DataInfo}
use inc_sim.Messages.{parse_data_list}
use inc_sim.Node.{reset_node_busy_counter}
use inc_sim.Communication.Exchange.{
  udp_exchange, ndn_exchange, told, bootstrap_interest, udp_bootstrap_exchange,
  ndn_bootstrap_exchange,
}
use inc_sim.Communication.Fill.{Fill, set_fill_pattern}
use inc_sim.Communication.Fill.Pattern.{IsFilled, set_fill_pattern_lem, set_fill_pattern_endless}
use inc_sim.Communication.Transmit.{Sender, start_application, fires}
use inc_sim.Communication.Transmit.Periodic.{HasSent, periodic_sends, once_reads_behind}

abbrev data_list : List (DataInfo plain_names)
data_list =
    record { data_name = text "d1"; size_bytes = 7 }
    ∷ record { data_name = text "d2"; size_bytes = 9 }
    ∷ []

data_list_parsed :
    parse_data_list plain_names plain_split (split_text b',' (text "d1:7,d2:9")) ≡ ok data_list
unfolding parse_data_list split_text stoi
data_list_parsed = refl

not_null : text_eq (text "d1:7,d2:9") (text "null") ≡ false
unfolding text_eq
not_null = refl

no_other : is_prefix (text "BootstrapInfo") (text "n1") ≡ false
unfolding is_prefix
no_other = refl

udp_bootstrap_exchange_example :
    udp_exchange plain_split (text "/BootstrapInfo") reported_node []
    ≡ ok (
      reset_node_busy_counter reported_node,
      told plain_split reported_node ((text "f1", reported) ∷ []) data_list [],
    )
udp_bootstrap_exchange_example =
    udp_bootstrap_exchange plain_split plain_split-SplitLaws reported_node
      ((text "f1", reported) ∷ []) data_list [] refl refl refl (unfold text_eq in data_list_parsed)
      refl no_other

ndn_bootstrap_exchange_example :
    ndn_exchange plain_split plain_parts (bootstrap_interest reported_node) reported_node []
    ≡ ok (
      reset_node_busy_counter reported_node,
      told plain_split reported_node ((text "f1", reported) ∷ []) data_list [],
    )
ndn_bootstrap_exchange_example =
    ndn_bootstrap_exchange plain_split plain_split-SplitLaws plain_parts plain_parts-UriLaws
      reported_node ((text "f1", reported) ∷ []) data_list [] refl refl refl
      (unfold text_eq in data_list_parsed) refl

abbrev two_bytes : Fill
two_bytes = record { buffer = some 1 ∷ none ∷ []; data_size = 2; size = 2 }

set_fill_pattern_lem_example :
    (s' : Fill) × (set_fill_pattern 9 (7 ∷ 8 ∷ []) 2 5 two_bytes ≡ some (ok s'))
    × IsFilled (7 ∷ 8 ∷ []) 2 5 5 s'.buffer
    × (s'.size ≡ 5)
set_fill_pattern_lem_example =
    set_fill_pattern_lem (7 ∷ 8 ∷ []) 2 5 9 two_bytes refl (omega arith) (omega arith) (omega arith)
      (omega arith)

set_fill_pattern_test :
    set_fill_pattern 9 (7 ∷ 8 ∷ []) 2 5 two_bytes
    ≡ some (
        ok (record {
          buffer = some 7 ∷ some 8 ∷ some 7 ∷ some 8 ∷ some 7 ∷ [];
          data_size = 5;
          size = 5;
        }))
unfolding set_fill_pattern
set_fill_pattern_test = refl

set_fill_pattern_endless_example : set_fill_pattern 100 (7 ∷ 8 ∷ []) 0 5 two_bytes ≡ none
set_fill_pattern_endless_example =
    set_fill_pattern_endless (7 ∷ 8 ∷ []) 5 100 two_bytes (omega arith)

abbrev sender : Sender
sender = record {
  fill = two_bytes;
  sent = 0;
  count = 3;
  periodic = true;
  first_time = false;
  pending = none;
  packets = [];
}

periodic_sends_example : Succeeds (HasSent 3 0 3) (fires 8 (start_application sender))
periodic_sends_example = periodic_sends 8 sender refl refl (omega arith) refl

once_reads_behind_example :
    fires 1 (start_application (record sender { periodic = false })) ≡ err bad_index
once_reads_behind_example =
    once_reads_behind (record sender { periodic = false }) refl (omega arith) (omega arith) refl
