-- ===== src/Messages.antt =====
-- apps/orchestration/orchestration_communication_app/message_handler.{hpp,cpp}: what the orchestrator
-- reads from the messages of the nodes.
pub mod Bootstrap
pub mod Status
mod Tests
use inc_sim.Base.{ℕ, ◌≡◌, Bool, List, [], ◌∷◌, if◌then◌else◌}
use inc_sim.Base.Text.{Text, text, text_eq}
use inc_sim.Base.Outcome.{Outcome, ok, err, bad_index, ◌>>=◌, at, index}
use inc_sim.Base.Number.{stoi}
use inc_sim.Ndn.{Ndn}
use inc_sim.Boost.{Boost}
use inc_sim.Storage.{FunctionInfo, DataInfo, Nodes}

-- `std::advance(begin, 1)`
unfoldable pub advance_one : List Text → Outcome (List Text)
advance_one [] = err bad_index
advance_one (x ∷ xs) = ok xs

module _ (N : Ndn) (b : Boost) where
  -- One entry `name:size` of a data list.
  unfoldable pub parse_data : Text → Outcome (DataInfo N)
  parse_data entry = do
    let data_each = b.split b':' entry
    data_name ← at data_each 0
    size ← at data_each 1
    size_bytes ← stoi size
    ok (record { data_name = N.name data_name; size_bytes = size_bytes })

  unfoldable pub parse_data_list : List Text → Outcome (List (DataInfo N))
  unfolding parse_data
  parse_data_list [] = ok []
  parse_data_list (e ∷ es) = do d ← parse_data e; ds ← parse_data_list es; ok (d ∷ ds)

  -- `std::stoi(values[i])`
  abbrev pub number_at : List Text → ℕ → Outcome ℕ
  number_at values i = do v ← index values i; stoi v
