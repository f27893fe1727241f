-- ===== src/Messages/Bootstrap/Snapshot.antt =====
-- A node that was read from a bootstrap message has its current values equal to the initial ones.
use inc_sim.Base.{◌≡◌, none, List, [], ◌∷◌, ◌++◌, arith}
use inc_sim.Base.Text.{Text}
use inc_sim.Base.Outcome.{ok, >>=-eq-ok, index}
use inc_sim.Base.Gives.{Gives, Gives-ok, Gives-if, Gives-bind}
use inc_sim.Ndn.{Ndn}
use inc_sim.Boost.{Boost}
use inc_sim.Storage.{ComputeNode, Nodes, add_node_to_table}
use inc_sim.Messages.{parse_data}
use inc_sim.Messages.Bootstrap.{
  new_node, parse_function, parse_functions, add_data, bootstrap_field, bootstrap_token,
  bootstrap_tokens, bootstrap_phase_handler,
}

-- The two halves of everything agree, the busy counter is 0, and neither the pointer nor any
-- distance is known.
pub record IsSnapshot {N : Ndn} (n : ComputeNode N) : Type 0 where
  pub ram : n.ram.0 ≡ n.ram.1
  pub rom : n.rom.0 ≡ n.rom.1
  pub cpu : n.cpu.0 ≡ n.cpu.1
  pub busy : n.node_busy_counter ≡ (0, 0)
  pub links : n.links.0 ≡ n.links.1
  pub runtimes : n.runtimes_supported.0 ≡ n.runtimes_supported.1
  pub data_lists : n.data_initial ≡ n.data_current
  pub functions : n.functions_initial ≡ n.functions_current
  pub pointer : n.node_ptr ≡ none
  pub distances : n.hop_distance ≡ []

module _ (N : Ndn) (b : Boost) where
  add_data-IsSnapshot :
      (es : List Text) (n : ComputeNode N) → IsSnapshot n → Gives IsSnapshot (add_data N b es n)
  unfolding add_data
  add_data-IsSnapshot [] n s = Gives-ok n s
  add_data-IsSnapshot (e ∷ es) n s = Gives-bind (parse_data N b e) _ λ d _.
      add_data-IsSnapshot es
        (record n {
          data_initial = n.data_initial ++ d ∷ [];
          data_current = n.data_current ++ d ∷ [];
        })
        (ground arith)

  parse_functions-IsSnapshot :
      (es : List Text) (n : ComputeNode N)
      → IsSnapshot n
      → Gives IsSnapshot (parse_functions N b es n)
  unfolding parse_functions
  parse_functions-IsSnapshot [] n s = Gives-ok n s
  parse_functions-IsSnapshot (e ∷ es) n s = Gives-bind (parse_function N b e) _ λ f _.
      parse_functions-IsSnapshot es
        (record n {
          functions_initial = n.functions_initial ++ f ∷ [];
          functions_current = n.functions_current ++ f ∷ [];
        })
        (ground arith)

  bootstrap_field-IsSnapshot :
      (key : Text) (values : List Text) (n : ComputeNode N)
      → IsSnapshot n
      → Gives IsSnapshot (bootstrap_field N b key values n)
  unfolding bootstrap_field
  bootstrap_field-IsSnapshot key values n s =
      search
        (arith, Gives-ok, Gives-if, Gives-bind, add_data-IsSnapshot, parse_functions-IsSnapshot)
        depth 14

  bootstrap_tokens-IsSnapshot :
      (ts : List Text) (n : ComputeNode N)
      → IsSnapshot n
      → Gives IsSnapshot (bootstrap_tokens N b ts n)
  unfolding bootstrap_tokens bootstrap_token
  bootstrap_tokens-IsSnapshot [] n s = Gives-ok n s
  bootstrap_tokens-IsSnapshot (x ∷ xs) n s =
      Gives-bind (bootstrap_token N b x n) _
        λ n' e. bootstrap_tokens-IsSnapshot xs n' ((token x).at n' e)
    where
      token : (x : Text) → Gives IsSnapshot (bootstrap_token N b x n)
      token x =
          Gives-bind (index (b.split b'=' x) 0) _
            λ key _. bootstrap_field-IsSnapshot key (b.split b'=' x) n s

  -- Where a bootstrap message is handled without an exception, the table gets one call of
  -- `AddNodeToTable`, under the URI of the node's name, with a node whose current values all equal
  -- its initial ones, whose busy counter is 0 and for which no distance is known.
  pub bootstrap_adds-IsSnapshot :
      (content : Text) (t t' : Nodes N)
      → bootstrap_phase_handler N b content t ≡ ok t'
      → (n : ComputeNode N) × IsSnapshot n × (t' ≡ (add_node_to_table (N.to_uri n.node_name) n t).1)
  unfolding bootstrap_phase_handler
  bootstrap_adds-IsSnapshot content t t' h =
      let (n, e, r) = >>=-eq-ok (bootstrap_tokens N b (b.split b';' content) (new_node N b)) _ h in
      (
        n,
        (bootstrap_tokens-IsSnapshot (b.split b';' content) (new_node N b) fresh).at n e,
        ground (arith, r),
      )
    where
      fresh : IsSnapshot (new_node N b)
      fresh = ground arith
