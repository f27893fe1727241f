-- ===== src/ParserNodeInfo/Groups.antt =====
-- What is read of a file, grouped by the names of the consumers.
use inc_sim.Base.{◌≡◌, refl, sym, ap, ◌∙◌, List, [], ◌∷◌, ◌++◌, arith}
use mathlib.Core.List.{append-nil}
use inc_sim.Base.Text.{Text}
use inc_sim.Base.Outcome.{Fault, ok, err, ◌>>=◌}
use inc_sim.Base.Gives.{Succeeds}
use inc_sim.Boost.{Boost}
use inc_sim.ParserNodeInfo.{
  ConsumerNode, Request, Provided, new_node, push_request, push_provided, behind_section,
  update_consumer_info,
}
use inc_sim.ParserNodeInfo.Columns.{
  column, DistinctNames, gather, change_all, request_name, provided_name, change_rows,
  column-change_all, change_all-DistinctNames,
}
use inc_sim.ParserNodeInfo.Rows.{consumer_rows, with_rows, consumer_section-rows}

gather_none :
    {A R : Type 0} (name_of : R → Text) (k : Text) (rs : List R)
    → gather {A = A} name_of (λ r. []) k rs ≡ []
gather_none name_of k [] = refl
gather_none {A} name_of k (r ∷ rs) = ground (arith, gather_none {A = A} name_of k rs)

module _ (rs : List Request) (ps : List Provided) (k : Text) (old : List ConsumerNode) where
  -- The requests change a column that the data section leaves.
  request_column :
      {A : Type 0} (get : ConsumerNode → List A) (cols : Request → List A)
      → ((r : Request) (n : ConsumerNode) → get (push_request r n) ≡ get n ++ cols r)
      → ((r : Provided) (n : ConsumerNode) → get (push_provided r n) ≡ get n)
      → ((name : Text) → get (new_node name) ≡ [])
      → column get k (change_rows (rs, ps) old) ≡ column get k old ++ gather request_name cols k rs
  request_column get cols adds keeps empty =
      let middle = change_all request_name push_request rs old in
      column-change_all provided_name push_provided (λ r n. refl) get (λ r. [])
        (λ r n. keeps r n ∙ sym (append-nil (get n))) empty k ps middle
      ∙ ap (λ l. column get k middle ++ l) (gather_none provided_name k ps)
      ∙ append-nil (column get k middle)
      ∙ column-change_all request_name push_request (λ r n. refl) get cols adds empty k rs old

  -- The data section changes a column that the requests leave.
  provided_column :
      {A : Type 0} (get : ConsumerNode → List A) (cols : Provided → List A)
      → ((r : Provided) (n : ConsumerNode) → get (push_provided r n) ≡ get n ++ cols r)
      → ((r : Request) (n : ConsumerNode) → get (push_request r n) ≡ get n)
      → ((name : Text) → get (new_node name) ≡ [])
      → column get k (change_rows (rs, ps) old) ≡ column get k old ++ gather provided_name cols k ps
  provided_column get cols adds keeps empty =
      let middle = change_all request_name push_request rs old in
      column-change_all provided_name push_provided (λ r n. refl) get cols adds empty k ps middle
      ∙ ap (λ l. l ++ gather provided_name cols k ps)
          (column-change_all request_name push_request (λ r n. refl) get (λ r. [])
              (λ r n. keeps r n ∙ sym (append-nil (get n))) empty k rs old
            ∙ ap (λ l. column get k old ++ l) (gather_none request_name k rs)
            ∙ append-nil (column get k old))

  -- What the entries hold after the rows were read: for a request its prefix, frequency, lifetime and
  -- times, for provided data its prefixes, size and freshness.
  pub record Grouped (new : List ConsumerNode) : Type 0 where
    pub distinct : DistinctNames new
    pub prefix :
        column (λ n. n.function_prefix) k new
        ≡ column (λ n. n.function_prefix) k old ++ gather request_name (λ r. r.prefix ∷ []) k rs
    pub frequency :
        column (λ n. n.request_frequency) k new
        ≡ column (λ n. n.request_frequency) k old
          ++ gather request_name (λ r. r.frequency ∷ []) k rs
    pub lifetime :
        column (λ n. n.lifetime) k new
        ≡ column (λ n. n.lifetime) k old ++ gather request_name (λ r. r.lifetime ∷ []) k rs
    pub start :
        column (λ n. n.start_time) k new
        ≡ column (λ n. n.start_time) k old ++ gather request_name (λ r. r.start_time ∷ []) k rs
    pub stop :
        column (λ n. n.stop_time) k new
        ≡ column (λ n. n.stop_time) k old ++ gather request_name (λ r. r.stop_time ∷ []) k rs
    pub provided :
        column (λ n. n.data_prefix_provided) k new
        ≡ column (λ n. n.data_prefix_provided) k old ++ gather provided_name (λ r. r.prefixes) k ps
    pub size :
        column (λ n. n.data_size) k new
        ≡ column (λ n. n.data_size) k old ++ gather provided_name (λ r. r.size ∷ []) k ps
    pub freshness :
        column (λ n. n.freshness) k new
        ≡ column (λ n. n.freshness) k old ++ gather provided_name (λ r. r.freshness ∷ []) k ps

  change_rows-Grouped : DistinctNames old → Grouped (change_rows (rs, ps) old)
  change_rows-Grouped d = record {
    distinct =
        change_all-DistinctNames provided_name push_provided (λ r n. refl) ps
          (change_all request_name push_request rs old)
          (change_all-DistinctNames request_name push_request (λ r n. refl) rs old d);
    prefix =
        request_column (λ n. n.function_prefix) (λ r. r.prefix ∷ []) (λ r n. refl) (λ r n. refl)
          (λ n. refl);
    frequency =
        request_column (λ n. n.request_frequency) (λ r. r.frequency ∷ []) (λ r n. refl)
          (λ r n. refl) (λ n. refl);
    lifetime =
        request_column (λ n. n.lifetime) (λ r. r.lifetime ∷ []) (λ r n. refl) (λ r n. refl)
          (λ n. refl);
    start =
        request_column (λ n. n.start_time) (λ r. r.start_time ∷ []) (λ r n. refl) (λ r n. refl)
          (λ n. refl);
    stop =
        request_column (λ n. n.stop_time) (λ r. r.stop_time ∷ []) (λ r n. refl) (λ r n. refl)
          (λ n. refl);
    provided =
        provided_column (λ n. n.data_prefix_provided) (λ r. r.prefixes) (λ r n. refl) (λ r n. refl)
          (λ n. refl);
    size =
        provided_column (λ n. n.data_size) (λ r. r.size ∷ []) (λ r n. refl) (λ r n. refl)
          (λ n. refl);
    freshness =
        provided_column (λ n. n.freshness) (λ r. r.freshness ∷ []) (λ r n. refl) (λ r n. refl)
          (λ n. refl);
  }

-- Let the lines behind the consumer section be read without an exception, and let the parser hold no
-- name twice. Then `update_consumer_info` succeeds and again holds no name twice, and for each name
-- every list of its entry is what it was, followed by what the lines for this name give, in their
-- order; there are no other entries' values in it.
pub update_consumer_info-Grouped :
    (b : Boost) (data_prefix : Text → List Text) (lines : List Text) (nodes : List ConsumerNode)
    (k : Text) (rs : List Request) (ps : List Provided)
    → consumer_rows b data_prefix (behind_section lines) ≡ ok (rs, ps)
    → DistinctNames nodes
    → Succeeds (Grouped rs ps k nodes) (update_consumer_info b data_prefix lines nodes)
unfolding update_consumer_info
update_consumer_info-Grouped b data_prefix lines nodes k rs ps e d = record {
  value = change_rows (rs, ps) nodes;
  returns =
      consumer_section-rows b data_prefix (behind_section lines) nodes
      ∙ ap (λ m. m >>= with_rows b nodes) e;
  holds = change_rows-Grouped rs ps k nodes d;
}

-- If a line cannot be read, `update_consumer_info` throws as that line does, whatever was read before.
update_consumer_info_throws :
    (b : Boost) (data_prefix : Text → List Text) (lines : List Text) (nodes : List ConsumerNode)
    (fault : Fault)
    → consumer_rows b data_prefix (behind_section lines) ≡ err fault
    → update_consumer_info b data_prefix lines nodes ≡ err fault
unfolding update_consumer_info
update_consumer_info_throws b data_prefix lines nodes fault e =
    consumer_section-rows b data_prefix (behind_section lines) nodes
    ∙ ap (λ m. m >>= with_rows b nodes) e
