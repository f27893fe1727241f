-- ===== src/ParserNodeInfo/Columns.antt =====
-- The members of the entries of `m_consumer_nodes`, and what a line adds to them.
use inc_sim.Base.{
  ◌≡◌, refl, sym, ap, ◌∙◌, Bool, true, false, List, [], ◌∷◌, ◌++◌, inl, inr, Bool-cases,
  if◌then◌else◌, arith,
}
use mathlib.Core.List.{append-nil, append_assoc}
use inc_sim.Base.Text.{Text, text_eq, text_eq_iff}
use inc_sim.ParserNodeInfo.{
  ConsumerNode, Request, Provided, new_node, push_request, push_provided, change_node,
}

-- The member of the first entry of a name, empty if there is no entry.
unfoldable pub column : {A : Type 0} → (ConsumerNode → List A) → Text → List ConsumerNode → List A
column get k [] = []
column get k (n ∷ ns) = let rest = column get k ns in if text_eq n.name k then get n else rest

unfoldable pub is_named : Text → List ConsumerNode → Bool
is_named k [] = false
is_named k (n ∷ ns) = let rest = is_named k ns in if text_eq n.name k then true else rest

-- No name has two entries.
abbrev pub DistinctNames : List ConsumerNode → Type 0
DistinctNames [] = Unit {0}
DistinctNames (n ∷ ns) = (is_named n.name ns ≡ false) × DistinctNames ns

module _ (name : Text) (f : ConsumerNode → ConsumerNode)
    (same : (n : ConsumerNode) → (f n).name ≡ n.name) where
  column-change_node :
      {A : Type 0} (get : ConsumerNode → List A) (more : List A)
      → ((n : ConsumerNode) → get (f n) ≡ get n ++ more)
      → get (new_node name) ≡ []
      → (k : Text) (ns : List ConsumerNode)
      → column get k (change_node name f ns)
        ≡ column get k ns ++ (if text_eq name k then more else [])
  unfolding column change_node
  column-change_node get more adds empty k [] =
      ground (arith, same (new_node name), adds (new_node name), empty)
  column-change_node get more adds empty k (n ∷ ns) = ground (
    arith,
    same n,
    adds n,
    text_eq_iff n.name k,
    text_eq_iff n.name name,
    text_eq_iff name k,
    append-nil (get n),
    append-nil (column get k ns),
    column-change_node get more adds empty k ns,
  )

  is_named-change_node :
      (k : Text) (ns : List ConsumerNode)
      → is_named k (change_node name f ns) ≡ (if text_eq name k then true else is_named k ns)
  unfolding is_named change_node
  is_named-change_node k [] = ground (arith, same (new_node name))
  is_named-change_node k (n ∷ ns) = ground (
    arith,
    same n,
    text_eq_iff n.name k,
    text_eq_iff n.name name,
    text_eq_iff name k,
    is_named-change_node k ns,
  )

  change_node-DistinctNames :
      (ns : List ConsumerNode) → DistinctNames ns → DistinctNames (change_node name f ns)
  unfolding change_node is_named
  change_node-DistinctNames [] d = (refl, tt)
  change_node-DistinctNames (n ∷ ns) d = ground (
    arith,
    same n,
    text_eq_iff n.name name,
    text_eq_iff name n.name,
    is_named-change_node n.name ns,
    change_node-DistinctNames ns,
  )

-- What the rows of a name give, in order.
abbrev pub gather : {A R : Type 0} → (R → Text) → (R → List A) → Text → List R → List A
gather name_of cols k [] = []
gather name_of cols k (r ∷ rs) =
    let rest = gather name_of cols k rs in if text_eq (name_of r) k then cols r ++ rest else rest

-- One change for each row.
unfoldable pub change_all :
    {R : Type 0}
    → (R → Text)
    → (R → ConsumerNode → ConsumerNode)
    → List R
    → List ConsumerNode
    → List ConsumerNode
unfolding change_node
change_all name_of push [] ns = ns
change_all name_of push (r ∷ rs) ns =
    change_all name_of push rs (change_node (name_of r) (push r) ns)

module _ {R : Type 0} (name_of : R → Text) (push : R → ConsumerNode → ConsumerNode)
    (same : (r : R) (n : ConsumerNode) → (push r n).name ≡ n.name) where
  pub column-change_all :
      {A : Type 0} (get : ConsumerNode → List A) (cols : R → List A)
      → ((r : R) (n : ConsumerNode) → get (push r n) ≡ get n ++ cols r)
      → ((name : Text) → get (new_node name) ≡ [])
      → (k : Text) (rs : List R) (ns : List ConsumerNode)
      → column get k (change_all name_of push rs ns) ≡ column get k ns ++ gather name_of cols k rs
  unfolding change_all
  column-change_all get cols adds empty k [] ns = sym (append-nil (column get k ns))
  column-change_all get cols adds empty k (r ∷ rs) ns =
      let next = change_node (name_of r) (push r) ns in
      let one =
        column-change_node (name_of r) (push r) (same r) get (cols r) (adds r) (empty (name_of r)) k
          ns in
      column-change_all get cols adds empty k rs next
      ∙ ap (λ l. l ++ gather name_of cols k rs) one
      ∙ elim (Bool-cases (text_eq (name_of r) k)) [
        | inl e ↦ rw e (append_assoc (column get k ns) (cols r) (gather name_of cols k rs))
        | inr e ↦ rw e (ap (λ l. l ++ gather name_of cols k rs) (append-nil (column get k ns)))
      ]

  pub change_all-DistinctNames :
      (rs : List R) (ns : List ConsumerNode)
      → DistinctNames ns
      → DistinctNames (change_all name_of push rs ns)
  unfolding change_all
  change_all-DistinctNames [] ns d = d
  change_all-DistinctNames (r ∷ rs) ns d =
      change_all-DistinctNames rs (change_node (name_of r) (push r) ns)
        (change_node-DistinctNames (name_of r) (push r) (same r) ns d)

abbrev pub request_name : Request → Text
request_name r = r.name

abbrev pub provided_name : Provided → Text
provided_name r = r.name

-- The changes of both sections.
abbrev pub change_rows : List Request × List Provided → List ConsumerNode → List ConsumerNode
change_rows rows ns =
    change_all provided_name push_provided rows.1 (change_all request_name push_request rows.0 ns)
