-- ===== src/ParserNodeInfo/Rows.antt =====
-- The lines of a file, read before any entry is changed.
use inc_sim.Base.{◌≡◌, refl, ◌∙◌, List, [], ◌∷◌, inl, inr, Bool-cases, if◌then◌else◌}
use inc_sim.Base.Text.{Text, text, text_eq}
use inc_sim.Base.Outcome.{Outcome, ok, err, ◌>>=◌}
use inc_sim.Boost.{Boost}
use inc_sim.ParserNodeInfo.{
  ConsumerNode, Request, Provided, push_request, push_provided, change_node, is_skipped,
  read_request, read_provided, data_section, consumer_section,
}
use inc_sim.ParserNodeInfo.Columns.{change_all, provided_name, change_rows}

-- A chain of calls that goes on as another one.
bind_both :
    {A B C : Type 0} (m : Outcome A) (f : A → Outcome C) (g : A → Outcome B) (h : B → Outcome C)
    → ((a : A) → f a ≡ (g a >>= h))
    → (m >>= f) ≡ ((m >>= g) >>= h)
bind_both (ok a) f g h e = e a
bind_both (err fault) f g h e = refl

module _ (b : Boost) where
  -- The lines of the data section, read.
  unfoldable pub data_rows : (Text → List Text) → List Text → Outcome (List Provided)
  unfolding is_skipped read_provided
  data_rows data_prefix [] = ok []
  data_rows data_prefix (line ∷ lines) =
      if is_skipped line
      then data_rows data_prefix lines
      else do r ← read_provided b data_prefix line; rs ← data_rows data_prefix lines; ok (r ∷ rs)

  -- The lines of both sections, read.
  unfoldable pub consumer_rows :
      (Text → List Text) → List Text → Outcome (List Request × List Provided)
  unfolding is_skipped read_request data_rows
  consumer_rows data_prefix [] = ok ([], [])
  consumer_rows data_prefix (line ∷ lines) =
      if is_skipped line
      then consumer_rows data_prefix lines
      else if text_eq line (text "initial data section")
      then (do ps ← data_rows data_prefix lines; ok ([], ps))
      else do
        r ← read_request b line
        rows ← consumer_rows data_prefix lines
        ok (r ∷ rows.0, rows.1)

  abbrev with_provided : List ConsumerNode → List Provided → Outcome (List ConsumerNode)
  with_provided nodes ps = ok (change_all provided_name push_provided ps nodes)

  abbrev pub with_rows :
      List ConsumerNode → List Request × List Provided → Outcome (List ConsumerNode)
  with_rows nodes rows = ok (change_rows rows nodes)

  data_section-rows :
      (data_prefix : Text → List Text) (lines : List Text) (nodes : List ConsumerNode)
      → data_section b data_prefix lines nodes
        ≡ (data_rows data_prefix lines >>= with_provided nodes)
  unfolding data_section data_rows change_all
  data_section-rows data_prefix [] nodes = refl
  data_section-rows data_prefix (line ∷ lines) nodes = elim (Bool-cases (is_skipped line)) [
    | inl skip ↦ rw skip (data_section-rows data_prefix lines nodes)
    | inr keep ↦ rw keep (
        bind_both (read_provided b data_prefix line)
          (λ r. data_section b data_prefix lines (change_node r.name (push_provided r) nodes))
          (λ r. data_rows data_prefix lines >>= (λ rs. ok (r ∷ rs))) (with_provided nodes)
          (λ r.
            data_section-rows data_prefix lines (change_node r.name (push_provided r) nodes)
            ∙ bind_both (data_rows data_prefix lines)
                (with_provided (change_node r.name (push_provided r) nodes)) (λ rs. ok (r ∷ rs))
                (with_provided nodes) (λ rs. refl)))
  ]

  pub consumer_section-rows :
      (data_prefix : Text → List Text) (lines : List Text) (nodes : List ConsumerNode)
      → consumer_section b data_prefix lines nodes
        ≡ (consumer_rows data_prefix lines >>= with_rows nodes)
  unfolding consumer_section consumer_rows change_all
  consumer_section-rows data_prefix [] nodes = refl
  consumer_section-rows data_prefix (line ∷ lines) nodes = elim (Bool-cases (is_skipped line)) [
    | inl skip ↦ rw skip (consumer_section-rows data_prefix lines nodes)
    | inr keep ↦ elim (Bool-cases (text_eq line (text "initial data section"))) [
      | inl last ↦
          rw (keep, last)
            (data_section-rows data_prefix lines nodes
              ∙ bind_both (data_rows data_prefix lines) (with_provided nodes) (λ ps. ok ([], ps))
                  (with_rows nodes) (λ ps. refl))
      | inr more ↦
          rw (keep, more)
            (bind_both (read_request b line)
              (λ r.
                consumer_section b data_prefix lines (change_node r.name (push_request r) nodes))
              (λ r. consumer_rows data_prefix lines >>= (λ rows. ok (r ∷ rows.0, rows.1)))
              (with_rows nodes)
              (λ r.
                consumer_section-rows data_prefix lines (change_node r.name (push_request r) nodes)
                ∙ bind_both (consumer_rows data_prefix lines)
                    (with_rows (change_node r.name (push_request r) nodes))
                    (λ rows. ok (r ∷ rows.0, rows.1)) (with_rows nodes) (λ rows. refl)))
    ]
  ]
