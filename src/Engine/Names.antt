-- ===== src/Engine/Names.antt =====
-- What `ExtractFunctionName` and `ExtractDataNames` read from the name of an interest.
use inc_sim.Base.{
  ◌≡◌, refl, Bool, true, false, not, ◌&&◌, some, List, [], ◌∷◌, ◌++◌, arith, ap, sym, ◌∙◌,
}
use mathlib.Core.List.{append-nil}
use inc_sim.Base.Text.{text, contains}
use inc_sim.Ndn.{Ndn}
use inc_sim.Engine.{
  PartKind, skipped, data_marker, function_marker, argument, part_kind, extract_function_name,
  extract_data_names,
}

module _ (N : Ndn) where
  abbrev pub is_argument : PartKind → Bool
  is_argument skipped = false
  is_argument data_marker = false
  is_argument function_marker = false
  is_argument argument = true

  -- A part that ends the data names, as a sequence number does.
  unfoldable pub is_end : N.Name → Bool
  is_end p = contains (text "/%FE") (N.to_uri p)

  -- All parts are names of data.
  unfoldable pub are_arguments : List N.Name → Bool
  are_arguments [] = true
  are_arguments (p ∷ ps) = (is_argument (part_kind N p) && not (is_end p)) && are_arguments ps

  pub extract_data_names-append :
      (ds rest : List N.Name)
      → are_arguments ds ≡ true
      → extract_data_names N true (ds ++ rest) ≡ ds ++ extract_data_names N true rest
  unfolding extract_data_names are_arguments is_end
  extract_data_names-append [] rest h = refl
  extract_data_names-append (d ∷ ds) rest h = ground (arith, extract_data_names-append ds rest, h)

  extract_data_names-end :
      (p : N.Name) (rest : List N.Name)
      → part_kind N p ≡ argument
      → is_end p ≡ true
      → extract_data_names N true (p ∷ rest) ≡ []
  unfolding extract_data_names is_end
  extract_data_names-end p rest k h = ground (arith, k, h)

  module _ (lambda marker func data_part : N.Name) (ds : List N.Name)
      (lambda_skipped : part_kind N lambda ≡ skipped)
      (lambda_no_marker : N.name_eq lambda (N.name (text "/Function")) ≡ false)
      (marker_kind : part_kind N marker ≡ function_marker) (func_kind : part_kind N func ≡ argument)
      (data_kind : part_kind N data_part ≡ data_marker)
      (ds_arguments : are_arguments ds ≡ true) where
    -- From the parts of `/lambda/Function/f/Data/d1/.../dn`, where `f` and `d1` to `dn` are none of
    -- the words of the grammar and the URI of no `di` contains `/%FE`, the name `f` and the data names
    -- `d1` to `dn` are read, in this order, and the same data names if a part follows whose URI
    -- contains `/%FE`, whatever comes behind it.
    pub extract_names :
        (p : N.Name) (rest : List N.Name)
        → part_kind N p ≡ argument
        → is_end p ≡ true
        → (extract_function_name N (lambda ∷ marker ∷ func ∷ data_part ∷ ds) ≡ some func)
          × (extract_data_names N false (lambda ∷ marker ∷ func ∷ data_part ∷ ds) ≡ ds)
          × (extract_data_names N false (lambda ∷ marker ∷ func ∷ data_part ∷ (ds ++ p ∷ rest))
              ≡ ds)
    unfolding extract_function_name extract_data_names
    extract_names p rest k h = (
      function_name,
      read ds
          ∙ ap (λ l. extract_data_names N true l) (sym (append-nil ds))
          ∙ extract_data_names-append ds [] ds_arguments
          ∙ append-nil ds,
      read (ds ++ p ∷ rest)
          ∙ extract_data_names-append ds (p ∷ rest) ds_arguments
          ∙ ap (λ l. ds ++ l) (extract_data_names-end p rest k h)
          ∙ append-nil ds,
    )
      where
        read :
            (l : List N.Name)
            → extract_data_names N false (lambda ∷ marker ∷ func ∷ data_part ∷ l)
              ≡ extract_data_names N true l
        read l =
            unfold extract_data_names in
            ground (arith, lambda_skipped, marker_kind, func_kind, data_kind)

        is_marker : N.name_eq marker (N.name (text "/Function")) ≡ true
        is_marker = unfold part_kind in ground (arith, marker_kind)

        function_name :
            extract_function_name N (lambda ∷ marker ∷ func ∷ data_part ∷ ds) ≡ some func
        function_name = unfold extract_function_name in rw lambda_no_marker (rw is_marker refl)
