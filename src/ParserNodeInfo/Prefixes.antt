-- ===== src/ParserNodeInfo/Prefixes.antt =====
-- The prefix of a request, from the file to the node that reads the interest.
use inc_sim.Base.{
  ◌≡◌, refl, sym, ap, ◌∙◌, Bool, true, false, not, ◌&&◌, ◌||◌, some, List, [], ◌∷◌, ◌++◌, map,
  arith,
}
use mathlib.Core.List.{append-nil}
use inc_sim.Base.Text.{Text, text, text_eq, contains, joined, slashed}
use inc_sim.Boost.{Boost, Without, SplitLaws}
use inc_sim.Ndn.{Ndn, NameParts, UriLaws, all_plain, is_plain_part, all_plain_parts}
use inc_sim.Engine.{
  skipped, data_marker, function_marker, argument, part_kind, extract_function_name,
  extract_data_names,
}
use inc_sim.Engine.Names.{is_end, are_arguments, extract_data_names-append}
use inc_sim.ParserNodeInfo.{input_prefix, generate_func_first_prefix}

-- One behind the other, with commas between them.
abbrev pub commas : List Text → Text
commas [] = []
commas (x ∷ []) = x
commas (x ∷ y ∷ xs) = x ++ (b',' ∷ commas (y ∷ xs))

-- A name that is none of the words of the grammar of interests.
abbrev pub is_own : Text → Bool
is_own p =
    is_plain_part p
    && not (text_eq p (text "lambda") || text_eq p (text "Data") || text_eq p (text "Function"))

-- Such a name other than `null`.
abbrev pub is_input : Text → Bool
is_input p = is_own p && not (text_eq p (text "null"))

abbrev pub all_inputs : List Text → Bool
all_inputs [] = true
all_inputs (x ∷ xs) = is_input x && all_inputs xs

plain-Without : (p : Text) → all_plain p ≡ true → Without b',' p
plain-Without [] h = tt
plain-Without (c ∷ p) h = ground (arith, plain-Without p)

all_plain-no_end : (p : Text) → all_plain p ≡ true → contains (text "/%FE") p ≡ false
unfolding contains
all_plain-no_end [] h = refl
all_plain-no_end (c ∷ p) h = ground (arith, all_plain-no_end p)

part-no_end : (p : Text) → is_plain_part p ≡ true → contains (text "/%FE") (b'/' ∷ p) ≡ false
unfolding contains
part-no_end [] h = cc
part-no_end (c ∷ p) h = ground (arith, all_plain-no_end p)

input_prefix-joined :
    (xs : List Text) → all_inputs xs ≡ true → input_prefix false xs ≡ joined (slashed xs)
unfolding input_prefix
input_prefix-joined [] h = refl
input_prefix-joined (x ∷ xs) h = ground (arith, input_prefix-joined xs)

inputs-plain : (xs : List Text) → all_inputs xs ≡ true → all_plain_parts xs ≡ true
inputs-plain [] h = refl
inputs-plain (x ∷ xs) h = ground (arith, inputs-plain xs)

module _ (b : Boost) (splits : SplitLaws b) where
  split-commas :
      (x : Text) (xs : List Text)
      → all_inputs (x ∷ xs) ≡ true
      → b.split b',' (commas (x ∷ xs)) ≡ x ∷ xs
  split-commas x [] h = splits.split_part b',' x (plain-Without x (ground (arith, h)))
  split-commas x (y ∷ xs) h =
      splits.split_more b',' x (commas (y ∷ xs)) (plain-Without x (ground (arith, h)))
      ∙ ap (λ r. x ∷ r) (split-commas y xs (ground (arith, h)))

  full_text :
      (f x : Text) (xs : List Text)
      → all_inputs (x ∷ xs) ≡ true
      → generate_func_first_prefix b f (commas (x ∷ xs))
        ≡ joined (slashed (text "lambda" ∷ text "Function" ∷ f ∷ text "Data" ∷ x ∷ xs))
  unfolding generate_func_first_prefix
  full_text f x xs k =
      let with : input_prefix true (x ∷ xs) ≡ text "/Data" ++ joined (slashed (x ∷ xs)) =
        unfold input_prefix in ground (arith, k, input_prefix-joined xs) in
      ap (λ r. text "/lambda/Function/" ++ (f ++ r))
        (ap (input_prefix true) (split-commas x xs k) ∙ with)

  bare_text :
      (f : Text)
      → generate_func_first_prefix b f (text "null")
        ≡ joined (slashed (text "lambda" ∷ text "Function" ∷ f ∷ []))
  unfolding generate_func_first_prefix text_eq
  bare_text f =
      let one = splits.split_part b',' (text "null") (plain-Without (text "null") refl) in
      ap (λ r. text "/lambda/Function/" ++ (f ++ r)) (ap (input_prefix true) one)

  module _ (N : Ndn) (names : NameParts N) (uris : UriLaws N names) where
    part_kind-argument : (p : Text) → is_own p ≡ true → part_kind N (N.name (b'/' ∷ p)) ≡ argument
    unfolding part_kind
    part_kind-argument p h = ground (
      arith,
      uris.part_eq p (text "lambda"),
      uris.part_eq p (text "Data"),
      uris.part_eq p (text "Function"),
    )

    inputs-are_arguments :
        (xs : List Text) → all_inputs xs ≡ true → are_arguments N (map N.name (slashed xs)) ≡ true
    unfolding are_arguments is_end
    inputs-are_arguments [] h = refl
    inputs-are_arguments (x ∷ xs) h =
        ground
          (arith, part_kind-argument x, uris.uri_of_part x, part-no_end x, inputs-are_arguments xs)

    abbrev words : List Text → List Text
    words ps = text "lambda" ∷ text "Function" ∷ ps

    words-parts :
        (ps : List Text)
        → all_plain_parts ps ≡ true
        → names.parts (N.name (joined (slashed (words ps)))) ≡ map N.name (slashed (words ps))
    words-parts ps h = uris.parts_of_uri (words ps) (ground (arith, h))

    eq_of :
        (p q : Text)
        → is_plain_part p ≡ true
        → is_plain_part q ≡ true
        → (v : Bool) → text_eq p q ≡ v
        → N.name_eq (N.name (b'/' ∷ p)) (N.name (b'/' ∷ q)) ≡ v
    eq_of p q h k v e = uris.part_eq p q h k ∙ e

    lambda_other : N.name_eq (N.name (text "/lambda")) (N.name (text "/Function")) ≡ false
    unfolding text_eq
    lambda_other = eq_of (text "lambda") (text "Function") refl refl false refl

    function_same : N.name_eq (N.name (text "/Function")) (N.name (text "/Function")) ≡ true
    unfolding text_eq
    function_same = eq_of (text "Function") (text "Function") refl refl true refl

    lambda_kind : part_kind N (N.name (text "/lambda")) ≡ skipped
    unfolding part_kind text_eq
    lambda_kind = rw (eq_of (text "lambda") (text "lambda") refl refl true refl) refl

    function_kind : part_kind N (N.name (text "/Function")) ≡ function_marker
    unfolding part_kind text_eq
    function_kind =
        rw
          (
            eq_of (text "Function") (text "lambda") refl refl false refl,
            eq_of (text "Function") (text "Data") refl refl false refl,
            function_same,
          )
          refl

    data_kind : part_kind N (N.name (text "/Data")) ≡ data_marker
    unfolding part_kind text_eq
    data_kind =
        rw
          (
            eq_of (text "Data") (text "lambda") refl refl false refl,
            eq_of (text "Data") (text "Data") refl refl true refl,
          )
          refl

    -- What the engine reads from the parts of `/lambda/Function/f`, and whatever follows.
    read_function :
        (f : Text) (ps : List N.Name)
        → is_own f ≡ true
        → (extract_function_name N
              (N.name (text "/lambda") ∷ N.name (text "/Function") ∷ N.name (b'/' ∷ f) ∷ ps)
            ≡ some (N.name (b'/' ∷ f)))
          × (extract_data_names N false
                (N.name (text "/lambda") ∷ N.name (text "/Function") ∷ N.name (b'/' ∷ f) ∷ ps)
              ≡ extract_data_names N false ps)
    unfolding extract_function_name extract_data_names
    read_function f ps h = (
      rw (lambda_other, function_same) refl,
      ground (arith, lambda_kind, function_kind, part_kind-argument f h),
    )

    read_data :
        (ds : List N.Name)
        → are_arguments N ds ≡ true
        → extract_data_names N false (N.name (text "/Data") ∷ ds) ≡ ds
    unfolding extract_data_names
    read_data ds h =
        rw (extract_data_names, data_kind)
          (ap (extract_data_names N true) (sym (append-nil ds))
            ∙ extract_data_names-append N ds [] h
            ∙ append-nil ds)

    -- Splits and URIs being as documented: let a function and the inputs of its request, of which
    -- there is at least one, have plain names that are none of the words of the grammar, nor `null`.
    -- Then from the name of an interest with the prefix that the parser makes of them, the engine of
    -- the node reads exactly the function and, in order, these inputs; for the input `null` it reads
    -- the function and no inputs.
    pub prefix_round_trip :
        (f x : Text) (xs : List Text)
        → is_own f ≡ true
        → all_inputs (x ∷ xs) ≡ true
        → let parts = names.parts (N.name (generate_func_first_prefix b f (commas (x ∷ xs)))) in
          let bare = names.parts (N.name (generate_func_first_prefix b f (text "null"))) in
          (extract_function_name N parts ≡ some (N.name (b'/' ∷ f)))
          × (extract_data_names N false parts ≡ map N.name (slashed (x ∷ xs)))
          × (extract_function_name N bare ≡ some (N.name (b'/' ∷ f)))
          × (extract_data_names N false bare ≡ [])
    unfolding extract_data_names
    prefix_round_trip f x xs h k =
        let ds = map N.name (slashed (x ∷ xs)) in
        let full = read_function f (N.name (text "/Data") ∷ ds) h in
        let alone = read_function f [] h in
        let parts =
          ap (λ t. names.parts (N.name t)) (full_text f x xs k)
          ∙ words-parts (f ∷ text "Data" ∷ x ∷ xs) (ground (arith, h, inputs-plain (x ∷ xs) k)) in
        let bare =
          ap (λ t. names.parts (N.name t)) (bare_text f)
          ∙ words-parts (f ∷ []) (ground (arith, h)) in
        (
          ap (extract_function_name N) parts ∙ full.0,
          ap (extract_data_names N false) parts
              ∙ full.1
              ∙ read_data ds (inputs-are_arguments (x ∷ xs) k),
          ap (extract_function_name N) bare ∙ alone.0,
          ap (extract_data_names N false) bare ∙ alone.1,
        )
