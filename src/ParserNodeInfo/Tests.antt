-- ===== src/ParserNodeInfo/Tests.antt =====
-- Tests of the parser of topology files.
use inc_sim.Base.{◌≡◌, refl, false, some, List, [], ◌∷◌, ◌++◌}
use inc_sim.Base.Text.{Text, text, text_eq}
use inc_sim.Base.Gives.{Succeeds}
use inc_sim.Ndn.{plain_names}
use inc_sim.Boost.{plain_split, plain_split-SplitLaws, split_text}
use inc_sim.Samples.{plain_parts, plain_parts-UriLaws}
use inc_sim.Engine.{extract_function_name, extract_data_names}
use inc_sim.ParserNodeInfo.{
  Request, Provided, generate_func_first_prefix, generate_data_first_prefix, generate_data_prefix,
  behind_section, update_consumer_info,
}
use inc_sim.ParserNodeInfo.Rows.{consumer_rows}
use inc_sim.ParserNodeInfo.Groups.{Grouped, update_consumer_info-Grouped}
use inc_sim.ParserNodeInfo.Prefixes.{commas, prefix_round_trip}

prefix_test :
    generate_func_first_prefix plain_split (text "f1") (text "a,b")
    ≡ text "/lambda/Function/f1/Data/a/b"
unfolding generate_func_first_prefix split_text text_eq
prefix_test = refl

-- The last input is left out.
data_first_test :
    generate_data_first_prefix plain_split (text "f1") (text "a,b")
    ≡ text "/lambda/Data/a/Function/f1"
unfolding generate_data_first_prefix split_text text_eq
data_first_test = refl

-- A list needs a comma at its end, which the generator of topologies writes.
data_prefix_test :
    generate_data_prefix plain_split (text "a,b,") ≡ text "/Data/a" ∷ text "/Data/b" ∷ []
unfolding generate_data_prefix split_text
data_prefix_test = refl

prefix_round_trip_example :
    let f1 = text "f1" in
    let parts =
      plain_parts.parts
        (generate_func_first_prefix plain_split f1 (commas (text "a" ∷ text "b" ∷ []))) in
    let bare = plain_parts.parts (generate_func_first_prefix plain_split f1 (text "null")) in
    (extract_function_name plain_names parts ≡ some (text "/f1"))
    × (extract_data_names plain_names false parts ≡ text "/a" ∷ text "/b" ∷ [])
    × (extract_function_name plain_names bare ≡ some (text "/f1"))
    × (extract_data_names plain_names false bare ≡ [])
unfolding text_eq
prefix_round_trip_example =
    prefix_round_trip plain_split plain_split-SplitLaws plain_names plain_parts plain_parts-UriLaws
      (text "f1") (text "a") (text "b" ∷ []) refl refl

abbrev tab : Text
tab = b'\t' ∷ []

abbrev lines : List Text
lines =
    text "router"
    ∷ text "consumer section"
    ∷ text "# name"
    ∷ (text "c1"
        ++ (tab
            ++ (text "f1"
                ++ (tab
                    ++ (text "a"
                        ++ (tab
                            ++ (text "3"
                                ++ (tab
                                    ++ (text "10"
                                        ++ (tab ++ (text "1" ++ (tab ++ text "9"))))))))))))
    ∷ []
    ∷ text "initial data section"
    ∷ (text "c1" ++ (tab ++ (text "a," ++ (tab ++ (text "500" ++ (tab ++ text "2"))))))
    ∷ []

abbrev request : Request
request = record {
  name = text "c1";
  prefix = text "/lambda/Function/f1/Data/a";
  frequency = text "3";
  lifetime = text "10";
  start_time = text "1";
  stop_time = text "9";
}

abbrev provided : Provided
provided = record {
  name = text "c1";
  prefixes = text "/Data/a" ∷ [];
  size = text "500";
  freshness = text "2";
}

update_consumer_info-Grouped_example :
    Succeeds
      (Grouped (request ∷ []) (provided ∷ []) (text "c1") [])
      (update_consumer_info plain_split (generate_data_prefix plain_split) lines [])
unfolding consumer_rows generate_data_prefix split_text text_eq behind_section
update_consumer_info-Grouped_example =
    update_consumer_info-Grouped plain_split (generate_data_prefix plain_split) lines [] (text "c1")
      (request ∷ []) (provided ∷ []) refl tt
