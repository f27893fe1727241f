-- ===== src/Computation/Inputs.antt =====
-- Lists that are kept as one text: what a search for an entry finds.
use inc_sim.Base.{◌≡◌, refl, true, false, [], ◌∷◌, ◌++◌, arith}
use inc_sim.Base.Text.{
  Text, text, text_eq, contains, contains_self, contains_infix, contains-append_left,
  contains-append_right,
}
use inc_sim.Computation.{add_to_text_list}

-- What was added is found.
pub contains-add : (v l : Text) → contains v (add_to_text_list v l) ≡ true
unfolding add_to_text_list
contains-add v l =
    ground (arith, contains_self v, contains-append_left v (l ++ (b',' ∷ [])) v, appended)
  where
    appended : contains v (l ++ (b',' ∷ v)) ≡ true
    appended =
        contains-append_left v l (b',' ∷ v) (contains-append_left v (b',' ∷ []) v (contains_self v))

-- What was found before is found after an addition, but where the text was `null`.
pub contains-add_mono :
    (v w l : Text)
    → text_eq l (text "null") ≡ false
    → contains w l ≡ true
    → contains w (add_to_text_list v l) ≡ true
unfolding add_to_text_list
contains-add_mono v w l h k = ground (arith, contains-append_right w l (b',' ∷ v))

-- A text that is part of the list already is not added: the list stays as it is.
pub add_part :
    (u v w : Text)
    → text_eq (u ++ (v ++ w)) (text "null") ≡ false
    → add_to_text_list v (u ++ (v ++ w)) ≡ u ++ (v ++ w)
unfolding add_to_text_list
add_part u v w h = rw h (rw (contains_infix u v w) refl)
