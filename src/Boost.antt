-- ===== src/Boost.antt =====
-- What the code takes from Boost's string algorithms.
use inc_sim.Base.Number.{decimal, to_string, is_digit}
use inc_sim.Base.{
  ℕ, zero, suc, ◌+◌, ◌/◌, ◌%◌, ◌≡◌, refl, ap, ◌∙◌, Bool, true, false, not, ◌&&◌, some, List, [],
  ◌∷◌, ◌++◌, ◌==◌, if◌then◌else◌, arith,
}
use mathlib.Core.List.{append-nil}
use inc_sim.Base.Text.{Text, joined, slashed, is_prefix, find_text}

pub record Boost : Type 0 where
  -- `boost::split(out, s, boost::is_any_of(c))` for one character `c`, with its default of keeping
  -- empty parts: the parts of `s` between the occurrences of `c`.
  pub split : ℕ → Text → List Text
  -- `boost::algorithm::to_lower_copy`
  pub to_lower_copy : Text → Text

-- `c` does not occur in the text.
abbrev pub Without : ℕ → Text → Type 0
Without c [] = Unit {0}
Without c (x ∷ s) = ((x == c) ≡ false) × Without c s

-- The same as a test.
abbrev pub free_of : ℕ → Text → Bool
free_of c [] = true
free_of c (x ∷ s) = not (x == c) && free_of c s

pub free_of-Without : (c : ℕ) (s : Text) → free_of c s ≡ true → Without c s
free_of-Without c [] h = tt
free_of-Without c (x ∷ s) h = ground (arith, free_of-Without c s)

pub free_of-append : (c : ℕ) (s t : Text) → free_of c (s ++ t) ≡ (free_of c s && free_of c t)
free_of-append c [] t = refl
free_of-append c (x ∷ s) t = ground (arith, free_of-append c s t)

free_of-decimal : (c fuel n : ℕ) → is_digit c ≡ false → free_of c (decimal fuel n) ≡ true
unfolding decimal
free_of-decimal c zero n h = refl
free_of-decimal c (suc fuel) n h = ground (
  arith,
  free_of-decimal c fuel (n / 10) h,
  free_of-append c (decimal fuel (n / 10)) ((b'0' + n % 10) ∷ []),
)

-- What is not a digit does not occur in a printed number.
pub free_of-to_string : (c n : ℕ) → is_digit c ≡ false → free_of c (to_string n) ≡ true
unfolding to_string
free_of-to_string c n h = free_of-decimal c (suc n) n h

abbrev pub AllWithout : ℕ → List Text → Type 0
AllWithout c [] = Unit {0}
AllWithout c (x ∷ xs) = Without c x × AllWithout c xs

-- What the documentation of `split` says of a text with no separator, and of one that follows a part
-- with none.
pub record SplitLaws (b : Boost) : Type 0 where
  pub split_part : (c : ℕ) (s : Text) → Without c s → b.split c s ≡ s ∷ []
  pub split_more : (c : ℕ) (s r : Text) → Without c s → b.split c (s ++ (c ∷ r)) ≡ s ∷ b.split c r

-- The parts behind slashes are what a split at the slashes gives.
pub split-joined :
    (b : Boost)
    → SplitLaws b
    → (s : Text) (parts : List Text) → Without b'/' s
    → AllWithout b'/' parts
    → b.split b'/' (s ++ joined (slashed parts)) ≡ s ∷ parts
split-joined b laws s [] h k = ap (b.split b'/') (append-nil s) ∙ laws.split_part b'/' s h
split-joined b laws s (p ∷ ps) h k =
    laws.split_more b'/' s (p ++ joined (slashed ps)) h
    ∙ ap (λ r. s ∷ r) (split-joined b laws p ps k.0 k.1)

-- A split that meets these laws.
abbrev put_first : ℕ → List Text → List Text
put_first x [] = (x ∷ []) ∷ []
put_first x (p ∷ ps) = (x ∷ p) ∷ ps

unfoldable pub split_text : ℕ → Text → List Text
split_text c [] = [] ∷ []
split_text c (x ∷ s) = let rest = split_text c s in if x == c then [] ∷ rest else put_first x rest

abbrev pub plain_split : Boost
plain_split = record { split = split_text; to_lower_copy = λ s. s }

split_text_part : (c : ℕ) (s : Text) → Without c s → split_text c s ≡ s ∷ []
unfolding split_text
split_text_part c [] h = refl
split_text_part c (x ∷ s) h = ground (arith, split_text_part c s h.1, h.0)

split_text_more :
    (c : ℕ) (s r : Text) → Without c s → split_text c (s ++ (c ∷ r)) ≡ s ∷ split_text c r
unfolding split_text
split_text_more c [] r h = ground arith
split_text_more c (x ∷ s) r h = ground (arith, split_text_more c s r h.1, h.0)

pub plain_split-SplitLaws : SplitLaws plain_split
plain_split-SplitLaws = record { split_part = split_text_part; split_more = split_text_more }

-- A part without the byte that comes behind it ends the search for a word without that byte.
pub is_prefix-stop :
    (c : ℕ) (w s t : Text) → free_of c w ≡ true → is_prefix w (s ++ (c ∷ t)) ≡ is_prefix w s
unfolding is_prefix
is_prefix-stop c [] s t h = refl
is_prefix-stop c (x ∷ w) [] t h = ground arith
is_prefix-stop c (x ∷ w) (y ∷ s) t h = ground (arith, is_prefix-stop c w s t)

-- A word that begins with a byte is not found in a part without the byte.
pub find_text-skip :
    (c : ℕ) (w s t : Text) → free_of c s ≡ true → find_text (c ∷ w) (s ++ t) ≡ find_text (c ∷ w) t
unfolding find_text is_prefix
find_text-skip c w [] t h = refl
find_text-skip c w (y ∷ s) t h = ground (arith, find_text-skip c w s t)

find_text-here :
    (c : ℕ) (w t : Text)
    → is_prefix (c ∷ w) (c ∷ t) ≡ true
    → find_text (c ∷ w) (c ∷ t) ≡ some (c ∷ t)
unfolding find_text
find_text-here c w t h = rw h refl

find_text-next :
    (c : ℕ) (w t : Text) → is_prefix w t ≡ false → find_text (c ∷ w) (c ∷ t) ≡ find_text (c ∷ w) t
unfolding find_text is_prefix
find_text-next c w t h = ground (arith, h)

-- Behind two other parts `/s` and `/l`, none of which begins with the word, `/w` is found in front of
-- `/w...`.
pub find_text-third :
    (c : ℕ) (w s l t : Text)
    → free_of c w ≡ true
    → free_of c s ≡ true
    → free_of c l ≡ true
    → is_prefix w s ≡ false
    → is_prefix w l ≡ false
    → is_prefix w t ≡ true
    → find_text (c ∷ w) (c ∷ (s ++ (c ∷ (l ++ (c ∷ t))))) ≡ some (c ∷ t)
find_text-third c w s l t hw hs hl ps pl pt =
    find_text-next c w (s ++ (c ∷ (l ++ (c ∷ t)))) (is_prefix-stop c w s (l ++ (c ∷ t)) hw ∙ ps)
    ∙ find_text-skip c w s (c ∷ (l ++ (c ∷ t))) hs
    ∙ find_text-next c w (l ++ (c ∷ t)) (is_prefix-stop c w l t hw ∙ pl)
    ∙ find_text-skip c w l (c ∷ t) hl
    ∙ find_text-here c w t (unfold is_prefix in ground (arith, pt))
