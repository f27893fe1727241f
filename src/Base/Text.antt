-- ===== src/Base/Text.antt =====
-- `std::string` as the sequence of its bytes: comparison, order and search.
use Prim.Native.Nat.{ℕ}
use Prim.Native.Char.{code}
use Prim.Native.String.{String}
use mathlib.Core.Path.{◌≡◌, refl, ap, sym, subst, ◌∙◌}
use mathlib.Core.Logic.{◌↔◌}
use mathlib.Core.Bool.{Bool, true, false, ◌&&◌, ◌||◌}
use mathlib.Core.Option.{Option, none, some}
use mathlib.Core.List.{List, [], ◌∷◌, ◌++◌, append-nil}
use native.Mathlib.Omega.{arith}
use inc_sim.Base.Tests.{ltb, ◌==◌, if◌then◌else◌}

abbrev pub Text : Type 0
Text = List ℕ

-- The bytes of an ASCII literal.
abbrev pub text : String → Text
text String.[] = []
text (String.◌∷◌ c s) = code c ∷ text s

-- `stream << a << b`, read from the right.
infixr 60 ◌<<◌
abbrev pub ◌<<◌ : Text → Text → Text
a << b = a ++ b

-- One behind the other.
abbrev pub joined : List Text → Text
joined [] = []
joined (x ∷ xs) = x ++ joined xs

abbrev pub slashed : List Text → List Text
slashed [] = []
slashed (p ∷ ps) = (b'/' ∷ p) ∷ slashed ps

-- `a == b`, `a.compare(b) == 0`.
unfoldable pub text_eq : Text → Text → Bool
text_eq [] [] = true
text_eq [] (y ∷ ys) = false
text_eq (x ∷ xs) [] = false
text_eq (x ∷ xs) (y ∷ ys) = (x == y) && text_eq xs ys

-- `a < b`, the order of the keys of a `std::map`.
unfoldable pub text_lt : Text → Text → Bool
text_lt [] [] = false
text_lt [] (y ∷ ys) = true
text_lt (x ∷ xs) [] = false
text_lt (x ∷ xs) (y ∷ ys) = let rest = text_lt xs ys in if x == y then rest else ltb x y

pub text_eq_sound : (a b : Text) → text_eq a b ≡ true → a ≡ b
unfolding text_eq
text_eq_sound [] [] h = refl
text_eq_sound [] (y ∷ ys) h = cc
text_eq_sound (x ∷ xs) [] h = cc
text_eq_sound (x ∷ xs) (y ∷ ys) h = ground (arith, text_eq_sound xs ys)

pub text_eq_refl : (a : Text) → text_eq a a ≡ true
unfolding text_eq
text_eq_refl [] = refl
text_eq_refl (x ∷ xs) = ground (arith, text_eq_refl xs)

pub text_eq_iff : (a b : Text) → (text_eq a b ≡ true) ↔ (a ≡ b)
text_eq_iff a b = (text_eq_sound a b, λ e. ap (text_eq a) (sym e) ∙ text_eq_refl a)

pub text_lt_irrefl : (a : Text) → text_lt a a ≡ false
unfolding text_lt
text_lt_irrefl [] = refl
text_lt_irrefl (x ∷ xs) = ground (arith, text_lt_irrefl xs)

pub text_lt_trans : (a b c : Text) → text_lt a b ≡ true → text_lt b c ≡ true → text_lt a c ≡ true
unfolding text_lt
text_lt_trans [] [] c h k = cc
text_lt_trans [] (y ∷ ys) [] h k = cc
text_lt_trans [] (y ∷ ys) (z ∷ zs) h k = refl
text_lt_trans (x ∷ xs) [] c h k = cc
text_lt_trans (x ∷ xs) (y ∷ ys) [] h k = cc
text_lt_trans (x ∷ xs) (y ∷ ys) (z ∷ zs) h k = ground (arith, text_lt_trans xs ys zs)

-- Two different keys are ordered one way or the other.
pub text_lt_total : (a b : Text) → text_eq a b ≡ false → text_lt a b ≡ false → text_lt b a ≡ true
unfolding text_eq text_lt
text_lt_total [] [] h k = cc
text_lt_total [] (y ∷ ys) h k = cc
text_lt_total (x ∷ xs) [] h k = refl
text_lt_total (x ∷ xs) (y ∷ ys) h k = ground (arith, text_lt_total xs ys)

-- `s` begins with `p`.
unfoldable pub is_prefix : Text → Text → Bool
is_prefix [] s = true
is_prefix (x ∷ p) [] = false
is_prefix (x ∷ p) (y ∷ s) = (x == y) && is_prefix p s

-- `s.find(p) != npos`.
unfoldable pub contains : Text → Text → Bool
unfolding is_prefix
contains p [] = is_prefix p []
contains p (y ∷ s) = is_prefix p (y ∷ s) || contains p s

pub is_prefix-append : (p t : Text) → is_prefix p (p ++ t) ≡ true
unfolding is_prefix
is_prefix-append [] t = refl
is_prefix-append (x ∷ p) t = ground (arith, is_prefix-append p t)

is_prefix-append_right : (p s t : Text) → is_prefix p s ≡ true → is_prefix p (s ++ t) ≡ true
unfolding is_prefix
is_prefix-append_right [] s t h = refl
is_prefix-append_right (x ∷ p) [] t h = cc
is_prefix-append_right (x ∷ p) (y ∷ s) t h = ground (arith, is_prefix-append_right p s t)

contains_of_is_prefix : (p s : Text) → is_prefix p s ≡ true → contains p s ≡ true
unfolding contains
contains_of_is_prefix p [] h = h
contains_of_is_prefix p (y ∷ s) h = ground arith

pub contains-append_left : (p u s : Text) → contains p s ≡ true → contains p (u ++ s) ≡ true
unfolding contains
contains-append_left p [] s h = h
contains-append_left p (y ∷ u) s h = ground (arith, contains-append_left p u s h)

pub contains-append_right : (p s t : Text) → contains p s ≡ true → contains p (s ++ t) ≡ true
unfolding contains
contains-append_right p [] t h = contains_of_is_prefix p t (is_prefix-append_right p [] t h)
contains-append_right p (y ∷ s) t h =
    ground (arith, is_prefix-append_right p (y ∷ s) t, contains-append_right p s t)

-- A text contains each of its parts.
pub contains_infix : (u p t : Text) → contains p (u ++ (p ++ t)) ≡ true
contains_infix u p t =
    contains-append_left p u (p ++ t) (contains_of_is_prefix p (p ++ t) (is_prefix-append p t))

pub contains_self : (p : Text) → contains p p ≡ true
contains_self p = subst (λ s. contains p s ≡ true) (append-nil p) (contains_infix [] p [])

-- The rest of a text from the first occurrence of `p` on, `none` if there is none.
unfoldable pub find_text : Text → Text → Option Text
find_text p [] = if is_prefix p [] then some [] else none
find_text p (y ∷ s) = let rest = find_text p s in if is_prefix p (y ∷ s) then some (y ∷ s) else rest
