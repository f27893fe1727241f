-- ===== src/Base/Number.antt =====
-- `std::stoi`, with its result converted to `uint32_t` as at every call, and `std::to_string`.
use Prim.Native.Nat.{ℕ, zero, suc, ◌+◌, ◌-◌, ◌*◌, ◌/◌, ◌%◌, ◌<◌}
use mathlib.Core.Path.{◌≡◌, refl}
use mathlib.Core.Bool.{Bool, true, false, ◌&&◌, ◌||◌}
use mathlib.Core.List.{[], ◌∷◌, ◌++◌, append_assoc, append-nil}
use native.Mathlib.Omega.{arith}
use inc_sim.Base.Tests.{ltb, leb, ◌==◌, if◌then◌else◌, Bool-cases}
use mathlib.Core.Logic.{inl, inr}
use inc_sim.Base.Text.{Text}
use inc_sim.Base.Outcome.{Outcome, ok, err, invalid_argument, out_of_range}

abbrev pub u32 : ℕ
u32 = 4_294_967_296

abbrev pub int_limit : ℕ
int_limit = 2_147_483_648

abbrev pub is_digit : ℕ → Bool
is_digit c = leb b'0' c && leb c b'9'

-- `isspace` in the C locale
abbrev is_space : ℕ → Bool
is_space c = c == 32 || (leb 9 c && leb c 13)

skip_spaces : Text → Text
skip_spaces [] = []
skip_spaces (c ∷ s) = let rest = skip_spaces s in if is_space c then rest else c ∷ s

-- The value of the digits at the front, `n` being that of the digits before them.
digits : ℕ → Text → ℕ
digits n [] = n
digits n (c ∷ s) = let rest = digits (n * 10 + (c - b'0')) s in if is_digit c then rest else n

-- An `int` out of its range is refused; a negative one becomes its residue modulo 2³².
signed : Bool → ℕ → Outcome ℕ
signed false n = if ltb n int_limit then ok n else err out_of_range
signed true n = if leb n int_limit then ok ((u32 - n) % u32) else err out_of_range

number : Bool → Text → Outcome ℕ
number negative [] = err invalid_argument
number negative (c ∷ s) =
    if is_digit c then signed negative (digits 0 (c ∷ s)) else err invalid_argument

after_spaces : Text → Outcome ℕ
after_spaces [] = err invalid_argument
after_spaces (c ∷ s) =
    if c == b'-' then number true s else if c == b'+' then number false s else number false (c ∷ s)

unfoldable pub stoi : Text → Outcome ℕ
unfolding skip_spaces after_spaces number digits signed
stoi s = after_spaces (skip_spaces s)

stoi_test :
    (stoi (b'4' ∷ b'2' ∷ []) ≡ ok 42)
    × (stoi (32 ∷ b'-' ∷ b'1' ∷ b'x' ∷ []) ≡ ok 4_294_967_295)
    × (stoi [] ≡ err invalid_argument)
unfolding stoi
stoi_test = (refl, refl, refl)

signed-lt-u32 : (b : Bool) (m n : ℕ) → signed b m ≡ ok n → n < u32
unfolding signed
signed-lt-u32 true m n h = ground arith
signed-lt-u32 false m n h = ground arith

number-lt-u32 : (b : Bool) (s : Text) (n : ℕ) → number b s ≡ ok n → n < u32
unfolding number
number-lt-u32 b [] n h = cc
number-lt-u32 b (c ∷ s) n h = ground (arith, signed-lt-u32 b (digits 0 (c ∷ s)) n)

after_spaces-lt-u32 : (s : Text) (n : ℕ) → after_spaces s ≡ ok n → n < u32
unfolding after_spaces
after_spaces-lt-u32 [] n h = cc
after_spaces-lt-u32 (c ∷ s) n h =
    ground (arith, number-lt-u32 true s n, number-lt-u32 false s n, number-lt-u32 false (c ∷ s) n)

-- What is read fits in 32 bits.
pub stoi-lt-u32 : (s : Text) (n : ℕ) → stoi s ≡ ok n → n < u32
unfolding stoi
stoi-lt-u32 s n h = after_spaces-lt-u32 (skip_spaces s) n h

-- The digits of `n`, of which there are at most `fuel`.
unfoldable pub decimal : ℕ → ℕ → Text
decimal zero n = []
decimal (suc fuel) n =
    let front = decimal fuel (n / 10) in
    if ltb n 10 then (b'0' + n) ∷ [] else front ++ (b'0' + n % 10) ∷ []

-- `stream << n`
unfoldable pub to_string : ℕ → Text
unfolding decimal
to_string n = decimal (suc n) n

to_string_test : to_string 4_090 ≡ b'4' ∷ b'0' ∷ b'9' ∷ b'0' ∷ []
unfolding to_string
to_string_test = refl

-- The digits before `rest` have the value of the number.
digits-decimal :
    (fuel n : ℕ) (rest : Text) → n < fuel → digits 0 (decimal fuel n ++ rest) ≡ digits n rest
unfolding decimal digits
digits-decimal zero n rest h = ground arith
digits-decimal (suc fuel) n rest h = ground (
  arith,
  append_assoc (decimal fuel (n / 10)) ((b'0' + n % 10) ∷ []) rest,
  digits-decimal fuel (n / 10) ((b'0' + n % 10) ∷ rest),
)

-- They begin with a digit.
decimal-digit :
    (fuel n : ℕ) → n < fuel → (c : ℕ) × (s : Text) × (decimal fuel n ≡ c ∷ s) × (is_digit c ≡ true)
unfolding decimal
decimal-digit zero n h = ground arith
decimal-digit (suc fuel) n h = elim (Bool-cases (ltb n 10)) [
  | inl e ↦ (b'0' + n, [], rw e refl, ground arith)
  | inr e ↦
      let (c, s, p, q) = decimal-digit fuel (n / 10) (ground arith) in
      (c, s ++ (b'0' + n % 10) ∷ [], rw e (rw p refl), q)
]

number-decimal : (fuel n : ℕ) → n < fuel → n < int_limit → number false (decimal fuel n) ≡ ok n
unfolding number signed digits
number-decimal fuel n h k =
    let (c, s, p, q) = decimal-digit fuel n h in
    ground (arith, p, q, digits-decimal fuel n [] h, append-nil (decimal fuel n))

-- What is printed of a number that is an `int` is read back.
pub stoi-to_string : (n : ℕ) → n < int_limit → stoi (to_string n) ≡ ok n
unfolding stoi skip_spaces after_spaces to_string
stoi-to_string n h =
    let (c, s, p, q) = decimal-digit (suc n) n (ground arith) in
    ground (arith, p, q, number-decimal (suc n) n (ground arith) h)
