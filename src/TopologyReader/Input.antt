-- ===== src/TopologyReader/Input.antt =====
-- `std::istringstream >> x`, as the reader of topology files uses it: white space is skipped, and once
-- an extraction has failed no other one assigns anything.
use inc_sim.Base.{
  ℕ, ◌+◌, ◌-◌, ◌*◌, ◌%◌, ◌≡◌, refl, Bool, true, false, ◌||◌, ◌&&◌, Option, none, some, [], ◌∷◌,
  if◌then◌else◌, ltb, leb, ◌==◌,
}
use inc_sim.Base.Text.{Text, text}
use inc_sim.Base.Number.{u32, is_digit}

-- What is not read yet, and `failbit`.
pub record Stream : Type 0 where
  pub failed : Bool
  pub rest : Text

abbrev pub line_buffer : Text → Stream
line_buffer line = record { failed = false; rest = line }

abbrev is_white : ℕ → Bool
is_white c = c == 32 || (leb 9 c && leb c 13)

abbrev skip_white : Text → Text
skip_white [] = []
skip_white (c ∷ s) = let rest = skip_white s in if is_white c then rest else c ∷ s

-- The text up to the next white space, and what is behind it.
abbrev take_word : Text → Text × Text
take_word [] = ([], [])
take_word (c ∷ s) =
    let more = take_word s in if is_white c then ([], c ∷ s) else (c ∷ more.0, more.1)

-- What is assigned, if anything is, and the stream behind it.
unfoldable pub extract : {A : Type 0} → (Text → (A × Bool) × Text) → Stream → Option A × Stream
extract convert s = if s.failed then (none, s) else elim (skip_white s.rest) [
  | [] ↦ (none, record { failed = true; rest = [] })
  | c ∷ t ↦
      let read = convert (c ∷ t) in (some read.0.0, record { failed = read.0.1; rest = read.1 })
]

-- The conversions: the value that is assigned, whether the extraction fails, and what is not read.
unfoldable pub to_word : Text → (Text × Bool) × Text
to_word t = let word = take_word t in ((word.0, false), word.1)

-- The digits at the front, `n` being the value of those before them, and the rest.
abbrev digits : ℕ → Text → ℕ × Text
digits n [] = (n, [])
digits n (c ∷ s) =
    let more = digits (n * 10 + (c - b'0')) s in if is_digit c then more else (n, c ∷ s)

abbrev residue : Bool → ℕ → ℕ
residue false n = n
residue true n = (u32 - n) % u32

abbrev unsigned : Bool → Text → (ℕ × Bool) × Text
unsigned negative [] = ((0, true), [])
unsigned negative (c ∷ s) =
    let n = digits 0 (c ∷ s) in
    if is_digit c
    then (if ltb n.0 u32 then ((residue negative n.0, false), n.1) else ((u32 - 1, true), n.1))
    else ((0, true), c ∷ s)

-- An `uint32_t`: what is no number gives 0, a number that is too large the largest one, and both fail;
-- the value of a number with a minus is its residue.
unfoldable pub to_u32 : Text → (ℕ × Bool) × Text
to_u32 [] = ((0, true), [])
to_u32 (c ∷ s) =
    if c == b'-'
    then unsigned true s
    else if c == b'+'
    then unsigned false s
    else unsigned false (c ∷ s)

-- The value of a variable with the value `a` behind an extraction into it.
abbrev pub otherwise : {A : Type 0} → Option A → A → A
otherwise none a = a
otherwise (some b) a = b

-- The words of a line: `lineBuffer >> x >> y >> ...` into empty strings.
unfoldable pub read_word : Stream → Text × Stream
unfolding extract to_word
read_word s = let read = extract to_word s in (otherwise read.0 [], read.1)

stream_test :
    let first = extract to_word (line_buffer (text " ab  -1 x 3")) in
    let second = extract to_u32 first.1 in
    let third = extract to_u32 second.1 in
    let fourth = extract to_u32 third.1 in
    (first.0 ≡ some (text "ab"))
    × (second.0 ≡ some 4_294_967_295)
    × (third.0 ≡ some 0)
    × (fourth.0 ≡ none)
unfolding extract to_word to_u32
stream_test = (refl, refl, refl, refl)
