-- ===== src/Ndn.antt =====
-- What the code takes from ndn-cxx: `Name`, built from and printed as a URI. `Name` and the type
-- `double` are opaque: the code stores, compares and prints their values.
use inc_sim.Base.{
  none, some, get_elem?, ℕ, ◌≡◌, Bool, true, ◌&&◌, ◌||◌, Option, List, [], ◌∷◌, map, leb, ◌==◌,
  some_in,
}
use inc_sim.Base.Text.{Text, text_eq, joined, slashed}

pub record Ndn : Type 1 where
  pub Name : Type 0
  -- `Name(s)`
  pub name : Text → Name
  -- `n.toUri()`
  pub to_uri : Name → Text
  -- `Name()`
  pub empty_name : Name
  -- `n == m`
  pub name_eq : Name → Name → Bool
  pub Double : Type 0
  -- `0.0`
  pub zero_double : Double

-- Names as their own URIs.
abbrev pub plain_names : Ndn
plain_names = record {
  Name = Text;
  name = λ s. s;
  to_uri = λ n. n;
  empty_name = [];
  name_eq = text_eq;
  Double = ℕ;
  zero_double = 0;
}

-- A letter, a digit, `-` or `_`: the bytes that a URI writes as they are, without the dot.
abbrev pub is_plain : ℕ → Bool
is_plain c =
    (leb b'a' c && leb c b'z')
    || (leb b'A' c && leb c b'Z')
    || (leb b'0' c && leb c b'9')
    || c == b'-'
    || c == b'_'

abbrev pub all_plain : Text → Bool
all_plain [] = true
all_plain (c ∷ s) = is_plain c && all_plain s

-- A part of a name that its URI writes as it is.
abbrev pub is_plain_part : Text → Bool
is_plain_part p = some_in p && all_plain p

abbrev pub all_plain_parts : List Text → Bool
all_plain_parts [] = true
all_plain_parts (p ∷ ps) = is_plain_part p && all_plain_parts ps

-- What the code takes from NFD: the forwarding table (`Fib`) and its faces. The operations on an
-- entry take the name of the entry.
pub record Nfd (N : Ndn) : Type 1 where
  pub Fib : Type 0
  pub Face : Type 0
  -- `face.getRemoteUri().toString()`
  pub remote_uri : Face → Text
  -- `findExactMatch(prefix)` and, if there is an entry, the faces of its `getNextHops()`
  pub next_hops : Fib → N.Name → Option (List Face)
  pub insert : Fib → N.Name → Fib
  pub add_or_update_next_hop : Fib → N.Name → Face → ℕ → Fib
  pub remove_next_hop : Fib → N.Name → Face → Fib

-- The structure of a name: `getSubName(i, 1)` for each `i` below `size()`, and `append`.
pub record NameParts (N : Ndn) : Type 0 where
  pub parts : N.Name → List N.Name
  pub append : N.Name → N.Name → N.Name

module _ {N : Ndn} (names : NameParts N) where
  abbrev pub part_at : ℕ → List N.Name → N.Name
  part_at i parts = elim (get_elem? parts i) [ none ↦ N.empty_name | some p ↦ p ]

  -- `getSubName(i, 1)`, the empty name behind the end.
  abbrev pub sub_name : ℕ → N.Name → N.Name
  sub_name i name = part_at i (names.parts name)

-- What the documentation says of URIs: the URI of a name is read as the name. And of such parts: a name has the parts that its URI shows, a
-- part prints as it was written, and two are equal if their texts are.
pub record UriLaws (N : Ndn) (names : NameParts N) : Type 0 where
  pub name_of_uri : (name : N.Name) → N.name (N.to_uri name) ≡ name
  pub parts_of_uri :
      (ps : List Text)
      → all_plain_parts ps ≡ true
      → names.parts (N.name (joined (slashed ps))) ≡ map N.name (slashed ps)
  pub uri_of_part : (p : Text) → is_plain_part p ≡ true → N.to_uri (N.name (b'/' ∷ p)) ≡ b'/' ∷ p
  pub part_eq :
      (p q : Text)
      → is_plain_part p ≡ true
      → is_plain_part q ≡ true
      → N.name_eq (N.name (b'/' ∷ p)) (N.name (b'/' ∷ q)) ≡ text_eq p q
