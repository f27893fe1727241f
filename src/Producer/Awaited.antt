-- ===== src/Producer/Awaited.antt =====
-- Names that are awaited, and the parts of the names of interests.
use inc_sim.Base.{Bool, true, false, Option, none, some, List, [], ◌∷◌, if◌then◌else◌}
use inc_sim.Base.Text.{Text, text}
use inc_sim.Ndn.{Ndn}

-- The last one of the keys.
abbrev pub last_key : List Text → Option Text
last_key [] = none
last_key (key ∷ []) = some key
last_key (key ∷ next ∷ keys) = last_key (next ∷ keys)

module _ (N : Ndn) where
  unfoldable pub has_name : N.Name → List N.Name → Bool
  has_name x [] = false
  has_name x (y ∷ ys) = let rest = has_name x ys in if N.name_eq y x then true else rest

  -- `m_sending_interest_list.erase (name)`
  unfoldable pub erase_name : N.Name → List N.Name → List N.Name
  erase_name x [] = []
  erase_name x (y ∷ ys) = let rest = erase_name x ys in if N.name_eq y x then rest else y ∷ rest

  -- `m_pending_args.find (name)`
  unfoldable pub find_arg : N.Name → List (N.Name × Bool) → Option Bool
  find_arg x [] = none
  find_arg x ((y, came) ∷ args) =
      let rest = find_arg x args in if N.name_eq y x then some came else rest

  -- A write through the iterator that `find` returned.
  unfoldable pub write_arg : N.Name → Bool → List (N.Name × Bool) → List (N.Name × Bool)
  write_arg x v [] = []
  write_arg x v ((y, came) ∷ args) =
      let rest = write_arg x v args in if N.name_eq y x then (y, v) ∷ args else (y, came) ∷ rest

  -- The name is awaited: its flag is reset, or it is added.
  unfoldable pub await : N.Name → List (N.Name × Bool) → List (N.Name × Bool)
  unfolding find_arg write_arg
  await x args = elim (find_arg x args) [
    | none ↦ (x, false) ∷ args
    | some came ↦ write_arg x false args
  ]

  -- No flag of the entry is false.
  unfoldable pub all_came : List (N.Name × Bool) → Bool
  all_came [] = true
  all_came ((y, came) ∷ args) = let rest = all_came args in if came then rest else false

  -- `getSubName(i + 1, 1)`, from the parts behind `i`.
  abbrev next_part : List N.Name → N.Name
  next_part [] = N.empty_name
  next_part (p ∷ ps) = p

  -- The keys of the functions that follow a part `/Function`, in order.
  unfoldable pub function_keys : List N.Name → List Text
  function_keys [] = []
  function_keys (p ∷ ps) =
      let rest = function_keys ps in
      if N.name_eq p (N.name (text "/Function")) then N.to_uri (next_part ps) ∷ rest else rest

  unfoldable pub await_all : List N.Name → List (N.Name × Bool) → List (N.Name × Bool)
  unfolding await
  await_all [] args = args
  await_all (x ∷ xs) args = await_all xs (await x args)
