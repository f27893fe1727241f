-- ===== src/Node/Excluded.antt =====
-- The exclude list of a node.
use inc_sim.Base.{
  ℕ, ◌+◌, ◌-◌, ◌≡◌, Bool, true, false, List, [], ◌∷◌, ◌++◌, if◌then◌else◌, ltb, arith,
}
use inc_sim.Base.Text.{Text, text_eq, text_eq_iff}
use inc_sim.Ndn.{Ndn, Nfd}
use inc_sim.Node.{IncOrchestrationComputeNode}

-- `erase` at the first position that `find` returned.
unfoldable pub erase_first : Text → List Text → List Text
erase_first x [] = []
erase_first x (y ∷ ys) = if text_eq y x then ys else y ∷ erase_first x ys

-- `find(begin, end, x) != end`
unfoldable pub member : Text → List Text → Bool
member x [] = false
member x (y ∷ ys) = if text_eq y x then true else member x ys

module _ {N : Ndn} {F : Nfd N} where
  unfoldable pub add_to_exclude_list :
      Text → IncOrchestrationComputeNode N F → IncOrchestrationComputeNode N F
  add_to_exclude_list name n = record n { func_exclude_list = n.func_exclude_list ++ name ∷ [] }

  unfoldable pub remove_from_exclude_list :
      Text → IncOrchestrationComputeNode N F → IncOrchestrationComputeNode N F
  unfolding erase_first
  remove_from_exclude_list name n = record n {
    func_exclude_list = erase_first name n.func_exclude_list;
  }

  unfoldable pub check_exclude_list : Text → IncOrchestrationComputeNode N F → Bool
  unfolding member
  check_exclude_list name n = member name n.func_exclude_list

-- How often a name stands in a list.
unfoldable pub count : Text → List Text → ℕ
count x [] = 0
count x (y ∷ ys) = if text_eq y x then count x ys + 1 else count x ys

count-append : (x : Text) (ys zs : List Text) → count x (ys ++ zs) ≡ count x ys + count x zs
unfolding count
count-append x [] zs = omega arith
count-append x (y ∷ ys) zs = ground (arith, count-append x ys zs)

count-erase_first :
    (x z : Text) (ys : List Text)
    → count z (erase_first x ys) ≡ count z ys - (if text_eq x z then 1 else 0)
unfolding count erase_first
count-erase_first x z [] = ground arith
count-erase_first x z (y ∷ ys) =
    ground (arith, count-erase_first x z ys, text_eq_iff y x, text_eq_iff y z, text_eq_iff x z)

member-count : (x : Text) (ys : List Text) → member x ys ≡ ltb 0 (count x ys)
unfolding member count
member-count x [] = ground arith
member-count x (y ∷ ys) = ground (arith, member-count x ys)

module _ {N : Ndn} {F : Nfd N} where
  -- Adding a name to the exclude list raises its count by one, removing lowers it by one and not
  -- below 0, the counts of other names stay, and the check says whether the count is positive.
  pub exclude_list_counts :
      (n : IncOrchestrationComputeNode N F) (x z : Text)
      → (count z (add_to_exclude_list x n).func_exclude_list
          ≡ count z n.func_exclude_list + (if text_eq x z then 1 else 0))
        × (count z (remove_from_exclude_list x n).func_exclude_list
            ≡ count z n.func_exclude_list - (if text_eq x z then 1 else 0))
        × (check_exclude_list z n ≡ ltb 0 (count z n.func_exclude_list))
  unfolding add_to_exclude_list remove_from_exclude_list check_exclude_list
  exclude_list_counts n x z =
      (one_more, count-erase_first x z n.func_exclude_list, member-count z n.func_exclude_list)
    where
      one_more :
          count z (n.func_exclude_list ++ x ∷ [])
          ≡ count z n.func_exclude_list + (if text_eq x z then 1 else 0)
      one_more = unfold count in ground (arith, count-append z n.func_exclude_list (x ∷ []))
