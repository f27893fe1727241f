-- ===== src/Producer/Fetches.antt =====
-- What is sent and what is awaited when content is fetched.
use inc_sim.Base.{
  ℕ, ◌+◌, ◌≡◌, refl, ap, ◌∙◌, ◌↔◌, Bool, true, false, not, ◌&&◌, ◌||◌, none, some, List, [], ◌∷◌,
  ◌++◌, if◌then◌else◌, arith,
}
use inc_sim.Ndn.{Ndn, Nfd}
use inc_sim.Producer.{Job, Producer, Output, interest_sent}
use inc_sim.Producer.Awaited.{has_name, find_arg, write_arg, await, await_all}
use inc_sim.Producer.Resolve.{fetch_name, fetch_names, handle_fetch}

-- What the documentation says of names: `==` is true of equal names only.
pub record NameLaws (N : Ndn) : Type 0 where
  pub name_eq_iff : (x y : N.Name) → (N.name_eq x y ≡ true) ↔ (x ≡ y)

module _ (N : Ndn) where
  -- The output is an interest for the name.
  abbrev is_sent : N.Name → Output N → Bool
  is_sent x (interest_sent y) = N.name_eq y x
  is_sent x o = false

  -- How many interests for the name were sent.
  unfoldable pub sent_count : N.Name → List (Output N) → ℕ
  sent_count x [] = 0
  sent_count x (o ∷ os) = let rest = sent_count x os in if is_sent x o then rest + 1 else rest

  -- The name is awaited and has not come.
  unfoldable pub is_awaited : N.Name → List (N.Name × Bool) → Bool
  unfolding find_arg
  is_awaited x args = elim (find_arg N x args) [ none ↦ false | some came ↦ not came ]

  sent_count-append :
      (x : N.Name) (os : List (Output N)) (o : Output N)
      → sent_count x (os ++ o ∷ []) ≡ sent_count x os + (if is_sent x o then 1 else 0)
  unfolding sent_count
  sent_count-append x [] o = ground arith
  sent_count-append x (q ∷ os) o = ground (arith, sent_count-append x os o)

module _ {N : Ndn} (laws : NameLaws N) where
  find_arg-write_arg :
      (x y : N.Name) (v : Bool) (args : List (N.Name × Bool))
      → find_arg N x (write_arg N y v args) ≡ (
          if N.name_eq y x
          then elim (find_arg N y args) [ none ↦ none | some came ↦ some v ]
          else find_arg N x args)
  unfolding find_arg write_arg
  find_arg-write_arg x y v [] = ground arith
  find_arg-write_arg x y v ((z, came) ∷ args) = ground (
    arith,
    find_arg-write_arg x y v args,
    laws.name_eq_iff z y,
    laws.name_eq_iff z x,
    laws.name_eq_iff y x,
  )

  is_awaited-await :
      (x y : N.Name) (args : List (N.Name × Bool))
      → is_awaited N x (await N y args) ≡ (N.name_eq y x || is_awaited N x args)
  unfolding is_awaited await find_arg
  is_awaited-await x y args =
      ground (arith, find_arg-write_arg x y false args, laws.name_eq_iff y x)

  is_awaited-await_all :
      (x : N.Name) (ys : List N.Name) (args : List (N.Name × Bool))
      → is_awaited N x (await_all N ys args) ≡ (has_name N x ys || is_awaited N x args)
  unfolding await_all has_name
  is_awaited-await_all x [] args = refl
  is_awaited-await_all x (y ∷ ys) args =
      ground (arith, is_awaited-await_all x ys (await N y args), is_awaited-await x y args)

module _ {N : Ndn} {F : Nfd N} (laws : NameLaws N) where
  fetch_name-once :
      (x y : N.Name) (p : Producer N F)
      → (has_name N x (fetch_name y p).sending_interest_list
          ≡ (N.name_eq y x || has_name N x p.sending_interest_list))
        × (sent_count N x (fetch_name y p).outputs
            ≡ sent_count N x p.outputs
              + (if N.name_eq y x && not (has_name N x p.sending_interest_list) then 1 else 0))
        × ((fetch_name y p).pending_content_table ≡ p.pending_content_table)
        × ((fetch_name y p).node ≡ p.node)
  unfolding fetch_name has_name
  fetch_name-once x y p =
      ground (arith, laws.name_eq_iff y x, sent_count-append N x p.outputs (interest_sent y))

  fetch_names-once :
      (x : N.Name) (ys : List N.Name) (p : Producer N F)
      → (has_name N x (fetch_names ys p).sending_interest_list
          ≡ (has_name N x ys || has_name N x p.sending_interest_list))
        × (sent_count N x (fetch_names ys p).outputs
            ≡ sent_count N x p.outputs
              + (if has_name N x ys && not (has_name N x p.sending_interest_list) then 1 else 0))
        × ((fetch_names ys p).pending_content_table ≡ p.pending_content_table)
        × ((fetch_names ys p).node ≡ p.node)
  unfolding fetch_names has_name
  fetch_names-once x [] p = ground arith
  fetch_names-once x (y ∷ ys) p =
      let first = fetch_name-once x y p in
      let rest = fetch_names-once x ys (fetch_name y p) in
      (ground (arith, first, rest), ground (arith, first, rest), rest.2 ∙ first.2, rest.3 ∙ first.3)

  -- Names being equal only to themselves: where the content `ys` is to be fetched for an interest,
  -- an interest for a name of `ys` is sent once, unless one for that name is out already, and none for
  -- other names; afterwards exactly the names that were out or are among `ys` are out; and the table
  -- gets one entry, in front, which awaits exactly what it awaited before and the names of `ys`.
  pub handle_fetch_lem :
      (x : N.Name) (ys : List N.Name) (job : Job N) (p : Producer N F)
      → (let p' = handle_fetch ys job p in
          (sent_count N x p'.outputs
            ≡ sent_count N x p.outputs
              + (if has_name N x ys && not (has_name N x p.sending_interest_list) then 1 else 0))
          × (has_name N x p'.sending_interest_list
              ≡ (has_name N x ys || has_name N x p.sending_interest_list))
          × ((entry : Job N) × (p'.pending_content_table ≡ entry ∷ p.pending_content_table)
              × (is_awaited N x entry.pending_args
                  ≡ (has_name N x ys || is_awaited N x job.pending_args))))
  unfolding handle_fetch
  handle_fetch_lem x ys job p =
      let once = fetch_names-once x ys p in
      (
        once.1,
        once.0,
        (
          record job { pending_args = await_all N ys job.pending_args },
          ap (λ table. record job { pending_args = await_all N ys job.pending_args } ∷ table)
              once.2,
          is_awaited-await_all laws x ys job.pending_args,
        ),
      )
