-- ===== src/Ipv4/Routes.antt =====
-- classes/include/DwmIpv4Routes.hh: an array of 33 hash maps, one for each mask length, keyed by
-- network address. A hash map is an association list; nothing here rests on the order of its
-- entries. A loop over the 33 maps is recursion on the index. The function that stands for the array
-- has a map at every index, but the class is modelled for prefixes with masks of at most 32 bits
-- only: at another index, which a prefix that was read may have, the source is undefined.
pub mod Search
pub mod Laws
pub mod Shorten
pub mod Hits
pub mod Longest
pub mod Agreement
pub mod Coalesce
mod Tests
use lib_dwm.Base.{
  ℕ, zero, suc, ◌+◌, ◌%◌, ◌^◌, Bool, true, false, Option, none, some, List, [], ◌∷◌, ◌++◌, ◌==◌,
  if◌then◌else◌, length, not, is_some, or_else,
}
use lib_dwm.Base.Assoc.{lookup, assign, forget, assign_all}
use lib_dwm.Ipv4.Prefix.{Ipv4Prefix, make, set_mask_length, broadcast}
use lib_dwm.Patricia.Map.{is_empty_list}

module _ (V : Type 0) where
  -- `_hashMaps`.
  pub record Routes : Type 0 where
    pub hash_maps : ℕ → List (ℕ × V)

module _ {V : Type 0} where
  -- One of the maps after a call that changes it.
  unfoldable pub update : Routes V → ℕ → List (ℕ × V) → Routes V
  update r i es = record { hash_maps = λ j. if i == j then es else r.hash_maps j }

  -- The map of a prefix's mask length.
  abbrev pub sub_map : Routes V → Ipv4Prefix → List (ℕ × V)
  sub_map r p = r.hash_maps p.mask_length

  unfoldable pub no_routes : Routes V
  no_routes = record { hash_maps = λ i. [] }

  clear_below : ℕ → Routes V → Routes V
  clear_below zero r = r
  clear_below (suc i) r = update (clear_below i r) i []

  -- `Clear()`.
  unfoldable pub clear : Routes V → Routes V
  unfolding clear_below
  clear r = clear_below 33 r

  empty_below : ℕ → Routes V → Bool
  empty_below zero r = true
  empty_below (suc i) r =
      let rest = empty_below i r in if rest then is_empty_list (r.hash_maps i) else false

  -- `Empty()`.
  unfoldable pub empty : Routes V → Bool
  unfolding empty_below
  empty r = empty_below 33 r

  -- `Add(prefix, value)`.
  unfoldable pub add : Routes V → Ipv4Prefix → V → Routes V × Bool
  add r p v =
      if is_some (lookup p.network (sub_map r p))
      then (r, false)
      else (update r p.mask_length (assign p.network v (sub_map r p)), true)

  add_all_below : ℕ → Routes V → Routes V → Routes V
  add_all_below zero r more = r
  add_all_below (suc i) r more =
      let r' = add_all_below i r more in
      if is_empty_list (more.hash_maps i)
      then r'
      else update r' i (assign_all (more.hash_maps i) (r'.hash_maps i))

  -- `Add(routes)`.
  unfoldable pub add_all : Routes V → Routes V → Routes V
  unfolding add_all_below
  add_all r more = add_all_below 33 r more

  -- `operator []`: the table afterwards and the value that the reference names.
  unfoldable pub subscript : V → Routes V → Ipv4Prefix → Routes V × V
  subscript default r p =
      let found = lookup p.network (sub_map r p) in
      (
        if is_some found
            then r
            else update r p.mask_length (assign p.network default (sub_map r p)),
        or_else found default,
      )

  -- `Delete(prefix)`.
  unfoldable pub delete : Routes V → Ipv4Prefix → Routes V × Bool
  delete r p =
      if is_some (lookup p.network (sub_map r p))
      then (update r p.mask_length (forget p.network (sub_map r p)), true)
      else (r, false)

  -- `Find(prefix, match)`: the answer, and what it leaves in `match`.
  unfoldable pub find : Routes V → Ipv4Prefix → V → Bool × V
  find r p match =
      if is_empty_list (sub_map r p)
      then (false, match)
      else elim (lookup p.network (sub_map r p)) [ some v ↦ (true, v) | none ↦ (false, match) ]

  -- `FindInSubMap`: the flag and the value of the result.
  unfoldable pub find_in_sub_map : List (ℕ × V) → ℕ → Bool × V → Bool × V
  find_in_sub_map es addr result = elim (lookup addr es) [ some v ↦ (true, v) | none ↦ result ]
