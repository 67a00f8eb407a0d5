-- ===== src/Ipv4/Routes/Search.antt =====
-- The searches and the comparisons of classes/include/DwmIpv4Routes.hh. A reference argument that
-- a search fills is passed in and given back behind the answer. Every prefix that a search makes
-- is of length 32 at most, so what its storage held before does not matter.
use lib_dwm.Base.{
  ℕ, zero, suc, ◌+◌, ◌%◌, ◌^◌, Bool, true, false, none, some, List, [], ◌∷◌, ◌++◌, if◌then◌else◌,
  length, not, ◌==◌,
}
use lib_dwm.Base.Assoc.{lookup}
use lib_dwm.Ipv4.Prefix.{Ipv4Prefix, make, set_mask_length, broadcast}
use lib_dwm.Ipv4.Routes.{Routes, find_in_sub_map}
use lib_dwm.Patricia.Map.{is_empty_list}

module _ {V : Type 0} where
  -- The loop of `FindLongest`, with the prefix `lp` that it shortens as it goes.
  unfoldable pub longest_from : ℕ → Routes V → Ipv4Prefix → Ipv4Prefix × V → Bool × (Ipv4Prefix × V)
  longest_from zero r lp match = (false, match)
  longest_from (suc i) r lp match = elim (is_empty_list (r.hash_maps i)) [
    | true ↦ longest_from i r lp match
    | false ↦
        let shorter = set_mask_length lp i in
        elim (lookup shorter.network (r.hash_maps i)) [
          | some v ↦ (true, (shorter, v))
          | none ↦ longest_from i r shorter match
        ]
  ]

  -- `FindLongest(ipAddr, match)`.
  unfoldable pub find_longest : Routes V → ℕ → Ipv4Prefix × V → Bool × (Ipv4Prefix × V)
  unfolding make
  find_longest r addr match = longest_from 33 r (make broadcast addr 32) match

  -- One round of the second loop of `NewFindLongest`: what the thread for a length found.
  unfoldable pub join_thread :
      V → ℕ → Routes V → ℕ → Bool × (Ipv4Prefix × V) → Bool × (Ipv4Prefix × V)
  join_thread default i r addr sofar =
      if is_empty_list (r.hash_maps i)
      then sofar
      else (let result =
            find_in_sub_map (r.hash_maps i) (make broadcast addr i).network (false, default) in
          if result.0 then (true, (make broadcast addr i, result.1)) else sofar)

  -- Both loops of `NewFindLongest`. The threads write to different results, and are joined from
  -- the longest mask to the shortest.
  unfoldable pub join_from :
      V → ℕ → Routes V → ℕ → Bool × (Ipv4Prefix × V) → Bool × (Ipv4Prefix × V)
  unfolding join_thread
  join_from default zero r addr sofar = sofar
  join_from default (suc i) r addr sofar =
      join_from default i r addr (join_thread default i r addr sofar)

  -- `NewFindLongest(ipAddr, match)`.
  unfoldable pub new_find_longest : V → Routes V → ℕ → Ipv4Prefix × V → Bool × (Ipv4Prefix × V)
  new_find_longest default r addr match = join_from default 33 r addr (false, match)

  -- The loop of `Find`.
  unfoldable pub matches_from : ℕ → Routes V → ℕ → List (Ipv4Prefix × V) → List (Ipv4Prefix × V)
  matches_from zero r addr matches = matches
  matches_from (suc i) r addr matches = matches_from i r addr (
      if is_empty_list (r.hash_maps i)
      then matches
      else (let prefix = make broadcast addr i in
          elim (lookup prefix.network (r.hash_maps i)) [
            | some v ↦ matches ++ (prefix, v) ∷ []
            | none ↦ matches
          ]))

  -- `Find(ipAddr, matches)`; what was in `matches` is cleared.
  unfoldable pub find_matches : Routes V → ℕ → Bool × List (Ipv4Prefix × V)
  find_matches r addr =
      let matches = matches_from 33 r addr [] in (not (is_empty_list matches), matches)

  -- The comparison of two hash maps, under that of the values.
  unfoldable pub entries_in : (V → V → Bool) → List (ℕ × V) → List (ℕ × V) → Bool
  entries_in eq [] es = true
  entries_in eq ((a, v) ∷ more) es =
      let rest = entries_in eq more es in
      elim (lookup a es) [ some w ↦ if eq v w then rest else false | none ↦ false ]

  equal_from : (V → V → Bool) → ℕ → Routes V → Routes V → Bool
  equal_from eq zero r s = true
  equal_from eq (suc i) r s =
      let rest = equal_from eq i r s in
      if length (r.hash_maps i) == length (s.hash_maps i)
      then (if entries_in eq (r.hash_maps i) (s.hash_maps i) then rest else false)
      else false

  -- `operator ==` and `operator !=`.
  unfoldable pub equal : (V → V → Bool) → Routes V → Routes V → Bool
  unfolding equal_from
  equal eq r s = equal_from eq 33 r s

  unfoldable pub not_equal : (V → V → Bool) → Routes V → Routes V → Bool
  unfolding equal
  not_equal eq r s = not (equal eq r s)

  size_below : ℕ → Routes V → ℕ
  size_below zero r = 0
  size_below (suc i) r = (size_below i r + length (r.hash_maps i)) % 2 ^ 32

  -- `Size()`, a sum in a uint32_t.
  unfoldable pub size : Routes V → ℕ
  unfolding size_below
  size r = size_below 33 r

  sizes_below : ℕ → Routes V → List (ℕ × ℕ)
  sizes_below zero r = []
  sizes_below (suc i) r =
      let sizes = sizes_below i r in
      if is_empty_list (r.hash_maps i)
      then sizes
      else sizes ++ (i, length (r.hash_maps i) % 2 ^ 32) ∷ []

  -- `HashSizes(sizes)`; what was in `sizes` is cleared.
  unfoldable pub hash_sizes : Routes V → List (ℕ × ℕ)
  unfolding sizes_below
  hash_sizes r = sizes_below 33 r
