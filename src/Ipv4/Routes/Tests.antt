-- ===== src/Ipv4/Routes/Tests.antt =====
-- The theorems on routes at concrete ones, and runs of the searches.
use lib_dwm.Base.{
  ◌<◌, Bool, ◌==◌, ℕ, ◌≡◌, refl, true, false, none, some, arith, if◌then◌else◌, not, is_some,
  or_else,
}
use lib_dwm.Base.Bits.{countl_zero}
use lib_dwm.Base.Assoc.{assign, forget, assign_all}
use lib_dwm.Base.Assoc
use lib_dwm.Ipv4.Examples.{ten, ten_one, ten_one_two, ten-IsValid, ten_one-IsValid}
use lib_dwm.Ipv4.Prefix.{
  increment_prefix, combine, Ipv4Prefix, contains, make, set_mask_length, of_address, broadcast,
}
use lib_dwm.Ipv4.Prefix.Laws.{ipv4_key}
use lib_dwm.Ipv4.Routes.{
  Routes, no_routes, update, clear, empty, add, add_all, subscript, delete, find, find_in_sub_map,
}
use lib_dwm.Ipv4.Routes.Search.{
  find_longest, longest_from, new_find_longest, join_from, join_thread, find_matches,
}
use lib_dwm.Ipv4.Routes.Laws.{view, store, AreMaps, add-AreMaps, routes_refine}
use lib_dwm.Ipv4.Routes.Longest.{
  found, Descends, find_longest_refines, find_all_matches, find_longest-find_matches,
}
use lib_dwm.Ipv4.Routes.Hits.{first, last}
use lib_dwm.Ipv4.Routes.Coalesce.{
  coalesce, remove_covered, combine_adjacent, combine_entries, uncovered, have_wider_match,
  wider_from,
}
use lib_dwm.Ipv4.Routes.Agreement.{IsSame, add-insert, find_longest-trie}
use lib_dwm.Patricia.Map.{PrefixMap, IsSound, empty_map, insert, remove, is_empty_list}
use lib_dwm.Patricia.Map
use lib_dwm.Patricia.Trie
use lib_dwm.Patricia.Map.Laws.{insert-IsSound}
use lib_dwm.Patricia.Search.Chain.{lookup}
use lib_dwm.Patricia.Contract.{IsLongest}

abbrev nothing : Routes ℕ
nothing = no_routes

abbrev two_routes : Routes ℕ
two_routes = (add (add nothing ten 1).0 ten_one 2).0

abbrev unset : Ipv4Prefix × ℕ
unset = (broadcast, 0)

nothing-AreMaps : AreMaps nothing
unfolding no_routes
nothing-AreMaps i = tt

two_routes-AreMaps : AreMaps two_routes
two_routes-AreMaps =
    (add-AreMaps (add nothing ten 1).0 ten_one 2 (add-AreMaps nothing ten 1 nothing-AreMaps).0).0

routes_refine_example :
    (view (add two_routes ten 7).0 ten
      ≡ store (view two_routes) ten (some (or_else (view two_routes ten) 7)) ten)
    × ((add two_routes ten 7).1 ≡ not (is_some (view two_routes ten)))
    × (view (delete two_routes ten).0 ten ≡ store (view two_routes) ten none ten)
    × ((delete two_routes ten).1 ≡ is_some (view two_routes ten))
    × (view (subscript 7 two_routes ten).0 ten
        ≡ store (view two_routes) ten (some (or_else (view two_routes ten) 7)) ten)
    × ((subscript 7 two_routes ten).1 ≡ or_else (view two_routes ten) 7)
    × (view (add_all two_routes two_routes) ten
        ≡ (if is_some (view two_routes ten) then view two_routes ten else view two_routes ten))
    × (view (clear two_routes) ten ≡ none)
    × (find two_routes ten 9 ≡ (is_some (view two_routes ten), or_else (view two_routes ten) 9))
    × (empty two_routes ≡ true → view two_routes ten ≡ none)
    × (empty two_routes ≡ false
        → (k : Ipv4Prefix) × (k.mask_length < 33) × (w : ℕ) × (view two_routes k ≡ some w))
routes_refine_example =
    routes_refine two_routes two_routes ten ten 7 9 two_routes-AreMaps (omega arith) (omega arith)

-- 10.1.2.3 has both routes: `FindLongest` answers the longer, `NewFindLongest` the shorter.
longest_answer : find_longest two_routes 0x0a010203 unset ≡ (true, (ten_one, 2))
unfolding find_longest longest_from set_mask_length make add update no_routes assign Assoc.lookup
longest_answer = refl

new_answer : new_find_longest 0 two_routes 0x0a010203 unset ≡ (true, (ten, 1))
unfolding new_find_longest join_from join_thread find_in_sub_map make add update no_routes assign
    Assoc.lookup
new_answer = refl

find_longest_refines_example :
    IsLongest ipv4_key
      (view two_routes)
      (of_address 0x0a010203)
      (found (find_longest two_routes 0x0a010203 unset))
    × ((find_longest two_routes 0x0a010203 unset).0 ≡ false
        → (find_longest two_routes 0x0a010203 unset).1 ≡ unset)
find_longest_refines_example = find_longest_refines two_routes 0x0a010203 unset (omega arith)

find_all_matches_example :
    (lookup ipv4_key ten (find_matches two_routes 0x0a010203).1
      ≡ (if contains ten (of_address 0x0a010203) then view two_routes ten else none))
    × Descends 33 (find_matches two_routes 0x0a010203).1
    × ((find_matches two_routes 0x0a010203).0
        ≡ not (is_empty_list (find_matches two_routes 0x0a010203).1))
find_all_matches_example = find_all_matches two_routes 0x0a010203 ten (omega arith) ten-IsValid

find_longest-find_matches_example :
    (find_longest two_routes 0x0a010203 unset ≡ first unset (find_matches two_routes 0x0a010203).1)
    × (new_find_longest 0 two_routes 0x0a010203 unset
        ≡ last (false, unset) (find_matches two_routes 0x0a010203).1)
find_longest-find_matches_example =
    find_longest-find_matches 0 two_routes 0x0a010203 unset (omega arith)

abbrev no_entries : PrefixMap Ipv4Prefix ℕ
no_entries = empty_map ipv4_key

no_entries-IsSound : IsSound ipv4_key no_entries
no_entries-IsSound = unfold empty_map in record { shape = tt; parents = tt; counted = refl }

nothing-IsSame : IsSame nothing no_entries
unfolding no_routes empty_map Assoc.lookup Map.find Trie.find
nothing-IsSame k vk = refl

abbrev two_entries : PrefixMap Ipv4Prefix ℕ
two_entries = (insert ipv4_key 0 (insert ipv4_key 0 no_entries ten 1).0 ten_one 2).0

add-insert_example :
    IsSame (add nothing ten 1).0 (insert ipv4_key 0 no_entries ten 1).0
    × ((add nothing ten 1).1 ≡ (insert ipv4_key 0 no_entries ten 1).1)
    × IsSame (delete nothing ten).0 (remove ipv4_key no_entries ten).0
    × ((delete nothing ten).1 ≡ (remove ipv4_key no_entries ten).1)
add-insert_example =
    add-insert nothing no_entries nothing-IsSame no_entries-IsSound 0 1 ten ten-IsValid

one_entry-IsSound : IsSound ipv4_key (insert ipv4_key 0 no_entries ten 1).0
one_entry-IsSound = insert-IsSound ipv4_key 0 no_entries ten 1 ten-IsValid no_entries-IsSound

two-IsSame : IsSame two_routes two_entries
two-IsSame =
    (add-insert (add nothing ten 1).0 (insert ipv4_key 0 no_entries ten 1).0
      (add-insert nothing no_entries nothing-IsSame no_entries-IsSound 0 1 ten ten-IsValid).0
      one_entry-IsSound 0 2 ten_one ten_one-IsValid).0

find_longest-trie_example :
    found (find_longest two_routes 0x0a010203 unset)
    ≡ Map.find_longest ipv4_key two_entries (of_address 0x0a010203)
find_longest-trie_example =
    find_longest-trie two_routes two_entries two-IsSame
      (insert-IsSound ipv4_key 0 _ ten_one 2 ten_one-IsValid one_entry-IsSound) 0x0a010203 unset
      (omega arith)

-- With 1 for 10.0.0.0/8 and 10.1.2.0/24 and 2 for 10.1.0.0/16, `Coalesce` removes the longest of
-- the three, and 10.1.2.3 gets 2 in place of 1.
abbrev three_routes : Routes ℕ
three_routes = (add (add (add nothing ten 1).0 ten_one 2).0 ten_one_two 1).0

abbrev equal_numbers : ℕ → ℕ → Bool
equal_numbers v w = v == w

before_coalesce : find_longest three_routes 0x0a010203 unset ≡ (true, (ten_one_two, 1))
unfolding find_longest longest_from set_mask_length make add update no_routes assign Assoc.lookup
before_coalesce = refl

after_coalesce :
    find_longest (coalesce equal_numbers three_routes) 0x0a010203 unset ≡ (true, (ten_one, 2))
unfolding find_longest longest_from set_mask_length make add update no_routes assign Assoc.lookup
    coalesce remove_covered combine_adjacent combine_entries uncovered have_wider_match wider_from
    increment_prefix combine forget countl_zero
after_coalesce = refl

-- A prefix that ends at 255.255.255.255 is taken for its own neighbour, and its route moves to a
-- shorter mask, where no search comes upon it.
abbrev top_net : Ipv4Prefix
top_net = record { network = 0xf0000000; mask_length = 4 }

coalesce_of_the_top :
    let r : Routes ℕ = coalesce equal_numbers (add nothing top_net 1).0 in
    (view r top_net ≡ none) × (view r (record { network = 0xf0000000; mask_length = 3 }) ≡ some 1)
unfolding make add update no_routes assign Assoc.lookup coalesce remove_covered combine_adjacent
    combine_entries uncovered have_wider_match wider_from increment_prefix combine forget
    countl_zero
coalesce_of_the_top = (refl, refl)
