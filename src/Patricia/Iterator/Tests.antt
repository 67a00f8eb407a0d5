-- ===== src/Patricia/Iterator/Tests.antt =====
-- Runs of the iterators over a map of IPv4 prefixes.
use lib_dwm.Base.{ℕ, ◌≡◌, refl, none, some, [], ◌∷◌, if◌then◌else◌, is_some}
use lib_dwm.Base.Bits.{countl_zero}
use lib_dwm.Ipv4.Examples.{ten_one, private_net, ten_one-IsValid, private_net-IsValid}
use lib_dwm.Ipv4.Prefix.{Ipv4Prefix, same, bit, first_diff_bit, make}
use lib_dwm.Ipv4.Prefix.Laws.{ipv4_key}
use lib_dwm.Patricia.Trie.{add_node, split, put_above, set_parent}
use lib_dwm.Patricia.Map.{PrefixMap, IsSound, empty_map, insert, find}
use lib_dwm.Patricia.Map.Laws.{insert-IsSound}
use lib_dwm.Patricia.Iterator.{
  begin, increment, decrement, visited, rounds_end, first_value, last_value, deref, successor,
  climb, predecessor,
}
use lib_dwm.Patricia.Iterator.Once.{times, times-visited}

abbrev two_nets : PrefixMap Ipv4Prefix ℕ
two_nets = (insert ipv4_key 0 (insert ipv4_key 0 (empty_map ipv4_key) ten_one 1).0 private_net 2).0

two_nets-IsSound : IsSound ipv4_key two_nets
two_nets-IsSound = insert-IsSound ipv4_key 0 _ private_net 2 private_net-IsValid (
    insert-IsSound ipv4_key 0 _ ten_one 1 ten_one-IsValid
      (unfold empty_map in record { shape = tt; parents = tt; counted = refl }))

-- The branch above the two has no value, and is not visited.
forward : visited ipv4_key 2 two_nets (begin ipv4_key two_nets) ≡ ten_one ∷ private_net ∷ []
unfolding visited begin increment successor climb first_value deref insert empty_map add_node split
    put_above set_parent countl_zero bit same first_diff_bit make
forward = refl

backward : decrement ipv4_key two_nets (decrement ipv4_key two_nets none) ≡ some ten_one
unfolding decrement predecessor last_value deref insert empty_map add_node split put_above
    set_parent countl_zero bit same first_diff_bit make
backward = refl

times-visited_example :
    (times ipv4_key ten_one (visited ipv4_key two_nets.size two_nets (begin ipv4_key two_nets))
      ≡ (if is_some (find ipv4_key two_nets ten_one) then 1 else 0))
    × (rounds_end ipv4_key two_nets.size two_nets (begin ipv4_key two_nets) ≡ none)
times-visited_example = times-visited ipv4_key two_nets ten_one ten_one-IsValid two_nets-IsSound
