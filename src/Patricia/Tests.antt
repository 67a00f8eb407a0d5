-- ===== src/Patricia/Tests.antt =====
-- Runs of the map over IPv4 prefixes, and the theorems at concrete inputs.
use lib_dwm.Base.{ℕ, ◌+◌, ◌-◌, ◌≤◌, ◌≡◌, refl, true, false, none, some, if◌then◌else◌, not, is_some}
use lib_dwm.Base.Bits.{countl_zero}
use lib_dwm.Ipv4.Examples.{
  ten, ten_one, ten_one_two, private_net, ten-IsValid, ten_one-IsValid, ten_one_two-IsValid,
  private_net-IsValid,
}
use lib_dwm.Ipv4.Prefix.{IsValid, Ipv4Prefix, same, bit, contains, first_diff_bit, make}
use lib_dwm.Ipv4.Prefix.Laws.{ipv4_key}
use lib_dwm.Patricia.Trie.{
  Trie, null, node, add_node, remove_node, split, put_above, set_parent, compact,
}
use lib_dwm.Patricia.Trie
use lib_dwm.Patricia.Search.Chain.{lookup}
use lib_dwm.Patricia.Search.Matches.{Ascends}
use lib_dwm.Patricia.Map.{
  PrefixMap, IsSound, empty_map, insert, remove, find, find_longest, find_matches, find_wider, copy,
  assign_copy,
}
use lib_dwm.Patricia.Map.Laws.{insert-IsSound, find-insert, remove-IsSound, find-remove}
use lib_dwm.Patricia.Map.Searches.{find_matches_lem, find_wider_lem, find_longest_is_longest}
use lib_dwm.Patricia.Map.Copies.{copy-breaks-parents}

abbrev two_nets : PrefixMap Ipv4Prefix ℕ
two_nets = (insert ipv4_key 0 (insert ipv4_key 0 (empty_map ipv4_key) ten_one 1).0 private_net 2).0

two_nets-IsSound : IsSound ipv4_key two_nets
two_nets-IsSound = insert-IsSound ipv4_key 0 _ private_net 2 private_net-IsValid (
    insert-IsSound ipv4_key 0 _ ten_one 1 ten_one-IsValid
      (unfold empty_map in record { shape = tt; parents = tt; counted = refl }))

-- Two diverging prefixes hang under a branch with no value.
two_nets_shape : two_nets ≡ record {
  root =
      node
        (record { network = 0; mask_length = 0 })
        0
        false
        (node ten_one 1 true null null (some (record { network = 0; mask_length = 0 })))
        (node private_net 2 true null null (some (record { network = 0; mask_length = 0 })))
        none;
  size = 2;
}
unfolding insert empty_map add_node split put_above set_parent countl_zero bit same first_diff_bit
    make
two_nets_shape = refl

insert-IsSound_example : IsSound ipv4_key (insert ipv4_key 0 two_nets ten 3).0
insert-IsSound_example = insert-IsSound ipv4_key 0 two_nets ten 3 ten-IsValid two_nets-IsSound

find-insert_example :
    (find ipv4_key (insert ipv4_key 0 two_nets ten 3).0 ten_one ≡ find ipv4_key two_nets ten_one)
    × ((insert ipv4_key 0 two_nets ten 3).1 ≡ not (is_some (find ipv4_key two_nets ten)))
    × ((insert ipv4_key 0 two_nets ten 3).0.size
        ≡ (if is_some (find ipv4_key two_nets ten) then two_nets.size else two_nets.size + 1))
unfolding same
find-insert_example =
    find-insert ipv4_key 0 two_nets ten ten_one 3 ten-IsValid ten_one-IsValid two_nets-IsSound

remove-IsSound_example : IsSound ipv4_key (remove ipv4_key two_nets ten_one).0
remove-IsSound_example = remove-IsSound ipv4_key two_nets ten_one two_nets-IsSound

find-remove_example :
    (find ipv4_key (remove ipv4_key two_nets ten_one).0 private_net
      ≡ find ipv4_key two_nets private_net)
    × ((remove ipv4_key two_nets ten_one).1 ≡ is_some (find ipv4_key two_nets ten_one))
    × ((remove ipv4_key two_nets ten_one).0.size
        ≡ (if is_some (find ipv4_key two_nets ten_one) then 2 - 1 else 2))
unfolding same insert empty_map add_node split put_above set_parent countl_zero bit first_diff_bit
    make
find-remove_example =
    find-remove ipv4_key two_nets ten_one private_net ten_one-IsValid private_net-IsValid
      two_nets-IsSound

find_matches_lem_example :
    (lookup ipv4_key ten_one (find_matches ipv4_key two_nets ten_one_two).1 ≡ some 1)
    × Ascends ipv4_key 0 (find_matches ipv4_key two_nets ten_one_two).1
    × ((find_matches ipv4_key two_nets ten_one_two).0 ≡ true)
unfolding find_matches Trie.find_matches contains find Trie.find same insert empty_map add_node
    split put_above set_parent countl_zero bit first_diff_bit make
find_matches_lem_example =
    find_matches_lem ipv4_key two_nets ten_one_two ten_one ten_one_two-IsValid ten_one-IsValid
      two_nets-IsSound

find_wider_lem_example : lookup ipv4_key ten_one (find_wider ipv4_key two_nets ten_one).1 ≡ none
find_wider_lem_example =
    find_wider_lem ipv4_key two_nets ten_one ten_one ten_one-IsValid ten_one-IsValid
      two_nets-IsSound

longest_run : find_longest ipv4_key two_nets ten_one_two ≡ some (ten_one, 1)
unfolding find_longest Trie.find_longest contains same insert empty_map add_node split put_above
    set_parent countl_zero bit first_diff_bit make
longest_run = refl

find_longest_is_longest_example :
    (e : Ipv4Prefix × ℕ) × (find_longest ipv4_key two_nets ten_one_two ≡ some e)
    × IsValid e.0
    × (find ipv4_key two_nets e.0 ≡ some e.1)
    × (contains e.0 ten_one_two ≡ true)
    × (16 ≤ e.0.mask_length)
unfolding find Trie.find contains same insert empty_map add_node split put_above set_parent
    countl_zero bit first_diff_bit make
find_longest_is_longest_example =
    find_longest_is_longest ipv4_key two_nets ten_one_two ten_one 1 ten_one_two-IsValid
      ten_one-IsValid two_nets-IsSound refl refl

copy-breaks-parents_example :
    (¬ IsSound ipv4_key (copy ipv4_key 7 two_nets))
    × (¬ IsSound ipv4_key (assign_copy ipv4_key false (empty_map ipv4_key) two_nets))
unfolding insert empty_map add_node split put_above set_parent countl_zero bit same first_diff_bit
    make
copy-breaks-parents_example =
    copy-breaks-parents ipv4_key 7 (empty_map ipv4_key) two_nets _ _ _ _ _ _ refl refl
