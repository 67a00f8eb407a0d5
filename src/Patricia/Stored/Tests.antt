-- ===== src/Patricia/Stored/Tests.antt =====
-- A map of IPv4 prefixes to numbers goes to a stream and comes back.
use lib_dwm.Base.{ℕ, ◌^◌, ◌≡◌, ◌<◌, refl, arith, [], ◌∷◌, ◌++◌, All}
use lib_dwm.Base.Bits.{countl_zero}
use lib_dwm.Wire.Bytes.{little, big}
use lib_dwm.Wire.Containers.Codec.{Codec, input, output, int_codec}
use lib_dwm.Ipv4.Examples.{ten_one, private_net, ten_one-IsValid, private_net-IsValid}
use lib_dwm.Ipv4.Prefix.{Ipv4Prefix, broadcast, same, bit, first_diff_bit, make}
use lib_dwm.Ipv4.Prefix.Laws.{ipv4_key}
use lib_dwm.Ipv4.Prefix.Wire.{prefix_codec}
use lib_dwm.Patricia.Trie.{add_node, split, put_above, set_parent}
use lib_dwm.Patricia.Map.{PrefixMap, IsSound, empty_map, insert, find}
use lib_dwm.Patricia.Map.Laws.{insert-IsSound}
use lib_dwm.Patricia.Stored.{write_map, read_map}
use lib_dwm.Patricia.Stored.Pairs.{pairs}
use lib_dwm.Patricia.Stored.RoundTrip.{find-read_map}

abbrev nothing : PrefixMap Ipv4Prefix ℕ
nothing = empty_map ipv4_key

nothing-IsSound : IsSound ipv4_key nothing
nothing-IsSound = unfold empty_map in record { shape = tt; parents = tt; counted = refl }

abbrev two_nets : PrefixMap Ipv4Prefix ℕ
two_nets = (insert ipv4_key 0 (insert ipv4_key 0 nothing ten_one 80).0 private_net 443).0

two_nets-IsSound : IsSound ipv4_key two_nets
two_nets-IsSound =
    insert-IsSound ipv4_key 0 _ private_net 443 private_net-IsValid
      (insert-IsSound ipv4_key 0 nothing ten_one 80 ten_one-IsValid nothing-IsSound)

abbrev values : Codec ℕ
values = int_codec little big 4

values_fit : All (λ (e : Ipv4Prefix × ℕ). values.Fits e.1) (pairs two_nets.root)
unfolding insert empty_map add_node split put_above set_parent countl_zero bit same first_diff_bit
    make
values_fit = (omega arith, (omega arith, tt))

small : two_nets.size < 2 ^ 64
unfolding insert empty_map add_node split put_above set_parent countl_zero bit same first_diff_bit
    make
small = omega arith

find-read_map_example :
    let back =
      read_map ipv4_key big prefix_codec.read values.read 0
        (broadcast, 0)
        nothing
        (input (
          (write_map ipv4_key little prefix_codec.write values.write two_nets (output [])).written
          ++ 7 ∷ [])) in
    (find ipv4_key back.0 ten_one ≡ find ipv4_key two_nets ten_one)
    × IsSound ipv4_key back.0
    × (back.1 ≡ input (7 ∷ []))
find-read_map_example =
    find-read_map ipv4_key prefix_codec values little big 0 (broadcast, 0) two_nets nothing (7 ∷ [])
      ten_one (λ p v. v.address) values_fit two_nets-IsSound nothing-IsSound small ten_one-IsValid
