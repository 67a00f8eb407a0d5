-- ===== src/Ipv6/Tests.antt =====
-- The theorems on IPv6 at concrete addresses, and runs of the operations.
use mathlib.Core.List.{reverse}
use lib_dwm.Base.{
  length, ℕ, ◌+◌, ◌^◌, ◌<◌, ◌≤◌, ◌≡◌, ◌↔◌, ◌⊎◌, refl, arith, true, false, Option, none, some, [],
  ◌∷◌, ◌++◌, All,
}
use lib_dwm.Base.Bits.{countl_zero}
use lib_dwm.Wire.Bytes.{IsByte, of_bytes, little, big}
use lib_dwm.Wire.Containers.Codec.{Codec, input, output, int_codec}
use lib_dwm.Ipv6.Address.{Ipv6Address, increment, increment_from_last, bytes_same, same, mask}
use lib_dwm.Ipv6.Address.Increment.{increment_lem}
use lib_dwm.Ipv6.Bytes.{number}
use lib_dwm.Ipv6.Prefix.{
  Ipv6Prefix, IsValid, make, contains, mask_bits, same_prefix, not_same_prefix, set, first_diff_bit,
  set_bits,
}
use lib_dwm.Ipv6.Prefix.Key.{ipv6_key}
use lib_dwm.Ipv6.Prefix.Laws.{make-IsValid, contains-SameBits, SameBits}
use lib_dwm.Ipv6.Prefix.Wire.{prefix_codec}
use lib_dwm.Ipv6.Trie.{
  Ipv6PrefixPatricia, usable, new_trie, insert, remove, find, find_longest, read, write,
}
use lib_dwm.Ipv6.Trie.Laws.{Holds, trie_refines, store_new}
use lib_dwm.Ipv6.Trie.Reading.{find-read}
use lib_dwm.Patricia.Contract.{IsLongest}
use lib_dwm.Patricia.Map.{PrefixMap, IsSound, empty_map}
use lib_dwm.Patricia.Map
use lib_dwm.Patricia.Map.Laws.{insert-IsSound}
use lib_dwm.Patricia.Trie.{Trie, null, node, add_node}
use lib_dwm.Patricia.Trie
use lib_dwm.Patricia.Stored.Pairs.{pairs}

-- 2001:db8::, 2001:db8:1:: and the last address.
abbrev doc : Ipv6Address
doc = 0x20 ∷ 0x01 ∷ 0x0d ∷ 0xb8 ∷ 0 ∷ 0 ∷ 0 ∷ 0 ∷ 0 ∷ 0 ∷ 0 ∷ 0 ∷ 0 ∷ 0 ∷ 0 ∷ 0 ∷ []

abbrev doc_one : Ipv6Address
doc_one = 0x20 ∷ 0x01 ∷ 0x0d ∷ 0xb8 ∷ 0 ∷ 1 ∷ 0 ∷ 0 ∷ 0 ∷ 0 ∷ 0 ∷ 0 ∷ 0 ∷ 0 ∷ 0 ∷ 0 ∷ []

abbrev all_ones : Ipv6Address
all_ones =
    255 ∷ 255 ∷ 255 ∷ 255 ∷ 255 ∷ 255 ∷ 255 ∷ 255 ∷ 255 ∷ 255 ∷ 255 ∷ 255 ∷ 255 ∷ 255 ∷ 255 ∷ 255
    ∷ []

doc-bytes : All IsByte doc
doc-bytes = (
  omega arith,
  (
    omega arith,
    (
      omega arith,
      (
        omega arith,
        (
          omega arith,
          (
            omega arith,
            (
              omega arith,
              (
                omega arith,
                (
                  omega arith,
                  (
                    omega arith,
                    (
                      omega arith,
                      (omega arith, (omega arith, (omega arith, (omega arith, (omega arith, tt))))),
                    ),
                  ),
                ),
              ),
            ),
          ),
        ),
      ),
    ),
  ),
)

doc_one-bytes : All IsByte doc_one
doc_one-bytes = (
  omega arith,
  (
    omega arith,
    (
      omega arith,
      (
        omega arith,
        (
          omega arith,
          (
            omega arith,
            (
              omega arith,
              (
                omega arith,
                (
                  omega arith,
                  (
                    omega arith,
                    (
                      omega arith,
                      (omega arith, (omega arith, (omega arith, (omega arith, (omega arith, tt))))),
                    ),
                  ),
                ),
              ),
            ),
          ),
        ),
      ),
    ),
  ),
)

increment_lem_example :
    ((increment doc ≡ none) × (of_bytes (reverse doc) + 1 ≡ 2 ^ 128))
    ⊎ ((b : Ipv6Address) × (increment doc ≡ some b)
        × (of_bytes (reverse b) ≡ of_bytes (reverse doc) + 1)
        × All IsByte b
        × (length b ≡ 16))
increment_lem_example = increment_lem doc doc-bytes refl

runs_over : increment all_ones ≡ none
unfolding increment increment_from_last
runs_over = refl

abbrev doc_net : Ipv6Prefix
doc_net = make doc 32

abbrev doc_one_net : Ipv6Prefix
doc_one_net = make doc_one 48

doc_net-IsValid : IsValid doc_net
doc_net-IsValid = (make-IsValid doc 32 (omega arith) refl doc-bytes).0

doc_one_net-IsValid : IsValid doc_one_net
doc_one_net-IsValid = (make-IsValid doc_one 48 (omega arith) refl doc_one-bytes).0

contains-SameBits_example : (contains doc_net doc_one_net ≡ true) ↔ (
    (doc_net.mask_length ≤ doc_one_net.mask_length)
    × SameBits doc_net.mask_length doc_net doc_one_net)
contains-SameBits_example =
    contains-SameBits doc_net doc_one_net doc_net-IsValid doc_one_net-IsValid

inside : contains doc_net doc_one_net ≡ true
unfolding contains make mask_bits same bytes_same mask set_bits
inside = refl

first_difference : first_diff_bit doc_net doc_one_net 32 ≡ none
unfolding first_diff_bit make mask_bits countl_zero number
first_difference = refl

-- `Set` keeps the bits behind the mask, which `==` does not see and `!=` does.
equal_and_not :
    let p = (set doc_net doc_one 32).0 in
    (same_prefix p doc_net ≡ true) × (not_same_prefix p doc_net ≡ true)
unfolding set same_prefix not_same_prefix bytes_same make mask_bits
equal_and_not = (refl, refl)

abbrev nothing : PrefixMap Ipv6Prefix ℕ
nothing = empty_map ipv6_key

nothing-IsSound : IsSound ipv6_key nothing
nothing-IsSound = unfold empty_map in record { shape = tt; parents = tt; counted = refl }

nothing-Holds : Holds (usable nothing) (λ p. none)
nothing-Holds = record {
  trie = nothing;
  is_usable = refl;
  sound = nothing-IsSound;
  finds = λ k vk. unfold empty_map Map.find Trie.find in refl;
}

trie_refines_example :
    ((t' : Ipv6PrefixPatricia ℕ) × (insert 0 (usable nothing) doc_net 7 ≡ some (t', true))
      × Holds t' (store_new (λ p. none) doc_net (some 7)))
    × ((t' : Ipv6PrefixPatricia ℕ) × (remove (usable nothing) doc_net ≡ some (t', false))
        × Holds t' (store_new (λ p. none) doc_net none))
    × (find (usable nothing) doc_net ≡ some none)
    × ((o : Option (Ipv6Prefix × ℕ)) × (find_longest (usable nothing) doc_net ≡ some o)
        × IsLongest ipv6_key (λ p. none) doc_net o)
trie_refines_example =
    trie_refines 0 (usable nothing) (λ p. none) doc_net 7 doc_net-IsValid nothing-Holds

abbrev one_net : PrefixMap Ipv6Prefix ℕ
one_net = (Map.insert ipv6_key 0 nothing doc_net 80).0

one_net-IsSound : IsSound ipv6_key one_net
one_net-IsSound = insert-IsSound ipv6_key 0 nothing doc_net 80 doc_net-IsValid nothing-IsSound

one_net-root : one_net.root ≡ node doc_net 80 true null null none
unfolding empty_map Map.insert add_node
one_net-root = refl

abbrev values : Codec ℕ
values = int_codec little big 4

values_fit : All (λ (e : Ipv6Prefix × ℕ). values.Fits e.1) (pairs one_net.root)
unfolding empty_map Map.insert add_node
values_fit = (omega arith, tt)

small : one_net.size < 2 ^ 64
unfolding empty_map Map.insert add_node
small = omega arith

find-read_example :
    (back : PrefixMap Ipv6Prefix ℕ) × (read big prefix_codec.read values.read 0
        (doc_net, 0)
        new_trie
        (input
          ((write little prefix_codec.write values.write one_net (output [])).written ++ 7 ∷ []))
      ≡ some (usable back, input (7 ∷ [])))
    × IsSound ipv6_key back
    × (Map.find ipv6_key back doc_net ≡ Map.find ipv6_key one_net doc_net)
find-read_example =
    find-read values little big 0 (doc_net, 0) one_net (7 ∷ []) doc_net values_fit one_net-IsSound
      small doc_net-IsValid
