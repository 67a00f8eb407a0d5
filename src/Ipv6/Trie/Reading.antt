-- ===== src/Ipv6/Trie/Reading.antt =====
-- `Read` of an IPv6 trie: into an object without nodes it is that of the IPv4 trie, so what was
-- written comes back; into one with nodes it works on nodes that `clear()` has deleted.
use lib_dwm.Base.{
  ℕ, zero, suc, ◌^◌, ◌<◌, ◌≡◌, refl, ap, ◌∙◌, Bool, true, Option, none, some, List, [], ◌++◌, All,
  Bool-cases, inl, inr,
}
use lib_dwm.Wire.Bytes.{Endian}
use lib_dwm.Wire.Stream.{InStream}
use lib_dwm.Wire.Encoded.{read_stream}
use lib_dwm.Wire.Containers.{Reader, read_pair}
use lib_dwm.Wire.Containers.Codec.{Codec, input, output}
use lib_dwm.Ipv6.Prefix.{Ipv6Prefix, IsValid}
use lib_dwm.Ipv6.Prefix.Key.{ipv6_key}
use lib_dwm.Ipv6.Prefix.Wire.{prefix_codec}
use lib_dwm.Ipv6.Trie.{Ipv6PrefixPatricia, usable, insert, clear, read, read_from, write, new_trie}
use lib_dwm.Patricia.Trie.{Trie, null, node, clear_node}
use lib_dwm.Patricia.Map.{PrefixMap, IsSound}
use lib_dwm.Patricia.Map
use lib_dwm.Patricia.Stored.{read_entries, read_map, write_map}
use lib_dwm.Patricia.Stored.Pairs.{pairs}
use lib_dwm.Patricia.Stored.RoundTrip.{find-read_map}

module _ {V : Type 0} (host : Endian) (rp : Reader Ipv6Prefix) (rv : Reader V) (default : V) where
  abbrev as_usable : PrefixMap Ipv6Prefix V × InStream → Option (Ipv6PrefixPatricia V × InStream)
  as_usable (m, is) = some (usable m, is)

  read_from-usable :
      (n : ℕ) (entry : Ipv6Prefix × V) (m : PrefixMap Ipv6Prefix V) (is : InStream)
      → read_from rp rv default n entry (usable m) is
        ≡ as_usable (read_entries ipv6_key rp rv default n entry m is)
  unfolding read_from read_entries insert
  read_from-usable zero entry m is = refl
  read_from-usable (suc n) entry m is =
      let (e, is') = read_pair rp rv entry is in
      elim (Bool-cases is'.good) [
        | inl g ↦ rw g (read_from-usable n e (Map.insert ipv6_key default m e.0 e.1).0 is')
        | inr g ↦ rw g refl
      ]

  read_without_nodes :
      (entry : Ipv6Prefix × V) (size : ℕ) (is : InStream)
      → read host rp rv default entry (usable (record { root = null; size = size })) is
        ≡ as_usable
            (read_map ipv6_key host rp rv default entry (record { root = null; size = size }) is)
  unfolding read read_map clear Map.clear clear_node
  read_without_nodes entry size is =
      let (n, is') = read_stream host 8 is in
      elim (Bool-cases is'.good) [
        | inl g ↦ rw g (read_from-usable n entry (record { root = null; size = size }) is')
        | inr g ↦ rw g refl
      ]

  -- If the object has a node when `Read` begins, and a number of entries other than 0 and a first
  -- entry can be read, the insertion of that entry follows a pointer to a deleted node.
  pub read_undefined :
      (entry : Ipv6Prefix × V) (m : PrefixMap Ipv6Prefix V) (q : Ipv6Prefix) (w : V) (h : Bool)
      (l r : Trie Ipv6Prefix V) (up : Option Ipv6Prefix) (n : ℕ) (is is' : InStream)
      → m.root ≡ node q w h l r up
      → read_stream host 8 is ≡ (suc n, is')
      → is'.good ≡ true
      → (read_pair rp rv entry is').1.good ≡ true
      → read host rp rv default entry (usable m) is ≡ none
  unfolding read clear read_from insert
  read_undefined entry m q w h l r up n is is' e first good second =
      rw (e, first, second, good) refl

-- What was written to an unused ostream from a sound trie of fewer than 2^64 entries, a host of
-- either byte order reads into an object without nodes, if values are read back as they are
-- written: the result is sound, a lookup at any valid prefix finds what it finds in the first trie,
-- and the characters that follow remain.
pub find-read :
    {V : Type 0} (D : Codec V) (writer reader : Endian) (default : V) (blank : Ipv6Prefix × V)
    (m : PrefixMap Ipv6Prefix V) (rest : List ℕ) (k : Ipv6Prefix)
    → All (λ (e : Ipv6Prefix × V). D.Fits e.1) (pairs m.root)
    → IsSound ipv6_key m
    → m.size < 2 ^ 64
    → IsValid k
    → (back : PrefixMap Ipv6Prefix V) × (read reader prefix_codec.read D.read default blank new_trie
          (input ((write writer prefix_codec.write D.write m (output [])).written ++ rest))
        ≡ some (usable back, input rest))
      × IsSound ipv6_key back
      × (Map.find ipv6_key back k ≡ Map.find ipv6_key m k)
unfolding write new_trie Map.empty_map
find-read {V} D writer reader default blank m rest k fits s small vk =
    let empty_one : PrefixMap Ipv6Prefix V = record { root = null; size = 0 } in
    let (found, sound, left) =
      find-read_map ipv6_key prefix_codec D writer reader default blank m empty_one rest k
        (λ p v. v) fits s (record { shape = tt; parents = tt; counted = refl }) small vk in
    let written : List ℕ =
      (write_map ipv6_key writer prefix_codec.write D.write m (output [])).written in
    let back : PrefixMap Ipv6Prefix V =
      (read_map ipv6_key reader prefix_codec.read D.read default blank empty_one
        (input (written ++ rest))).0 in
    (
      back,
      read_without_nodes reader prefix_codec.read D.read default blank 0 _
          ∙ ap (λ (is : InStream). some (usable back, is)) left,
      sound,
      found,
    )
