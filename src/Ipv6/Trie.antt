-- ===== src/Ipv6/Trie.antt =====
-- classes/include/DwmIpv6PrefixPatricia.hh. Its members on nodes have the text of the IPv4 trie,
-- which Patricia models over any prefix class; they are taken from there at the class Ipv6Prefix.
-- What differs is `clear`, whose helper takes `_root` by value: the nodes are deleted, and `_root`
-- goes on pointing to them. An operation that follows such a pointer is undefined, `none`.
pub mod Laws
pub mod Reading
use lib_dwm.Base.{
  ℕ, zero, suc, ◌+◌, ◌%◌, ◌^◌, ◌==◌, Bool, true, false, Option, none, some, List, [], ◌∷◌,
  if◌then◌else◌,
}
use lib_dwm.Wire.Bytes.{Endian}
use lib_dwm.Wire.Stream.{InStream, OutStream}
use lib_dwm.Wire.Encoded.{read_stream}
use lib_dwm.Wire.Containers.{Reader, Writer, read_pair}
use lib_dwm.Ipv6.Prefix.{Ipv6Prefix, make}
use lib_dwm.Ipv6.Address.{Ipv6Address}
use lib_dwm.Ipv6.Prefix.Key.{ipv6_key}
use lib_dwm.Patricia.Trie.{Trie, null, node, clear_node}
use lib_dwm.Patricia.Map.{PrefixMap, empty_map}
use lib_dwm.Patricia.Map
use lib_dwm.Patricia.Stored

-- An object of the class: with its nodes, or with a `_root` that points to deleted ones and what
-- `_size` says.
pub data Ipv6PrefixPatricia (V : Type 0) : Type 0 where
  usable : PrefixMap Ipv6Prefix V → Ipv6PrefixPatricia V
  dangling : ℕ → Ipv6PrefixPatricia V

module _ {V : Type 0} where
  -- The default constructor.
  unfoldable pub new_trie : Ipv6PrefixPatricia V
  new_trie = usable (empty_map ipv6_key)

  -- `insert(value)` and `operator []`.
  unfoldable pub insert :
      V → Ipv6PrefixPatricia V → Ipv6Prefix → V → Option (Ipv6PrefixPatricia V × Bool)
  unfolding Map.insert
  insert default (dangling n) p v = none
  insert default (usable m) p v =
      let (m', inserted) = Map.insert ipv6_key default m p v in some (usable m', inserted)

  unfoldable pub subscript :
      V → Ipv6PrefixPatricia V → Ipv6Prefix → Option (Ipv6PrefixPatricia V × Option V)
  unfolding Map.subscript
  subscript default (dangling n) key = none
  subscript default (usable m) key =
      let (m', v) = Map.subscript ipv6_key default m key in some (usable m', v)

  -- `size()` and `empty()`, which read `_size` alone.
  unfoldable pub size : Ipv6PrefixPatricia V → ℕ
  size (dangling n) = n
  size (usable m) = m.size

  unfoldable pub empty : Ipv6PrefixPatricia V → Bool
  unfolding size
  empty t = size t == 0

  -- `clear()`.
  unfoldable pub clear : Ipv6PrefixPatricia V → Option (Ipv6PrefixPatricia V)
  clear (dangling n) = none
  clear (usable m) = elim m.root [
    | null ↦ some (usable m)
    | node q w h l r up ↦ some (dangling (clear_node m.size (node q w h l r up)))
  ]

  -- `Remove(prefix)` and `erase(const Ipv6Prefix &)`.
  unfoldable pub remove : Ipv6PrefixPatricia V → Ipv6Prefix → Option (Ipv6PrefixPatricia V × Bool)
  unfolding Map.remove
  remove (dangling n) p = none
  remove (usable m) p = let (m', removed) = Map.remove ipv6_key m p in some (usable m', removed)

  unfoldable pub erase : Ipv6PrefixPatricia V → Ipv6Prefix → Option (Ipv6PrefixPatricia V × ℕ)
  unfolding remove
  erase t p = elim (remove t p) [
    | none ↦ none
    | some (t', removed) ↦ some (t', if removed then 1 else 0)
  ]

  -- `find(key)`, `find_longest(pfx)`, `find_longest(addr)` and `find_matches(pfx, matches)`.
  unfoldable pub find : Ipv6PrefixPatricia V → Ipv6Prefix → Option (Option V)
  unfolding Map.find
  find (dangling n) key = none
  find (usable m) key = some (Map.find ipv6_key m key)

  unfoldable pub find_longest : Ipv6PrefixPatricia V → Ipv6Prefix → Option (Option (Ipv6Prefix × V))
  unfolding Map.find_longest
  find_longest (dangling n) pfx = none
  find_longest (usable m) pfx = some (Map.find_longest ipv6_key m pfx)

  unfoldable pub find_longest_address :
      Ipv6PrefixPatricia V → Ipv6Address → Option (Option (Ipv6Prefix × V))
  unfolding find_longest make
  find_longest_address t addr = find_longest t (make addr 128)

  unfoldable pub find_matches :
      Ipv6PrefixPatricia V → Ipv6Prefix → Option (Bool × List (Ipv6Prefix × V))
  unfolding Map.find_matches
  find_matches (dangling n) pfx = none
  find_matches (usable m) pfx = some (Map.find_matches ipv6_key m pfx)

  -- The copy assignment, from an object that has its nodes or from the object itself.
  unfoldable pub assign_copy :
      Bool → Ipv6PrefixPatricia V → PrefixMap Ipv6Prefix V → Option (Ipv6PrefixPatricia V)
  assign_copy to_itself (dangling n) other = if to_itself then some (dangling n) else none
  assign_copy to_itself (usable m) other =
      some (usable (Map.assign_copy ipv6_key to_itself m other))

  -- `Write(std::ostream &)`.
  unfoldable pub write :
      Endian → Writer Ipv6Prefix → Writer V → PrefixMap Ipv6Prefix V → OutStream → OutStream
  unfolding Stored.write_map
  write host wp wv m os = Stored.write_map ipv6_key host wp wv m os

  -- The loop of `Read`.
  unfoldable pub read_from :
      Reader Ipv6Prefix
      → Reader V
      → V
      → ℕ
      → Ipv6Prefix × V
      → Ipv6PrefixPatricia V
      → InStream
      → Option (Ipv6PrefixPatricia V × InStream)
  unfolding insert
  read_from rp rv default zero entry t is = some (t, is)
  read_from rp rv default (suc n) entry t is =
      let (e, is') = read_pair rp rv entry is in
      elim (insert default t e.0 e.1) [
        | none ↦ if is'.good then none else some (t, is')
        | some (t', _) ↦
            let rest = read_from rp rv default n e t' is' in
            if is'.good then rest else some (t, is')
      ]

  -- `Read(std::istream &)`.
  unfoldable pub read :
      Endian
      → Reader Ipv6Prefix
      → Reader V
      → V
      → Ipv6Prefix × V
      → Ipv6PrefixPatricia V
      → InStream
      → Option (Ipv6PrefixPatricia V × InStream)
  unfolding clear
  read host rp rv default entry t is = elim (clear t) [
    | none ↦ none
    | some t' ↦
        let (n, is') = read_stream host 8 is in
        if is'.good then read_from rp rv default n entry t' is' else some (t', is')
  ]
