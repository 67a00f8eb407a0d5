-- ===== src/Patricia/Stored.antt =====
-- Write and Read of the trie of classes/include/DwmIpv4PrefixPatricia.hh on C++ streams, over
-- readers and writers of a prefix and of a value.
pub mod Pairs
pub mod RoundTrip
mod Tests
use lib_dwm.Base.{
  ℕ, zero, suc, ◌%◌, ◌^◌, Bool, true, false, Option, none, some, List, [], ◌∷◌, if◌then◌else◌, ◌==◌,
}
use lib_dwm.Wire.Bytes.{Endian}
use lib_dwm.Wire.Stream.{InStream, OutStream}
use lib_dwm.Wire.Encoded.{read_stream, write_stream}
use lib_dwm.Wire.Containers.{Reader, Writer, read_pair, write_pair}
use lib_dwm.Patricia.Key.{PrefixKey}
use lib_dwm.Patricia.Trie.{Trie, null, node}
use lib_dwm.Patricia.Map.{PrefixMap, insert, clear}
use lib_dwm.Patricia.Iterator.{begin, increment, deref}

-- The value of a node.
abbrev pub value_of : {P V : Type 0} → Trie P V → Option V
value_of null = none
value_of (node q w h l r up) = some w

module _ (K : PrefixKey) {V : Type 0} where
  open K use {Prefix}

  -- The loop of `Write` from an iterator on, in a number of rounds.
  unfoldable pub write_from :
      Writer Prefix → Writer V → ℕ → PrefixMap Prefix V → Option Prefix → OutStream → OutStream
  write_from wp wv rounds m none os = os
  write_from wp wv zero m (some a) os = os
  write_from wp wv (suc rounds) m (some a) os = elim (value_of (deref K a m.root)) [
    | none ↦ os
    | some v ↦
        let os' = write_pair wp wv (a, v) os in
        let rest = write_from wp wv rounds m (increment K m (some a)) os' in
        if os'.good then rest else os'
  ]

  -- `Write(std::ostream &)`; `_size` is the number of rounds that the loop takes.
  unfoldable pub write_map :
      Endian → Writer Prefix → Writer V → PrefixMap Prefix V → OutStream → OutStream
  write_map host wp wv m os =
      let os' = write_stream host 8 (m.size % 2 ^ 64) os in
      if os'.good
      then (if m.size % 2 ^ 64 == 0 then os' else write_from wp wv m.size m (begin K m) os')
      else os'

  -- The loop of `Read`; one variable holds every entry.
  unfoldable pub read_entries :
      Reader Prefix
      → Reader V
      → V
      → ℕ
      → Prefix × V
      → PrefixMap Prefix V
      → InStream
      → PrefixMap Prefix V × InStream
  read_entries rp rv default zero entry m is = (m, is)
  read_entries rp rv default (suc n) entry m is =
      let (e, is') = read_pair rp rv entry is in
      let rest = read_entries rp rv default n e (insert K default m e.0 e.1).0 is' in
      if is'.good then rest else (m, is')

  -- `Read(std::istream &)`; `entry` is the variable as it is declared.
  unfoldable pub read_map :
      Endian
      → Reader Prefix
      → Reader V
      → V
      → Prefix × V
      → PrefixMap Prefix V
      → InStream
      → PrefixMap Prefix V × InStream
  read_map host rp rv default entry m is =
      let (n, is') = read_stream host 8 is in
      if is'.good then read_entries rp rv default n entry (clear K m) is' else (clear K m, is')
