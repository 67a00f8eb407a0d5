-- ===== src/Wire/Containers.antt =====
-- The templates of classes/include/DwmStreamIO.hh over other types: pairs, optional values, arrays
-- and sequence containers. A reader takes what the variable holds and a stream; a writer takes the
-- value and a stream. A size_type is a uint64_t.
pub mod Codec
pub mod Items
pub mod RoundTrip
mod Tests
use lib_dwm.Base.{
  ℕ, zero, suc, ◌%◌, ◌^◌, Bool, true, false, Option, none, some, List, [], ◌∷◌, ◌++◌, ◌==◌, not,
  is_some, or_else, if◌then◌else◌, length,
}
use lib_dwm.Wire.Bytes.{Endian}
use lib_dwm.Wire.Stream.{InStream, OutStream, read_bytes, write_bytes}
use lib_dwm.Wire.Encoded.{read_stream, write_stream}
use lib_dwm.Wire.StreamIo.{read_int, write_int}

abbrev pub Reader : Type 0 → Type 0
Reader A = A → InStream → A × InStream

abbrev pub Writer : Type 0 → Type 0
Writer A = A → OutStream → OutStream

-- `Write(std::ostream &, bool)` and `Read(std::istream &, bool &)`, through one byte.
unfoldable pub write_bool : Endian → Bool → OutStream → OutStream
write_bool host b os = write_int host 1 (if b then 1 else 0) os

unfoldable pub read_bool : Endian → ℕ → Bool → InStream → Bool × InStream
read_bool host uninit old is =
    let (c, is') = read_int host 1 uninit is in (if is'.good then not (c == 0) else old, is')

module _ {A : Type 0} where
  -- The loop of a writer over the entries.
  unfoldable pub write_items : Writer A → List A → OutStream → OutStream
  write_items write [] os = os
  write_items write (a ∷ as') os =
      let os' = write a os in let rest = write_items write as' os' in if os'.good then rest else os'

  -- `Write` of a container: the number of the entries and the entries.
  unfoldable pub write_container : Endian → Writer A → List A → OutStream → OutStream
  write_container host write c os =
      if os.good
      then (let os' = write_stream host 8 (length c % 2 ^ 64) os in
          if os'.good then write_items write c os' else os')
      else os

  -- The loop of a reader, which appends what it reads; `fresh` is an entry as it is declared.
  unfoldable pub read_items : Reader A → A → ℕ → List A → InStream → List A × InStream
  read_items read fresh zero c is = (c, is)
  read_items read fresh (suc n) c is =
      let (a, is') = read fresh is in
      let rest = read_items read fresh n (c ++ a ∷ []) is' in if is'.good then rest else (c, is')

  -- `Read` of a sequence container; what it held is cleared.
  unfoldable pub read_container : Endian → Reader A → A → InStream → List A × InStream
  read_container host read fresh is =
      if is.good
      then (let (n, is') = read_stream host 8 is in
          if is'.good then read_items read fresh n [] is' else ([], is'))
      else ([], is)

  -- `Write` of an array.
  unfoldable pub write_array : Writer A → List A → OutStream → OutStream
  write_array write c os = if os.good then write_items write c os else os

  -- `Read` of an array: each entry is read into its place, and those behind a failure stay.
  unfoldable pub read_array : Reader A → List A → InStream → List A × InStream
  read_array read [] is = ([], is)
  read_array read (old ∷ olds) is =
      let (a, is') = read old is in
      let (c, is'') = read_array read olds is' in
      if is.good then (if is'.good then (a ∷ c, is'') else (a ∷ olds, is')) else (old ∷ olds, is)

  -- `Write` and `Read` of an optional value.
  unfoldable pub write_optional : Endian → Writer A → Option A → OutStream → OutStream
  write_optional host write none os = write_bool host false os
  write_optional host write (some a) os =
      let os' = write_bool host true os in if os'.good then write a os' else os'

  unfoldable pub read_optional :
      Endian → ℕ → Reader A → A → Option A → InStream → Option A × InStream
  read_optional host uninit read fresh old is =
      let (has_value, is') = read_bool host uninit false is in
      let (a, is'') = read (or_else old fresh) is' in
      if is'.good then (if has_value then (some a, is'') else (none, is')) else (old, is')

module _ {A B : Type 0} where
  -- `Write` and `Read` of a pair.
  unfoldable pub write_pair : Writer A → Writer B → A × B → OutStream → OutStream
  write_pair write write' (a, b) os =
      if os.good then (let os' = write a os in if os'.good then write' b os' else os') else os

  unfoldable pub read_pair : Reader A → Reader B → A × B → InStream → (A × B) × InStream
  read_pair read read' (a, b) is =
      let (a', is') = read a is in
      let (b', is'') = read' b is' in
      if is.good then (if is'.good then ((a', b'), is'') else ((a', b), is')) else ((a, b), is)
