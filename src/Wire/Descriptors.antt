-- ===== src/Wire/Descriptors.antt =====
-- The templates of classes/include/DwmDescriptorIO.hh over other types, with the integers of one
-- byte, Booleans and strings of classes/src/DwmDescriptorIO.cc. A descriptor may be invalid
-- (`none`); what a call returns is `none` where the code returns -1. A size_type is a uint64_t. A
-- call of the system that fails transfers nothing: 0 bytes stand for its -1. A call to write that is
-- given some bytes takes at least one or fails, so the loop that goes on after a 0 is not modelled.
pub mod Codec
pub mod Items
pub mod RoundTrip
pub mod Values
pub mod Pairs
pub mod Failure
pub mod Codecs
pub mod Sequences
mod Tests
use lib_dwm.Base.{
  ℕ, zero, suc, ◌+◌, ◌-◌, ◌%◌, ◌^◌, Bool, true, false, Option, none, some, List, [], ◌∷◌, ◌++◌,
  ◌==◌, ltb, leb, not, or_else, if◌then◌else◌, length, drop,
}
use lib_dwm.Wire.Bytes.{Endian}
use lib_dwm.Wire.Encoded.{write_handle, read_handle, streamed_length}
use lib_dwm.Wire.DescriptorIo.{is_size, nread_fd, nwrite_fd}

-- What a call returns, the variable afterwards, and the descriptor.
abbrev pub FdReader : Type 0 → Type 0 → Type 0
FdReader S A = A → Option S → Option ℕ × A × Option S

abbrev pub FdWriter : Type 0 → Type 0 → Type 0
FdWriter S A = A → Option S → Option ℕ × Option S

-- A test such as `bytesRead > 0`.
abbrev pub transferred : Option ℕ → Bool
transferred none = false
transferred (some n) = ltb 0 n

-- `rc += bytesRead` under that test, and -1 without it.
abbrev pub add_to : ℕ → Option ℕ → Option ℕ
add_to rc none = none
add_to rc (some n) = if ltb 0 n then some (rc + n) else none

-- The same on a variable `bytesWritten` of type uint64_t, in which -1 is the greatest number. The
-- sum is one of uint64_t, and goes back into an ssize_t; `none` stands for what is negative there.
abbrev pub as_uint64 : Option ℕ → ℕ
as_uint64 none = 2 ^ 64 - 1
as_uint64 (some n) = n % 2 ^ 64

abbrev pub as_ssize : ℕ → Option ℕ
as_ssize n = if ltb n (2 ^ 63) then some n else none

abbrev pub add_uint64_to : ℕ → ℕ → Option ℕ
add_uint64_to rc written = if ltb 0 written then as_ssize ((rc + written) % 2 ^ 64) else none

module _ {S : Type 0} (put : List ℕ → S → ℕ × S) (host : Endian) where
  -- `Write(int, bool)`, through one byte.
  unfoldable pub write_bool_fd : FdWriter S Bool
  write_bool_fd b fd = nwrite_fd put host 1 (if b then 1 else 0) fd

  -- The loop of `Write(int, const void *, size_t)`, with the bytes still to come: how many were
  -- written. A round that does not end the loop writes a byte, so that the fuel is their number.
  unfoldable pub write_rounds : ℕ → ℕ → ℕ → List ℕ → S → ℕ × S
  write_rounds zero len written bs s = (written, s)
  write_rounds (suc fuel) len written bs s =
      let (n, s') = put bs s in
      let rest = write_rounds fuel len (written + n) (drop n bs) s' in
      if ltb written len
      then (if n == len then (n, s') else if n == 0 then (written, s') else rest)
      else (written, s)

  -- The characters of a string, behind the `rc` bytes of its length.
  unfoldable pub write_characters_fd : List ℕ → ℕ → Option S → Option ℕ × Option S
  write_characters_fd s rc none = (none, none)
  write_characters_fd s rc (some t) =
      let (n, t') = write_rounds (length s) (length s) 0 s t in
      (if n == length s then some (rc + length s) else none, some t')

  -- `NWrite(int, const std::string &)`, which `Write` calls.
  unfoldable pub write_string_fd : FdWriter S (List ℕ)
  write_string_fd s fd =
      let (written, fd') = write_handle put host 8 (length s % 2 ^ 64) fd in
      if ltb 1 (or_else written 0)
      then (if ltb 0 (length s % 2 ^ 64)
          then write_characters_fd s (or_else written 0) fd'
          else (written, fd'))
      else (none, fd')

module _ {S : Type 0} (get : ℕ → S → List ℕ × S) (host : Endian) where
  -- `Read(int, bool &)`.
  unfoldable pub read_bool_fd : ℕ → FdReader S Bool
  read_bool_fd uninit old fd =
      let (rc, c, fd') = nread_fd get host 1 uninit fd in
      (rc, if transferred rc then not (c == 0) else old, fd')

  -- The loop of `Read(int, void *, size_t)`: what it has read into the buffer.
  unfoldable pub read_rounds : ℕ → ℕ → List ℕ → S → List ℕ × S
  read_rounds zero len got s = (got, s)
  read_rounds (suc fuel) len got s =
      let (bs, s') = get (len - length got) s in
      let rest = read_rounds fuel len (got ++ bs) s' in
      if ltb (length got) len
      then (if length bs == len then (bs, s') else if length bs == 0 then (got, s') else rest)
      else (got, s)

  unfoldable pub read_characters_fd : ℕ → ℕ → Option S → Option ℕ × List ℕ × Option S
  read_characters_fd len rc none = (none, [], none)
  read_characters_fd len rc (some t) =
      let (bs, t') = read_rounds len len [] t in
      if length bs == len then (some (rc + len), bs, some t') else (none, [], some t')

  -- `Read(int, std::string &)`, which `NRead` calls; `resize` throws above `max_size`.
  unfoldable pub read_string_fd : ℕ → FdReader S (List ℕ)
  read_string_fd max_size old fd =
      let (got, len, fd') = read_handle get host 8 fd in
      if ltb 1 (or_else got 0)
      then (if ltb 0 len
          then (if leb len max_size
              then read_characters_fd len (or_else got 0) fd'
              else (none, [], fd'))
          else (got, [], fd'))
      else (none, [], fd')

module _ {S A : Type 0} where
  -- The loop of a writer over the entries, with what it has written so far.
  unfoldable pub write_entries_fd : FdWriter S A → ℕ → List A → Option S → Option ℕ × Option S
  write_entries_fd write rc [] fd = (some rc, fd)
  write_entries_fd write rc (a ∷ es) fd =
      let (n, fd') = write a fd in
      let rest = write_entries_fd write (rc + or_else n 0) es fd' in
      if transferred n then rest else (none, fd')

  -- `Write` of an array.
  unfoldable pub write_array_fd : FdWriter S A → List A → Option S → Option ℕ × Option S
  write_array_fd write es fd = write_entries_fd write 0 es fd

  -- `Write` of a range between iterators.
  unfoldable pub write_range_fd : FdWriter S A → List A → Option S → Option ℕ × Option S
  write_range_fd write es none = (some 0, none)
  write_range_fd write es (some s) = write_entries_fd write 0 es (some s)

  -- `ContainerWrite`.
  unfoldable pub write_container_fd :
      (List ℕ → S → ℕ × S) → Endian → FdWriter S A → List A → Option S → Option ℕ × Option S
  write_container_fd put host write c none = (none, none)
  write_container_fd put host write c (some s) =
      let num_entries = length c % 2 ^ 64 in
      let (written, fd) = write_handle put host 8 num_entries (some s) in
      if is_size written (streamed_length 8 num_entries)
      then (if ltb 0 num_entries
          then (let (rest, fd') = write_range_fd write c fd in
              (add_uint64_to (streamed_length 8 num_entries) (as_uint64 rest), fd'))
          else (some (streamed_length 8 num_entries), fd))
      else (none, fd)

  -- The loop of a reader, which appends what it reads; `fresh` is an entry as it is declared.
  unfoldable pub read_entries_fd :
      FdReader S A → A → ℕ → ℕ → List A → Option S → Option ℕ × List A × Option S
  read_entries_fd read fresh zero rc c fd = (some rc, c, fd)
  read_entries_fd read fresh (suc k) rc c fd =
      let (n, a, fd') = read fresh fd in
      let rest = read_entries_fd read fresh k (rc + or_else n 0) (c ++ a ∷ []) fd' in
      if transferred n then rest else (none, c, fd')

  -- `ContainerRead` into a sequence container; what it held is cleared.
  unfoldable pub read_container_fd :
      (ℕ → S → List ℕ × S) → Endian → FdReader S A → A → FdReader S (List A)
  read_container_fd get host read fresh old none = (none, [], none)
  read_container_fd get host read fresh old (some s) =
      let (n, num_entries, fd) = read_handle get host 8 (some s) in
      if transferred n
      then read_entries_fd read fresh num_entries (or_else n 0) [] fd
      else (none, [], fd)

  -- `Read` of an array: each entry is read into its place, and those behind a failure stay.
  unfoldable pub read_places_fd : FdReader S A → ℕ → FdReader S (List A)
  read_places_fd read rc [] fd = (some rc, [], fd)
  read_places_fd read rc (old ∷ olds) fd =
      let (n, a, fd') = read old fd in
      let (m, c, fd'') = read_places_fd read (rc + or_else n 0) olds fd' in
      if transferred n then (m, a ∷ c, fd'') else (none, a ∷ olds, fd')

  unfoldable pub read_array_fd : FdReader S A → FdReader S (List A)
  read_array_fd read olds fd = read_places_fd read 0 olds fd

  -- `Write` and `Read` of an optional value.
  unfoldable pub write_optional_fd :
      (List ℕ → S → ℕ × S) → Endian → FdWriter S A → FdWriter S (Option A)
  write_optional_fd put host write none none = (none, none)
  write_optional_fd put host write none (some s) =
      let (n, fd) = write_bool_fd put host false (some s) in (add_to 0 n, fd)
  write_optional_fd put host write (some a) none = (none, none)
  write_optional_fd put host write (some a) (some s) =
      let (n, fd) = write_bool_fd put host true (some s) in
      let (m, fd') = write a fd in
      if transferred n then (add_to (or_else n 0) m, fd') else (none, fd)

  unfoldable pub read_optional_fd :
      (ℕ → S → List ℕ × S) → Endian → ℕ → FdReader S A → A → FdReader S (Option A)
  read_optional_fd get host uninit read fresh old none = (none, old, none)
  read_optional_fd get host uninit read fresh old (some s) =
      let (n, has_value, fd) = read_bool_fd get host uninit false (some s) in
      let (m, a, fd') = read (or_else old fresh) fd in
      if transferred n
      then (if has_value then (add_to (or_else n 0) m, some a, fd') else (add_to 0 n, old, fd))
      else (none, old, fd)

module _ {S A B : Type 0} where
  -- `Write` and `Read` of a pair.
  unfoldable pub write_pair_fd : FdWriter S A → FdWriter S B → FdWriter S (A × B)
  write_pair_fd write write' (a, b) none = (none, none)
  write_pair_fd write write' (a, b) (some s) =
      let (n, fd) = write a (some s) in
      let (m, fd') = write' b fd in
      if transferred n then (add_to (or_else n 0) m, fd') else (none, fd)

  unfoldable pub read_pair_fd : FdReader S A → FdReader S B → FdReader S (A × B)
  read_pair_fd read read' (a, b) none = (none, (a, b), none)
  read_pair_fd read read' (a, b) (some s) =
      let (n, a', fd) = read a (some s) in
      let (m, b', fd') = read' b fd in
      if transferred n then (add_to (or_else n 0) m, (a', b'), fd') else (none, (a', b), fd)
