-- ===== src/Mpls/Stack.antt =====
-- classes/src/DwmMplsLabelStack.cc: a sequence of labels, of which the last one has the S bit. Reading goes on
-- until a label has that bit, so the loop has fuel; `none` is fuel that ran out.
pub mod Laws
pub mod Descriptors
use lib_dwm.Base.{
  ℕ, zero, suc, ◌+◌, Bool, true, false, Option, none, some, List, [], ◌∷◌, ◌++◌, length,
  if◌then◌else◌,
}
use lib_dwm.Wire.Bytes.{Endian}
use lib_dwm.Wire.Stream.{InStream, OutStream}
use lib_dwm.Wire.DescriptorIo.{is_size, read_fd, write_fd}
use lib_dwm.Wire.StreamIo.{read_int, write_int, nread_int, nwrite_int}
use lib_dwm.Mpls.Label.{s_bit}

-- The loop of `Read`, for the call `get` that reads a label over the one before.
unfoldable pub read_labels :
    (ℕ → InStream → ℕ × InStream) → ℕ → ℕ → InStream → List ℕ → Option (List ℕ × InStream)
read_labels get zero last is labels = none
read_labels get (suc n) last is labels =
    let r = get last is in
    let others = read_labels get n r.0 r.1 (labels ++ (r.0 ∷ [])) in
    if s_bit last then some (labels, is) else if r.1.good then others else some (labels, r.1)

-- `Read(std::istream &)`: every round but the last takes characters from the stream.
unfoldable pub read_stack : Endian → InStream → Option (List ℕ × InStream)
read_stack host is =
    if is.good then read_labels (read_int host 4) (length is.rest + 1) 0 is [] else some ([], is)

-- `NRead(std::istream &)`.
unfoldable pub nread_stack : Endian → InStream → Option (List ℕ × InStream)
nread_stack host is =
    if is.good then read_labels (nread_int host 4) (length is.rest + 1) 0 is [] else some ([], is)

-- The loop of `Write` and `NWrite`.
unfoldable pub write_labels : (ℕ → OutStream → OutStream) → List ℕ → OutStream → OutStream
write_labels put [] os = os
write_labels put (l ∷ ls) os =
    let os' = put l os in let others = write_labels put ls os' in if os'.good then others else os'

-- `Write(std::ostream &)` and `NWrite(std::ostream &)`, whose assertions are the caller's part.
unfoldable pub write_stack : Endian → List ℕ → OutStream → OutStream
write_stack host labels os = write_labels (write_int host 4) labels os

unfoldable pub nwrite_stack : Endian → List ℕ → OutStream → OutStream
nwrite_stack host labels os = write_labels (nwrite_int host 4) labels os

module _ {S : Type 0} where
  -- `Read(int)`, for a valid descriptor: the labels read, and the bytes read, or `none` for -1.
  -- What is outermost is `none` where the fuel ran out.
  unfoldable pub read_labels_fd :
      (ℕ → S → List ℕ × S)
      → Endian
      → ℕ
      → ℕ
      → ℕ
      → List ℕ
      → Option S
      → Option (Option ℕ × List ℕ × Option S)
  read_labels_fd get host zero last rc labels fd = none
  read_labels_fd get host (suc n) last rc labels fd =
      let r = read_fd get host 4 last fd in
      let others = read_labels_fd get host n r.1 (rc + 4) (labels ++ (r.1 ∷ [])) r.2 in
      if s_bit last
      then some (some rc, labels, fd)
      else if is_size r.0 4
      then others
      else some (none, labels, r.2)

  unfoldable pub read_stack_fd :
      (ℕ → S → List ℕ × S) → Endian → ℕ → Option S → Option (Option ℕ × List ℕ × Option S)
  read_stack_fd get host fuel none = some (none, [], none)
  read_stack_fd get host fuel (some s) = read_labels_fd get host fuel 0 0 [] (some s)

  -- `Write(int)`.
  unfoldable pub write_stack_fd :
      (List ℕ → S → ℕ × S) → Endian → ℕ → List ℕ → Option S → Option ℕ × Option S
  write_stack_fd put host rc labels none = (none, none)
  write_stack_fd put host rc [] (some s) = (some rc, some s)
  write_stack_fd put host rc (l ∷ ls) (some s) =
      let w = write_fd put host 4 l (some s) in
      let others = write_stack_fd put host (rc + 4) ls w.1 in
      if is_size w.0 4 then others else (none, w.1)

-- `StreamedLength`.
unfoldable pub streamed_length : List ℕ → ℕ
streamed_length [] = 0
streamed_length (l ∷ ls) = 4 + streamed_length ls
