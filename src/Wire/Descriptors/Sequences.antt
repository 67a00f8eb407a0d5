-- ===== src/Wire/Descriptors/Sequences.antt =====
-- Sequence containers and arrays on a descriptor.
use lib_dwm.Base.{ℕ, ◌+◌, ◌<◌, ◌≡◌, List, arith, length, All, length-append}
use lib_dwm.Wire.Bytes.{Endian}
use lib_dwm.Wire.Stream.{Source}
use lib_dwm.Wire.Descriptors.{write_container_fd, read_container_fd, write_array_fd, read_array_fd}
use lib_dwm.Wire.Descriptors.Codec.{Sink, Writes, Reads, FdCodec}
use lib_dwm.Wire.Descriptors.Items.{
  wires, IntoAll, write_entries_fd-Written, read_places_fd-Holds, length-wires,
}
use lib_dwm.Wire.Descriptors.RoundTrip.{
  count_bytes, container_bytes, FitsContainer, length_small, write_container_fd-Writes,
  read_container_fd-Reads,
}
use lib_dwm.Wire.Descriptors.Codecs.{two_bytes}

zero_more : (n : ℕ) → 0 + n ≡ n
zero_more n = omega arith

module _ {S T A : Type 0} {put : List ℕ → S → ℕ × S} {get : ℕ → T → List ℕ × T} {snk : Sink put}
    {src : Source get} (writer reader : Endian) (C : FdCodec snk src A) where
  open C use {write, read, wire, Fits, Into}

  -- Sequences of what has a codec; a declared entry holds `fresh`.
  abbrev pub container_fd_codec : A → FdCodec snk src (List A)
  container_fd_codec fresh = record {
    write = write_container_fd put writer write;
    read = read_container_fd get reader read fresh;
    wire = container_bytes writer reader C;
    Fits = FitsContainer writer reader C;
    Into = λ c old. All (λ a. Into a fresh) c;
    some_byte = λ c h. omega (
      arith,
      two_bytes snk src writer reader (length c) (length_small writer reader C c h),
      length-append (count_bytes writer (length c)) (wires C c),
    );
    writes = write_container_fd-Writes writer reader C;
    reads = λ c old h i. read_container_fd-Reads writer reader C fresh c old h i;
  }

  -- If entries are read back as they are written and each takes a byte: ContainerWrite puts a
  -- container whose bytes number below 2^63 on a descriptor that takes what it is given, and
  -- ContainerRead on a host of either byte order gets it from a descriptor that delivers what is
  -- asked for. Both return the number of the bytes, and what follows on the descriptor remains.
  pub read_container_fd-written :
      (fresh : A) (c old : List A)
      → FitsContainer writer reader C c
      → All (λ a. Into a fresh) c
      → Writes snk (write_container_fd put writer write c) (container_bytes writer reader C c)
        × Reads src
            (read_container_fd get reader read fresh old)
            (container_bytes writer reader C c)
            c
  read_container_fd-written fresh c old h i = (
    write_container_fd-Writes writer reader C c h,
    read_container_fd-Reads writer reader C fresh c old h i,
  )

  -- Arrays of at least one entry.
  abbrev pub FitsArray : List A → Type 0
  FitsArray es = (0 < length es) × All Fits es

  pub write_array_fd-Writes :
      (es : List A) → FitsArray es → Writes snk (write_array_fd write es) (wires C es)
  unfolding write_array_fd
  write_array_fd-Writes es (pos, h) sofar s w =
      rw (zero_more (length (wires C es))) at (write_entries_fd-Written C es 0 sofar s h w)

  pub read_array_fd-Reads :
      (es olds : List A)
      → FitsArray es
      → IntoAll C es olds
      → Reads src (read_array_fd read olds) (wires C es) es
  unfolding read_array_fd
  read_array_fd-Reads es olds (pos, h) i rest t held =
      rw (zero_more (length (wires C es))) at (read_places_fd-Holds C es olds 0 rest t h i held)

  abbrev pub array_fd_codec : FdCodec snk src (List A)
  array_fd_codec = record {
    write = write_array_fd write;
    read = read_array_fd read;
    wire = wires C;
    Fits = FitsArray;
    Into = IntoAll C;
    some_byte = λ es h. omega (arith, h.0, length-wires C es h.1);
    writes = write_array_fd-Writes;
    reads = read_array_fd-Reads;
  }
