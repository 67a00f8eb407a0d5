-- ===== src/Wire/Descriptors/Tests.antt =====
-- Descriptors that keep what they take, and containers of pairs of a string and a number on them.
use lib_dwm.Base.{
  ℕ, ◌-◌, ◌^◌, ◌<◌, ◌≡◌, refl, ap, none, some, List, [], ◌∷◌, ◌++◌, ◌==◌, length, arith,
  if◌then◌else◌,
}
use lib_dwm.Wire.Bytes.{little, big, store, to_bytes}
use lib_dwm.Wire.Stream.{read_bytes, stream_source}
use lib_dwm.Wire.Encoded.{write_handle, streamed_length, make_native_endian_write_vector}
use lib_dwm.Wire.DescriptorIo.{write_fd, nwrite_fd, read_fd}
use lib_dwm.Wire.Descriptors.{
  write_container_fd, read_container_fd, write_entries_fd, write_range_fd, write_optional_fd,
  read_optional_fd,
}
use lib_dwm.Wire.Descriptors.Codec.{Sink, Writes, Reads, FdCodec}
use lib_dwm.Wire.Descriptors.Codecs.{int_fd_codec, string_fd_codec}
use lib_dwm.Wire.Descriptors.Pairs.{pair_fd_codec}
use lib_dwm.Wire.Descriptors.Values.{read_optional_fd-written}
use lib_dwm.Wire.Descriptors.RoundTrip.{container_bytes}
use lib_dwm.Wire.Descriptors.Sequences.{read_container_fd-written}
use lib_dwm.Wire.Descriptors.Failure.{write_container_fd-failed}

-- A file that takes what it is given.
abbrev append_to : List ℕ → List ℕ → ℕ × List ℕ
append_to bs s = (length bs, s ++ bs)

abbrev file_sink : Sink append_to
file_sink = record {
  Written = λ sofar s. s ≡ sofar;
  takes = λ bs sofar s e. (refl, ap (λ (t : List ℕ). t ++ bs) e);
}

abbrev entry_codec : FdCodec file_sink stream_source (List ℕ × ℕ)
entry_codec =
    pair_fd_codec (string_fd_codec file_sink stream_source little big 1000)
      (int_fd_codec file_sink stream_source little big 4 (omega arith))

abbrev entries : List (List ℕ × ℕ)
entries = (97 ∷ 98 ∷ [], 80) ∷ ([], 443) ∷ []

abbrev blank : List ℕ × ℕ
blank = ([], 0)

entries_small : length (container_bytes little big entry_codec entries) < 2 ^ 63
unfolding make_native_endian_write_vector to_bytes store
entries_small =
    omega (arith, let e : length (container_bytes little big entry_codec entries) ≡ 16 = refl in e)

read_container_fd-written_example :
    Writes file_sink
      (write_container_fd append_to little entry_codec.write entries)
      (container_bytes little big entry_codec entries)
    × Reads stream_source
        (read_container_fd read_bytes big entry_codec.read blank [])
        (container_bytes little big entry_codec entries)
        entries
read_container_fd-written_example =
    read_container_fd-written little big entry_codec blank entries []
      (
        entries_small,
        (
          ((omega arith, omega arith), omega arith),
          (((omega arith, omega arith), omega arith), tt),
        ),
      )
      ((tt, tt), ((tt, tt), tt))

-- An optional value that is empty, over one that is not.
read_optional_fd-written_example :
    Writes file_sink
      (write_optional_fd append_to little (write_fd append_to little 4) none)
      (0 ∷ [])
    × Reads stream_source
        (read_optional_fd read_bytes big 0 (read_fd read_bytes big 4) 0 (some 5))
        (0 ∷ [])
        (some 5)
read_optional_fd-written_example =
    read_optional_fd-written little big
      (int_fd_codec file_sink stream_source little big 4 (omega arith)) 0 0 none (some 5) tt tt

-- A device that takes what the first call gives it and nothing after that.
abbrev once : List ℕ → ℕ → ℕ × ℕ
once bs calls = if calls == 0 then (length bs, 1) else (0, 1)

write_container_fd-failed_example :
    (write_container_fd once little (write_fd once little 4) (80 ∷ 443 ∷ []) (some 0)
      ≡ (some (streamed_length 8 2 - 1), some 1))
    × (0 < streamed_length 8 2 - 1)
unfolding write_handle streamed_length write_range_fd write_entries_fd write_fd nwrite_fd
write_container_fd-failed_example =
    write_container_fd-failed once little (write_fd once little 4) (80 ∷ 443 ∷ []) 0 (some 1)
      (some 1) (omega arith) (omega arith) refl refl
