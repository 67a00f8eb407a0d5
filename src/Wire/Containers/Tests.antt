-- ===== src/Wire/Containers/Tests.antt =====
-- Containers of pairs of a string and a number, on concrete streams.
use lib_dwm.Base.{ℕ, ◌≡◌, refl, true, List, [], ◌∷◌, ◌++◌, arith, ap}
use lib_dwm.Wire.Bytes.{little, big, store, load, be2host, bswap}
use lib_dwm.Wire.Stream.{InStream, read_bytes}
use lib_dwm.Wire.Encoded.{
  read_stream, read_object, start_reading, finish_reading, two_bytes_processed,
}
use lib_dwm.Wire.StreamIo.{read_int}
use lib_dwm.Wire.Containers.{write_container, read_container, read_items}
use lib_dwm.Wire.Containers.Codec.{Codec, input, output, int_codec, string_codec}
use lib_dwm.Wire.Containers.RoundTrip.{pair_codec, read_container-written}

abbrev entry_codec : Codec (List ℕ × ℕ)
entry_codec = pair_codec (string_codec little big 1000) (int_codec little big 4)

abbrev entries : List (List ℕ × ℕ)
entries = (97 ∷ 98 ∷ [], 80) ∷ ([], 443) ∷ []

abbrev blank : List ℕ × ℕ
blank = ([], 0)

read_container-written_example :
    read_container big entry_codec.read blank
      (input ((write_container little entry_codec.write entries (output [])).written ++ 7 ∷ []))
    ≡ (entries, input (7 ∷ []))
read_container-written_example =
    read_container-written little big entry_codec blank entries (7 ∷ []) (omega arith)
      (((omega arith, omega arith), omega arith), (((omega arith, omega arith), omega arith), tt))

-- Two numbers of one byte behind their number.
abbrev two_bytes : InStream
two_bytes = input (0 ∷ 2 ∷ 5 ∷ 6 ∷ [])

two_bytes_read : read_container little (read_int little 1) 0 two_bytes ≡ (5 ∷ 6 ∷ [], input [])
unfolding read_container read_items read_int read_stream read_object start_reading finish_reading
    two_bytes_processed read_bytes load store be2host bswap
two_bytes_read = refl

two_bytes_good : (read_container little (read_int little 1) 0 two_bytes).1.good ≡ true
two_bytes_good = ap (λ (x : List ℕ × InStream). x.1.good) two_bytes_read
