-- ===== src/Wire/Tests.antt =====
-- Runs of the wire formats, and the theorems at concrete inputs.
use lib_dwm.Base.{ℕ, ◌≡◌, refl, true, some, List, [], ◌∷◌, ◌++◌, inl, inr, arith}
use lib_dwm.Wire.Bytes.{little, big, bswap}
use lib_dwm.Wire.Stream.{InStream, read_bytes, stream_source}
use lib_dwm.Wire.Encoded.{make_native_endian_write_vector, read_stream}
use lib_dwm.Wire.Encoded.RoundTrip.{read_stream-written}
use lib_dwm.Wire.SizedLength.{length_vector, read_length_bz, read_length_bz-written}

abbrev three_hundred : List ℕ
three_hundred = make_native_endian_write_vector little 4 300

three_hundred_bytes : three_hundred ≡ 1 ∷ 44 ∷ 1 ∷ []
unfolding make_native_endian_write_vector
three_hundred_bytes = refl

big_three_hundred_bytes : make_native_endian_write_vector big 4 300 ≡ 129 ∷ 1 ∷ 44 ∷ []
unfolding make_native_endian_write_vector
big_three_hundred_bytes = refl

read_stream-written_example :
    read_stream big 4 (record { rest = three_hundred ++ (7 ∷ []); good = true })
    ≡ (300, record { rest = 7 ∷ []; good = true })
read_stream-written_example =
    read_stream-written little big 4 300 (7 ∷ []) (inr (inl refl)) (omega arith)

abbrev length_file : InStream
length_file = record { rest = length_vector little 70000 ++ []; good = true }

read_length_bz-written_example :
    (big ≡ little → (read_length_bz read_bytes big (some length_file)).1 ≡ 70000)
    × (big ≡ big
        → little ≡ little
        → (read_length_bz read_bytes big (some length_file)).1 ≡ bswap 8 70000)
read_length_bz-written_example =
    read_length_bz-written stream_source little big 70000 [] length_file (omega arith) refl

-- The swapped length is another one.
swapped_length : bswap 8 70000 ≡ 0x7011010000000000
unfolding bswap
swapped_length = refl
