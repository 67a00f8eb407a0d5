-- ===== src/Wire/Containers/Codec.antt =====
-- What the templates ask of the type of an entry: a reader that undoes its writer. Numbers,
-- Booleans and strings meet it.
use mathlib.Core.List.{append_assoc, append-nil}
use lib_dwm.Base.{
  ℕ, suc, ◌^◌, ◌≤◌, ◌<◌, ◌≡◌, refl, ap, ◌∙◌, Bool, true, false, List, [], ◌∷◌, ◌++◌, arith, length,
  if◌then◌else◌, lt→ltb,
}
use lib_dwm.Wire.Bytes.{Endian}
use lib_dwm.Wire.Stream.{InStream, OutStream, write_bytes}
use lib_dwm.Wire.Encoded.{write_stream, make_native_endian_write_vector}
use lib_dwm.Wire.StreamIo.{
  read_int, write_int, read_string, write_string, network_bytes, string_bytes, write_int_lem,
  read_int-written, read_string-written,
}
use lib_dwm.Wire.Containers.{Reader, Writer, read_bool, write_bool}

-- A stream in a good state, with characters to come or with characters written.
abbrev pub input : List ℕ → InStream
input bs = record { rest = bs; good = true }

abbrev pub output : List ℕ → OutStream
output bs = record { written = bs; good = true }

pub record Codec (A : Type 0) : Type 1 where
  pub write : Writer A
  pub read : Reader A
  -- The characters of a value, and the values that have some.
  pub wire : A → List ℕ
  pub Fits : A → Type 0
  pub writes : (a : A) (sofar : List ℕ) → Fits a → write a (output sofar) ≡ output (sofar ++ wire a)
  pub reads :
      (a old : A) (rest : List ℕ) → Fits a → read old (input (wire a ++ rest)) ≡ (a, input rest)

abbrev pub bool_bytes : Bool → List ℕ
bool_bytes b = network_bytes 1 (if b then 1 else 0)

write_bytes-output : (bs sofar : List ℕ) → write_bytes bs (output sofar) ≡ output (sofar ++ bs)
unfolding write_bytes
write_bytes-output bs sofar = refl

module _ (writer : Endian) where
  pub write_int-output :
      (w v : ℕ) (sofar : List ℕ)
      → write_int writer w v (output sofar) ≡ output (sofar ++ network_bytes w v)
  unfolding write_bytes
  write_int-output w v sofar = write_int_lem writer w v (output sofar)

  pub write_stream-output :
      (n : ℕ) (sofar : List ℕ)
      → write_stream writer 8 n (output sofar)
        ≡ output (sofar ++ make_native_endian_write_vector writer 8 n)
  unfolding write_stream write_bytes
  write_stream-output n sofar = refl

  pub write_string-output :
      (s sofar : List ℕ)
      → write_string writer s (output sofar) ≡ output (sofar ++ string_bytes writer s)
  unfolding write_string
  write_string-output [] sofar =
      rw (write_stream-output 0 sofar, append-nil (make_native_endian_write_vector writer 8 0)) refl
  write_string-output (c ∷ s) sofar =
      rw (write_stream-output (suc (length s)) sofar, lt→ltb 0 (suc (length s)) (omega arith))
        (write_bytes-output (c ∷ s) _ ∙ ap output (append_assoc sofar _ (c ∷ s)))

  pub write_bool-output :
      (b : Bool) (sofar : List ℕ)
      → write_bool writer b (output sofar) ≡ output (sofar ++ bool_bytes b)
  unfolding write_bool
  write_bool-output b sofar = write_int-output 1 _ sofar

module _ (writer reader : Endian) where
  -- Integers of w bytes.
  abbrev pub int_codec : ℕ → Codec ℕ
  int_codec w = record {
    write = write_int writer w;
    read = read_int reader w;
    wire = network_bytes w;
    Fits = λ v. v < 256 ^ w;
    writes = λ v sofar h. write_int-output writer w v sofar;
    reads = λ v old rest h. read_int-written reader w v old rest h;
  }

  -- Strings that the standard library can hold.
  abbrev pub string_codec : ℕ → Codec (List ℕ)
  string_codec max_size = record {
    write = write_string writer;
    read = λ old. read_string max_size reader;
    wire = string_bytes writer;
    Fits = λ s. (length s < 2 ^ 64) × (length s ≤ max_size);
    writes = λ s sofar h. write_string-output writer s sofar;
    reads = λ s old rest h. read_string-written max_size writer reader s rest h.0 h.1;
  }

  pub read_bool-input :
      (uninit : ℕ) (b old : Bool) (rest : List ℕ)
      → read_bool reader uninit old (input (bool_bytes b ++ rest)) ≡ (b, input rest)
  unfolding read_bool
  read_bool-input uninit true old rest =
      rw (read_int-written reader 1 1 uninit rest (omega arith)) refl
  read_bool-input uninit false old rest =
      rw (read_int-written reader 1 0 uninit rest (omega arith)) refl

  abbrev pub bool_codec : ℕ → Codec Bool
  bool_codec uninit = record {
    write = write_bool writer;
    read = read_bool reader uninit;
    wire = bool_bytes;
    Fits = λ b. Unit {0};
    writes = λ b sofar h. write_bool-output writer b sofar;
    reads = λ b old rest h. read_bool-input uninit b old rest;
  }
