-- ===== src/Wire/Containers/RoundTrip.antt =====
-- The templates keep the promise of a codec: what they write, they read back.
use mathlib.Core.List.{append_assoc}
use native.Mathlib.Nat.{mod-eq_of_lt}
use lib_dwm.Base.{
  ℕ, ◌^◌, ◌<◌, ◌≡◌, refl, ap, ◌∙◌, true, false, Option, none, some, List, [], ◌++◌, arith, length,
  All, inr, or_else,
}
use lib_dwm.Wire.Bytes.{Endian}
use lib_dwm.Wire.Stream.{InStream}
use lib_dwm.Wire.Encoded.{read_stream, make_native_endian_write_vector}
use lib_dwm.Wire.Encoded.RoundTrip.{read_stream-written}
use lib_dwm.Wire.Containers.{
  Reader, write_container, read_container, read_items, write_pair, read_pair, write_optional,
  read_optional,
}
use lib_dwm.Wire.Containers.Codec.{
  Codec, input, output, write_stream-output, write_bool-output, read_bool-input, bool_bytes,
}
use lib_dwm.Wire.Containers.Items.{
  wires, write_items-output, read_items-input, read_items_complete, unless_failed,
}

module _ (writer reader : Endian) {A : Type 0} (C : Codec A) where
  open C use {write, read, wire, Fits, writes, reads}

  abbrev pub container_bytes : List A → List ℕ
  container_bytes c = make_native_endian_write_vector writer 8 (length c) ++ wires C c

  pub write_container-output :
      (c : List A) (sofar : List ℕ)
      → (length c < 2 ^ 64) × All Fits c
      → write_container writer write c (output sofar) ≡ output (sofar ++ container_bytes c)
  unfolding write_container
  write_container-output c sofar (small, fits) =
      rw (mod-eq_of_lt small, write_stream-output writer (length c) sofar)
        (write_items-output C c _ fits
          ∙ ap output (
              append_assoc sofar (make_native_endian_write_vector writer 8 (length c)) (wires C c)))

  pub read_container-input :
      (fresh : A) (c : List A) (rest : List ℕ)
      → (length c < 2 ^ 64) × All Fits c
      → read_container reader read fresh (input (container_bytes c ++ rest)) ≡ (c, input rest)
  unfolding read_container
  read_container-input fresh c rest (small, fits) =
      rw
        (
          append_assoc (make_native_endian_write_vector writer 8 (length c)) (wires C c) rest,
          read_stream-written writer reader 8 (length c) (wires C c ++ rest) (inr (inr refl)) small,
        )
        (read_items-input C fresh c [] rest fits)

  -- Sequences of what has a codec; a declared entry holds `fresh`.
  abbrev pub container_codec : A → Codec (List A)
  container_codec fresh = record {
    write = write_container writer write;
    read = λ old. read_container reader read fresh;
    wire = container_bytes;
    Fits = λ c. (length c < 2 ^ 64) × All Fits c;
    writes = λ c sofar h. write_container-output c sofar h;
    reads = λ c old rest h. read_container-input fresh c rest h;
  }

  abbrev pub optional_bytes : Option A → List ℕ
  optional_bytes none = bool_bytes false
  optional_bytes (some a) = bool_bytes true ++ wire a

  abbrev pub FitsOptional : Option A → Type 0
  FitsOptional none = Unit {0}
  FitsOptional (some a) = Fits a

  pub write_optional-output :
      (o : Option A) (sofar : List ℕ)
      → FitsOptional o
      → write_optional writer write o (output sofar) ≡ output (sofar ++ optional_bytes o)
  unfolding write_optional
  write_optional-output none sofar h = write_bool-output writer false sofar
  write_optional-output (some a) sofar h =
      rw (write_bool-output writer true sofar)
        (writes a _ h ∙ ap output (append_assoc sofar (bool_bytes true) (wire a)))

  pub read_optional-input :
      (uninit : ℕ) (fresh : A) (o old : Option A) (rest : List ℕ)
      → FitsOptional o
      → read_optional reader uninit read fresh old (input (optional_bytes o ++ rest))
        ≡ (o, input rest)
  unfolding read_optional
  read_optional-input uninit fresh none old rest h =
      rw (read_bool-input writer reader uninit false false rest) refl
  read_optional-input uninit fresh (some a) old rest h =
      rw
        (
          append_assoc (bool_bytes true) (wire a) rest,
          read_bool-input writer reader uninit true false (wire a ++ rest),
          reads a (or_else old fresh) rest h,
        )
        refl

  -- Optional values of what has a codec.
  abbrev pub optional_codec : ℕ → A → Codec (Option A)
  optional_codec uninit fresh = record {
    write = write_optional writer write;
    read = read_optional reader uninit read fresh;
    wire = optional_bytes;
    Fits = FitsOptional;
    writes = λ o sofar h. write_optional-output o sofar h;
    reads = λ o old rest h. read_optional-input uninit fresh o old rest h;
  }

module _ {A B : Type 0} (C : Codec A) (D : Codec B) where
  abbrev pub pair_bytes : A × B → List ℕ
  pair_bytes (a, b) = C.wire a ++ D.wire b

  pub write_pair-output :
      (p : A × B) (sofar : List ℕ)
      → C.Fits p.0 × D.Fits p.1
      → write_pair C.write D.write p (output sofar) ≡ output (sofar ++ pair_bytes p)
  unfolding write_pair
  write_pair-output (a, b) sofar (h, k) =
      rw (C.writes a sofar h)
        (D.writes b _ k ∙ ap output (append_assoc sofar (C.wire a) (D.wire b)))

  pub read_pair-input :
      (p old : A × B) (rest : List ℕ)
      → C.Fits p.0 × D.Fits p.1
      → read_pair C.read D.read old (input (pair_bytes p ++ rest)) ≡ (p, input rest)
  unfolding read_pair
  read_pair-input (a, b) (x, y) rest (h, k) =
      rw
        (
          append_assoc (C.wire a) (D.wire b) rest,
          C.reads a x (D.wire b ++ rest) h,
          D.reads b y rest k,
        )
        refl

  -- Pairs of what has a codec.
  abbrev pub pair_codec : Codec (A × B)
  pair_codec = record {
    write = write_pair C.write D.write;
    read = read_pair C.read D.read;
    wire = pair_bytes;
    Fits = λ p. C.Fits p.0 × D.Fits p.1;
    writes = write_pair-output;
    reads = read_pair-input;
  }

module _ (writer reader : Endian) {A : Type 0} (C : Codec A) where
  -- If the entries of a container of fewer than 2^64 are read back as they are written, so is the
  -- container: a host of either byte order writes it to an unused ostream, a host of either byte
  -- order reads it from an istream, and the characters that follow remain.
  pub read_container-written :
      (fresh : A) (c : List A) (rest : List ℕ)
      → length c < 2 ^ 64
      → All C.Fits c
      → read_container reader C.read fresh
          (input ((write_container writer C.write c (output [])).written ++ rest))
        ≡ (c, input rest)
  read_container-written fresh c rest small fits =
      rw (write_container-output writer reader C c [] (small, fits))
        (read_container-input writer reader C fresh c rest (small, fits))

-- The loop that reads a container ends with a stream in a good state only if it read as many
-- entries as the number in front says, whatever the stream holds and whatever reads an entry.
pub read_container_complete :
    {A : Type 0} (host : Endian) (read : Reader A) (fresh : A) (is : InStream)
    → (read_container host read fresh is).1.good ≡ true
    → length (read_container host read fresh is).0 ≡ (read_stream host 8 is).0
unfolding read_container
read_container_complete host read fresh is h =
    let (n, is') = read_stream host 8 is in
    unless_failed is.good _ ([], is) n refl
      (unless_failed is'.good (read_items read fresh n [] is') ([], is') n refl
        (λ g. omega (arith, read_items_complete read fresh n [] is' g)))
      h
