-- ===== src/Wire/Descriptors/Values.antt =====
-- Booleans and optional values on a descriptor.
use mathlib.Core.List.{append_assoc}
use lib_dwm.Base.{
  ℕ, suc, ◌+◌, ◌%◌, ◌<◌, ◌≡◌, refl, ap, Bool, true, false, Option, none, some, List, [], ◌∷◌, ◌++◌,
  arith, length, or_else, lt→ltb,
}
use lib_dwm.Wire.Bytes.{Endian, little, big, store, load, to_bytes, of_bytes}
use lib_dwm.Wire.Stream.{Source, get_first}
use lib_dwm.Wire.StreamIo.{overlay_all, length-store}
use lib_dwm.Wire.DescriptorIo.{nread_fd, nwrite_fd}
use lib_dwm.Wire.Descriptors.{write_bool_fd, read_bool_fd, write_optional_fd, read_optional_fd}
use lib_dwm.Wire.Descriptors.Codec.{Sink, Writes, Reads, FdCodec}

abbrev pub bool_bytes : Bool → List ℕ
bool_bytes true = 1 ∷ []
bool_bytes false = 0 ∷ []

store_byte : (host : Endian) (b : ℕ) → b < 256 → store host 1 b ≡ b ∷ []
unfolding store to_bytes
store_byte little b h = rw (let e : b % 256 ≡ b = omega arith in e) refl
store_byte big b h = rw (let e : b % 256 ≡ b = omega arith in e) refl

load_byte : (host : Endian) (b : ℕ) → load host (b ∷ []) ≡ b
unfolding load of_bytes
load_byte little b = omega arith
load_byte big b = omega arith

one_more : (n : ℕ) → 1 + n ≡ suc n
one_more n = omega arith

module _ {S : Type 0} {put : List ℕ → S → ℕ × S} (snk : Sink put) (host : Endian) where
  pub write_bool_fd-Writes : (b : Bool) → Writes snk (write_bool_fd put host b) (bool_bytes b)
  unfolding write_bool_fd nwrite_fd
  write_bool_fd-Writes true sofar s w =
      let (taken, w') = snk.takes (1 ∷ []) sofar s w in
      (_, rw (store_byte host 1 (omega arith), taken) refl, w')
  write_bool_fd-Writes false sofar s w =
      let (taken, w') = snk.takes (0 ∷ []) sofar s w in
      (_, rw (store_byte host 0 (omega arith), taken) refl, w')

module _ {T : Type 0} {get : ℕ → T → List ℕ × T} (src : Source get) (host : Endian) where
  -- A byte that is next on the descriptor.
  nread_fd-byte : (uninit b : ℕ) → Reads src (nread_fd get host 1 uninit) (b ∷ []) b
  unfolding nread_fd
  nread_fd-byte uninit b rest t held =
      let (got, left) = get_first src t (b ∷ []) rest held in
      (
        _,
        rw
            (
              got,
              overlay_all (store host 1 uninit) (b ∷ []) (length-store host 1 uninit),
              load_byte host b,
            )
            refl,
        left,
      )

  pub read_bool_fd-Reads :
      (uninit : ℕ) (b old : Bool) → Reads src (read_bool_fd get host uninit old) (bool_bytes b) b
  unfolding read_bool_fd
  read_bool_fd-Reads uninit true old rest t held =
      let (t', got, left) = nread_fd-byte uninit 1 rest t held in (t', rw got refl, left)
  read_bool_fd-Reads uninit false old rest t held =
      let (t', got, left) = nread_fd-byte uninit 0 rest t held in (t', rw got refl, left)

module _ {S T A : Type 0} {put : List ℕ → S → ℕ × S} {get : ℕ → T → List ℕ × T} {snk : Sink put}
    {src : Source get} (writer reader : Endian) (C : FdCodec snk src A) where
  open C use {write, read, wire, Fits, Into}

  abbrev pub optional_bytes : Option A → List ℕ
  optional_bytes none = bool_bytes false
  optional_bytes (some a) = bool_bytes true ++ wire a

  abbrev pub FitsOptional : Option A → Type 0
  FitsOptional none = Unit {0}
  FitsOptional (some a) = Fits a

  -- What the variable may hold, for the value in it to be read; a new value is `fresh`.
  abbrev pub IntoValue : A → Option A → Option A → Type 0
  IntoValue fresh none old = Unit {0}
  IntoValue fresh (some a) old = Into a (or_else old fresh)

  -- What the variable holds after an optional value was read into it.
  abbrev pub read_over : Option A → Option A → Option A
  read_over none old = old
  read_over (some a) old = some a

  pub write_optional_fd-Writes :
      (o : Option A)
      → FitsOptional o
      → Writes snk (write_optional_fd put writer write o) (optional_bytes o)
  unfolding write_optional_fd
  write_optional_fd-Writes none h sofar s w =
      let (s', one, w') = write_bool_fd-Writes snk writer false sofar s w in (s', rw one refl, w')
  write_optional_fd-Writes (some a) h sofar s w =
      let (s', one, w') = write_bool_fd-Writes snk writer true sofar s w in
      let (s'', value, w'') = C.writes a h (sofar ++ bool_bytes true) s' w' in
      (
        s'',
        rw (one, value, lt→ltb 0 (length (wire a)) (C.some_byte a h))
            (ap (λ (n : ℕ). (some n, some s'')) (one_more (length (wire a)))),
        rw (append_assoc sofar (bool_bytes true) (wire a)) at w'',
      )

  read_optional_fd-Reads :
      (uninit : ℕ) (fresh : A) (o old : Option A)
      → FitsOptional o
      → IntoValue fresh o old
      → Reads src
          (read_optional_fd get reader uninit read fresh old)
          (optional_bytes o)
          (read_over o old)
  unfolding read_optional_fd
  read_optional_fd-Reads uninit fresh none old h i rest t held =
      let (t', one, left) = read_bool_fd-Reads src reader uninit false false rest t held in
      (t', rw one refl, left)
  read_optional_fd-Reads uninit fresh (some a) old h i rest t held =
      let (t', one, left) =
        read_bool_fd-Reads src reader uninit true false (wire a ++ rest) t
          (rw (append_assoc (bool_bytes true) (wire a) rest) at held) in
      let (t'', value, left') = C.reads a (or_else old fresh) h i rest t' left in
      (
        t'',
        rw (one, value, lt→ltb 0 (length (wire a)) (C.some_byte a h))
            (ap (λ (n : ℕ). (some n, some a, some t'')) (one_more (length (wire a)))),
        left',
      )

  -- If values are read back as they are written: an optional value is written as the bytes from
  -- which a reader on a host of either byte order gets the value, if there is one. If there is
  -- none, the variable still holds what it held before. Both calls return the number of the bytes.
  pub read_optional_fd-written :
      (uninit : ℕ) (fresh : A) (o old : Option A)
      → FitsOptional o
      → IntoValue fresh o old
      → Writes snk (write_optional_fd put writer write o) (optional_bytes o)
        × Reads src
            (read_optional_fd get reader uninit read fresh old)
            (optional_bytes o)
            (read_over o old)
  read_optional_fd-written uninit fresh o old h i =
      (write_optional_fd-Writes o h, read_optional_fd-Reads uninit fresh o old h i)

  -- What the variable may hold, for the optional value to be read.
  abbrev pub IntoOptional : A → Option A → Option A → Type 0
  IntoOptional fresh none none = Unit {0}
  IntoOptional fresh none (some b) = ⊥
  IntoOptional fresh (some a) old = Into a (or_else old fresh)

  pub optional-Reads :
      (uninit : ℕ) (fresh : A) (o old : Option A)
      → FitsOptional o
      → IntoOptional fresh o old
      → Reads src (read_optional_fd get reader uninit read fresh old) (optional_bytes o) o
  optional-Reads uninit fresh none none h i = read_optional_fd-Reads uninit fresh none none h tt
  optional-Reads uninit fresh none (some b) h i = absurd i
  optional-Reads uninit fresh (some a) old h i =
      read_optional_fd-Reads uninit fresh (some a) old h i

  pub optional_some_byte : (o : Option A) → FitsOptional o → 0 < length (optional_bytes o)
  optional_some_byte none h = omega arith
  optional_some_byte (some a) h = omega arith

  -- Optional values of what has a codec.
  abbrev pub optional_fd_codec : ℕ → A → FdCodec snk src (Option A)
  optional_fd_codec uninit fresh = record {
    write = write_optional_fd put writer write;
    read = read_optional_fd get reader uninit read fresh;
    wire = optional_bytes;
    Fits = FitsOptional;
    Into = IntoOptional fresh;
    some_byte = optional_some_byte;
    writes = write_optional_fd-Writes;
    reads = optional-Reads uninit fresh;
  }
