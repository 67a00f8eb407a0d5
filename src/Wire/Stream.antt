-- ===== src/Wire/Stream.antt =====
-- The streams that the library reads from and writes to. `std::istream::read` and
-- `std::ostream::write` are those of the C++ standard library. A file descriptor, a gzFile or a
-- BZFILE is a state with a call that transfers some bytes; what is behind it is a parameter.
use lib_dwm.Base.{
  ℕ, ◌≤◌, ◌≡◌, refl, ◌∙◌, Bool, true, false, List, [], ◌++◌, arith, length, take, drop, leb,
  if◌then◌else◌, take-append_length, drop-append_length, length-append, le→leb,
}

-- The characters still to come, and whether `if (is)` holds.
pub record InStream : Type 0 where
  pub rest : List ℕ
  pub good : Bool

-- `is.read(p, n)`: the characters stored at `p`. A short read stores what there is and fails.
unfoldable pub read_bytes : ℕ → InStream → List ℕ × InStream
read_bytes n is =
    if is.good
    then (if leb n (length is.rest)
        then (take n is.rest, record { rest = drop n is.rest; good = true })
        else (is.rest, record { rest = []; good = false }))
    else ([], is)

pub record OutStream : Type 0 where
  pub written : List ℕ
  pub good : Bool

-- `os.write(p, n)` on a stream that takes what it is given.
unfoldable pub write_bytes : List ℕ → OutStream → OutStream
write_bytes bs os = if os.good then record os { written = os.written ++ bs } else os

-- What a call to read promises: as many bytes as are asked for, if that many are to come. `Holds`
-- says of a state which bytes are to come.
pub record Source {S : Type 0} (get : ℕ → S → List ℕ × S) : Type 1 where
  pub Holds : List ℕ → S → Type 0
  pub delivers :
      (n : ℕ) (bs : List ℕ) (s : S)
      → Holds bs s
      → n ≤ length bs
      → ((get n s).0 ≡ take n bs) × Holds (drop n bs) (get n s).1

pub read_bytes-delivers :
    (n : ℕ) (bs : List ℕ) (is : InStream)
    → is ≡ record { rest = bs; good = true }
    → n ≤ length bs
    → ((read_bytes n is).0 ≡ take n bs)
      × ((read_bytes n is).1 ≡ record { rest = drop n bs; good = true })
unfolding read_bytes
read_bytes-delivers n bs is e h = rw (e, le→leb n (length bs) h) (refl, refl)

-- An istream in a good state.
abbrev pub stream_source : Source read_bytes
stream_source = record {
  Holds = λ bs is. is ≡ record { rest = bs; good = true };
  delivers = read_bytes-delivers;
}

-- The bytes that stand first are delivered, and the others remain.
pub get_first :
    {S : Type 0} {get : ℕ → S → List ℕ × S} (src : Source get) (s : S) (bs rest : List ℕ)
    → src.Holds (bs ++ rest) s
    → ((get (length bs) s).0 ≡ bs) × src.Holds rest (get (length bs) s).1
get_first src s bs rest h =
    let (got, left) =
      src.delivers (length bs) (bs ++ rest) s h (omega (arith, length-append bs rest)) in
    (got ∙ take-append_length bs rest, rw (drop-append_length bs rest) at left)
