-- ===== src/Wire/Descriptors/Pairs.antt =====
-- Pairs on a descriptor.
use mathlib.Core.List.{append_assoc}
use lib_dwm.Base.{ℕ, ◌+◌, ◌≡◌, sym, ap, some, List, ◌++◌, arith, length, lt→ltb, length-append}
use lib_dwm.Wire.Stream.{Source}
use lib_dwm.Wire.Descriptors.{write_pair_fd, read_pair_fd}
use lib_dwm.Wire.Descriptors.Codec.{Sink, Writes, Reads, FdCodec}

module _ {S T A B : Type 0} {put : List ℕ → S → ℕ × S} {get : ℕ → T → List ℕ × T} {snk : Sink put}
    {src : Source get} (C : FdCodec snk src A) (D : FdCodec snk src B) where
  pub pair_length :
      (a : A) (b : B) → length (C.wire a) + length (D.wire b) ≡ length (C.wire a ++ D.wire b)
  pair_length a b = sym (length-append (C.wire a) (D.wire b))

  pub write_pair_fd-Writes :
      (p : A × B)
      → C.Fits p.0 × D.Fits p.1
      → Writes snk (write_pair_fd C.write D.write p) (C.wire p.0 ++ D.wire p.1)
  unfolding write_pair_fd
  write_pair_fd-Writes (a, b) (h, k) sofar s w =
      let (s', first, w') = C.writes a h sofar s w in
      let (s'', second, w'') = D.writes b k (sofar ++ C.wire a) s' w' in
      (
        s'',
        rw
            (
              first,
              second,
              lt→ltb 0 (length (C.wire a)) (C.some_byte a h),
              lt→ltb 0 (length (D.wire b)) (D.some_byte b k),
            )
            (ap (λ (n : ℕ). (some n, some s'')) (pair_length a b)),
        rw (append_assoc sofar (C.wire a) (D.wire b)) at w'',
      )

  pub read_pair_fd-Reads :
      (p old : A × B)
      → C.Fits p.0 × D.Fits p.1
      → C.Into p.0 old.0 × D.Into p.1 old.1
      → Reads src (read_pair_fd C.read D.read old) (C.wire p.0 ++ D.wire p.1) p
  unfolding read_pair_fd
  read_pair_fd-Reads (a, b) (x, y) (h, k) (i, j) rest t held =
      let (t', first, left) =
        C.reads a x h i (D.wire b ++ rest) t
          (rw (append_assoc (C.wire a) (D.wire b) rest) at held) in
      let (t'', second, left') = D.reads b y k j rest t' left in
      (
        t'',
        rw
            (
              first,
              second,
              lt→ltb 0 (length (C.wire a)) (C.some_byte a h),
              lt→ltb 0 (length (D.wire b)) (D.some_byte b k),
            )
            (ap (λ (n : ℕ). (some n, (a, b), some t'')) (pair_length a b)),
        left',
      )

  -- Pairs of what has a codec.
  abbrev pub pair_fd_codec : FdCodec snk src (A × B)
  pair_fd_codec = record {
    write = write_pair_fd C.write D.write;
    read = read_pair_fd C.read D.read;
    wire = λ p. C.wire p.0 ++ D.wire p.1;
    Fits = λ p. C.Fits p.0 × D.Fits p.1;
    Into = λ p old. C.Into p.0 old.0 × D.Into p.1 old.1;
    some_byte = λ p h. omega (arith, pair_length p.0 p.1, C.some_byte p.0 h.0);
    writes = write_pair_fd-Writes;
    reads = read_pair_fd-Reads;
  }
