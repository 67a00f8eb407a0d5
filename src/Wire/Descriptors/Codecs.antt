-- ===== src/Wire/Descriptors/Codecs.antt =====
-- Codecs for a descriptor: integers and strings.
use mathlib.Core.List.{append_assoc, append-nil}
use native.Mathlib.Nat.{mod-eq_of_lt}
use lib_dwm.Base.{
  ℕ, ◌-◌, suc, ◌^◌, ◌≤◌, ◌<◌, ◌≡◌, refl, sym, ap, ◌∙◌, some, List, [], ◌∷◌, ◌++◌, arith, length,
  inr, ==_iff, lt→ltb, le→leb, length-append,
}
use lib_dwm.Wire.Bytes.{Endian}
use lib_dwm.Wire.Stream.{Source, get_first}
use lib_dwm.Wire.Encoded.{read_handle}
use lib_dwm.Wire.Encoded.RoundTrip.{read_handle-written}
use lib_dwm.Wire.StreamIo.{network_bytes, length-network_bytes, store-host2be}
use lib_dwm.Wire.DescriptorIo.{write_fd, read_fd, nwrite_fd, read_fd-written}
use lib_dwm.Wire.Descriptors.{
  write_string_fd, read_string_fd, write_characters_fd, read_characters_fd, write_rounds,
  read_rounds,
}
use lib_dwm.Wire.Descriptors.Codec.{Sink, Writes, Reads, FdCodec}
use lib_dwm.Wire.Descriptors.RoundTrip.{count_bytes, length-count_bytes, write_handle-Written}
use lib_dwm.Wire.Descriptors.Failure.{streamed_length_bounds}

-- A call that takes all bytes ends the loop.
write_rounds_once :
    {S : Type 0} (put : List ℕ → S → ℕ × S) (host : Endian) (fuel : ℕ) (bs : List ℕ) (s : S)
    → 0 < length bs
    → (put bs s).0 ≡ length bs
    → write_rounds put host (suc fuel) (length bs) 0 bs s ≡ (length bs, (put bs s).1)
unfolding write_rounds
write_rounds_once put host fuel bs s pos taken =
    rw (taken, lt→ltb 0 (length bs) pos, (==_iff (length bs) (length bs)).1 refl) refl

-- A call that delivers all bytes ends the loop.
read_rounds_once :
    {T : Type 0} (get : ℕ → T → List ℕ × T) (host : Endian) (fuel : ℕ) (bs : List ℕ) (t : T)
    → 0 < length bs
    → (get (length bs) t).0 ≡ bs
    → read_rounds get host (suc fuel) (length bs) [] t ≡ (bs, (get (length bs) t).1)
unfolding read_rounds
read_rounds_once get host fuel bs t pos got =
    rw
      (
        let e : length bs - 0 ≡ length bs = omega arith in e,
        got,
        lt→ltb 0 (length bs) pos,
        (==_iff (length bs) (length bs)).1 refl,
      )
      refl

module _ {S T : Type 0} {put : List ℕ → S → ℕ × S} {get : ℕ → T → List ℕ × T} (snk : Sink put)
    (src : Source get) (writer reader : Endian) where
  pub write_fd-Writes : (w v : ℕ) → Writes snk (write_fd put writer w v) (network_bytes w v)
  unfolding write_fd nwrite_fd
  write_fd-Writes w v sofar s written =
      let (taken, written') = snk.takes (network_bytes w v) sofar s written in
      (_, rw (store-host2be writer w v, taken) refl, written')

  pub read_fd-Reads :
      (w v old : ℕ) → v < 256 ^ w → Reads src (read_fd get reader w old) (network_bytes w v) v
  read_fd-Reads w v old h rest t held =
      let (t', got, left) = read_fd-written src reader w v old rest t h held in
      (t', got ∙ ap (λ (n : ℕ). (some n, v, some t')) (sym (length-network_bytes w v)), left)

  -- Integers of `w` bytes.
  abbrev pub int_fd_codec : (w : ℕ) → 0 < w → FdCodec snk src ℕ
  int_fd_codec w pos = record {
    write = write_fd put writer w;
    read = read_fd get reader w;
    wire = network_bytes w;
    Fits = λ v. v < 256 ^ w;
    Into = λ v old. Unit {0};
    some_byte = λ v h. omega (arith, pos, length-network_bytes w v);
    writes = λ v h. write_fd-Writes w v;
    reads = λ v old h i. read_fd-Reads w v old h;
  }

  abbrev pub string_fd_bytes : List ℕ → List ℕ
  string_fd_bytes s = count_bytes writer (length s) ++ s

  pub two_bytes : (n : ℕ) → n < 2 ^ 64 → 1 < length (count_bytes writer n)
  two_bytes n h = omega (arith, (streamed_length_bounds n h).0, length-count_bytes writer n h)

  pub write_string_fd-Writes :
      (cs : List ℕ)
      → length cs < 2 ^ 64
      → Writes snk (write_string_fd put writer cs) (string_fd_bytes cs)
  unfolding write_string_fd write_characters_fd
  write_string_fd-Writes [] h sofar s w =
      let (s', counted, w') = write_handle-Written snk writer 0 sofar s w in
      (
        s',
        rw
            (
              counted,
              lt→ltb 1 (length (count_bytes writer 0)) (two_bytes 0 h),
              append-nil (count_bytes writer 0),
            )
            refl,
        rw (append-nil (count_bytes writer 0)) w',
      )
  write_string_fd-Writes (c ∷ cs) h sofar s w =
      let n : ℕ = suc (length cs) in
      let (s', counted, w') = write_handle-Written snk writer n sofar s w in
      let (taken, w'') = snk.takes (c ∷ cs) (sofar ++ count_bytes writer n) s' w' in
      (
        _,
        rw
            (
              mod-eq_of_lt h,
              counted,
              lt→ltb 1 (length (count_bytes writer n)) (two_bytes n h),
              lt→ltb 0 n (omega arith),
              write_rounds_once put writer (length cs) (c ∷ cs) s' (omega arith) taken,
              (==_iff n n).1 refl,
            )
            (ap (λ (k : ℕ). (some k, some (put (c ∷ cs) s').1))
              (sym (length-append (count_bytes writer n) (c ∷ cs)))),
        rw (append_assoc sofar (count_bytes writer n) (c ∷ cs)) at w'',
      )

  -- A count that is next on the descriptor, in front of `bs`.
  pub read_count :
      (n : ℕ) (bs rest : List ℕ) (t : T)
      → n < 2 ^ 64
      → src.Holds ((count_bytes writer n ++ bs) ++ rest) t
      → ((read_handle get reader 8 (some t)).0 ≡ some (length (count_bytes writer n)))
        × ((read_handle get reader 8 (some t)).1 ≡ n)
        × (t' : T) × ((read_handle get reader 8 (some t)).2 ≡ some t')
        × src.Holds (bs ++ rest) t'
  read_count n bs rest t h held =
      read_handle-written src writer reader 8 n (bs ++ rest) t (inr (inr refl)) h
        (rw (append_assoc (count_bytes writer n) bs rest) at held)

  pub read_string_fd-Reads :
      (max_size : ℕ) (cs old : List ℕ)
      → length cs < 2 ^ 64
      → length cs ≤ max_size
      → Reads src (read_string_fd get reader max_size old) (string_fd_bytes cs) cs
  unfolding read_string_fd read_characters_fd
  read_string_fd-Reads max_size [] old h fits rest t held =
      let (got, num, t', at_, left) = read_count 0 [] rest t h held in
      (
        t',
        rw
            (
              got,
              num,
              at_,
              lt→ltb 1 (length (count_bytes writer 0)) (two_bytes 0 h),
              append-nil (count_bytes writer 0),
            )
            refl,
        left,
      )
  read_string_fd-Reads max_size (c ∷ cs) old h fits rest t held =
      let n : ℕ = suc (length cs) in
      let (got, num, t', at_, left) = read_count n (c ∷ cs) rest t h held in
      let (taken, left') = get_first src t' (c ∷ cs) rest left in
      (
        (get n t').1,
        rw
            (
              got,
              num,
              at_,
              lt→ltb 1 (length (count_bytes writer n)) (two_bytes n h),
              lt→ltb 0 n (omega arith),
              le→leb n max_size fits,
              read_rounds_once get reader (length cs) (c ∷ cs) t' (omega arith) taken,
              (==_iff n n).1 refl,
            )
            (ap (λ (k : ℕ). (some k, c ∷ cs, some (get n t').1))
              (sym (length-append (count_bytes writer n) (c ∷ cs)))),
        left',
      )

  -- Strings that the standard library can hold.
  abbrev pub string_fd_codec : ℕ → FdCodec snk src (List ℕ)
  string_fd_codec max_size = record {
    write = write_string_fd put writer;
    read = read_string_fd get reader max_size;
    wire = string_fd_bytes;
    Fits = λ s. (length s < 2 ^ 64) × (length s ≤ max_size);
    Into = λ s old. Unit {0};
    some_byte = λ s h.
        omega (arith, two_bytes (length s) h.0, length-append (count_bytes writer (length s)) s);
    writes = λ s h. write_string_fd-Writes s h.0;
    reads = λ s old h i. read_string_fd-Reads max_size s old h.0 h.1;
  }
