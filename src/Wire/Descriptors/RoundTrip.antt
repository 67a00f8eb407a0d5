-- ===== src/Wire/Descriptors/RoundTrip.antt =====
-- The templates on a descriptor keep the promise of a codec: what they write, they read back, and
-- the calls return how many bytes that were.
use mathlib.Core.List.{append_assoc, append-nil}
use native.Mathlib.Nat.{mod-eq_of_lt}
use lib_dwm.Base.{
  ℕ, suc, ◌+◌, ◌%◌, ◌^◌, ◌<◌, ◌≡◌, refl, sym, ap, ◌∙◌, Option, some, List, [], ◌∷◌, ◌++◌, arith,
  length, All, inr, ==_iff, lt→ltb, length-append, ltb, if◌then◌else◌,
}
use lib_dwm.Wire.Bytes.{Endian}
use lib_dwm.Wire.Stream.{Source}
use lib_dwm.Wire.Encoded.{write_handle, make_native_endian_write_vector, streamed_length}
use lib_dwm.Wire.Encoded.RoundTrip.{read_handle-written, length-make_native_endian_write_vector}
use lib_dwm.Wire.Descriptors.{
  FdWriter, write_container_fd, read_container_fd, write_range_fd, as_uint64, add_uint64_to,
}
use lib_dwm.Wire.Descriptors.Codec.{Sink, Writes, Reads, FdCodec}
use lib_dwm.Wire.Descriptors.Items.{
  wires, write_entries_fd-Written, read_entries_fd-Holds, length-wires,
}

abbrev pub count_bytes : Endian → ℕ → List ℕ
count_bytes host n = make_native_endian_write_vector host 8 n

pub length-count_bytes :
    (host : Endian) (n : ℕ) → n < 2 ^ 64 → length (count_bytes host n) ≡ streamed_length 8 n
length-count_bytes host n h = length-make_native_endian_write_vector host 8 n (inr (inr refl)) h

pub streamed_length_pos : (w v : ℕ) → 0 < streamed_length w v
unfolding streamed_length
streamed_length_pos w v = omega arith

-- A count that goes to a descriptor that takes it.
pub write_handle-Written :
    {S : Type 0} {put : List ℕ → S → ℕ × S} (snk : Sink put) (host : Endian) (n : ℕ)
    → Writes snk (write_handle put host 8 n) (count_bytes host n)
unfolding write_handle
write_handle-Written snk host n sofar s w =
    let (taken, w') = snk.takes (count_bytes host n) sofar s w in
    (
      _,
      rw (taken, (==_iff (length (count_bytes host n)) (length (count_bytes host n))).1 refl) refl,
      w',
    )

-- The number of bytes of a range, as a uint64_t, added to those of the count.
pub add_uint64_to-some :
    (rc n : ℕ) → 0 < n → rc + n < 2 ^ 63 → add_uint64_to rc (as_uint64 (some n)) ≡ some (rc + n)
add_uint64_to-some rc n pos h =
    let small : n % 2 ^ 64 ≡ n = mod-eq_of_lt (omega (arith, h)) in
    let sum : (rc + n) % 2 ^ 64 ≡ rc + n = mod-eq_of_lt (omega (arith, h)) in
    rw (small, sum, lt→ltb 0 n pos, lt→ltb (rc + n) (2 ^ 63) h) refl

-- Once the count is on the descriptor, the rest is done by the writer of a range.
pub write_container_fd-counted :
    {S A : Type 0} (put : List ℕ → S → ℕ × S) (host : Endian) (write : FdWriter S A) (c : List A)
    (s : S) (fd : Option S)
    → length c < 2 ^ 64
    → write_handle put host 8 (length c) (some s) ≡ (some (streamed_length 8 (length c)), fd)
    → write_container_fd put host write c (some s) ≡ (
        if ltb 0 (length c)
        then (
          add_uint64_to (streamed_length 8 (length c)) (as_uint64 (write_range_fd write c fd).0),
          (write_range_fd write c fd).1,
        )
        else (some (streamed_length 8 (length c)), fd))
unfolding write_container_fd
write_container_fd-counted put host write c s fd small counted =
    rw
      (
        mod-eq_of_lt small,
        counted,
        (==_iff (streamed_length 8 (length c)) (streamed_length 8 (length c))).1 refl,
      )
      refl

module _ {S T A : Type 0} {put : List ℕ → S → ℕ × S} {get : ℕ → T → List ℕ × T} {snk : Sink put}
    {src : Source get} (writer reader : Endian) (C : FdCodec snk src A) where
  open C use {write, read, wire, Fits, Into}

  abbrev pub container_bytes : List A → List ℕ
  container_bytes c = count_bytes writer (length c) ++ wires C c

  -- The number of the bytes fits an ssize_t, and every entry can be written.
  abbrev pub FitsContainer : List A → Type 0
  FitsContainer c = (length (container_bytes c) < 2 ^ 63) × All Fits c

  pub length_small : (c : List A) → FitsContainer c → length c < 2 ^ 64
  length_small c (h, fits) =
      omega
        (arith, length-append (count_bytes writer (length c)) (wires C c), length-wires C c fits, h)

  write_counted :
      (c : List A) (sofar : List ℕ) (s : S)
      → FitsContainer c
      → snk.Written sofar s
      → (s' : S) × (write_handle put writer 8 (length c) (some s)
          ≡ (some (streamed_length 8 (length c)), some s'))
        × snk.Written (sofar ++ count_bytes writer (length c)) s'
  write_counted c sofar s h w =
      let (s', counted, w') = write_handle-Written snk writer (length c) sofar s w in
      (
        s',
        counted
            ∙ ap (λ (n : ℕ). (some n, some s'))
                (length-count_bytes writer (length c) (length_small c h)),
        w',
      )

  pub write_container_fd-Writes :
      (c : List A)
      → FitsContainer c
      → Writes snk (write_container_fd put writer write c) (container_bytes c)
  unfolding write_range_fd
  write_container_fd-Writes [] h sofar s w =
      let (s', counted, w') = write_counted [] sofar s h w in
      (
        s',
        write_container_fd-counted put writer write [] s (some s') (omega arith) counted
            ∙ rw (append-nil (count_bytes writer 0), length-count_bytes writer 0 (omega arith))
                refl,
        rw (append-nil (count_bytes writer 0)) w',
      )
  write_container_fd-Writes (a ∷ es) h sofar s w =
      let n : ℕ = suc (length es) in
      let small : n < 2 ^ 64 = length_small (a ∷ es) h in
      let (s', counted, w') = write_counted (a ∷ es) sofar s h w in
      let (s'', others, w'') = write_entries_fd-Written C (a ∷ es) 0 _ s' h.1 w' in
      let total = length-append (count_bytes writer n) (wires C (a ∷ es)) in
      let size = length-count_bytes writer n small in
      (
        s'',
        write_container_fd-counted put writer write (a ∷ es) s (some s') small counted
            ∙ rw
                (
                  lt→ltb 0 n (omega arith),
                  others,
                  let e : 0 + length (wires C (a ∷ es)) ≡ length (wires C (a ∷ es)) = omega arith in
                      e,
                  add_uint64_to-some (streamed_length 8 n) (length (wires C (a ∷ es)))
                      (omega (arith, length-wires C (a ∷ es) h.1))
                      (omega (arith, h.0, total, size)),
                )
                (ap (λ (k : ℕ). (some k, some s'')) (omega (arith, total, size))),
        rw (append_assoc sofar (count_bytes writer n) (wires C (a ∷ es))) at w'',
      )

  pub read_container_fd-Reads :
      (fresh : A) (c old : List A)
      → FitsContainer c
      → All (λ a. Into a fresh) c
      → Reads src (read_container_fd get reader read fresh old) (container_bytes c) c
  unfolding read_container_fd
  read_container_fd-Reads fresh c old (h, fits) into rest t held =
      let n : ℕ = length c in
      let (got, num, t', left, held') =
        read_handle-written src writer reader 8 n (wires C c ++ rest) t (inr (inr refl))
          (length_small c (h, fits))
          (rw (append_assoc (count_bytes writer n) (wires C c) rest) at held) in
      let (t'', others, held'') =
        read_entries_fd-Holds C fresh c [] (length (count_bytes writer n)) rest t' fits into
          held' in
      let size = length-count_bytes writer n (length_small c (h, fits)) in
      let some_bytes : 0 < length (count_bytes writer n) =
        omega (arith, size, streamed_length_pos 8 n) in
      (
        t'',
        rw (got, num, left, lt→ltb 0 (length (count_bytes writer n)) some_bytes)
            (others
              ∙ ap (λ (k : ℕ). (some k, c, some t''))
                  (sym (length-append (count_bytes writer n) (wires C c)))),
        held'',
      )
