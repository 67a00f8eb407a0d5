-- ===== src/Wire/Descriptors/Failure.antt =====
-- `ContainerWrite` and `ContainerRead` where an entry fails. `ContainerWrite` puts the -1 of the
-- range into a uint64_t.
use lib_dwm.Base.{
  ℕ, ◌+◌, ◌-◌, ◌%◌, ◌^◌, ◌≤◌, ◌<◌, ◌≡◌, refl, ap, ◌∙◌, Bool, true, false, Option, none, some, List,
  ◌++◌, ◌∷◌, [], arith, inr, length, length-append, lt→ltb, true≢false, sym, is_some, or_else,
  if◌then◌else◌, suc, zero,
}
use lib_dwm.Wire.Bytes.{Endian}
use lib_dwm.Wire.Encoded.{write_handle, read_handle, streamed_length}
use lib_dwm.Wire.Encoded.Size.{size_from_value_lem}
use lib_dwm.Wire.Descriptors.{
  FdReader, FdWriter, write_range_fd, write_container_fd, read_container_fd, read_entries_fd,
  transferred, as_uint64, add_uint64_to,
}
use lib_dwm.Wire.Descriptors.RoundTrip.{write_container_fd-counted}

-- Two bytes at least, nine at most.
pub streamed_length_bounds :
    (v : ℕ) → v < 2 ^ 64 → (2 ≤ streamed_length 8 v) × (streamed_length 8 v ≤ 9)
unfolding streamed_length
streamed_length_bounds v h =
    let size = size_from_value_lem 8 v (inr (inr refl)) h in
    (omega (arith, size.some_byte), omega (arith, size.fits))

add_uint64_to-none : (rc : ℕ) → 1 ≤ rc → rc ≤ 9 → add_uint64_to rc (as_uint64 none) ≡ some (rc - 1)
add_uint64_to-none rc pos small =
    let sum : (rc + (2 ^ 64 - 1)) % 2 ^ 64 ≡ rc - 1 = omega arith in
    rw (sum, lt→ltb (rc - 1) (2 ^ 63) (omega arith)) refl

-- If the number of the entries, which is not zero, is on the descriptor and the writer of the
-- range returns -1, ContainerWrite does not return -1: it returns one less than the length of the
-- count, which is positive.
pub write_container_fd-failed :
    {S A : Type 0} (put : List ℕ → S → ℕ × S) (host : Endian) (write : FdWriter S A) (c : List A)
    (s : S) (fd fd' : Option S)
    → 0 < length c
    → length c < 2 ^ 64
    → write_handle put host 8 (length c) (some s) ≡ (some (streamed_length 8 (length c)), fd)
    → write_range_fd write c fd ≡ (none, fd')
    → (write_container_fd put host write c (some s)
        ≡ (some (streamed_length 8 (length c) - 1), fd'))
      × (0 < streamed_length 8 (length c) - 1)
write_container_fd-failed put host write c s fd fd' pos small counted fails =
    let (two, nine) = streamed_length_bounds (length c) small in
    (
      write_container_fd-counted put host write c s fd small counted
          ∙ rw
              (
                lt→ltb 0 (length c) pos,
                fails,
                add_uint64_to-none (streamed_length 8 (length c)) (omega (arith, two)) nine,
              )
              refl,
      omega (arith, two),
    )

-- A loop that goes on under a test, and has failed without it.
unless_none :
    {S A : Type 0} (b : Bool) (x : Option ℕ × List A × Option S) (c : List A) (fd : Option S)
    (n k : ℕ)
    → (x.0 ≡ some n → length x.1 ≡ k)
    → (if b then x else (none, c, fd)).0 ≡ some n
    → length (if b then x else (none, c, fd)).1 ≡ k
unless_none true x c fd n k goes_on h = goes_on h
unless_none false x c fd n k goes_on h = absurd (true≢false (sym (ap is_some h)))

read_entries_fd_complete :
    {S A : Type 0} (read : FdReader S A) (fresh : A) (k rc : ℕ) (done : List A) (fd : Option S)
    (n : ℕ)
    → (read_entries_fd read fresh k rc done fd).0 ≡ some n
    → length (read_entries_fd read fresh k rc done fd).1 ≡ length done + k
unfolding read_entries_fd
read_entries_fd_complete read fresh zero rc done fd n h = omega arith
read_entries_fd_complete read fresh (suc k) rc done fd n h =
    let (m, a, fd') = read fresh fd in
    let more = length-append done (a ∷ []) in
    unless_none (transferred m)
      (read_entries_fd read fresh k (rc + or_else m 0) (done ++ a ∷ []) fd') done fd' n
      (length done + suc k)
      (λ g. omega (
        arith,
        read_entries_fd_complete read fresh k (rc + or_else m 0) (done ++ a ∷ []) fd' n g,
        more,
      ))
      h

-- ContainerRead does not return -1 unless it read as many entries as the number in front says,
-- whatever the descriptor delivers and whatever reads an entry.
pub read_container_fd_complete :
    {S A : Type 0} (get : ℕ → S → List ℕ × S) (host : Endian) (read : FdReader S A) (fresh : A)
    (old : List A) (s : S) (n : ℕ)
    → (read_container_fd get host read fresh old (some s)).0 ≡ some n
    → length (read_container_fd get host read fresh old (some s)).1
      ≡ (read_handle get host 8 (some s)).1
unfolding read_container_fd
read_container_fd_complete get host read fresh old s n h =
    let (got, num, fd) = read_handle get host 8 (some s) in
    unless_none (transferred got) (read_entries_fd read fresh num (or_else got 0) [] fd) [] fd n num
      (λ g. omega (arith, read_entries_fd_complete read fresh num (or_else got 0) [] fd n g)) h
