-- ===== src/Wire/DescriptorIo.antt =====
-- classes/include/DwmDescriptorIO.hh: unsigned integers on a file descriptor, which may be
-- invalid. The calls of the system are parameters; -1 is `none`, and a call that fails transfers
-- nothing.
use lib_dwm.Base.{
  ℕ, ◌^◌, ◌<◌, ◌≡◌, refl, sym, ◌∙◌, Bool, false, Option, none, some, List, ◌++◌, length, ◌==◌,
  if◌then◌else◌, ==_iff,
}
use lib_dwm.Wire.Bytes.{Endian, load, store, be2host, host2be}
use lib_dwm.Wire.Stream.{Source, get_first}
use lib_dwm.Wire.Encoded.{overlay}
use lib_dwm.Wire.StreamIo.{
  network_bytes, length-network_bytes, overlay_all, length-store, be2host-load,
}

-- A test such as `NRead(fd, val) == sizeof(val)`.
abbrev pub is_size : Option ℕ → ℕ → Bool
is_size none w = false
is_size (some n) w = n == w

module _ {S : Type 0} where
  -- `NRead(int, uint64_t &)`.
  unfoldable pub nread_fd :
      (ℕ → S → List ℕ × S) → Endian → ℕ → ℕ → Option S → Option ℕ × ℕ × Option S
  nread_fd get host w old none = (none, old, none)
  nread_fd get host w old (some s) =
      let (bs, s') = get w s in
      (some (length bs), load host (overlay (store host w old) bs), some s')

  -- `Read(int, uint64_t &)`.
  unfoldable pub read_fd :
      (ℕ → S → List ℕ × S) → Endian → ℕ → ℕ → Option S → Option ℕ × ℕ × Option S
  unfolding nread_fd
  read_fd get host w old fd =
      let (rc, val, fd') = nread_fd get host w old fd in
      if is_size rc w then (some w, be2host host w val, fd') else (none, val, fd')

  -- `NWrite(int, uint64_t)` and `Write(int, uint64_t)`.
  unfoldable pub nwrite_fd : (List ℕ → S → ℕ × S) → Endian → ℕ → ℕ → Option S → Option ℕ × Option S
  nwrite_fd put host w v none = (none, none)
  nwrite_fd put host w v (some s) =
      let (taken, s') = put (store host w v) s in (some taken, some s')

  unfoldable pub write_fd : (List ℕ → S → ℕ × S) → Endian → ℕ → ℕ → Option S → Option ℕ × Option S
  unfolding nwrite_fd
  write_fd put host w v fd = nwrite_fd put host w (host2be host w v) fd

module _ {S : Type 0} {get : ℕ → S → List ℕ × S} (src : Source get) where
  -- An integer that stands next on the descriptor in network byte order is read.
  pub read_fd-written :
      (host : Endian) (w v old : ℕ) (rest : List ℕ) (s : S)
      → v < 256 ^ w
      → src.Holds (network_bytes w v ++ rest) s
      → (s' : S) × (read_fd get host w old (some s) ≡ (some w, v, some s')) × src.Holds rest s'
  unfolding read_fd nread_fd
  read_fd-written host w v old rest s h e =
      let (got, left) =
        rw (length-network_bytes w v) at (get_first src s (network_bytes w v) rest e) in
      (
        (get w s).1,
        rw
            (
              got,
              length-network_bytes w v,
              (==_iff w w).1 refl,
              overlay_all (store host w old) (network_bytes w v)
                  (length-store host w old ∙ sym (length-network_bytes w v)),
              be2host-load host w v h,
            )
            refl,
        left,
      )
