-- ===== src/Time/Value64/Laws.antt =====
-- The arithmetic of times, and their round trip over the wire.
use lib_dwm.Base.{
  some, ℕ, ◌+◌, ◌*◌, ◌%◌, ◌^◌, ◌<◌, ◌≡◌, refl, true, false, arith, List, ◌++◌, ltb_of_le,
}
use lib_dwm.Wire.Bytes.{Endian, to_bytes}
use lib_dwm.Wire.Stream.{write_bytes, Source}
use lib_dwm.Wire.DescriptorIo.{read_fd-written}
use lib_dwm.Wire.StreamIo.{read_int-written, write_int_lem, network_bytes}
use lib_dwm.Time.Value64.{TimeValue64, total, of_total, add, less, read, write, read_time_fd}

-- The fields fit their types.
pub record IsTime (tv : TimeValue64) : Type 0 where
  pub secs_fit : tv.secs < 2 ^ 64
  pub usecs_fit : tv.usecs < 2 ^ 32

total-of_total : (v : ℕ) → v < 2 ^ 64 → total (of_total v) ≡ v
total-of_total v h = omega arith

-- Where the sum of the microseconds fits into 64 bits, addition is exact, and the sum is not less
-- than either time.
pub add-exact :
    (a b : TimeValue64)
    → a.secs * 1000000 + a.usecs + (b.secs * 1000000 + b.usecs) < 2 ^ 64
    → ((add a b).secs * 1000000 + (add a b).usecs
        ≡ a.secs * 1000000 + a.usecs + (b.secs * 1000000 + b.usecs))
      × (less (add a b) a ≡ false)
      × (less (add a b) b ≡ false)
unfolding add less
add-exact a b h =
    let sum : (total a + total b) % 2 ^ 64 ≡ total a + total b = omega arith in
    (
      omega arith,
      ltb_of_le _ _
          (rw (total-of_total ((total a + total b) % 2 ^ 64) (omega arith), sum) (omega arith)),
      ltb_of_le _ _
          (rw (total-of_total ((total a + total b) % 2 ^ 64) (omega arith), sum) (omega arith)),
    )

-- For a time whose fields fit their types: `Write` puts both in network byte order, and `Read` on a host of either byte order gets
-- the time back and leaves the characters that follow.
pub read-write :
    (writer reader : Endian) (tv : TimeValue64) (before rest : List ℕ)
    → IsTime tv
    → (write writer tv (record { written = before; good = true }) ≡ record {
      written = (before ++ network_bytes 8 tv.secs) ++ network_bytes 4 tv.usecs;
      good = true;
    })
      × (read reader (record {
        rest = network_bytes 8 tv.secs ++ network_bytes 4 tv.usecs ++ rest;
        good = true;
      })
          ≡ (tv, record { rest = rest; good = true }))
unfolding write read write_bytes to_bytes
read-write writer reader tv before rest h = (
  rw (write, write_int_lem writer 8 tv.secs _, write_int_lem writer 4 tv.usecs _) refl,
  rw
      (
        read,
        read_int-written reader 8 tv.secs 0 (network_bytes 4 tv.usecs ++ rest) h.secs_fit,
        read_int-written reader 4 tv.usecs 0 rest h.usecs_fit,
      )
      refl,
)

module _ {S : Type 0} {get : ℕ → S → List ℕ × S} (src : Source get) where
  -- For a time whose fields fit their types: `Read` from a descriptor on which both stand in network byte order returns the twelve
  -- bytes read, sets the time, and leaves the bytes that follow.
  pub read_time_fd-written :
      (host : Endian) (tv : TimeValue64) (rest : List ℕ) (s : S)
      → IsTime tv
      → src.Holds (network_bytes 8 tv.secs ++ (network_bytes 4 tv.usecs ++ rest)) s
      → (s' : S) × (read_time_fd get host (some s) ≡ (some 12, tv, some s')) × src.Holds rest s'
  unfolding read_time_fd
  read_time_fd-written host tv rest s h e =
      let (s', first, held) =
        read_fd-written src host 8 tv.secs 0 (network_bytes 4 tv.usecs ++ rest) s h.secs_fit e in
      let (s'', second, held') = read_fd-written src host 4 tv.usecs 0 rest s' h.usecs_fit held in
      (s'', rw (first, second) refl, held')
