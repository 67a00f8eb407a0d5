-- ===== src/Time/Value64.antt =====
-- classes/src/DwmTimeValue64.cc: a uint64_t of seconds and a uint32_t of microseconds. Arithmetic
-- goes through a uint64_t of microseconds, which wraps.
pub mod Laws
use lib_dwm.Base.{
  ℕ, ◌+◌, ◌-◌, ◌*◌, ◌/◌, ◌%◌, ◌^◌, ◌<◌, Bool, true, false, ◌&&◌, ltb, leb, ◌==◌, if◌then◌else◌,
  Option, none, some, List,
}
use lib_dwm.Wire.Bytes.{Endian}
use lib_dwm.Wire.Stream.{InStream, OutStream}
use lib_dwm.Wire.DescriptorIo.{is_size, read_fd, write_fd}
use lib_dwm.Wire.StreamIo.{read_int, write_int, nread_int, nwrite_int}

pub record TimeValue64 : Type 0 where
  pub secs : ℕ
  pub usecs : ℕ

-- `Set(uint64_t, uint32_t)`.
unfoldable pub set : ℕ → ℕ → TimeValue64
set secs usecs = record { secs = secs; usecs = usecs }

-- `(_secs * 1000000ULL) + _usecs`.
abbrev pub total : TimeValue64 → ℕ
total tv = (tv.secs * 1000000 % 2 ^ 64 + tv.usecs) % 2 ^ 64

-- `_secs = v / 1000000ULL; _usecs = v % 1000000ULL`.
abbrev pub of_total : ℕ → TimeValue64
of_total v = record { secs = v / 1000000; usecs = v % 1000000 }

unfoldable pub less : TimeValue64 → TimeValue64 → Bool
less a b = ltb (total a) (total b)

unfoldable pub less_equal : TimeValue64 → TimeValue64 → Bool
less_equal a b = leb (total a) (total b)

unfoldable pub greater_equal : TimeValue64 → TimeValue64 → Bool
greater_equal a b = leb (total b) (total a)

unfoldable pub same : TimeValue64 → TimeValue64 → Bool
same a b = a.secs == b.secs && a.usecs == b.usecs

-- `operator +=`.
unfoldable pub add : TimeValue64 → TimeValue64 → TimeValue64
add a b = of_total ((total a + total b) % 2 ^ 64)

-- `operator -=`: the two subtractions wrap.
unfoldable pub subtract : TimeValue64 → TimeValue64 → TimeValue64
subtract a b =
    let v = (total a + 2 ^ 64 - b.secs * 1000000 % 2 ^ 64) % 2 ^ 64 in
    of_total ((v + 2 ^ 64 - b.usecs) % 2 ^ 64)

-- `operator *=` and `operator /=`.
unfoldable pub multiply : TimeValue64 → ℕ → TimeValue64
multiply a x = of_total (total a * x % 2 ^ 64)

unfoldable pub divide : TimeValue64 → ℕ → TimeValue64
divide a x = of_total (total a / x)

-- `Read(std::istream &)`.
unfoldable pub read : Endian → InStream → TimeValue64 × InStream
read host is =
    let (secs, is') = read_int host 8 0 is in
    if is'.good
    then (let (usecs, is'') = read_int host 4 0 is' in
        (record { secs = secs; usecs = usecs }, is''))
    else (record { secs = secs; usecs = 0 }, is')

-- `Write(std::ostream &)`.
unfoldable pub write : Endian → TimeValue64 → OutStream → OutStream
write host tv os =
    let os' = write_int host 8 tv.secs os in if os'.good then write_int host 4 tv.usecs os' else os'

-- `NRead(std::istream &)` and `NWrite(std::ostream &)`.
unfoldable pub nread : Endian → InStream → TimeValue64 × InStream
nread host is =
    let (secs, is') = nread_int host 8 0 is in
    if is'.good
    then (let (usecs, is'') = nread_int host 4 0 is' in
        (record { secs = secs; usecs = usecs }, is''))
    else (record { secs = secs; usecs = 0 }, is')

unfoldable pub nwrite : Endian → TimeValue64 → OutStream → OutStream
nwrite host tv os =
    let os' = nwrite_int host 8 tv.secs os in
    if os'.good then nwrite_int host 4 tv.usecs os' else os'

-- `Read(int)` and `Write(int)`.
module _ {S : Type 0} where
  unfoldable pub read_time_fd :
      (ℕ → S → List ℕ × S) → Endian → Option S → Option ℕ × TimeValue64 × Option S
  read_time_fd get host none = (none, record { secs = 0; usecs = 0 }, none)
  read_time_fd get host (some s) =
      let (rc, secs, fd) = read_fd get host 8 0 (some s) in
      if is_size rc 8
      then (let (rc', usecs, fd') = read_fd get host 4 0 fd in
          (
            if is_size rc' 4 then some (8 + 4) else none,
            record { secs = secs; usecs = usecs },
            fd',
          ))
      else (none, record { secs = secs; usecs = 0 }, fd)

  unfoldable pub write_time_fd :
      (List ℕ → S → ℕ × S) → Endian → TimeValue64 → Option S → Option ℕ × Option S
  write_time_fd put host tv none = (none, none)
  write_time_fd put host tv (some s) =
      let (rc, fd) = write_fd put host 8 tv.secs (some s) in
      if is_size rc 8
      then (let (rc', fd') = write_fd put host 4 tv.usecs fd in
          (if is_size rc' 4 then some (8 + 4) else none, fd'))
      else (none, fd)
