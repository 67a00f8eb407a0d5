-- ===== src/Time/Interval64.antt =====
-- classes/include/DwmTimeInterval64.hh and classes/src/DwmTimeInterval64.cc: two times, of which
-- the constructor asserts that the end is not before the start; the setters do not.
pub mod Overlap
use lib_dwm.Base.{ℕ, Bool, true, false, ◌&&◌, ◌||◌}
use lib_dwm.Wire.Bytes.{Endian}
use lib_dwm.Wire.Stream.{InStream, OutStream}
use lib_dwm.Wire.Containers.{read_pair, write_pair}
use lib_dwm.Time.Value64.{
  TimeValue64, greater_equal, less_equal, same, subtract, read, write, nread, nwrite,
}

-- `TimeInterval64::_data`.
pub record TimeInterval64 : Type 0 where
  pub start : TimeValue64
  pub end : TimeValue64

-- `Start(start)` and `End(end)`.
unfoldable pub set_start : TimeInterval64 → TimeValue64 → TimeInterval64
set_start ti tv = record { start = tv; end = ti.end }

unfoldable pub set_end : TimeInterval64 → TimeValue64 → TimeInterval64
set_end ti tv = record { start = ti.start; end = tv }

-- `operator ==`.
unfoldable pub same_interval : TimeInterval64 → TimeInterval64 → Bool
same_interval a b = same a.start b.start && same a.end b.end

-- `Duration`.
unfoldable pub duration : TimeInterval64 → TimeValue64
duration ti = subtract ti.end ti.start

-- `Contains` of a time and of an interval.
unfoldable pub contains_time : TimeInterval64 → TimeValue64 → Bool
contains_time ti tv = greater_equal tv ti.start && less_equal tv ti.end

unfoldable pub contains_interval : TimeInterval64 → TimeInterval64 → Bool
contains_interval a b = contains_time a b.start && contains_time a b.end

-- `Overlaps`.
unfoldable pub overlaps : TimeInterval64 → TimeInterval64 → Bool
overlaps a b =
    contains_time a b.start
    || (contains_time a b.end || (contains_time b a.start || contains_time b a.end))

-- `Adjacent`.
unfoldable pub next_to : TimeInterval64 → TimeInterval64 → Bool
next_to a b = same b.end a.start || same b.start a.end

-- The pair as an interval.
abbrev of_pair : (TimeValue64 × TimeValue64) × InStream → TimeInterval64 × InStream
of_pair ((s, e), is) = (record { start = s; end = e }, is)

-- `Read(std::istream &)` and `Write(std::ostream &)`.
unfoldable pub read_interval : Endian → TimeInterval64 → InStream → TimeInterval64 × InStream
unfolding read_pair
read_interval host ti is =
    of_pair (read_pair (λ _ s. read host s) (λ _ s. read host s) (ti.start, ti.end) is)

unfoldable pub write_interval : Endian → TimeInterval64 → OutStream → OutStream
unfolding write_pair
write_interval host ti os = write_pair (write host) (write host) (ti.start, ti.end) os
