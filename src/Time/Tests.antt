-- ===== src/Time/Tests.antt =====
-- The theorems on times at concrete inputs.
use lib_dwm.Base.{◌↔◌, ◌≡◌, refl, true, arith}
use lib_dwm.Time.Interval64.{TimeInterval64, contains_time, overlaps, next_to}
use lib_dwm.Time.Interval64.Overlap.{overlaps_iff}
use lib_dwm.Time.Value64.{greater_equal, less_equal, same, TimeValue64, add}

abbrev noon : TimeValue64
noon = record { secs = 43200; usecs = 900000 }

abbrev half_hour : TimeValue64
half_hour = record { secs = 1800; usecs = 200000 }

carried : add noon half_hour ≡ record { secs = 45001; usecs = 100000 }
unfolding add
carried = refl

abbrev morning : TimeInterval64
morning = record { start = half_hour; end = noon }

abbrev at_noon : TimeInterval64
at_noon = record { start = noon; end = noon }

overlaps_iff_example :
    ((overlaps morning at_noon ≡ true)
      ↔ ((t : TimeValue64) × (contains_time morning t ≡ true) × (contains_time at_noon t ≡ true)))
    × (overlaps at_noon morning ≡ overlaps morning at_noon)
overlaps_iff_example = overlaps_iff morning at_noon (omega arith) (omega arith)

-- Intervals that share an end overlap, and are adjacent too.
shared_end : (overlaps morning at_noon ≡ true) × (next_to morning at_noon ≡ true)
unfolding overlaps contains_time greater_equal less_equal next_to same
shared_end = (refl, refl)
