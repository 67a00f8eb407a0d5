-- ===== src/Time/Interval64/Overlap.antt =====
-- When intervals overlap and contain one another.
use native.Mathlib.Decide.{dec_lt}
use native.Mathlib.Nat.{le_refl, le_trans}
use lib_dwm.Base.{
  ℕ, ◌≤◌, ◌≡◌, ◌↔◌, le_of_not_lt, sym, ◌∙◌, Bool, true, leb→le, le→leb, arith, ◌&&◌, ◌||◌, leb,
}
use lib_dwm.Time.Value64.{TimeValue64, total, greater_equal, less_equal}
use lib_dwm.Time.Interval64.{TimeInterval64, contains_time, contains_interval, overlaps}

-- The end is not before the start, which the constructor asserts.
abbrev pub IsOrdered : TimeInterval64 → Type 0
IsOrdered ti = total ti.start ≤ total ti.end

contains_numbers_iff : (s e t : ℕ) → (leb s t && leb t e ≡ true) ↔ ((s ≤ t) × (t ≤ e))
contains_numbers_iff s e t = ground arith

common :
    (s e s' e' : ℕ)
    → s ≤ e
    → s' ≤ e'
    → (leb s s' && leb s' e
        || (leb s e' && leb e' e || (leb s' s && leb s e' || leb s' e && leb e e')))
      ≡ (leb s e' && leb s' e)
common s e s' e' h h' = ground arith

-- A time is in an interval just if it is between the ends.
contains_time_iff :
    (a : TimeInterval64) (t : TimeValue64)
    → (contains_time a t ≡ true) ↔ ((total a.start ≤ total t) × (total t ≤ total a.end))
unfolding contains_time greater_equal less_equal
contains_time_iff a t = contains_numbers_iff (total a.start) (total a.end) (total t)

both_iff : (x y : Bool) → (x && y ≡ true) ↔ ((x ≡ true) × (y ≡ true))
both_iff x y = ground arith

overlaps_lem :
    (a b : TimeInterval64)
    → IsOrdered a
    → IsOrdered b
    → overlaps a b ≡ (leb (total a.start) (total b.end) && leb (total b.start) (total a.end))
unfolding overlaps contains_time greater_equal less_equal
overlaps_lem a b ha hb = common (total a.start) (total a.end) (total b.start) (total b.end) ha hb

-- If the intervals reach to one another, the later start is in both.
later_start :
    (a b : TimeInterval64)
    → IsOrdered a
    → IsOrdered b
    → total a.start ≤ total b.end
    → total b.start ≤ total a.end
    → (t : TimeValue64) × (contains_time a t ≡ true) × (contains_time b t ≡ true)
later_start a b ha hb h h' = elim (dec_lt (total a.start) (total b.start)) [
  | yes k ↦ (
    b.start,
    (contains_time_iff a _).1 (omega arith, h'),
    (contains_time_iff b _).1 (le_refl _, hb),
  )
  | no k ↦ (
    a.start,
    (contains_time_iff a _).1 (le_refl _, ha),
    (contains_time_iff b _).1 (le_of_not_lt k, h),
  )
]

-- Two intervals whose ends are not before their starts overlap just if a time is in both, and
-- it does not matter which of the two is asked.
pub overlaps_iff :
    (a b : TimeInterval64)
    → IsOrdered a
    → IsOrdered b
    → ((overlaps a b ≡ true)
        ↔ ((t : TimeValue64) × (contains_time a t ≡ true) × (contains_time b t ≡ true)))
      × (overlaps b a ≡ overlaps a b)
overlaps_iff a b ha hb = (
  (
    λ o.
        let (l, r) = (both_iff _ _).0 (sym (overlaps_lem a b ha hb) ∙ o) in
        later_start a b ha hb (leb→le _ _ l) (leb→le _ _ r),
    λ (t, in_a, in_b).
        let (l, r) = (contains_time_iff a t).0 in_a in
        let (l', r') = (contains_time_iff b t).0 in_b in
        overlaps_lem a b ha hb
        ∙ (both_iff _ _).1 (le→leb _ _ (le_trans l r'), le→leb _ _ (le_trans l' r)),
  ),
  rw (overlaps_lem a b ha hb, overlaps_lem b a hb ha) (ground arith),
)

-- An interval contains another one whose end is not before its start just if it contains every
-- time that the other one contains.
pub contains_interval_iff :
    (a b : TimeInterval64)
    → IsOrdered b
    → (contains_interval a b ≡ true)
      ↔ ((t : TimeValue64) → contains_time b t ≡ true → contains_time a t ≡ true)
unfolding contains_interval
contains_interval_iff a b hb = (
  λ c t h.
      let (first, second) = (both_iff _ _).0 c in
      let (l, _) = (contains_time_iff a b.start).0 first in
      let (_, r) = (contains_time_iff a b.end).0 second in
      let (l', r') = (contains_time_iff b t).0 h in
      (contains_time_iff a t).1 (le_trans l l', le_trans r' r),
  λ all. (both_iff _ _).1 (
    all b.start ((contains_time_iff b b.start).1 (le_refl _, hb)),
    all b.end ((contains_time_iff b b.end).1 (hb, le_refl _)),
  ),
)
