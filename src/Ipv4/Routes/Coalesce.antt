-- ===== src/Ipv4/Routes/Coalesce.antt =====
-- Coalescing and counting, classes/include/DwmIpv4Routes.hh. An iterator over a hash map is the
-- list of the entries still to come. `eq` is the predicate on values.
pub mod Removed
pub mod Covered
use lib_dwm.Base.{
  ℕ, zero, suc, ◌+◌, ◌-◌, ◌%◌, ◌^◌, Bool, true, false, Option, none, some, List, [], ◌∷◌, ◌++◌, map,
  if◌then◌else◌, length, ltb, is_some, not, ◌&&◌,
}
use lib_dwm.Base.Assoc.{lookup, assign, forget}
use lib_dwm.Ipv4.Prefix.{Ipv4Prefix, make, broadcast, increment_prefix, combine}
use lib_dwm.Ipv4.Routes.{Routes, update}

module _ {V : Type 0} where
  -- Whether the value found, if there is one, goes with another.
  abbrev pub agrees : (V → V → Bool) → Option V → V → Bool
  agrees eq none v = false
  agrees eq (some w) v = eq w v

  -- The loop of `HaveWiderMatch`, down to mask length 1.
  unfoldable pub wider_from : (V → V → Bool) → ℕ → Routes V → ℕ → V → Bool
  wider_from eq zero r addr val = false
  wider_from eq (suc i) r addr val =
      let rest = wider_from eq i r addr val in
      if agrees eq (lookup (make broadcast addr (suc i)).network (r.hash_maps (suc i))) val
      then true
      else rest

  -- `HaveWiderMatch`.
  unfoldable pub have_wider_match : (V → V → Bool) → Routes V → ℕ → ℕ → V → Bool
  have_wider_match eq r addr len val =
      if ltb 0 len then wider_from eq (len - 1) r addr val else false

  -- The inner loop of the second half of `Coalesce`.
  unfoldable pub uncovered : (V → V → Bool) → Routes V → ℕ → List (ℕ × V) → List (ℕ × V)
  uncovered eq r len [] = []
  uncovered eq r len ((a, v) ∷ es) =
      let rest = uncovered eq r len es in
      if have_wider_match eq r a len v then rest else (a, v) ∷ rest

  -- The second half of `Coalesce`, from a mask length down to 1.
  unfoldable pub remove_covered : (V → V → Bool) → ℕ → Routes V → Routes V
  remove_covered eq zero r = r
  remove_covered eq (suc i) r =
      remove_covered eq i (update r (suc i) (uncovered eq r (suc i) (r.hash_maps (suc i))))

  -- Both entries of a pair go, and the wider one takes the value.
  abbrev merge : Routes V → ℕ → ℕ → ℕ → ℕ → V → Routes V
  merge r len a next wider v =
      let r' = update r len (forget a (forget next (r.hash_maps len))) in
      update r' (len - 1) (assign wider v (r'.hash_maps (len - 1)))

  -- The inner loop of the first half of `Coalesce`, with fuel for the entries to come. Where a
  -- prefix ends at 255.255.255.255, the next one is the prefix itself, and the source goes on with
  -- an entry it has erased; here the value of that entry is still at hand.
  unfoldable pub combine_entries : (V → V → Bool) → ℕ → ℕ → List (ℕ × V) → Routes V → Routes V
  unfolding make increment_prefix combine
  combine_entries eq zero len todo r = r
  combine_entries eq (suc fuel) len [] r = r
  combine_entries eq (suc fuel) len ((a, v) ∷ todo) r =
      let pfx = make broadcast a len in
      let nextpfx = increment_prefix pfx in
      let combpfx = combine broadcast pfx nextpfx in
      elim (combpfx.0 && agrees (λ w v. eq v w) (lookup nextpfx.network (r.hash_maps len)) v) [
        | true ↦
            combine_entries eq fuel len (forget nextpfx.network todo)
              (merge r len a nextpfx.network combpfx.1.network v)
        | false ↦ combine_entries eq fuel len todo r
      ]

  -- The first half of `Coalesce`, from a mask length down to 1.
  unfoldable pub combine_adjacent : (V → V → Bool) → ℕ → Routes V → Routes V
  combine_adjacent eq zero r = r
  combine_adjacent eq (suc i) r =
      combine_adjacent eq i
        (combine_entries eq (length (r.hash_maps (suc i))) (suc i) (r.hash_maps (suc i)) r)

  -- `Coalesce(pred)`.
  unfoldable pub coalesce : (V → V → Bool) → Routes V → Routes V
  coalesce eq r = remove_covered eq 32 (combine_adjacent eq 32 r)
