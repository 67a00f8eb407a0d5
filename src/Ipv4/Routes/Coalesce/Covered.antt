-- ===== src/Ipv4/Routes/Coalesce/Covered.antt =====
-- Which routes the second half of Coalesce removes.
use lib_dwm.Base.{ℕ, ◌-◌, ◌≤◌, ◌<◌, ◌≡◌, Bool, true, some}
use lib_dwm.Base.Assoc.{lookup}
use lib_dwm.Ipv4.Prefix.{Ipv4Prefix, make, broadcast}
use lib_dwm.Ipv4.Routes.{Routes}

module _ {V : Type 0} (eq : V → V → Bool) where
  -- What the search for a wider match finds: an equal value under a shorter mask of at least 1.
  abbrev pub WiderMatch : ℕ → Routes V → ℕ → V → Type 0
  WiderMatch n r addr v =
      (i : ℕ) × (w : V) × (0 < i)
      × (i ≤ n)
      × (lookup (make broadcast addr i).network (r.hash_maps i) ≡ some w)
      × (eq w v ≡ true)

  -- A route that Coalesce looks at down from mask length n, and that has a wider match.
  abbrev pub IsCovered : ℕ → Routes V → Ipv4Prefix → V → Type 0
  IsCovered n r p v = (p.mask_length ≤ n) × WiderMatch (p.mask_length - 1) r p.network v
