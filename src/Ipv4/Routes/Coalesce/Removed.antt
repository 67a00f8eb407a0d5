-- ===== src/Ipv4/Routes/Coalesce/Removed.antt =====
-- The second half of Coalesce as it asks HaveWiderMatch.
use lib_dwm.Base.{
  ℕ, zero, suc, ◌-◌, ◌≤◌, ◌<◌, ◌≡◌, refl, ap, ◌∙◌, Bool, true, false, Option, none, some, List, [],
  ◌∷◌, if◌then◌else◌, ltb, leb, ◌==◌, ==_iff, ◌&&◌, Bool-cases, inl, inr, arith, ltb→lt,
}
use lib_dwm.Base.Assoc.{lookup, IsMap}
use lib_dwm.Ipv4.Prefix.{Ipv4Prefix}
use lib_dwm.Ipv4.Routes.{Routes, update}
use lib_dwm.Ipv4.Routes.Laws.{view, AreMaps, update-AreMaps}
use lib_dwm.Ipv4.Routes.Coalesce.{wider_from, have_wider_match, uncovered, remove_covered}

-- The masks from i down to 1, and one more.
beyond : (i m : ℕ) → suc i ≡ m → (ltb 0 m && leb m i) ≡ false
beyond i m e = ground arith

reached : (i m : ℕ) → suc i ≡ m → (ltb 0 m && leb m (suc i)) ≡ true
reached i m e = ground arith

same_range :
    (i m : ℕ)
    → (suc i == m) ≡ false
    → (ltb 0 m && leb m i) ≡ true
    → (ltb 0 m && leb m (suc i)) ≡ true
same_range i m e c = ground arith

outside_range :
    (i m : ℕ)
    → (suc i == m) ≡ false
    → (ltb 0 m && leb m i) ≡ false
    → (ltb 0 m && leb m (suc i)) ≡ false
outside_range i m e c = ground arith

within : (i m : ℕ) → (ltb 0 m && leb m i) ≡ true → m ≤ suc i
within i m c = ground arith

module _ {V : Type 0} (eq : V → V → Bool) where
  -- An entry that is left is one that has no wider match of an equal value.
  abbrev pub unless_covered : Routes V → ℕ → ℕ → Option V → Option V
  unless_covered r len a none = none
  unless_covered r len a (some v) = if have_wider_match eq r a len v then none else some v

  lookup-uncovered :
      (r : Routes V) (len k : ℕ) (es : List (ℕ × V))
      → IsMap es
      → lookup k (uncovered eq r len es) ≡ unless_covered r len k (lookup k es)
  unfolding lookup uncovered
  lookup-uncovered r len k [] h = refl
  lookup-uncovered r len k ((a, v) ∷ es) (fresh, h) =
      let rest = lookup-uncovered r len k es h in
      elim (Bool-cases (a == k)) [
        | inl e ↦
            let at : a ≡ k = (==_iff a k).0 e in
            let none_behind : lookup k es ≡ none = rw at at fresh in
            elim (Bool-cases (have_wider_match eq r a len v)) [
              | inl c ↦ rw (c, e, rest, none_behind, rw at at c) refl
              | inr c ↦ rw (c, e, rw at at c) refl
            ]
        | inr e ↦ elim (Bool-cases (have_wider_match eq r a len v)) [
          | inl c ↦ rw (c, e) rest
          | inr c ↦ rw (c, e) rest
        ]
      ]

  other : (i n : ℕ) → suc n < i → (i == suc n) ≡ false
  other i n lt = ground arith

  -- The search for a wider match looks at the shorter masks only.
  wider_from-update :
      (n i : ℕ) (r : Routes V) (es : List (ℕ × V)) (addr : ℕ) (v : V)
      → n < i
      → wider_from eq n (update r i es) addr v ≡ wider_from eq n r addr v
  unfolding wider_from update
  wider_from-update zero i r es addr v lt = refl
  wider_from-update (suc n) i r es addr v lt =
      rw (wider_from-update n i r es addr v (omega arith), other i n lt) refl

  have_wider_match-update :
      (i : ℕ) (r : Routes V) (es : List (ℕ × V)) (addr len : ℕ) (v : V)
      → len ≤ i
      → have_wider_match eq (update r i es) addr len v ≡ have_wider_match eq r addr len v
  unfolding have_wider_match
  have_wider_match-update i r es addr len v le = elim (Bool-cases (ltb 0 len)) [
    | inl e ↦
        rw (e, wider_from-update (len - 1) i r es addr v (omega (arith, le, ltb→lt 0 len e))) refl
    | inr e ↦ rw e refl
  ]

  unless_covered-update :
      (i : ℕ) (r : Routes V) (es : List (ℕ × V)) (len a : ℕ) (o : Option V)
      → len ≤ i
      → unless_covered (update r i es) len a o ≡ unless_covered r len a o
  unless_covered-update i r es len a none le = refl
  unless_covered-update i r es len a (some v) le =
      rw (have_wider_match-update i r es a len v le) refl

  uncovered-IsMap :
      (r : Routes V) (len : ℕ) (es : List (ℕ × V)) → IsMap es → IsMap (uncovered eq r len es)
  unfolding uncovered
  uncovered-IsMap r len [] h = tt
  uncovered-IsMap r len ((a, v) ∷ es) (fresh, h) =
      elim (Bool-cases (have_wider_match eq r a len v)) [
        | inl c ↦ rw c (uncovered-IsMap r len es h)
        | inr c ↦ rw c (lookup-uncovered r len a es h ∙ rw fresh refl, uncovered-IsMap r len es h)
      ]

  view-update :
      (r : Routes V) (i : ℕ) (es : List (ℕ × V)) (p : Ipv4Prefix)
      → view (update r i es) p ≡ (if i == p.mask_length then lookup p.network es else view r p)
  unfolding update
  view-update r i es p = ground arith

  -- The second half of Coalesce asks HaveWiderMatch for the masks from n down to 1.
  pub remove_covered_lem :
      (n : ℕ) (r : Routes V) (p : Ipv4Prefix)
      → AreMaps r
      → view (remove_covered eq n r) p ≡ (
          if ltb 0 p.mask_length && leb p.mask_length n
          then unless_covered r p.mask_length p.network (view r p)
          else view r p)
  unfolding remove_covered
  remove_covered_lem zero r p h = ground arith
  remove_covered_lem (suc i) r p h =
      let es : List (ℕ × V) = uncovered eq r (suc i) (r.hash_maps (suc i)) in
      let r' : Routes V = update r (suc i) es in
      let rest =
        remove_covered_lem i r' p
          (update-AreMaps r (suc i) es h (uncovered-IsMap r (suc i) _ (h (suc i)))) in
      let now = view-update r (suc i) es p in
      let there = lookup-uncovered r (suc i) p.network (r.hash_maps (suc i)) (h (suc i)) in
      elim (Bool-cases (suc i == p.mask_length)) [
        | inl e ↦
            let at : suc i ≡ p.mask_length = (==_iff (suc i) p.mask_length).0 e in
            rest
            ∙ rw (beyond i p.mask_length at, reached i p.mask_length at, now, e)
                (there
                  ∙ ap (λ (j : ℕ). unless_covered r j p.network (lookup p.network (r.hash_maps j)))
                      at)
        | inr e ↦ elim (Bool-cases (ltb 0 p.mask_length && leb p.mask_length i)) [
          | inl c ↦
              rest
              ∙ rw (c, same_range i p.mask_length e c, now, e)
                  (unless_covered-update (suc i) r es p.mask_length p.network (view r p)
                    (within i p.mask_length c))
          | inr c ↦ rest ∙ rw (c, outside_range i p.mask_length e c, now, e) refl
        ]
      ]
