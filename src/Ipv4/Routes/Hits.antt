-- ===== src/Ipv4/Routes/Hits.antt =====
-- The searches of the routes walk over the same entries: those of the prefixes of the address,
-- from the longest mask to the shortest.
use lib_dwm.Base.{
  ℕ, zero, suc, ◌^◌, ◌≤◌, ◌<◌, ◌≡◌, refl, sym, ◌∙◌, Bool, true, false, Option, none, some, List, [],
  ◌∷◌, ◌++◌, arith, Bool-cases, Option-cases, inl, inr,
}
use mathlib.Core.List.{append_assoc, append-nil}
use lib_dwm.Base.Assoc.{lookup}
use lib_dwm.Ipv4.Prefix.{Ipv4Prefix, make, broadcast}
use lib_dwm.Ipv4.Prefix.Laws.{make_lem}
use lib_dwm.Ipv4.Routes.{Routes, find_in_sub_map}
use lib_dwm.Ipv4.Routes.Search.{longest_from, join_thread, join_from, matches_from}
use lib_dwm.Ipv4.Routes.Laws.{view, lookup-is_empty}
use lib_dwm.Ipv4.Routes.Shorten.{set_mask_length-make}
use lib_dwm.Patricia.Map.{is_empty_list}

module _ {V : Type 0} where
  abbrev pub add_hit : Option V → Ipv4Prefix → List (Ipv4Prefix × V) → List (Ipv4Prefix × V)
  add_hit none p es = es
  add_hit (some v) p es = (p, v) ∷ es

  -- The entries below a mask length that match an address, the longest first.
  unfoldable pub hits : ℕ → Routes V → ℕ → List (Ipv4Prefix × V)
  hits zero r addr = []
  hits (suc i) r addr =
      add_hit (lookup (make broadcast addr i).network (r.hash_maps i)) (make broadcast addr i)
        (hits i r addr)

  -- A search that takes the first of the entries, or the last, and else leaves its argument.
  abbrev pub first : Ipv4Prefix × V → List (Ipv4Prefix × V) → Bool × (Ipv4Prefix × V)
  first match [] = (false, match)
  first match (e ∷ es) = (true, e)

  abbrev pub last : Bool × (Ipv4Prefix × V) → List (Ipv4Prefix × V) → Bool × (Ipv4Prefix × V)
  last sofar [] = sofar
  last sofar (e ∷ es) = last (true, e) es

  pub matches_from-hits :
      (n : ℕ) (r : Routes V) (addr : ℕ) (acc : List (Ipv4Prefix × V))
      → matches_from n r addr acc ≡ acc ++ hits n r addr
  unfolding matches_from hits
  matches_from-hits zero r addr acc = sym (append-nil acc)
  matches_from-hits (suc i) r addr acc = elim (Bool-cases (is_empty_list (r.hash_maps i))) [
    | inl e ↦
        rw (hits, e, lookup-is_empty (make broadcast addr i).network _ e)
          (matches_from-hits i r addr acc)
    | inr e ↦ elim (Option-cases (lookup (make broadcast addr i).network (r.hash_maps i))) [
      | inl n ↦ rw (e, n) (matches_from-hits i r addr acc)
      | inr (v, n) ↦ rw (e, n) (matches_from-hits i r addr _ ∙ append_assoc acc _ _)
    ]
  ]

  pub join_from-hits :
      (default : V) (n : ℕ) (r : Routes V) (addr : ℕ) (sofar : Bool × (Ipv4Prefix × V))
      → join_from default n r addr sofar ≡ last sofar (hits n r addr)
  unfolding join_from join_thread find_in_sub_map hits
  join_from-hits default zero r addr sofar = refl
  join_from-hits default (suc i) r addr sofar = elim (Bool-cases (is_empty_list (r.hash_maps i))) [
    | inl e ↦
        rw (hits, e, lookup-is_empty (make broadcast addr i).network _ e)
          (join_from-hits default i r addr sofar)
    | inr e ↦ elim (Option-cases (lookup (make broadcast addr i).network (r.hash_maps i))) [
      | inl n ↦ rw (e, find_in_sub_map, n) (join_from-hits default i r addr sofar)
      | inr (v, n) ↦ rw (e, find_in_sub_map, n) (join_from-hits default i r addr _)
    ]
  ]

  pub longest_from-hits :
      (n j : ℕ) (r : Routes V) (addr : ℕ) (match : Ipv4Prefix × V)
      → n ≤ suc j
      → j < 33
      → addr < 2 ^ 32
      → longest_from n r (make broadcast addr j) match ≡ first match (hits n r addr)
  unfolding longest_from hits
  longest_from-hits zero j r addr match le h ha = refl
  longest_from-hits (suc i) j r addr match le h ha =
      elim (Bool-cases (is_empty_list (r.hash_maps i))) [
        | inl e ↦
            rw (longest_from, e, lookup-is_empty (make broadcast addr i).network _ e)
              (longest_from-hits i j r addr match (omega arith) h ha)
        | inr e ↦ elim (Option-cases (lookup (make broadcast addr i).network (r.hash_maps i))) [
          | inl n ↦
              rw
                (
                  longest_from,
                  e,
                  set_mask_length-make addr j i (omega arith) h ha,
                  n,
                  set_mask_length-make addr j i (omega arith) h ha,
                )
                (longest_from-hits i i r addr match (omega arith) (omega arith) ha)
          | inr (v, n) ↦
              rw
                (
                  longest_from,
                  e,
                  set_mask_length-make addr j i (omega arith) h ha,
                  n,
                  set_mask_length-make addr j i (omega arith) h ha,
                )
                refl
        ]
      ]

  pub hits-zero : (r : Routes V) (addr : ℕ) → hits zero r addr ≡ []
  unfolding hits
  hits-zero r addr = refl

  pub hits-suc :
      (i : ℕ) (r : Routes V) (addr : ℕ)
      → i < 33
      → addr < 2 ^ 32
      → hits (suc i) r addr
        ≡ add_hit (view r (make broadcast addr i)) (make broadcast addr i) (hits i r addr)
  unfolding hits
  hits-suc i r addr h ha = rw (make_lem broadcast addr i h ha) refl
