-- ===== src/Patricia/Remove/Shape.antt =====
-- `removeNode` keeps the shape of the trie, its parent pointers and its count of entries.
use lib_dwm.Base.{
  ℕ, ◌+◌, ◌-◌, ◌≡◌, refl, ◌∙◌, Bool, true, false, Option, some, inl, inr, arith, Bool-cases,
  if◌then◌else◌,
}
use lib_dwm.Patricia.Key.{PrefixKey}
use lib_dwm.Patricia.Trie.{
  Trie, null, node, Removed, is_null, set_parent, in_child, leads_to, remove_node,
}
use lib_dwm.Patricia.Shape.{count, HasParents, Extends, IsWellFormed}
use lib_dwm.Patricia.Remove.Compact.{
  compact-Extends, compact-IsWellFormed, compact-HasParents, count-compact, count-set_parent,
}
use lib_dwm.Patricia.Remove.Cases.{below, remove_node_cases}

module _ (K : PrefixKey) {V : Type 0} where
  open K use {Prefix, mask_length, bit, same, contains, IsValid}

  set_parent-Extends :
      (q : Prefix) (b : Bool) (up : Option Prefix) (t : Trie Prefix V)
      → Extends K q b t
      → Extends K q b (set_parent up t)
  unfolding set_parent
  set_parent-Extends q b up null e = tt
  set_parent-Extends q b up (node c w h l r old) e = e

  pub set_parent-IsWellFormed :
      (up : Option Prefix) (t : Trie Prefix V) → IsWellFormed K t → IsWellFormed K (set_parent up t)
  unfolding set_parent
  set_parent-IsWellFormed up null e = tt
  set_parent-IsWellFormed up (node c w h l r old) e = e

  in_child-Extends :
      (q0 q p : Prefix) (size : ℕ) (b : Bool) (c : Trie Prefix V) (below : Removed Prefix V)
      → Extends K q0 b c
      → Extends K q0 b below.root
      → Extends K q0 b (in_child K q p size c below).root
  in_child-Extends q0 q p size b c below e e' = elim (Bool-cases (leads_to K c p)) [
    | inl y ↦ rw y (set_parent-Extends q0 b (some q) below.root e')
    | inr y ↦ rw y e
  ]

  in_child-IsWellFormed :
      (q p : Prefix) (size : ℕ) (c : Trie Prefix V) (below : Removed Prefix V)
      → IsWellFormed K c
      → IsWellFormed K below.root
      → IsWellFormed K (in_child K q p size c below).root
  in_child-IsWellFormed q p size c below e e' = elim (Bool-cases (leads_to K c p)) [
    | inl y ↦ rw y (set_parent-IsWellFormed (some q) below.root e')
    | inr y ↦ rw y e
  ]

  is_null-set_parent :
      (up : Option Prefix) (t : Trie Prefix V) → is_null (set_parent up t) ≡ is_null t
  unfolding set_parent
  is_null-set_parent up null = refl
  is_null-set_parent up (node c w h l r old) = refl

  in_child-unchanged :
      (q p : Prefix) (size : ℕ) (c : Trie Prefix V) (below : Removed Prefix V)
      → (below.removed ≡ false → is_null below.root ≡ is_null c)
      → (in_child K q p size c below).removed ≡ false
      → is_null (in_child K q p size c below).root ≡ is_null c
  in_child-unchanged q p size c below e = elim (Bool-cases (leads_to K c p)) [
    | inl y ↦ rw y (λ z. is_null-set_parent (some q) below.root ∙ e z)
    | inr y ↦ rw y (λ z. refl)
  ]

  -- What a removal keeps: the shape of the tree, what its root extends, and, where it removes
  -- nothing, whether there is a root.
  abbrev pub Keeps : Trie Prefix V → Removed Prefix V → Type 0
  Keeps t a =
      IsWellFormed K a.root
      × ((q0 : Prefix) (b : Bool) → IsValid q0 → Extends K q0 b t → Extends K q0 b a.root)
      × (a.removed ≡ false → is_null a.root ≡ is_null t)

  pub in_child-Keeps :
      (q p : Prefix) (size : ℕ) (c : Trie Prefix V) (below : Removed Prefix V)
      → IsWellFormed K c
      → Keeps c below
      → Keeps c (in_child K q p size c below)
  in_child-Keeps q p size c below wf (k, e, n) = (
    in_child-IsWellFormed q p size c below wf k,
    λ q0 b v x. in_child-Extends q0 q p size b c below x (e q0 b v x),
    in_child-unchanged q p size c below n,
  )

  pub remove_node-Keeps :
      (p : Prefix) (size : ℕ) (t : Trie Prefix V)
      → IsWellFormed K t
      → Keeps t (remove_node K p size t)
  unfolding remove_node
  remove_node-Keeps p size null wf = (tt, λ q0 b v x. tt, λ e. refl)
  remove_node-Keeps p size (node q w h l r up) wf =
      let (vq, el, er, comp, wl, wr) = wf in
      let (kr, xr, nr) =
        in_child-Keeps q p size r (remove_node K p size r) wr (remove_node-Keeps p size r wr) in
      let (kl, xl, nl) =
        in_child-Keeps q p size l (remove_node K p size l) wl (remove_node-Keeps p size l wl) in
      remove_node_cases K p size q w h l r up (Keeps (node q w h l r up))
        (λ t s. (
          compact-IsWellFormed K q w false l r up vq el er wl wr,
          λ q0 b v x. compact-Extends K q0 q b w false l r up v vq x el er wl wr,
          λ e. cc,
        ))
        (λ e le. (wf, λ q0 b v x. x, λ e'. refl))
        (λ lt b. elim (Bool-cases (below K p size q w h l r up r).removed) [
          | inl y ↦ rw y (
            compact-IsWellFormed K q w h l _ up vq el (xr q true vq er) wl kr,
            λ q0 b' v x. compact-Extends K q0 q b' w h l _ up v vq x el (xr q true vq er) wl kr,
            λ e. cc,
          )
          | inr y ↦
              rw y ((vq, el, xr q true vq er, rw (nr y) comp, wl, kr), λ q0 b' v x. x, λ e. refl)
        ])
        (λ lt b. elim (Bool-cases (below K p size q w h l r up l).removed) [
          | inl y ↦ rw y (
            compact-IsWellFormed K q w h _ r up vq (xl q false vq el) er kl wr,
            λ q0 b' v x. compact-Extends K q0 q b' w h _ r up v vq x (xl q false vq el) er kl wr,
            λ e. cc,
          )
          | inr y ↦
              rw y ((vq, xl q false vq el, er, rw (nl y) comp, kl, wr), λ q0 b' v x. x, λ e. refl)
        ])

  set_parent-HasParents :
      (up old : Option Prefix) (t : Trie Prefix V)
      → HasParents old t
      → HasParents up (set_parent up t)
  unfolding set_parent
  set_parent-HasParents up old null h = tt
  set_parent-HasParents up old (node q w h l r x) (e, pl, pr) = (refl, pl, pr)

  in_child-HasParents :
      (q p : Prefix) (size : ℕ) (c : Trie Prefix V) (below : Removed Prefix V)
      → HasParents (some q) c
      → HasParents (some q) (set_parent (some q) below.root)
      → HasParents (some q) (in_child K q p size c below).root
  in_child-HasParents q p size c below hc hb = elim (Bool-cases (leads_to K c p)) [
    | inl y ↦ rw y hb
    | inr y ↦ rw y hc
  ]

  -- Once the caller has set the parent of the returned root, every parent pointer is right.
  pub remove_node-HasParents :
      (p : Prefix) (size : ℕ) (t : Trie Prefix V) (old up : Option Prefix)
      → HasParents old t
      → HasParents up (set_parent up (remove_node K p size t).root)
  unfolding remove_node set_parent
  remove_node-HasParents p size null old up h = tt
  remove_node-HasParents p size (node q w h l r x) old up (e, pl, pr) =
      let hr =
        in_child-HasParents q p size r (remove_node K p size r) pr
          (remove_node-HasParents p size r (some q) (some q) pr) in
      let hl =
        in_child-HasParents q p size l (remove_node K p size l) pl
          (remove_node-HasParents p size l (some q) (some q) pl) in
      remove_node_cases K p size q w h l r x (λ a. HasParents up (set_parent up a.root))
        (λ t s. compact-HasParents q w false l r x up pl pr) (λ e le. (refl, pl, pr))
        (λ lt b. elim (Bool-cases (below K p size q w h l r x r).removed) [
          | inl y ↦ rw y (compact-HasParents q w h l _ x up pl hr)
          | inr y ↦ rw y (refl, pl, hr)
        ])
        (λ lt b. elim (Bool-cases (below K p size q w h l r x l).removed) [
          | inl y ↦ rw y (compact-HasParents q w h _ r x up hl pr)
          | inr y ↦ rw y (refl, hl, pr)
        ])

  -- The counter falls as the number of entries does, by one just if the call removes.
  abbrev pub Counts : ℕ → Trie Prefix V → Removed Prefix V → Type 0
  Counts size t a =
      (a.size ≡ (if a.removed then size - 1 else size))
      × (count a.root + (if a.removed then 1 else 0) ≡ count t)

  in_child-Counts :
      (q p : Prefix) (size : ℕ) (c : Trie Prefix V) (below : Removed Prefix V)
      → Counts size c below
      → Counts size c (in_child K q p size c below)
  in_child-Counts q p size c below (s, n) = elim (Bool-cases (leads_to K c p)) [
    | inl y ↦ rw y (s, rw (count-set_parent (some q) below.root) n)
    | inr y ↦ rw y (refl, omega arith)
  ]

  pub remove_node-Counts :
      (p : Prefix) (size : ℕ) (t : Trie Prefix V) → Counts size t (remove_node K p size t)
  unfolding remove_node
  remove_node-Counts p size null = (refl, omega arith)
  remove_node-Counts p size (node q w h l r up) =
      let (sr, nr) =
        in_child-Counts q p size r (remove_node K p size r) (remove_node-Counts p size r) in
      let (sl, nl) =
        in_child-Counts q p size l (remove_node K p size l) (remove_node-Counts p size l) in
      remove_node_cases K p size q w h l r up (Counts size (node q w h l r up))
        (λ t s. (refl, rw (count-compact q w false l r up) (ground arith)))
        (λ e le. (refl, omega arith))
        (λ lt b. (
          sr,
          elim (Bool-cases (below K p size q w h l r up r).removed) [
            | inl y ↦ rw y (
                rw (count-compact q w h l (below K p size q w h l r up r).root up)
                  (ground (arith, nr, y)))
            | inr y ↦ rw y (ground (arith, nr, y))
          ],
        ))
        (λ lt b. (
          sl,
          elim (Bool-cases (below K p size q w h l r up l).removed) [
            | inl y ↦ rw y (
                rw (count-compact q w h (below K p size q w h l r up l).root r up)
                  (ground (arith, nl, y)))
            | inr y ↦ rw y (ground (arith, nl, y))
          ],
        ))
