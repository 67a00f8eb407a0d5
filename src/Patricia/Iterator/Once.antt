-- ===== src/Patricia/Iterator/Once.antt =====
-- Each entry is visited once.
use lib_dwm.Base.{
  ℕ, suc, ◌+◌, ◌<◌, ◌≡◌, refl, sym, ap, ◌∙◌, Bool, true, false, Option, none, some, List, [], ◌∷◌,
  ◌++◌, if◌then◌else◌, Option-cases, inl, inr, arith, is_some, true≢false, ◌&&◌,
}
use lib_dwm.Patricia.Key.{PrefixKey}
use lib_dwm.Patricia.Trie.{Trie, null, node, find}
use lib_dwm.Patricia.Shape.{IsWellFormed, Extends, RootContains, find-RootContains}
use lib_dwm.Patricia.Map.{PrefixMap, IsSound}
use lib_dwm.Patricia.Map
use lib_dwm.Patricia.Iterator.{begin, visited, rounds_end}
use lib_dwm.Patricia.Iterator.Zipper.{below_child}
use lib_dwm.Patricia.Iterator.Walk.{keys, visited-keys}

-- A prefix is found at a node, or in one of its children, or not at all.
one_place :
    {V : Type 0} (s c b h : Bool) (w : V) (fl fr : Option V)
    → (is_some fl ≡ true → (c ≡ true) × (b ≡ false))
    → (is_some fr ≡ true → (c ≡ true) × (b ≡ true))
    → (s ≡ true → is_some fl ≡ true → ⊥)
    → (s ≡ true → is_some fr ≡ true → ⊥)
    → (if h && s then 1 else 0) + ((if is_some fl then 1 else 0) + (if is_some fr then 1 else 0))
      ≡ (if is_some
            (if s then (if h then some w else none) else if c then (if b then fr else fl) else none)
          then 1
          else 0)
one_place s c b h w fl fr on_left on_right not_left not_right = ground arith

module _ (K : PrefixKey) where
  open K use {Prefix, mask_length, bit, same, contains, IsValid}

  -- How often a prefix stands in a list.
  abbrev pub times : Prefix → List Prefix → ℕ
  times k [] = 0
  times k (a ∷ ks) = let rest = times k ks in if same a k then suc rest else rest

  times-append : (k : Prefix) (xs ys : List Prefix) → times k (xs ++ ys) ≡ times k xs + times k ys
  times-append k [] ys = omega arith
  times-append k (a ∷ xs) ys = ground (arith, times-append k xs ys)

module _ (K : PrefixKey) {V : Type 0} where
  open K use {Prefix, mask_length, bit, same, contains, IsValid}

  -- What is found in a child extends the node as the child does.
  pub found_below :
      (q k : Prefix) (b : Bool) (t : Trie Prefix V)
      → IsValid q
      → IsValid k
      → IsWellFormed K t
      → Extends K q b t
      → is_some (find K k t) ≡ true
      → (contains q k ≡ true) × (mask_length q < mask_length k) × (bit k (mask_length q) ≡ b)
  found_below q k b t vq vk wf e found = elim (Option-cases (find K k t)) [
    | inl n ↦ absurd (true≢false (sym found ∙ ap is_some n))
    | inr (v, f) ↦ from_root t wf e (find-RootContains K t k v vk wf f)
  ]
    where
      from_root :
          (t : Trie Prefix V)
          → IsWellFormed K t
          → Extends K q b t
          → RootContains K t k
          → (contains q k ≡ true) × (mask_length q < mask_length k) × (bit k (mask_length q) ≡ b)
      from_root null wf e c = absurd c
      from_root (node c w h l r up) wf (inside, lt, on) further =
          below_child K q c k b vq wf.0 vk inside lt on further

  times-own :
      (k q : Prefix) (w : V) (h : Bool) (l r : Trie Prefix V) (up : Option Prefix)
      → times K k (keys (node q w h l r up))
        ≡ (if h && same q k then 1 else 0) + (times K k (keys l) + times K k (keys r))
  times-own k q w true l r up = ground (arith, times-append K k (keys l) (keys r))
  times-own k q w false l r up = omega (arith, times-append K k (keys l) (keys r))

  pub find-node :
      (k q : Prefix) (w : V) (h : Bool) (l r : Trie Prefix V) (up : Option Prefix)
      → find K k (node q w h l r up) ≡ (
          if same q k
          then (if h then some w else none)
          else if contains q k
          then (if bit k (mask_length q) then find K k r else find K k l)
          else none)
  unfolding find
  find-node k q w h l r up = refl

  times-keys :
      (k : Prefix) (t : Trie Prefix V)
      → IsValid k
      → IsWellFormed K t
      → times K k (keys t) ≡ (if is_some (find K k t) then 1 else 0)
  times-keys k null vk wf = unfold find in refl
  times-keys k (node q w h l r up) vk (vq, el, er, comp, wl, wr) =
      let below_left = found_below q k false l vq vk wl el in
      let below_right = found_below q k true r vq vk wr er in
      let mask : same q k ≡ true → mask_length q ≡ mask_length k = λ e. K.same_mask_length q k e in
      times-own k q w h l r up
      ∙ rw (times-keys k l vk wl, times-keys k r vk wr, find-node k q w h l r up)
          (one_place (same q k) (contains q k) (bit k (mask_length q)) h w (find K k l) (find K k r)
            (λ f. ((below_left f).0, (below_left f).2))
            (λ f. ((below_right f).0, (below_right f).2))
            (λ e f. omega (arith, mask e, (below_left f).1))
            (λ e f. omega (arith, mask e, (below_right f).1)))

  -- The loop from begin() to end() over a sound map ends after as many rounds as the map has
  -- entries; it visits a valid prefix once if a lookup finds it, and else never.
  pub times-visited :
      (m : PrefixMap Prefix V) (k : Prefix)
      → IsValid k
      → IsSound K m
      → (times K k (visited K m.size m (begin K m)) ≡ (if is_some (Map.find K m k) then 1 else 0))
        × (rounds_end K m.size m (begin K m) ≡ none)
  unfolding Map.find
  times-visited m k vk s =
      let (walk, over) = visited-keys K m s in
      (ap (times K k) walk ∙ times-keys k m.root vk s.shape, over)
