-- ===== src/Patricia/Search/Chain.antt =====
-- The entries that a search passes, and the three loops as walks along them.
use lib_dwm.Base.{
  ◌≡◌, refl, sym, Bool, true, false, Option, none, some, arith, List, [], ◌∷◌, ◌++◌, if◌then◌else◌,
  leb, ltb,
}
use mathlib.Core.List.{append-nil, append_assoc}
use lib_dwm.Patricia.Key.{PrefixKey}
use lib_dwm.Patricia.Trie.{Trie, null, node, find_longest, find_matches, find_wider}

module _ (K : PrefixKey) {V : Type 0} where
  open K use {Prefix, mask_length, bit, same, contains}

  -- A node's own entry in front of others, if it holds a value.
  abbrev pub own : Bool → Prefix → V → List (Prefix × V) → List (Prefix × V)
  own true q w xs = (q, w) ∷ xs
  own false q w xs = xs

  -- The entries on the way down that contain `pfx`, the shortest first.
  unfoldable pub chain : Prefix → Trie Prefix V → List (Prefix × V)
  chain pfx null = []
  chain pfx (node q w h l r up) =
      let down = if bit pfx (mask_length q) then chain pfx r else chain pfx l in
      if contains q pfx
      then own h q w (if leb (mask_length pfx) (mask_length q) then [] else down)
      else []

  -- The value of an association list at a prefix.
  abbrev pub lookup : Prefix → List (Prefix × V) → Option V
  lookup k [] = none
  lookup k ((q, w) ∷ xs) = if same q k then some w else lookup k xs

  abbrev pub last : Option (Prefix × V) → List (Prefix × V) → Option (Prefix × V)
  last it [] = it
  last it (x ∷ xs) = last (some x) xs

  -- `find_matches` appends the chain.
  pub find_matches-chain :
      (pfx : Prefix) (acc : List (Prefix × V)) (t : Trie Prefix V)
      → find_matches K pfx acc t ≡ acc ++ chain pfx t
  unfolding find_matches chain
  find_matches-chain pfx acc null = sym (append-nil acc)
  find_matches-chain pfx acc (node q w h l r up) =
      let more : List (Prefix × V) = acc ++ ((q, w) ∷ []) in
      ground (
        arith,
        append-nil acc,
        find_matches-chain pfx more l,
        find_matches-chain pfx more r,
        find_matches-chain pfx acc l,
        find_matches-chain pfx acc r,
        append_assoc acc ((q, w) ∷ []) (chain pfx l),
        append_assoc acc ((q, w) ∷ []) (chain pfx r),
      )

  -- `find_longest` returns the last entry of the chain.
  pub find_longest-chain :
      (pfx : Prefix) (it : Option (Prefix × V)) (t : Trie Prefix V)
      → find_longest K pfx it t ≡ last it (chain pfx t)
  unfolding find_longest chain
  find_longest-chain pfx it null = refl
  find_longest-chain pfx it (node q w h l r up) = ground (
    arith,
    find_longest-chain pfx (some (q, w)) l,
    find_longest-chain pfx (some (q, w)) r,
    find_longest-chain pfx it l,
    find_longest-chain pfx it r,
  )

  -- The entries on the way down that contain `pfx` and are shorter.
  unfoldable pub wider_chain : Prefix → Trie Prefix V → List (Prefix × V)
  wider_chain pfx null = []
  wider_chain pfx (node q w h l r up) =
      let down = if bit pfx (mask_length q) then wider_chain pfx r else wider_chain pfx l in
      if contains q pfx
      then (if ltb (mask_length q) (mask_length pfx) then own h q w down else [])
      else []

  -- `find_wider` appends them.
  pub find_wider-chain :
      (pfx : Prefix) (acc : List (Prefix × V)) (t : Trie Prefix V)
      → find_wider K pfx acc t ≡ acc ++ wider_chain pfx t
  unfolding find_wider wider_chain
  find_wider-chain pfx acc null = sym (append-nil acc)
  find_wider-chain pfx acc (node q w h l r up) =
      let more : List (Prefix × V) = acc ++ ((q, w) ∷ []) in
      ground (
        arith,
        append-nil acc,
        find_wider-chain pfx more l,
        find_wider-chain pfx more r,
        find_wider-chain pfx acc l,
        find_wider-chain pfx acc r,
        append_assoc acc ((q, w) ∷ []) (wider_chain pfx l),
        append_assoc acc ((q, w) ∷ []) (wider_chain pfx r),
      )
