-- ===== src/Patricia/Remove/Cases.antt =====
-- The ways that `removeNode` takes at a node, each with what holds there.
use lib_dwm.Base.{
  ℕ, ◌-◌, ◌≤◌, ◌<◌, ◌≡◌, Bool, true, false, ◌&&◌, inl, inr, Bool-cases, Option, if◌then◌else◌, leb,
  leb→le, &&_left, &&_right, lt_of_leb-false,
}
use lib_dwm.Patricia.Key.{PrefixKey}
use lib_dwm.Patricia.Trie.{Trie, node, Removed, compact, in_child, remove_node}

module _ (K : PrefixKey) {V : Type 0} (p : K.Prefix) (size : ℕ) (q : K.Prefix) (w : V) (h : Bool)
    (l r : Trie K.Prefix V) (up : Option K.Prefix) where
  open K use {Prefix, mask_length, bit, same}

  -- What the recursion returns for a child.
  abbrev pub below : Trie Prefix V → Removed Prefix V
  below child = in_child K q p size child (remove_node K p size child)

  -- To prove a property of the result, prove it of the result of each way.
  pub remove_node_cases {ℓ} :
      (P : Removed Prefix V → Type ℓ)
      → (h ≡ true
          → same q p ≡ true
          → P (record { root = compact q w false l r up; removed = true; size = size - 1 }))
      → ((h && same q p) ≡ false
          → mask_length p ≤ mask_length q
          → P (record { root = node q w h l r up; removed = false; size = size }))
      → (mask_length q < mask_length p
          → bit p (mask_length q) ≡ true
          → P (record (below r) {
            root =
                if (below r).removed
                then compact q w h l (below r).root up
                else node q w h l (below r).root up;
          }))
      → (mask_length q < mask_length p
          → bit p (mask_length q) ≡ false
          → P (record (below l) {
            root =
                if (below l).removed
                then compact q w h (below l).root r up
                else node q w h (below l).root r up;
          }))
      → P (remove_node K p size (node q w h l r up))
  unfolding remove_node
  remove_node_cases P hit short right left = elim (Bool-cases (h && same q p)) [
    | inl e ↦ rw (e, remove_node) (hit (&&_left _ _ e) (&&_right _ _ e))
    | inr e ↦ elim (Bool-cases (leb (mask_length p) (mask_length q))) [
      | inl m ↦ rw (e, m, remove_node) (short e (leb→le _ _ m))
      | inr m ↦ elim (Bool-cases (bit p (mask_length q))) [
        | inl b ↦ rw (e, m, b, remove_node) (right (lt_of_leb-false _ _ m) b)
        | inr b ↦ rw (e, m, b, remove_node) (left (lt_of_leb-false _ _ m) b)
      ]
    ]
  ]
