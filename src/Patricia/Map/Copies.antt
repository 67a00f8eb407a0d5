-- ===== src/Patricia/Map/Copies.antt =====
-- Copies of a map. The copies of the nodes get no parent.
use lib_dwm.Base.{ℕ, ◌+◌, if◌then◌else◌, ◌≡◌, refl, Bool, true, false, ◌&&◌, Option, none, some}
use lib_dwm.Patricia.Key.{PrefixKey}
use lib_dwm.Patricia.Trie.{Trie, null, node, is_null, clear_node, copy_node}
use lib_dwm.Patricia.Trie
use lib_dwm.Patricia.Shape.{HasParents}
use lib_dwm.Patricia.Map.{PrefixMap, IsSound, find, copy, assign_copy}

module _ (K : PrefixKey) {V : Type 0} where
  open K use {Prefix, IsValid}

  find-copy_node :
      (key : Prefix) (n : ℕ) (t : Trie Prefix V)
      → Trie.find K key (copy_node n t).0 ≡ Trie.find K key t
  unfolding copy_node Trie.find
  find-copy_node key n null = refl
  find-copy_node key n (node q w h l r up) =
      rw (find-copy_node key (if h then n + 1 else n) l, find-copy_node key _ r) refl

  -- A copy has the size of the original, and a lookup in it finds the same at every prefix.
  pub find-copy :
      (uninit : ℕ) (m : PrefixMap Prefix V) (key : Prefix)
      → (find K (copy K uninit m) key ≡ find K m key) × ((copy K uninit m).size ≡ m.size)
  unfolding find copy
  find-copy uninit m key = (find-copy_node key uninit m.root, refl)

  no_parent_below :
      (q : Prefix) (n : ℕ) (t : Trie Prefix V)
      → is_null t ≡ false
      → ¬ (HasParents (some q) (copy_node n t).0)
  unfolding copy_node
  no_parent_below q n null e h = cc
  no_parent_below q n (node c w h l r up) e (p, _, _) = cc

  no_parents :
      (n : ℕ) (q : Prefix) (w : V) (h : Bool) (l r : Trie Prefix V) (up : Option Prefix)
      → (is_null l && is_null r) ≡ false
      → ¬ (HasParents none (copy_node n (node q w h l r up)).0)
  unfolding copy_node
  no_parents n q w h l r up kids (p, on_left, on_right) = broken (is_null l) refl
    where
      broken : (b : Bool) → is_null l ≡ b → ⊥
      broken true e = no_parent_below q _ r (rw e at kids) on_right
      broken false e = no_parent_below q _ l e on_left

  -- The parent pointers of a copy are wrong as soon as the root of the original has a child, so that
  -- neither the copy constructor nor the copy assignment to another object gives a sound map.
  pub copy-breaks-parents :
      (uninit : ℕ) (old m : PrefixMap Prefix V) (q : Prefix) (w : V) (h : Bool)
      (l r : Trie Prefix V) (up : Option Prefix)
      → m.root ≡ node q w h l r up
      → (is_null l && is_null r) ≡ false
      → (¬ IsSound K (copy K uninit m)) × (¬ IsSound K (assign_copy K false old m))
  unfolding copy assign_copy
  copy-breaks-parents uninit old m q w h l r up e kids = (
    λ s. no_parents uninit q w h l r up kids (rw e at s.parents),
    λ s. no_parents (clear_node old.size old.root) q w h l r up kids (rw e at s.parents),
  )
