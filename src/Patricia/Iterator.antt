-- ===== src/Patricia/Iterator.antt =====
-- The iterators of classes/include/DwmIpv4PrefixPatricia.hh; the two classes have the same text.
-- A `Node *` that is kept, as `_current` and `_parent` are, is the prefix of its node, and `deref`
-- is the node; null is `none`. A loop or recursion that climbs along `_parent` has fuel, and the
-- number of nodes is enough (Patricia/Iterator/Walk).
pub mod Zipper
pub mod Walk
pub mod Once
mod Tests
use lib_dwm.Base.{
  ℕ, zero, suc, ◌+◌, Bool, true, false, Option, none, some, List, [], ◌∷◌, if◌then◌else◌,
}
use lib_dwm.Patricia.Key.{PrefixKey}
use lib_dwm.Patricia.Trie.{Trie, null, node, is_null}
use lib_dwm.Patricia.Map.{PrefixMap, remove}

abbrev pub first_some : {A : Type 0} → Option A → Option A → Option A
first_some (some a) b = some a
first_some none b = b

abbrev pub nodes : {P V : Type 0} → Trie P V → ℕ
nodes null = 0
nodes (node q w h l r up) = suc (nodes l + nodes r)

-- `n->_parent`, `n->_children[0]`, `n->_children[1]` and `n->_hasValue`.
abbrev pub parent_of : {P V : Type 0} → Trie P V → Option P
parent_of null = none
parent_of (node q w h l r up) = up

abbrev pub left_of : {P V : Type 0} → Trie P V → Trie P V
left_of null = null
left_of (node q w h l r up) = l

abbrev pub right_of : {P V : Type 0} → Trie P V → Trie P V
right_of null = null
right_of (node q w h l r up) = r

abbrev pub has_value : {P V : Type 0} → Trie P V → Bool
has_value null = false
has_value (node q w h l r up) = h

-- `_findFirstValueNode`.
unfoldable pub first_value : {P V : Type 0} → Trie P V → Option P
first_value null = none
first_value (node q w h l r up) =
    let below = first_some (first_value l) (first_value r) in if h then some q else below

-- `_findLastValueNode`.
unfoldable pub last_value : {P V : Type 0} → Trie P V → Option P
last_value null = none
last_value (node q w h l r up) =
    first_some (last_value r) (first_some (last_value l) (if h then some q else none))

module _ (K : PrefixKey) {V : Type 0} where
  open K use {Prefix, same}

  -- The node that a pointer names.
  unfoldable pub deref : Prefix → Trie Prefix V → Trie Prefix V
  deref a null = null
  deref a (node q w h l r up) =
      let on_left = deref a l in
      let on_right = deref a r in
      if same q a then node q w h l r up else if is_null on_left then on_right else on_left

  -- The comparison of a child with a pointer.
  abbrev pub is_at : Trie Prefix V → Prefix → Bool
  is_at null a = false
  is_at (node q w h l r up) a = same q a

  -- The loop of `_findSuccessor`.
  unfoldable pub climb : ℕ → Trie Prefix V → Prefix → Option Prefix
  climb zero root curr = none
  climb (suc fuel) root curr = elim (parent_of (deref curr root)) [
    | none ↦ none
    | some p ↦
        let up = climb fuel root p in
        first_some
          (if is_at (left_of (deref p root)) curr
            then first_value (right_of (deref p root))
            else none)
          up
  ]

  -- `_findSuccessor`.
  unfoldable pub successor : ℕ → Trie Prefix V → Prefix → Option Prefix
  successor fuel root n =
      first_some (first_value (left_of (deref n root)))
        (first_some (first_value (right_of (deref n root))) (climb fuel root n))

  -- `_findPredecessor`.
  unfoldable pub predecessor : ℕ → Trie Prefix V → Prefix → Option Prefix
  predecessor zero root n = none
  predecessor (suc fuel) root n = elim (parent_of (deref n root)) [
    | none ↦ none
    | some p ↦
        let up = predecessor fuel root p in
        let above = if has_value (deref p root) then some p else up in
        if is_at (right_of (deref p root)) n
        then (if is_null (left_of (deref p root))
            then above
            else last_value (left_of (deref p root)))
        else above
  ]

  -- `begin()`; `end()` is `none`.
  unfoldable pub begin : PrefixMap Prefix V → Option Prefix
  begin m = first_value m.root

  -- `operator ++` of an iterator.
  unfoldable pub increment : PrefixMap Prefix V → Option Prefix → Option Prefix
  increment m none = none
  increment m (some n) = successor (nodes m.root) m.root n

  -- `operator --`.
  unfoldable pub decrement : PrefixMap Prefix V → Option Prefix → Option Prefix
  decrement m none = last_value m.root
  decrement m (some n) = predecessor (nodes m.root) m.root n

  -- `erase(iterator)`: the map afterwards and the iterator returned.
  unfoldable pub erase_at : PrefixMap Prefix V → Option Prefix → PrefixMap Prefix V × Option Prefix
  unfolding increment
  erase_at m none = (m, none)
  erase_at m (some n) = ((remove K m n).0, increment m (some n))

  -- The entries that `for (it = begin(); it != end(); ++it)` visits in a number of rounds.
  unfoldable pub visited : ℕ → PrefixMap Prefix V → Option Prefix → List Prefix
  visited rounds m none = []
  visited zero m (some n) = []
  visited (suc rounds) m (some n) = n ∷ visited rounds m (increment m (some n))

  -- Where the iterator stands after a number of rounds.
  unfoldable pub rounds_end : ℕ → PrefixMap Prefix V → Option Prefix → Option Prefix
  rounds_end zero m it = it
  rounds_end (suc rounds) m it = rounds_end rounds m (increment m it)
