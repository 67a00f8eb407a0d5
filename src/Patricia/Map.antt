-- ===== src/Patricia/Map.antt =====
-- The public operations of the class template in classes/include/DwmIpv4PrefixPatricia.hh, on its
-- two fields. An iterator is what it points to; `end()` is `none`.
pub mod Laws
pub mod Searches
pub mod Copies
use lib_dwm.Base.{
  ℕ, ◌≡◌, Bool, true, false, Option, none, some, List, [], ◌∷◌, ◌==◌, if◌then◌else◌, not,
}
use lib_dwm.Patricia.Key.{PrefixKey}
use lib_dwm.Patricia.Trie.{
  Trie, null, node, add_node, remove_node, set_parent, clear_node, copy_node, Added, Removed,
}
use lib_dwm.Patricia.Trie
use lib_dwm.Patricia.Shape.{count, HasParents, IsWellFormed}

-- `_root` and `_size`.
pub record PrefixMap (P V : Type 0) : Type 0 where
  pub root : Trie P V
  pub size : ℕ

abbrev pub is_empty_list {ℓ} : {A : Type ℓ} → List A → Bool
is_empty_list [] = true
is_empty_list (x ∷ xs) = false

module _ (K : PrefixKey) {V : Type 0} where
  open K use {Prefix, IsValid}

  -- The default constructor.
  unfoldable pub empty_map : PrefixMap Prefix V
  empty_map = record { root = null; size = 0 }

  -- `insert(value)`, the map afterwards and whether an insertion took place.
  unfoldable pub insert : V → PrefixMap Prefix V → Prefix → V → PrefixMap Prefix V × Bool
  insert default m p v =
      let a = add_node K default p v false m.size m.root none in
      (record { root = a.root; size = a.size }, a.inserted)

  -- `operator []`: an absent key gets the default value; the reference is to the value there.
  unfoldable pub subscript : V → PrefixMap Prefix V → Prefix → PrefixMap Prefix V × Option V
  subscript default m key =
      let a = add_node K default key default false m.size m.root none in
      (record { root = a.root; size = a.size }, Trie.find K a.result a.root)

  -- `empty()`.
  unfoldable pub empty : PrefixMap Prefix V → Bool
  empty m = m.size == 0

  -- `clear()`.
  unfoldable pub clear : PrefixMap Prefix V → PrefixMap Prefix V
  clear m = record { root = null; size = clear_node m.size m.root }

  -- `Remove(prefix)`.
  unfoldable pub remove : PrefixMap Prefix V → Prefix → PrefixMap Prefix V × Bool
  remove m p =
      let a = remove_node K p m.size m.root in
      (record { root = set_parent none a.root; size = a.size }, a.removed)

  -- `erase(const Ipv4Prefix &)`.
  unfoldable pub erase : PrefixMap Prefix V → Prefix → PrefixMap Prefix V × ℕ
  unfolding remove
  erase m p = let (m', removed) = remove m p in (m', if removed then 1 else 0)

  -- `find(key)`.
  unfoldable pub find : PrefixMap Prefix V → Prefix → Option V
  find m key = Trie.find K key m.root

  -- `find_longest(pfx)`.
  unfoldable pub find_longest : PrefixMap Prefix V → Prefix → Option (Prefix × V)
  find_longest m pfx = Trie.find_longest K pfx none m.root

  -- `find_matches(pfx, matches)`: the answer, and what it leaves in `matches`.
  unfoldable pub find_matches : PrefixMap Prefix V → Prefix → Bool × List (Prefix × V)
  find_matches m pfx =
      let matches = Trie.find_matches K pfx [] m.root in (not (is_empty_list matches), matches)

  -- `find_wider(pfx, matches)`.
  unfoldable pub find_wider : PrefixMap Prefix V → Prefix → Bool × List (Prefix × V)
  find_wider m pfx =
      let matches = Trie.find_wider K pfx [] m.root in (not (is_empty_list matches), matches)

  -- The copy constructor. It calls `copyNode` before it sets `_size`, which `copyNode` reads and
  -- counts up; `uninit` is what is in it then.
  unfoldable pub copy : ℕ → PrefixMap Prefix V → PrefixMap Prefix V
  copy uninit m = let (root, _) = copy_node uninit m.root in record { root = root; size = m.size }

  -- The copy assignment, and whether it is one to the object itself.
  unfoldable pub assign_copy : Bool → PrefixMap Prefix V → PrefixMap Prefix V → PrefixMap Prefix V
  assign_copy to_itself m other =
      let (root, _) = copy_node (clear_node m.size m.root) other.root in
      if to_itself then m else record { root = root; size = other.size }

  -- The move constructor: the new object, and what is left of the old one.
  unfoldable pub move : PrefixMap Prefix V → PrefixMap Prefix V × PrefixMap Prefix V
  unfolding empty_map
  move m = (m, empty_map)

  -- What the class keeps true of its fields.
  pub record IsSound (m : PrefixMap Prefix V) : Type 0 where
    pub shape : IsWellFormed K m.root
    pub parents : HasParents none m.root
    pub counted : m.size ≡ count m.root
