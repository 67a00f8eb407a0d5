-- ===== src/Patricia/Trie.antt =====
-- The nodes of classes/include/DwmIpv4PrefixPatricia.hh and the recursions over them. A `Node *`
-- is the tree below it. Nodes of one trie have distinct prefixes, so a `_parent` pointer is given
-- by the prefix of the node that it points to. A counter `_size` is carried through the calls.
use lib_dwm.Base.{
  ℕ, ◌+◌, ◌-◌, Bool, true, false, ◌&&◌, Option, none, some, List, [], ◌∷◌, ◌++◌, ltb, leb, min,
  if◌then◌else◌,
}
use lib_dwm.Patricia.Key.{PrefixKey}

-- `Node`: prefix, value, `_hasValue`, the two children, `_parent`.
pub data Trie (P V : Type 0) : Type 0 where
  null : Trie P V
  node : P → V → Bool → Trie P V → Trie P V → Option P → Trie P V

abbrev pub is_null : {P V : Type 0} → Trie P V → Bool
is_null null = true
is_null (node q w h l r up) = false

-- `n->_parent = parent`.
unfoldable pub set_parent : {P V : Type 0} → Option P → Trie P V → Trie P V
set_parent up null = null
set_parent up (node q w h l r old) = node q w h l r up

-- `_children[bit] = child` on a pair of children.
abbrev pub set_child : {P V : Type 0} → Bool → Trie P V → Trie P V × Trie P V → Trie P V × Trie P V
set_child false c (l, r) = (c, r)
set_child true c (l, r) = (l, c)

-- What `addNode` returns and leaves in its reference arguments.
pub record Added (P V : Type 0) : Type 0 where
  pub root : Trie P V
  pub result : P
  pub inserted : Bool
  pub size : ℕ

-- What `removeNode` returns and leaves in its reference argument.
pub record Removed (P V : Type 0) : Type 0 where
  pub root : Trie P V
  pub removed : Bool
  pub size : ℕ

-- A node with no value and no child goes, one with no value and one child gives way to the child.
unfoldable pub compact : {P V : Type 0} → P → V → Bool → Trie P V → Trie P V → Option P → Trie P V
compact q w true l r up = node q w true l r up
compact q w false null r up = r
compact q w false (node a b c d e f) null up = node a b c d e f
compact q w false (node a b c d e f) (node g h i j k m) up =
    node q w false (node a b c d e f) (node g h i j k m) up

module _ (K : PrefixKey) {V : Type 0} where
  open K use {Prefix, mask_length, bit, same, contains, first_diff_bit, common}

  -- The branch node of `addNode`, over the existing node and the new leaf. The second of the
  -- writes to the children wins if both have one index.
  unfoldable pub split : V → Trie Prefix V → Prefix → Prefix → V → ℕ → Option Prefix → Trie Prefix V
  unfolding set_parent
  split default existing q prefix value d up =
      let branch = common q d in
      let leaf = node prefix value true null null (some branch) in
      let (l, r) =
        set_child (bit prefix d) leaf
          (set_child (bit q d) (set_parent (some branch) existing) (null, null)) in
      node branch default false l r up

  -- The node that `addNode` puts above an existing one with a longer prefix.
  unfoldable pub put_above : Trie Prefix V → Prefix → Prefix → V → Option Prefix → Trie Prefix V
  unfolding set_parent
  put_above existing q prefix value up =
      let (l, r) =
        set_child (bit q (mask_length prefix)) (set_parent (some prefix) existing) (null, null) in
      node prefix value true l r up

  -- `addNode`. The arguments: the value of a branch node, the prefix and value to add,
  -- `updateExisting`, `_size`, the node, its parent.
  unfoldable pub add_node :
      V → Prefix → V → Bool → ℕ → Trie Prefix V → Option Prefix → Added Prefix V
  add_node default prefix value update size null up = record {
    root = node prefix value true null null up;
    result = prefix;
    inserted = true;
    size = size + 1;
  }
  add_node default prefix value update size (node q w h l r old) up =
      let below0 = add_node default prefix value update size l (some q) in
      let below1 = add_node default prefix value update size r (some q) in
      elim (first_diff_bit q prefix (min (mask_length q) (mask_length prefix))) [
        | none ↦
            if same q prefix
            then (if h
                then record {
                  root = node q (if update then value else w) h l r old;
                  result = q;
                  inserted = false;
                  size = size;
                }
                else record {
                  root = node q value true l r old;
                  result = q;
                  inserted = true;
                  size = size + 1;
                })
            else if ltb (mask_length q) (mask_length prefix)
            then (if bit prefix (mask_length q)
                then record below1 { root = node q w h l below1.root old }
                else record below0 { root = node q w h below0.root r old })
            else record {
              root = put_above (node q w h l r old) q prefix value up;
              result = prefix;
              inserted = true;
              size = size + 1;
            }
        | some d ↦ record {
          root = split default (node q w h l r old) q prefix value d up;
          result = prefix;
          inserted = true;
          size = size + 1;
        }
      ]

  -- `child && child->_pair.first.Contains(prefix)`.
  abbrev pub leads_to : Trie Prefix V → Prefix → Bool
  leads_to null prefix = false
  leads_to (node q w h l r up) prefix = contains q prefix

  -- `node->_children[bit] = removeNode(child, ...)`, where the child contains the prefix.
  abbrev pub in_child : Prefix → Prefix → ℕ → Trie Prefix V → Removed Prefix V → Removed Prefix V
  in_child q prefix size child below =
      if leads_to child prefix
      then record below { root = set_parent (some q) below.root }
      else record { root = child; removed = false; size = size }

  -- `removeNode`.
  unfoldable pub remove_node : Prefix → ℕ → Trie Prefix V → Removed Prefix V
  unfolding compact set_parent
  remove_node prefix size null = record { root = null; removed = false; size = size }
  remove_node prefix size (node q w h l r up) =
      let below0 = in_child q prefix size l (remove_node prefix size l) in
      let below1 = in_child q prefix size r (remove_node prefix size r) in
      if h && same q prefix
      then record { root = compact q w false l r up; removed = true; size = size - 1 }
      else if leb (mask_length prefix) (mask_length q)
      then record { root = node q w h l r up; removed = false; size = size }
      else if bit prefix (mask_length q)
      then record below1 {
        root =
            if below1.removed then compact q w h l below1.root up else node q w h l below1.root up;
      }
      else record below0 {
        root =
            if below0.removed then compact q w h below0.root r up else node q w h below0.root r up;
      }

  -- The loop of `find`; the value that the returned iterator gives.
  unfoldable pub find : Prefix → Trie Prefix V → Option V
  find key null = none
  find key (node q w h l r up) =
      let down = if bit key (mask_length q) then find key r else find key l in
      if same q key then (if h then some w else none) else if contains q key then down else none

  -- The loop of `find_longest`, with the iterator `it` found so far.
  unfoldable pub find_longest : Prefix → Option (Prefix × V) → Trie Prefix V → Option (Prefix × V)
  find_longest pfx it null = it
  find_longest pfx it (node q w h l r up) =
      let it' = if h then some (q, w) else it in
      let down =
        if bit pfx (mask_length q) then find_longest pfx it' r else find_longest pfx it' l in
      if contains q pfx then (if leb (mask_length pfx) (mask_length q) then it' else down) else it

  -- The loop of `find_matches`, with the matches pushed so far.
  unfoldable pub find_matches : Prefix → List (Prefix × V) → Trie Prefix V → List (Prefix × V)
  find_matches pfx matches null = matches
  find_matches pfx matches (node q w h l r up) =
      let matches' = if h then matches ++ ((q, w) ∷ []) else matches in
      let down =
        if bit pfx (mask_length q)
        then find_matches pfx matches' r
        else find_matches pfx matches' l in
      if contains q pfx
      then (if leb (mask_length pfx) (mask_length q) then matches' else down)
      else matches

  -- The loop of `find_wider`.
  unfoldable pub find_wider : Prefix → List (Prefix × V) → Trie Prefix V → List (Prefix × V)
  find_wider pfx matches null = matches
  find_wider pfx matches (node q w h l r up) =
      let matches' = if h then matches ++ ((q, w) ∷ []) else matches in
      let down =
        if bit pfx (mask_length q) then find_wider pfx matches' r else find_wider pfx matches' l in
      if contains q pfx
      then (if ltb (mask_length q) (mask_length pfx) then down else matches)
      else matches

-- `clear(Node * &)`: the value of `_size` afterwards; the node becomes null.
unfoldable pub clear_node : {P V : Type 0} → ℕ → Trie P V → ℕ
clear_node size null = size
clear_node size (node q w h l r up) =
    let size' = clear_node (clear_node size l) r in if h then size' - 1 else size'

-- `copyNode`: the copies are made with no parent, and those with a value are counted in `_size`.
unfoldable pub copy_node : {P V : Type 0} → ℕ → Trie P V → Trie P V × ℕ
copy_node size null = (null, size)
copy_node size (node q w h l r up) =
    let (l', size') = copy_node (if h then size + 1 else size) l in
    let (r', size'') = copy_node size' r in (node q w h l' r' none, size'')
