-- ===== src/Patricia/Shape.antt =====
-- The shape of a trie: what holds of every node, and its consequences for a search.
use lib_dwm.Base.{
  ℕ, ◌+◌, ◌<◌, ◌≡◌, Bool, true, false, ◌&&◌, ◌||◌, not, Option, some, inl, inr, arith, suc,
  Bool-cases,
}
use lib_dwm.Patricia.Key.{PrefixKey, contains_self}
use lib_dwm.Patricia.Trie.{Trie, null, node, is_null, find}

-- The entries that hold a value.
abbrev pub count : {P V : Type 0} → Trie P V → ℕ
count null = 0
count (node q w true l r up) = suc (count l + count r)
count (node q w false l r up) = count l + count r

-- Every `_parent` is the node above.
abbrev pub HasParents : {P V : Type 0} → Option P → Trie P V → Type 0
HasParents up null = Unit {0}
HasParents up (node q w h l r old) = (old ≡ up) × HasParents (some q) l × HasParents (some q) r

module _ (K : PrefixKey) {V : Type 0} where
  open K use {Prefix, mask_length, bit, same, contains, IsValid}

  -- A child extends the prefix of its node, by the bit that chooses the child.
  abbrev pub Extends : Prefix → Bool → Trie Prefix V → Type 0
  Extends q b null = Unit {0}
  Extends q b (node c w h l r up) =
      (contains q c ≡ true) × (mask_length q < mask_length c) × (bit c (mask_length q) ≡ b)

  -- Only a node with two children may lack a value.
  abbrev pub IsCompressed : Bool → Trie Prefix V → Trie Prefix V → Type 0
  IsCompressed h l r = (h || (not (is_null l) && not (is_null r))) ≡ true

  abbrev pub IsWellFormed : Trie Prefix V → Type 0
  IsWellFormed null = Unit {0}
  IsWellFormed (node q w h l r up) =
      IsValid q
      × Extends q false l
      × Extends q true r
      × IsCompressed h l r
      × IsWellFormed l
      × IsWellFormed r

  -- The root of the trie, if there is one, contains the prefix.
  abbrev pub RootContains : Trie Prefix V → Prefix → Type 0
  RootContains null key = ⊥
  RootContains (node q w h l r up) key = contains q key ≡ true

  -- What is found lies under the root.
  pub find-RootContains :
      (t : Trie Prefix V) (key : Prefix) (v : V)
      → IsValid key
      → IsWellFormed t
      → find K key t ≡ some v
      → RootContains t key
  unfolding find
  find-RootContains null key v vk wf e = cc
  find-RootContains (node q w h l r up) key v vk wf e = elim (Bool-cases (same q key)) [
    | inl s ↦ rw (← K.eq_of_same q key wf.0 vk s) (contains_self K q wf.0)
    | inr s ↦ elim (Bool-cases (contains q key)) [ inl c ↦ c | inr c ↦ ground arith ]
  ]
