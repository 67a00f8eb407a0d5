-- ===== src/Patricia/Insert/Nodes.antt =====
-- What a search finds in the nodes that `addNode` makes.
use lib_dwm.Base.{
  ℕ, ◌<◌, ◌≡◌, refl, sym, ap, Bool, true, false, not, Option, none, some, inl, inr, arith,
  Option-cases, ◌≢◌, if◌then◌else◌,
}
use lib_dwm.Patricia.Key.{PrefixKey, contains_mask, contains_bit, contains_trans}
use lib_dwm.Patricia.Trie.{Trie, null, node, find, set_parent, split, put_above}
use lib_dwm.Patricia.Shape.{IsWellFormed, find-RootContains, RootContains}

abbrev bit_equal : Bool → Bool → Bool
bit_equal true b = b
bit_equal false b = not b

module _ (K : PrefixKey) {V : Type 0} where
  open K use {Prefix, mask_length, bit, same, contains, IsValid, common}

  pub find-node :
      (key q : Prefix) (w : V) (h : Bool) (l r : Trie Prefix V) (up : Option Prefix)
      → find K key (node q w h l r up) ≡ (
          if same q key
          then (if h then some w else none)
          else if contains q key
          then (if bit key (mask_length q) then find K key r else find K key l)
          else none)
  unfolding find
  find-node key q w h l r up = refl

  pub find_null : (key : Prefix) → find K {V = V} key null ≡ none
  unfolding find
  find_null key = refl

  pub find-set_parent :
      (key : Prefix) (up : Option Prefix) (t : Trie Prefix V)
      → find K key (set_parent up t) ≡ find K key t
  unfolding find set_parent
  find-set_parent key up null = refl
  find-set_parent key up (node q w h l r old) = refl

  pub find_outside :
      (t : Trie Prefix V) (key : Prefix)
      → IsValid key
      → IsWellFormed K t
      → (RootContains K t key → ⊥)
      → find K key t ≡ none
  find_outside t key vk wf out = elim (Option-cases (find K key t)) [
    | inl e ↦ e
    | inr (v, e) ↦ absurd (out (find-RootContains K t key v vk wf e))
  ]

  pub find-leaf :
      (key p : Prefix) (v : V) (up : Option Prefix)
      → find K key (node p v true null null up) ≡ (if same p key then some v else none)
  unfolding find
  find-leaf key p v up = ground arith

  -- A trie whose root extends `c` by the bit `b` holds nothing that does not.
  pub find_elsewhere :
      (t : Trie Prefix V) (q c key : Prefix) (d : ℕ)
      → IsValid q
      → IsValid key
      → (RootContains K t key → contains q key ≡ true)
      → IsWellFormed K t
      → d < mask_length q
      → bit key d ≢ bit q d
      → find K key t ≡ none
  find_elsewhere t q c key d vq vk root wf lt ne =
      find_outside t key vk wf λ rc. ne (sym (contains_bit K q key d vq vk (root rc) lt))

  module _ (q p key : Prefix) (vq : IsValid q) (vp : IsValid p) (vk : IsValid key) (d : ℕ)
      (dq : d < mask_length q) (dp : d < mask_length p) (above_q : contains (common q d) q ≡ true)
      (above_p : contains (common q d) p ≡ true) (ne : bit q d ≢ bit p d) where
    pub split_cases :
        (default : V) (w v : V) (h : Bool) (l r : Trie Prefix V) (old up : Option Prefix)
        → mask_length (common q d) ≡ d
        → find K key (split K default (node q w h l r old) q p v d up) ≡ (
            if same (common q d) key
            then none
            else if contains (common q d) key
            then (if bit_equal (bit key d) (bit p d)
                then find K key (node p v true null null (some (common q d)))
                else find K key (node q w h l r (some (common q d))))
            else none)
    unfolding split
    split_cases default w v h l r old up e = rw (find-node key (common q d), e) (ground arith)

    -- A branch finds the new prefix, and otherwise what the existing node finds.
    pub find-split :
        (default : V) (w v : V) (h : Bool) (l r : Trie Prefix V) (old up : Option Prefix)
        → IsWellFormed K (node q w h l r old)
        → IsValid (common q d)
        → mask_length (common q d) ≡ d
        → find K key (split K default (node q w h l r old) q p v d up)
          ≡ (if same p key then some v else find K key (node q w h l r old))
    unfolding set_parent
    find-split default w v h l r old up wf vc e =
        let n : Trie Prefix V = node q w h l r old in
        let shorter : contains q key ≡ true → same (common q d) key ≡ true → ⊥ = λ c s.
          omega (arith, e, contains_mask K q key vq vk c, K.same_mask_length (common q d) key s) in
        let apart : same p key ≡ true → same (common q d) key ≡ true → ⊥ = λ s s'.
          omega (arith, e, K.same_mask_length p key s, K.same_mask_length (common q d) key s') in
        let under : same p key ≡ true → contains (common q d) key ≡ true =
          λ s. rw (← K.eq_of_same p key vp vk s) above_p in
        let its_bit : same p key ≡ true → bit p d ≡ bit key d =
          λ s. ap (λ (x : Prefix). bit x d) (K.eq_of_same p key vp vk s) in
        let inside : contains q key ≡ true → contains (common q d) key ≡ true =
          contains_trans K (common q d) q key vc vq vk above_q in
        let one_bit : contains q key ≡ true → bit q d ≡ bit key d =
          λ c. contains_bit K q key d vq vk c dq in
        let absent : (contains q key ≡ true → ⊥) → find K key n ≡ none = find_outside n key vk wf in
        rw (split_cases default w v h l r old up e) (
          ground (
            arith,
            find-leaf key p v (some (common q d)),
            find-set_parent key (some (common q d)) n,
            apart,
            under,
            its_bit,
            shorter,
            inside,
            one_bit,
            absent,
          ))

  -- What an addition leaves at its own prefix.
  abbrev pub merged : Bool → Option V → V → Option V
  merged update none v = some v
  merged update (some w) v = some (if update then v else w)

  module _ (q p key : Prefix) (vq : IsValid q) (vp : IsValid p) (vk : IsValid key)
      (inside_p : contains p q ≡ true) (shorter : mask_length p < mask_length q) where
    pub put_above_cases :
        (w v : V) (h : Bool) (l r : Trie Prefix V) (old up : Option Prefix)
        → find K key (put_above K (node q w h l r old) q p v up) ≡ (
            if same p key
            then some v
            else if contains p key
            then (if bit_equal (bit key (mask_length p)) (bit q (mask_length p))
                then find K key (node q w h l r (some p))
                else find K {V = V} key null)
            else none)
    unfolding put_above
    put_above_cases w v h l r old up = rw (find-node key p) (ground arith)

    pub find-put_above :
        (w v : V) (h : Bool) (l r : Trie Prefix V) (old up : Option Prefix)
        → IsWellFormed K (node q w h l r old)
        → find K key (put_above K (node q w h l r old) q p v up)
          ≡ (if same p key then some v else find K key (node q w h l r old))
    unfolding set_parent
    find-put_above w v h l r old up wf =
        let n : Trie Prefix V = node q w h l r old in
        let inside : contains q key ≡ true → contains p key ≡ true =
          contains_trans K p q key vp vq vk inside_p in
        let one_bit : contains q key ≡ true → bit q (mask_length p) ≡ bit key (mask_length p) =
          λ c. contains_bit K q key (mask_length p) vq vk c shorter in
        let absent : (contains q key ≡ true → ⊥) → find K key n ≡ none = find_outside n key vk wf in
        rw (put_above_cases w v h l r old up)
          (ground (arith, find-set_parent key (some p) n, find_null key, inside, one_bit, absent))

    pub put_above_absent :
        (w : V) (h : Bool) (l r : Trie Prefix V) (old : Option Prefix)
        → IsWellFormed K (node q w h l r old)
        → find K p (node q w h l r old) ≡ none
    put_above_absent w h l r old wf =
        find_outside _ p vp wf λ c. omega (arith, contains_mask K q p vq vp c)
