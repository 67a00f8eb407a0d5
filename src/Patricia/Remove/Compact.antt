-- ===== src/Patricia/Remove/Compact.antt =====
-- The compaction after a removal: it changes no search, and it keeps the shape.
use lib_dwm.Base.{
  ◌<◌, ◌≡◌, refl, sym, ◌∙◌, Bool, true, false, Option, none, some, inl, inr, arith, Bool-cases,
}
use lib_dwm.Patricia.Key.{PrefixKey, contains_mask, contains_bit, contains_trans}
use lib_dwm.Patricia.Trie.{Trie, null, node, set_parent, compact, find}
use lib_dwm.Patricia.Shape.{count, HasParents, Extends, IsWellFormed, RootContains}
use lib_dwm.Patricia.Insert.Nodes.{find-node, find_outside}

pub count-compact :
    {P V : Type 0} (q : P) (w : V) (h : Bool) (l r : Trie P V) (up : Option P)
    → count (compact q w h l r up) ≡ count (node q w h l r up)
unfolding compact
count-compact q w true l r up = refl
count-compact q w false null r up = omega arith
count-compact q w false (node a b c d e f) null up = omega arith
count-compact q w false (node a b c d e f) (node g i j k m n) up = refl

pub count-set_parent :
    {P V : Type 0} (up : Option P) (t : Trie P V) → count (set_parent up t) ≡ count t
unfolding set_parent
count-set_parent up null = refl
count-set_parent up (node q w true l r old) = refl
count-set_parent up (node q w false l r old) = refl

pub compact-HasParents :
    {P V : Type 0} (q : P) (w : V) (h : Bool) (l r : Trie P V) (up up' : Option P)
    → HasParents (some q) l
    → HasParents (some q) r
    → HasParents up' (set_parent up' (compact q w h l r up))
unfolding compact set_parent
compact-HasParents q w true l r up up' pl pr = (refl, pl, pr)
compact-HasParents q w false null null up up' pl pr = tt
compact-HasParents q w false null (node a b c d e f) up up' pl (_, x, y) = (refl, x, y)
compact-HasParents q w false (node a b c d e f) null up up' (_, x, y) pr = (refl, x, y)
compact-HasParents q w false (node a b c d e f) (node g i j k m n) up up' pl pr = (refl, pl, pr)

module _ (K : PrefixKey) {V : Type 0} where
  open K use {Prefix, mask_length, bit, same, contains, IsValid}

  -- A child holds only what the prefix of its node contains, further down and by the child's bit.
  pub child_contains :
      (q key : Prefix) (b : Bool) (c : Trie Prefix V)
      → IsValid q
      → IsValid key
      → Extends K q b c
      → IsWellFormed K c
      → RootContains K c key
      → (contains q key ≡ true) × (mask_length q < mask_length key) × (b ≡ bit key (mask_length q))
  child_contains q key b null vq vk ext wf rc = absurd rc
  child_contains q key b (node c w h l r up) vq vk (inside, lt, e) wf rc = (
    contains_trans K q c key vq wf.0 vk inside rc,
    omega (arith, contains_mask K c key wf.0 vk rc),
    sym e ∙ contains_bit K c key (mask_length q) wf.0 vk rc lt,
  )

  pub child_absent :
      (q key : Prefix) (b : Bool) (c : Trie Prefix V)
      → IsValid q
      → IsValid key
      → Extends K q b c
      → IsWellFormed K c
      → ((contains q key ≡ true)
          → (mask_length q < mask_length key)
          → (b ≡ bit key (mask_length q))
          → ⊥)
      → find K key c ≡ none
  child_absent q key b c vq vk ext wf never =
      find_outside K c key vk wf
        λ rc. let (x, y, z) = child_contains q key b c vq vk ext wf rc in never x y z

  pub compact-Extends :
      (q0 q : Prefix) (b : Bool) (w : V) (h : Bool) (l r : Trie Prefix V) (up : Option Prefix)
      → IsValid q0
      → IsValid q
      → Extends K q0 b (node q w h l r up)
      → Extends K q false l
      → Extends K q true r
      → IsWellFormed K l
      → IsWellFormed K r
      → Extends K q0 b (compact q w h l r up)
  unfolding compact
  compact-Extends q0 q b w true l r up v0 vq ext el er wl wr = ext
  compact-Extends q0 q b w false null null up v0 vq ext el er wl wr = tt
  compact-Extends q0 q b w false null (node c x g d e f) up v0 vq (i, lt, eq) el (j, lt', _) wl wr =
      (
        contains_trans K q0 q c v0 vq wr.0 i j,
        omega arith,
        sym (contains_bit K q c (mask_length q0) vq wr.0 j lt) ∙ eq,
      )
  compact-Extends q0 q b w false (node c x g d e f) null up v0 vq (i, lt, eq) (j, lt', _) er wl wr =
      (
        contains_trans K q0 q c v0 vq wl.0 i j,
        omega arith,
        sym (contains_bit K q c (mask_length q0) vq wl.0 j lt) ∙ eq,
      )
  compact-Extends q0 q b w false (node c x g d e f) (node c' x' g' d' e' f') up v0 vq ext el er wl
        wr =
      ext

  pub compact-IsWellFormed :
      (q : Prefix) (w : V) (h : Bool) (l r : Trie Prefix V) (up : Option Prefix)
      → IsValid q
      → Extends K q false l
      → Extends K q true r
      → IsWellFormed K l
      → IsWellFormed K r
      → IsWellFormed K (compact q w h l r up)
  unfolding compact
  compact-IsWellFormed q w true l r up vq el er wl wr = (vq, el, er, refl, wl, wr)
  compact-IsWellFormed q w false null r up vq el er wl wr = wr
  compact-IsWellFormed q w false (node c x g d e f) null up vq el er wl wr = wl
  compact-IsWellFormed q w false (node c x g d e f) (node c' x' g' d' e' f') up vq el er wl wr =
      (vq, el, er, refl, wl, wr)

  -- A node with no value and one child finds what the child finds.
  bypass_right :
      (key q : Prefix) (w : V) (r : Trie Prefix V) (up : Option Prefix)
      → IsValid key
      → IsValid q
      → Extends K q true r
      → IsWellFormed K r
      → find K key r ≡ find K key (node q w false null r up)
  unfolding find
  bypass_right key q w r up vk vq er wr =
      let differ : same q key ≡ true → mask_length q < mask_length key → ⊥ =
        λ s lt. omega (arith, K.same_mask_length q key s) in
      let absent = child_absent q key true r vq vk er wr in
      rw (find-node K key q w false null r up) (elim (Bool-cases (same q key)) [
        | inl s ↦ rw s (absent λ c lt b. differ s lt)
        | inr s ↦ elim (Bool-cases (contains q key)) [
          | inr c ↦ rw (s, c) (absent λ c' lt b. cc)
          | inl c ↦ elim (Bool-cases (bit key (mask_length q))) [
            | inl b ↦ rw (s, c, b) refl
            | inr b ↦ rw (s, c, b) (absent λ c' lt b'. cc)
          ]
        ]
      ])

  bypass_left :
      (key q : Prefix) (w : V) (l : Trie Prefix V) (up : Option Prefix)
      → IsValid key
      → IsValid q
      → Extends K q false l
      → IsWellFormed K l
      → find K key l ≡ find K key (node q w false l null up)
  unfolding find
  bypass_left key q w l up vk vq el wl =
      let differ : same q key ≡ true → mask_length q < mask_length key → ⊥ =
        λ s lt. omega (arith, K.same_mask_length q key s) in
      let absent = child_absent q key false l vq vk el wl in
      rw (find-node K key q w false l null up) (elim (Bool-cases (same q key)) [
        | inl s ↦ rw s (absent λ c lt b. differ s lt)
        | inr s ↦ elim (Bool-cases (contains q key)) [
          | inr c ↦ rw (s, c) (absent λ c' lt b. cc)
          | inl c ↦ elim (Bool-cases (bit key (mask_length q))) [
            | inr b ↦ rw (s, c, b) refl
            | inl b ↦ rw (s, c, b) (absent λ c' lt b'. cc)
          ]
        ]
      ])

  -- The compaction changes no search.
  pub find-compact :
      (key q : Prefix) (w : V) (h : Bool) (l r : Trie Prefix V) (up : Option Prefix)
      → IsValid key
      → IsValid q
      → Extends K q false l
      → Extends K q true r
      → IsWellFormed K l
      → IsWellFormed K r
      → find K key (compact q w h l r up) ≡ find K key (node q w h l r up)
  unfolding compact
  find-compact key q w true l r up vk vq el er wl wr = refl
  find-compact key q w false null r up vk vq el er wl wr = bypass_right key q w r up vk vq er wr
  find-compact key q w false (node a b c d e f) null up vk vq el er wl wr =
      bypass_left key q w (node a b c d e f) up vk vq el wl
  find-compact key q w false (node a b c d e f) (node g i j k m n) up vk vq el er wl wr = refl
