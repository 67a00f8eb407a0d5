-- ===== src/Patricia/Search/Matches.antt =====
-- The chain of a search holds just the entries of the trie that contain the prefix sought.
use lib_dwm.Base.{
  ℕ, suc, ◌≤◌, ◌<◌, ◌≡◌, refl, sym, Bool, true, false, Option, none, some, inl, inr, arith, List,
  [], ◌∷◌, Bool-cases, if◌then◌else◌, leb, leb→le, lt_of_leb-false,
}
use lib_dwm.Patricia.Key.{
  PrefixKey, same_of_eq, contains_mask, contains_bit, contains_trans, contains_antisymm,
}
use lib_dwm.Patricia.Trie.{Trie, null, node, find}
use lib_dwm.Patricia.Shape.{Extends, IsWellFormed}
use lib_dwm.Patricia.Insert.Nodes.{find-node, find_outside}
use lib_dwm.Patricia.Remove.Compact.{child_absent}
use lib_dwm.Patricia.Search.Chain.{chain, lookup, own}

module _ (K : PrefixKey) {V : Type 0} where
  open K use {Prefix, mask_length, bit, same, contains, IsValid}

  pub lookup-own :
      (k q : Prefix) (w : V) (h : Bool) (xs : List (Prefix × V))
      → lookup K k (own K h q w xs)
        ≡ (if same q k then (if h then some w else lookup K k xs) else lookup K k xs)
  lookup-own k q w true xs = refl
  lookup-own k q w false xs = ground arith

  -- A search below the node for a prefix that both contain: the child that the sought prefix
  -- chooses has what the node has beyond its own entry.
  below_node :
      (k q pfx : Prefix) (w : V) (h : Bool) (l r : Trie Prefix V) (up : Option Prefix)
      → IsValid k
      → IsValid pfx
      → IsWellFormed K (node q w h l r up)
      → contains k pfx ≡ true
      → same q k ≡ false
      → find K k (node q w h l r up) ≡ (if bit pfx (mask_length q) then find K k r else find K k l)
  below_node k q pfx w h l r up vk vp (vq, el, er, comp, wl, wr) c ne =
      elim (Bool-cases (contains q k)) [
        | inr out ↦
            let nothing_l = child_absent K q k false l vq vk el wl (λ c' _ _. cc) in
            let nothing_r = child_absent K q k true r vq vk er wr (λ c' _ _. cc) in
            rw (find-node K k q w h l r up, ne, out) (ground (arith, nothing_l, nothing_r))
        | inl inside ↦ elim (Bool-cases (leb (mask_length k) (mask_length q))) [
          | inl le ↦
              absurd (cc (same_of_eq K q k (contains_antisymm K q k vq vk inside (leb→le _ _ le))))
          | inr lt ↦
              rw
                (
                  find-node K k q w h l r up,
                  ne,
                  inside,
                  contains_bit K k pfx (mask_length q) vk vp c (lt_of_leb-false _ _ lt),
                )
                refl
        ]
      ]

  -- At a node that contains `pfx`: its own entry, and a tail that finds the rest.
  lookup-own_node :
      (k q pfx : Prefix) (w : V) (h : Bool) (l r : Trie Prefix V) (up : Option Prefix)
      (xs : List (Prefix × V))
      → IsValid q
      → IsValid k
      → contains q pfx ≡ true
      → (same q k ≡ true → lookup K k xs ≡ none)
      → (same q k ≡ false
          → lookup K k xs ≡ (if contains k pfx then find K k (node q w h l r up) else none))
      → lookup K k (own K h q w xs)
        ≡ (if contains k pfx then find K k (node q w h l r up) else none)
  lookup-own_node k q pfx w h l r up xs vq vk inside own_key other = elim (Bool-cases (same q k)) [
    | inl s ↦
        let at : contains k pfx ≡ true = rw (← K.eq_of_same q k vq vk s) inside in
        rw (lookup-own k q w h xs, s, at, find-node K k q w h l r up) (ground (arith, own_key s, s))
    | inr s ↦ rw (lookup-own k q w h xs, s) (other s)
  ]

  -- Nothing longer than a node that is as long as `pfx` contains `pfx`.
  nothing_longer :
      (k q pfx : Prefix) (w : V) (h : Bool) (l r : Trie Prefix V) (up : Option Prefix)
      → IsValid k
      → IsValid pfx
      → IsWellFormed K (node q w h l r up)
      → same q k ≡ false
      → mask_length pfx ≤ mask_length q
      → none ≡ (if contains k pfx then find K k (node q w h l r up) else none)
  nothing_longer k q pfx w h l r up vk vp wf ne le = elim (Bool-cases (contains k pfx)) [
    | inr c ↦ rw c refl
    | inl c ↦ rw c (
        sym (
          find_outside K (node q w h l r up) k vk wf λ rc. cc (
            same_of_eq K q k
              (contains_antisymm K q k wf.0 vk rc (omega (arith, contains_mask K k pfx vk vp c))))))
  ]

  child_tail :
      (k q pfx : Prefix) (w : V) (h : Bool) (l r : Trie Prefix V) (up : Option Prefix)
      (xs : List (Prefix × V))
      → IsValid k
      → IsValid pfx
      → IsWellFormed K (node q w h l r up)
      → lookup K k xs ≡ (
          if contains k pfx
          then (if bit pfx (mask_length q) then find K k r else find K k l)
          else none)
      → (same q k ≡ true → lookup K k xs ≡ none)
        × (same q k ≡ false
            → lookup K k xs ≡ (if contains k pfx then find K k (node q w h l r up) else none))
  child_tail k q pfx w h l r up xs vk vp wf e =
      let (vq, el, er, comp, wl, wr) = wf in
      (
        λ s.
            let short : mask_length q < mask_length k → ⊥ =
              λ lt. omega (arith, K.same_mask_length q k s) in
            let nothing_l = child_absent K q k false l vq vk el wl (λ _ lt _. short lt) in
            let nothing_r = child_absent K q k true r vq vk er wr (λ _ lt _. short lt) in
            ground (arith, e, nothing_l, nothing_r),
        λ ne. elim (Bool-cases (contains k pfx)) [
          | inl c ↦ rw c (rw (below_node k q pfx w h l r up vk vp wf c ne) (ground arith))
          | inr c ↦ rw c (ground arith)
        ],
      )

  -- The chain finds just what the trie holds among the prefixes that contain `pfx`.
  pub lookup-chain :
      (k pfx : Prefix) (t : Trie Prefix V)
      → IsValid k
      → IsValid pfx
      → IsWellFormed K t
      → lookup K k (chain K pfx t) ≡ (if contains k pfx then find K k t else none)
  unfolding chain
  lookup-chain k pfx null vk vp wf =
      rw (find_outside K (let t : Trie Prefix V = null in t) k vk tt (λ rc. rc)) (ground arith)
  lookup-chain k pfx (node q w h l r up) vk vp wf = elim (Bool-cases (contains q pfx)) [
    | inr out ↦
        let n : Trie Prefix V = node q w h l r up in
        let nothing : contains k pfx ≡ true → find K k n ≡ none =
          λ c. find_outside K n k vk wf λ rc. cc (contains_trans K q k pfx wf.0 vk vp rc c) in
        rw out (ground (arith, nothing))
    | inl inside ↦ elim (Bool-cases (leb (mask_length pfx) (mask_length q))) [
      | inl le ↦
          rw (inside, le)
            (lookup-own_node k q pfx w h l r up [] wf.0 vk inside (λ s. refl)
              (λ s. nothing_longer k q pfx w h l r up vk vp wf s (leb→le _ _ le)))
      | inr lt ↦
          let xs = if bit pfx (mask_length q) then chain K pfx r else chain K pfx l in
          let e =
            child_tail k q pfx w h l r up xs vk vp wf (elim (Bool-cases (bit pfx (mask_length q))) [
              | inl b ↦ rw b (lookup-chain k pfx r vk vp wf.5)
              | inr b ↦ rw b (lookup-chain k pfx l vk vp wf.4)
            ]) in
          rw (inside, lt) (lookup-own_node k q pfx w h l r up xs wf.0 vk inside e.0 e.1)
    ]
  ]

  -- The masks of a list of entries grow from `b` on.
  abbrev pub Ascends : ℕ → List (Prefix × V) → Type 0
  Ascends b [] = Unit {0}
  Ascends b ((q, w) ∷ xs) = (b ≤ mask_length q) × Ascends (suc (mask_length q)) xs

  Ascends-weaken : (b c : ℕ) (xs : List (Prefix × V)) → c ≤ b → Ascends b xs → Ascends c xs
  Ascends-weaken b c [] le a = tt
  Ascends-weaken b c ((q, w) ∷ xs) le (x, y) = (omega arith, y)

  own-Ascends :
      (b : ℕ) (h : Bool) (q : Prefix) (w : V) (xs : List (Prefix × V))
      → b ≤ mask_length q
      → Ascends (suc (mask_length q)) xs
      → Ascends b (own K h q w xs)
  own-Ascends b true q w xs le a = (le, a)
  own-Ascends b false q w xs le a = Ascends-weaken (suc (mask_length q)) b xs (omega arith) a

  -- The root of the trie, if there is one, has a mask of at least `b` bits.
  abbrev pub RootFrom : ℕ → Trie Prefix V → Type 0
  RootFrom b null = Unit {0}
  RootFrom b (node q w h l r up) = b ≤ mask_length q

  Extends-RootFrom :
      (q : Prefix) (b : Bool) (c : Trie Prefix V)
      → Extends K q b c
      → RootFrom (suc (mask_length q)) c
  Extends-RootFrom q b null e = tt
  Extends-RootFrom q b (node c w h l r up) e = e.1

  -- The chain lists the wider prefixes first, and none twice.
  pub chain-Ascends :
      (b : ℕ) (pfx : Prefix) (t : Trie Prefix V)
      → IsWellFormed K t
      → RootFrom b t
      → Ascends b (chain K pfx t)
  unfolding chain
  chain-Ascends b pfx null wf from = tt
  chain-Ascends b pfx (node q w h l r up) (vq, el, er, comp, wl, wr) from =
      let down_l = chain-Ascends (suc (mask_length q)) pfx l wl (Extends-RootFrom q false l el) in
      let down_r = chain-Ascends (suc (mask_length q)) pfx r wr (Extends-RootFrom q true r er) in
      elim (Bool-cases (contains q pfx)) [
        | inr out ↦ rw out tt
        | inl inside ↦ elim (Bool-cases (leb (mask_length pfx) (mask_length q))) [
          | inl le ↦ rw (inside, le) (own-Ascends b h q w [] from tt)
          | inr lt ↦ elim (Bool-cases (bit pfx (mask_length q))) [
            | inl on ↦ rw (inside, lt, on) (own-Ascends b h q w (chain K pfx r) from down_r)
            | inr off ↦ rw (inside, lt, off) (own-Ascends b h q w (chain K pfx l) from down_l)
          ]
        ]
      ]

  pub root_from : (t : Trie Prefix V) → RootFrom 0 t
  root_from null = tt
  root_from (node q w h l r up) = omega arith
