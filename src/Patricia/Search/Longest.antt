-- ===== src/Patricia/Search/Longest.antt =====
-- The last entry of the chain of a search is the longest match.
use mathlib.Core.Path.{subst}
use lib_dwm.Base.{
  ℕ, suc, ◌≤◌, ◌<◌, ◌≡◌, refl, sym, ap, ◌∙◌, Bool, true, false, none, some, ◌⊎◌, inl, inr, arith,
  List, [], ◌∷◌, Bool-cases, if◌then◌else◌, leb, All, eq_of_some, none_ne_some,
}
use lib_dwm.Patricia.Key.{PrefixKey}
use lib_dwm.Patricia.Trie.{Trie, null, node, find, find_longest}
use lib_dwm.Patricia.Shape.{IsWellFormed}
use lib_dwm.Patricia.Search.Chain.{chain, lookup, last, own, find_longest-chain}
use lib_dwm.Patricia.Search.Matches.{Ascends, lookup-chain, chain-Ascends, root_from}

module _ (K : PrefixKey) {V : Type 0} where
  open K use {Prefix, mask_length, bit, same, contains, IsValid}

  -- The entries of the chain have valid prefixes.
  own-IsValid :
      (h : Bool) (q : Prefix) (w : V) (xs : List (Prefix × V))
      → IsValid q
      → All (λ e. IsValid e.0) xs
      → All (λ e. IsValid e.0) (own K h q w xs)
  own-IsValid true q w xs v a = (v, a)
  own-IsValid false q w xs v a = a

  pub chain-IsValid :
      (pfx : Prefix) (t : Trie Prefix V) → IsWellFormed K t → All (λ e. IsValid e.0) (chain K pfx t)
  unfolding chain
  chain-IsValid pfx null wf = tt
  chain-IsValid pfx (node q w h l r up) (vq, el, er, comp, wl, wr) =
      elim (Bool-cases (contains q pfx)) [
        | inr out ↦ rw out tt
        | inl inside ↦ elim (Bool-cases (leb (mask_length pfx) (mask_length q))) [
          | inl le ↦ rw (inside, le) (own-IsValid h q w [] vq tt)
          | inr lt ↦ elim (Bool-cases (bit pfx (mask_length q))) [
            | inl on ↦ rw (inside, lt, on) (own-IsValid h q w _ vq (chain-IsValid pfx r wr))
            | inr off ↦ rw (inside, lt, off) (own-IsValid h q w _ vq (chain-IsValid pfx l wl))
          ]
        ]
      ]

  last-IsValid :
      (it : Prefix × V) (xs : List (Prefix × V)) (e : Prefix × V)
      → IsValid it.0
      → All (λ e. IsValid e.0) xs
      → last K (some it) xs ≡ some e
      → IsValid e.0
  last-IsValid it [] e v a h = subst (λ x. IsValid x.0) (eq_of_some h) v
  last-IsValid it (x ∷ xs) e v (vx, a) h = last-IsValid x xs e vx a h

  -- In a list whose masks grow, the last entry is as long as any.
  last_bound :
      (it : Prefix × V) (xs : List (Prefix × V))
      → Ascends K (suc (mask_length it.0)) xs
      → (e : Prefix × V) × (last K (some it) xs ≡ some e) × (mask_length it.0 ≤ mask_length e.0)
  last_bound it [] a = (it, refl, omega arith)
  last_bound it (x ∷ xs) (le, a) = let (e, p, m) = last_bound x xs a in (e, p, omega arith)

  -- It is either the one given, or found in the list.
  last_found :
      (it : Prefix × V) (xs : List (Prefix × V)) (e : Prefix × V)
      → Ascends K (suc (mask_length it.0)) xs
      → last K (some it) xs ≡ some e
      → (it ≡ e) ⊎ ((lookup K e.0 xs ≡ some e.1) × (mask_length it.0 < mask_length e.0))
  last_found it [] e a h = inl (eq_of_some h)
  last_found it ((q, w) ∷ xs) e (le, a) h = elim (last_found (q, w) xs e a h) [
    | inl p ↦ inr (
      rw (← ap (λ (x : Prefix × V). same q x.0) p, K.same_refl q)
          (ap (λ (x : Prefix × V). some (x.1)) p),
      omega (arith, ap (λ (x : Prefix × V). mask_length x.0) p),
    )
    | inr (f, lt) ↦ inr (
      elim (Bool-cases (same q e.0)) [
        | inl s ↦ absurd (omega (arith, K.same_mask_length q e.0 s))
        | inr s ↦ rw s f
      ],
      omega arith,
    )
  ]

  last_of_list :
      (b : ℕ) (xs : List (Prefix × V)) (e : Prefix × V)
      → Ascends K b xs
      → last K none xs ≡ some e
      → lookup K e.0 xs ≡ some e.1
  last_of_list b [] e a h = cc
  last_of_list b ((q, w) ∷ xs) e (le, a) h = elim (last_found (q, w) xs e a h) [
    | inl p ↦
        rw (← ap (λ (x : Prefix × V). same q x.0) p, K.same_refl q)
          (ap (λ (x : Prefix × V). some (x.1)) p)
    | inr (f, lt) ↦ elim (Bool-cases (same q e.0)) [
      | inl s ↦ absurd (omega (arith, K.same_mask_length q e.0 s))
      | inr s ↦ rw s f
    ]
  ]

  last_further :
      (it : Prefix × V) (b : ℕ) (xs : List (Prefix × V)) (k : Prefix) (v : V)
      → Ascends K b xs
      → lookup K k xs ≡ some v
      → (e : Prefix × V) × (last K (some it) xs ≡ some e) × (mask_length k ≤ mask_length e.0)
  last_further it b [] k v a h = cc
  last_further it b ((q, w) ∷ xs) k v (le, a) h = elim (Bool-cases (same q k)) [
    | inl s ↦
        let (e, p, m) = last_bound (q, w) xs a in (e, p, omega (arith, K.same_mask_length q k s))
    | inr s ↦ last_further (q, w) (suc (mask_length q)) xs k v a (rw s at h)
  ]

  last_as_long :
      (b : ℕ) (xs : List (Prefix × V)) (k : Prefix) (v : V)
      → Ascends K b xs
      → lookup K k xs ≡ some v
      → (e : Prefix × V) × (last K none xs ≡ some e) × (mask_length k ≤ mask_length e.0)
  last_as_long b [] k v a h = cc
  last_as_long b ((q, w) ∷ xs) k v a h = last_further (q, w) b ((q, w) ∷ xs) k v a h

  last-IsValid_of_list :
      (xs : List (Prefix × V)) (e : Prefix × V)
      → All (λ e. IsValid e.0) xs
      → last K none xs ≡ some e
      → IsValid e.0
  last-IsValid_of_list [] e a h = absurd (none_ne_some h)
  last-IsValid_of_list (x ∷ xs) e (v, a) h = last-IsValid x xs e v a h

  -- What `find_longest` returns is an entry of the trie and contains the prefix sought.
  pub find_longest_sound :
      (pfx : Prefix) (t : Trie Prefix V) (e : Prefix × V)
      → IsValid pfx
      → IsWellFormed K t
      → find_longest K pfx none t ≡ some e
      → IsValid e.0 × (find K e.0 t ≡ some e.1) × (contains e.0 pfx ≡ true)
  find_longest_sound pfx t e vp wf h =
      let xs : List (Prefix × V) = chain K pfx t in
      let final : last K none xs ≡ some e = sym (find_longest-chain K pfx none t) ∙ h in
      let ve : IsValid e.0 = last-IsValid_of_list xs e (chain-IsValid pfx t wf) final in
      let found : (if contains e.0 pfx then find K e.0 t else none) ≡ some e.1 =
        sym (lookup-chain K e.0 pfx t ve vp wf)
        ∙ last_of_list 0 xs e (chain-Ascends K 0 pfx t wf (root_from K t)) final in
      elim (Bool-cases (contains e.0 pfx)) [
        | inl c ↦ (ve, rw c at found, c)
        | inr c ↦ absurd (none_ne_some (rw c at found))
      ]

  -- If an entry of the trie contains the prefix sought, `find_longest` returns one as long.
  pub find_longest_maximal :
      (pfx : Prefix) (t : Trie Prefix V) (k : Prefix) (v : V)
      → IsValid pfx
      → IsValid k
      → IsWellFormed K t
      → find K k t ≡ some v
      → contains k pfx ≡ true
      → (e : Prefix × V) × (find_longest K pfx none t ≡ some e) × (mask_length k ≤ mask_length e.0)
  find_longest_maximal pfx t k v vp vk wf f c = rw (find_longest-chain K pfx none t) (
      last_as_long 0 (chain K pfx t) k v (chain-Ascends K 0 pfx t wf (root_from K t))
        (lookup-chain K k pfx t vk vp wf ∙ rw c f))
