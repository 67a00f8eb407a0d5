-- ===== src/Patricia/Insert/Cases.antt =====
-- The ways that `addNode` takes at a node, each with what holds there.
use lib_dwm.Base.{
  ℕ, ◌+◌, ◌<◌, ◌≡◌, Bool, true, false, Option, some, inl, inr, arith, Bool-cases, Option-cases,
  if◌then◌else◌, ltb, min, ◌≢◌, ltb→lt, ltb-false, le_of_not_lt,
}
use lib_dwm.Patricia.Key.{PrefixKey, diff_none_below, diff_none_above, diff_some}
use lib_dwm.Patricia.Trie.{Trie, node, Added, split, put_above, add_node}

module _ (K : PrefixKey) {V : Type 0} (default : V) (p : K.Prefix) (v : V) (update : Bool)
    (size : ℕ) (q : K.Prefix) (w : V) (h : Bool) (l r : Trie K.Prefix V)
    (old up : Option K.Prefix) where
  open K use {Prefix, mask_length, bit, same, contains, first_diff_bit, common, IsValid}

  abbrev below : Trie Prefix V → Added Prefix V
  below child = add_node K default p v update size child (some q)

  abbrev existing : Trie Prefix V
  existing = node q w h l r old

  -- To prove a property of the result, prove it of the result of each way.
  pub add_node_cases {ℓ} :
      (P : Added Prefix V → Type ℓ)
      → IsValid q
      → IsValid p
      → (same q p ≡ true
          → h ≡ true
          → P (record {
            root = node q (if update then v else w) true l r old;
            result = q;
            inserted = false;
            size = size;
          }))
      → (same q p ≡ true
          → h ≡ false
          → P (record {
            root = node q v true l r old;
            result = q;
            inserted = true;
            size = size + 1;
          }))
      → (contains q p ≡ true
          → mask_length q < mask_length p
          → bit p (mask_length q) ≡ true
          → P (record (below r) { root = node q w h l (below r).root old }))
      → (contains q p ≡ true
          → mask_length q < mask_length p
          → bit p (mask_length q) ≡ false
          → P (record (below l) { root = node q w h (below l).root r old }))
      → (contains p q ≡ true
          → mask_length p < mask_length q
          → P (record {
            root = put_above K existing q p v up;
            result = p;
            inserted = true;
            size = size + 1;
          }))
      → ((d : ℕ)
          → d < mask_length q
          → d < mask_length p
          → bit q d ≢ bit p d
          → IsValid (common q d)
          → mask_length (common q d) ≡ d
          → contains (common q d) q ≡ true
          → contains (common q d) p ≡ true
          → P (record {
            root = split K default existing q p v d up;
            result = p;
            inserted = true;
            size = size + 1;
          }))
      → P (add_node K default p v update size existing up)
  unfolding add_node
  add_node_cases P vq vp found branch right left above apart =
      elim (Option-cases (first_diff_bit q p (min (mask_length q) (mask_length p)))) [
        | inr (d, e) ↦
            let (dq, dp, ne, vc, m, cq, cp) = diff_some K q p vq vp d e in
            rw (e, add_node) (apart d dq dp ne vc m cq cp)
        | inl e ↦ elim (Bool-cases (same q p)) [
          | inl s ↦ elim (Bool-cases h) [
            | inl t ↦ rw (e, s, t, add_node) (found s t)
            | inr f ↦ rw (e, s, f, add_node) (branch s f)
          ]
          | inr s ↦ elim (Bool-cases (ltb (mask_length q) (mask_length p))) [
            | inl m ↦ elim (Bool-cases (bit p (mask_length q))) [
              | inl b ↦
                  rw (e, s, m, b, add_node)
                    (right (diff_none_below K q p vq vp e (omega (arith, ltb→lt _ _ m)))
                      (ltb→lt _ _ m) b)
              | inr b ↦
                  rw (e, s, m, b, add_node)
                    (left (diff_none_below K q p vq vp e (omega (arith, ltb→lt _ _ m)))
                      (ltb→lt _ _ m) b)
            ]
            | inr m ↦
                let (inside, lt) =
                  diff_none_above K q p vq vp e (le_of_not_lt (ltb-false _ _ m)) s in
                rw (e, s, m, add_node) (above inside lt)
          ]
        ]
      ]
