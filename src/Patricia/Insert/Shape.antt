-- ===== src/Patricia/Insert/Shape.antt =====
-- `addNode` keeps the shape of the trie, its parent pointers and its count of entries.
use native.Mathlib.Decide.{dec_lt}
use lib_dwm.Base.{
  ℕ, ◌+◌, ◌<◌, ◌≡◌, refl, sym, ◌∙◌, Bool, true, false, Option, some, arith, ◌≢◌, if◌then◌else◌,
  lt_of_not_ge,
}
use lib_dwm.Patricia.Key.{PrefixKey, contains_bit, contains_comparable}
use lib_dwm.Patricia.Trie.{
  Trie, null, node, is_null, set_parent, set_child, split, put_above, add_node,
}
use lib_dwm.Patricia.Shape.{count, HasParents, Extends, IsWellFormed}
use lib_dwm.Patricia.Insert.Cases.{add_node_cases}

-- Two writes to different children set both.
set_child_both {ℓ} :
    {P V : Type 0} (Q : Trie P V → Trie P V → Type ℓ) (bq bp : Bool) (ex leaf : Trie P V)
    → bq ≢ bp
    → (bq ≡ false → bp ≡ true → Q ex leaf)
    → (bq ≡ true → bp ≡ false → Q leaf ex)
    → Q
        (set_child bp leaf (set_child bq ex (null, null))).0
        (set_child bp leaf (set_child bq ex (null, null))).1
set_child_both Q false false ex leaf ne a b = absurd (ne refl)
set_child_both Q false true ex leaf ne a b = a refl refl
set_child_both Q true false ex leaf ne a b = b refl refl
set_child_both Q true true ex leaf ne a b = absurd (ne refl)

-- One write to a pair of null children.
set_child_one {ℓ} :
    {P V : Type 0} (Q : Trie P V → Trie P V → Type ℓ) (b : Bool) (ex : Trie P V)
    → (b ≡ false → Q ex null)
    → (b ≡ true → Q null ex)
    → Q (set_child b ex (null, null)).0 (set_child b ex (null, null)).1
set_child_one Q false ex a b = a refl
set_child_one Q true ex a b = b refl

module _ (K : PrefixKey) {V : Type 0} where
  open K use {Prefix, mask_length, bit, same, contains, common, IsValid}

  -- The root that `addNode` returns still extends whatever both the trie and the new prefix extend.
  pub add_node-Extends :
      (default : V) (p : Prefix) (v : V) (update : Bool) (size : ℕ) (t : Trie Prefix V)
      (up : Option Prefix) (q0 : Prefix) (b : Bool)
      → IsValid q0
      → IsValid p
      → IsWellFormed K t
      → Extends K q0 b t
      → contains q0 p ≡ true
      → mask_length q0 < mask_length p
      → bit p (mask_length q0) ≡ b
      → Extends K q0 b (add_node K default p v update size t up).root
  unfolding add_node split put_above
  add_node-Extends default p v update size null up q0 b v0 vp wf ext c lt e = (c, lt, e)
  add_node-Extends default p v update size (node q w h l r old) up q0 b v0 vp wf (cq, ltq, eq) c lt
        e =
      add_node_cases K default p v update size q w h l r old up (λ a. Extends K q0 b a.root) wf.0 vp
        (λ _ _. (cq, ltq, eq)) (λ _ _. (cq, ltq, eq)) (λ _ _ _. (cq, ltq, eq))
        (λ _ _ _. (cq, ltq, eq)) (λ _ _. (c, lt, e))
        (λ d dq dp ne vc m on_q on_p.
          let deeper : mask_length q0 < d = lt_of_not_ge λ le.
            ne (elim (dec_lt d (mask_length q0)) [
              | yes l ↦ sym (contains_bit K q0 q d v0 wf.0 cq l) ∙ contains_bit K q0 p d v0 vp c l
              | no l ↦ let at : d ≡ mask_length q0 = omega arith in rw at (eq ∙ sym e)
            ]) in
          (
            contains_comparable K q0 (common q d) q v0 vc wf.0 cq on_q (omega arith),
            omega arith,
            contains_bit K (common q d) q (mask_length q0) vc wf.0 on_q (omega arith) ∙ eq,
          ))

  pub add_node-ne-null :
      (default : V) (p : Prefix) (v : V) (update : Bool) (size : ℕ) (t : Trie Prefix V)
      (up : Option Prefix)
      → IsValid p
      → IsWellFormed K t
      → is_null (add_node K default p v update size t up).root ≡ false
  unfolding add_node split put_above
  add_node-ne-null default p v update size null up vp wf = refl
  add_node-ne-null default p v update size (node q w h l r old) up vp wf =
      add_node_cases K default p v update size q w h l r old up (λ a. is_null a.root ≡ false) wf.0
        vp (λ _ _. refl) (λ _ _. refl) (λ _ _ _. refl) (λ _ _ _. refl) (λ _ _. refl)
        (λ _ _ _ _ _ _ _ _. refl)

  -- `addNode` keeps the trie well formed.
  pub add_node-IsWellFormed :
      (default : V) (p : Prefix) (v : V) (update : Bool) (size : ℕ) (t : Trie Prefix V)
      (up : Option Prefix)
      → IsValid p
      → IsWellFormed K t
      → IsWellFormed K (add_node K default p v update size t up).root
  unfolding add_node split put_above set_parent
  add_node-IsWellFormed default p v update size null up vp wf = (vp, tt, tt, refl, tt, tt)
  add_node-IsWellFormed default p v update size (node q w h l r old) up vp wf =
      let (vq, el, er, comp, wl, wr) = wf in
      add_node_cases K default p v update size q w h l r old up (λ a. IsWellFormed K a.root) vq vp
        (λ _ _. (vq, el, er, refl, wl, wr)) (λ _ _. (vq, el, er, refl, wl, wr))
        (λ c lt b. (
          vq,
          el,
          add_node-Extends default p v update size r (some q) q true vq vp wr er c lt b,
          ground (arith, add_node-ne-null default p v update size r (some q) vp wr),
          wl,
          add_node-IsWellFormed default p v update size r (some q) vp wr,
        ))
        (λ c lt b. (
          vq,
          add_node-Extends default p v update size l (some q) q false vq vp wl el c lt b,
          er,
          ground (arith, add_node-ne-null default p v update size l (some q) vp wl),
          add_node-IsWellFormed default p v update size l (some q) vp wl,
          wr,
        ))
        (λ c lt.
          set_child_one (λ x y. IsWellFormed K (node p v true x y up)) (bit q (mask_length p))
            (node q w h l r (some p))
            (λ e. (vp, (c, lt, e), tt, refl, (vq, el, er, comp, wl, wr), tt))
            (λ e. (vp, tt, (c, lt, e), refl, tt, (vq, el, er, comp, wl, wr))))
        (λ d dq dp ne vc m cq cp.
          let ltq : mask_length (common q d) < mask_length q = omega arith in
          let ltp : mask_length (common q d) < mask_length p = omega arith in
          set_child_both (λ x y. IsWellFormed K (node (common q d) default false x y up)) (bit q d)
            (bit p d) (node q w h l r (some (common q d)))
            (node p v true null null (some (common q d))) ne
            (λ e e'. (
              vc,
              (cq, ltq, rw m e),
              (cp, ltp, rw m e'),
              refl,
              (vq, el, er, comp, wl, wr),
              (vp, tt, tt, refl, tt, tt),
            ))
            (λ e e'. (
              vc,
              (cp, ltp, rw m e'),
              (cq, ltq, rw m e),
              refl,
              (vp, tt, tt, refl, tt, tt),
              (vq, el, er, comp, wl, wr),
            )))

  -- The new nodes, and the nodes that move, point to the nodes above them.
  pub add_node-HasParents :
      (default : V) (p : Prefix) (v : V) (update : Bool) (size : ℕ) (t : Trie Prefix V)
      (up : Option Prefix)
      → IsValid p
      → IsWellFormed K t
      → HasParents up t
      → HasParents up (add_node K default p v update size t up).root
  unfolding add_node split put_above set_parent
  add_node-HasParents default p v update size null up vp wf hp = (refl, tt, tt)
  add_node-HasParents default p v update size (node q w h l r old) up vp wf (e, pl, pr) =
      let (vq, el, er, comp, wl, wr) = wf in
      add_node_cases K default p v update size q w h l r old up (λ a. HasParents up a.root) vq vp
        (λ _ _. (e, pl, pr)) (λ _ _. (e, pl, pr))
        (λ c lt b. (e, pl, add_node-HasParents default p v update size r (some q) vp wr pr))
        (λ c lt b. (e, add_node-HasParents default p v update size l (some q) vp wl pl, pr))
        (λ c lt.
          set_child_one (λ x y. HasParents up (node p v true x y up)) (bit q (mask_length p))
            (node q w h l r (some p)) (λ _. (refl, (refl, pl, pr), tt))
            (λ _. (refl, tt, (refl, pl, pr))))
        (λ d dq dp ne vc m cq cp.
          set_child_both (λ x y. HasParents up (node (common q d) default false x y up)) (bit q d)
            (bit p d) (node q w h l r (some (common q d)))
            (node p v true null null (some (common q d))) ne
            (λ _ _. (refl, (refl, pl, pr), (refl, tt, tt)))
            (λ _ _. (refl, (refl, tt, tt), (refl, pl, pr))))

  -- The counter grows as the number of entries does, by one just if the call inserts.
  pub add_node-count :
      (default : V) (p : Prefix) (v : V) (update : Bool) (size : ℕ) (t : Trie Prefix V)
      (up : Option Prefix)
      → IsValid p
      → IsWellFormed K t
      → let a = add_node K default p v update size t up in
        (a.size ≡ (if a.inserted then size + 1 else size))
        × (a.size + count t ≡ size + count a.root)
  unfolding add_node split put_above set_parent
  add_node-count default p v update size null up vp wf = (refl, omega arith)
  add_node-count default p v update size (node q w h l r old) up vp wf =
      let (vq, el, er, comp, wl, wr) = wf in
      add_node_cases K default p v update size q w h l r old up
        (λ a.
          (a.size ≡ (if a.inserted then size + 1 else size))
          × (a.size + count (node q w h l r old) ≡ size + count a.root))
        vq vp (λ s t. ground arith) (λ s t. ground arith)
        (λ c lt b. ground (arith, add_node-count default p v update size r (some q) vp wr))
        (λ c lt b. ground (arith, add_node-count default p v update size l (some q) vp wl))
        (λ c lt. (
          refl,
          set_child_one
              (λ x y. size + 1 + count (node q w h l r old) ≡ size + count (node p v true x y up))
              (bit q (mask_length p)) (node q w h l r (some p)) (λ _. ground arith)
              (λ _. ground arith),
        ))
        (λ d dq dp ne vc m cq cp. (
          refl,
          set_child_both
              (λ x y.
                size + 1 + count (node q w h l r old)
                ≡ size + count (node (common q d) default false x y up))
              (bit q d) (bit p d) (node q w h l r (some (common q d)))
              (node p v true null null (some (common q d))) ne (λ _ _. ground arith)
              (λ _ _. ground arith),
        ))
