-- ===== src/Patricia/Iterator/Zipper.antt =====
-- A node in its place in a trie: the frames above it, from the nearest to the root. In a
-- well-formed trie a pointer names one node, and the parent pointers are those of the frames.
use lib_dwm.Base.{
  suc, ◌+◌, ◌≤◌, ◌<◌, ◌≡◌, refl, sym, ◌∙◌, Bool, true, false, Option, none, some, List, [], ◌∷◌,
  Bool-cases, inl, inr, ◌⊎◌, arith, length, true≢false,
}
use lib_dwm.Patricia.Key.{PrefixKey, contains_trans, contains_mask, contains_bit}
use lib_dwm.Patricia.Trie.{Trie, null, node, is_null}
use lib_dwm.Patricia.Shape.{IsWellFormed, Extends, HasParents}
use lib_dwm.Patricia.Iterator.{nodes, deref}

-- A node above, with the child that is not on the way: the right one, or the left one.
pub data Frame (P V : Type 0) : Type 0 where
  went_left : P → V → Bool → Trie P V → Option P → Frame P V
  went_right : P → V → Bool → Trie P V → Option P → Frame P V

abbrev pub fill : {P V : Type 0} → Frame P V → Trie P V → Trie P V
fill (went_left q w h r up) t = node q w h t r up
fill (went_right q w h l up) t = node q w h l t up

abbrev pub plug : {P V : Type 0} → List (Frame P V) → Trie P V → Trie P V
plug [] t = t
plug (f ∷ fs) t = plug fs (fill f t)

abbrev pub frame_prefix : {P V : Type 0} → Frame P V → P
frame_prefix (went_left q w h r up) = q
frame_prefix (went_right q w h l up) = q

abbrev pub above : {P V : Type 0} → List (Frame P V) → Option P
above [] = none
above (f ∷ fs) = some (frame_prefix f)

module _ (K : PrefixKey) where
  open K use {Prefix, mask_length, bit, same, contains, IsValid}

  pub below_child :
      (q c a : Prefix) (b : Bool)
      → IsValid q
      → IsValid c
      → IsValid a
      → contains q c ≡ true
      → mask_length q < mask_length c
      → bit c (mask_length q) ≡ b
      → contains c a ≡ true
      → (contains q a ≡ true) × (mask_length q < mask_length a) × (bit a (mask_length q) ≡ b)
  below_child q c a b vq vc va inside lt on further = (
    contains_trans K q c a vq vc va inside further,
    omega (arith, lt, contains_mask K c a vc va further),
    sym (contains_bit K c a (mask_length q) vc va further lt) ∙ on,
  )

  pub not_same : (q a : Prefix) → mask_length q < mask_length a → same q a ≡ false
  not_same q a lt = elim (Bool-cases (same q a)) [
    | inl e ↦ absurd (omega (arith, lt, K.same_mask_length q a e))
    | inr e ↦ e
  ]

module _ (K : PrefixKey) {V : Type 0} where
  open K use {Prefix, mask_length, bit, same, contains, IsValid}

  -- The prefix a is that of a node.
  abbrev pub Holds : Prefix → Trie Prefix V → Type 0
  Holds a null = ⊥
  Holds a (node q w h l r up) = (q ≡ a) ⊎ (Holds a l ⊎ Holds a r)

  Holds-IsValid : (a : Prefix) (t : Trie Prefix V) → IsWellFormed K t → Holds a t → IsValid a
  Holds-IsValid a null wf x = absurd x
  Holds-IsValid a (node q w h l r up) (v, el, er, c, wl, wr) (inl e) = rw (← e) v
  Holds-IsValid a (node q w h l r up) (v, el, er, c, wl, wr) (inr (inl x)) = Holds-IsValid a l wl x
  Holds-IsValid a (node q w h l r up) (v, el, er, c, wl, wr) (inr (inr x)) = Holds-IsValid a r wr x

  -- The prefixes below a child extend the node as the child does.
  pub Holds-Extends :
      (q a : Prefix) (b : Bool) (t : Trie Prefix V)
      → IsValid q
      → IsWellFormed K t
      → Extends K q b t
      → Holds a t
      → (contains q a ≡ true) × (mask_length q < mask_length a) × (bit a (mask_length q) ≡ b)
  Holds-Extends q a b null vq wf e x = absurd x
  Holds-Extends q a b (node c w h l r up) vq (v, el, er, comp, wl, wr) (inside, lt, on) (inl e) =
      rw (← e) (inside, lt, on)
  Holds-Extends q a b (node c w h l r up) vq (v, el, er, comp, wl, wr) (inside, lt, on)
        (inr (inl x)) =
      below_child K q c a b vq v (Holds-IsValid a l wl x) inside lt on
        (Holds-Extends c a false l v wl el x).0
  Holds-Extends q a b (node c w h l r up) vq (v, el, er, comp, wl, wr) (inside, lt, on)
        (inr (inr x)) =
      below_child K q c a b vq v (Holds-IsValid a r wr x) inside lt on
        (Holds-Extends c a true r v wr er x).0

  deref_absent :
      (a : Prefix) (t : Trie Prefix V)
      → IsValid a
      → IsWellFormed K t
      → ¬ Holds a t
      → deref K a t ≡ null
  unfolding deref
  deref_absent a null va wf n = refl
  deref_absent a (node q w h l r up) va (v, el, er, c, wl, wr) n = elim (Bool-cases (same q a)) [
    | inl e ↦ absurd (n (inl (K.eq_of_same q a v va e)))
    | inr e ↦
        rw
          (
            e,
            deref_absent a l va wl (λ x. n (inr (inl x))),
            deref_absent a r va wr (λ x. n (inr (inr x))),
          )
          refl
  ]

  -- A step up keeps what a pointer names, as long as the trie is well formed.
  deref-fill :
      (f : Frame Prefix V) (a : Prefix) (t : Trie Prefix V)
      → IsWellFormed K (fill f t)
      → Holds a t
      → is_null (deref K a t) ≡ false
      → deref K a (fill f t) ≡ deref K a t
  unfolding deref
  deref-fill (went_left q w h r up) a t (v, el, er, comp, wt, wr) x found =
      rw (not_same K q a (Holds-Extends q a false t v wt el x).1, found) refl
  deref-fill (went_right q w h l up) a t (v, el, er, comp, wl, wt) x found =
      let (inside, lt, on) = Holds-Extends q a true t v wt er x in
      let off : ¬ Holds a l = λ y. true≢false (sym on ∙ (Holds-Extends q a false l v wl el y).2) in
      rw (not_same K q a lt, deref_absent a l (Holds-IsValid a t wt x) wl off) refl

  fill-IsWellFormed :
      (f : Frame Prefix V) (t : Trie Prefix V) → IsWellFormed K (fill f t) → IsWellFormed K t
  fill-IsWellFormed (went_left q w h r up) t (v, el, er, comp, wt, wr) = wt
  fill-IsWellFormed (went_right q w h l up) t (v, el, er, comp, wl, wt) = wt

  pub plug-IsWellFormed :
      (fs : List (Frame Prefix V)) (t : Trie Prefix V)
      → IsWellFormed K (plug fs t)
      → IsWellFormed K t
  plug-IsWellFormed [] t wf = wf
  plug-IsWellFormed (f ∷ fs) t wf = fill-IsWellFormed f t (plug-IsWellFormed fs (fill f t) wf)

  fill-HasParents :
      (f : Frame Prefix V) (t : Trie Prefix V) (p : Option Prefix)
      → HasParents p (fill f t)
      → HasParents (some (frame_prefix f)) t
  fill-HasParents (went_left q w h r up) t p (e, ht, hr) = ht
  fill-HasParents (went_right q w h l up) t p (e, hl, ht) = ht

  pub plug-HasParents :
      (fs : List (Frame Prefix V)) (t : Trie Prefix V)
      → HasParents none (plug fs t)
      → HasParents (above fs) t
  plug-HasParents [] t h = h
  plug-HasParents (f ∷ fs) t h = fill-HasParents f t (above fs) (plug-HasParents fs (fill f t) h)

  Holds-fill :
      (f : Frame Prefix V) (a : Prefix) (t : Trie Prefix V) → Holds a t → Holds a (fill f t)
  Holds-fill (went_left q w h r up) a t x = inr (inl x)
  Holds-fill (went_right q w h l up) a t x = inr (inr x)

  -- In a well-formed trie, the pointer to a node names that node wherever it stands.
  deref-plug :
      (fs : List (Frame Prefix V)) (a : Prefix) (t : Trie Prefix V)
      → IsWellFormed K (plug fs t)
      → Holds a t
      → is_null (deref K a t) ≡ false
      → deref K a (plug fs t) ≡ deref K a t
  deref-plug [] a t wf x found = refl
  deref-plug (f ∷ fs) a t wf x found =
      let step = deref-fill f a t (plug-IsWellFormed fs (fill f t) wf) x found in
      deref-plug fs a (fill f t) wf (Holds-fill f a t x) (rw step found) ∙ step

  pub deref-here :
      (fs : List (Frame Prefix V)) (a : Prefix) (w : V) (h : Bool) (l r : Trie Prefix V)
      (up : Option Prefix)
      → IsWellFormed K (plug fs (node a w h l r up))
      → deref K a (plug fs (node a w h l r up)) ≡ node a w h l r up
  unfolding deref
  deref-here fs a w h l r up wf =
      deref-plug fs a (node a w h l r up) wf (inl refl) (rw (K.same_refl a) refl)
      ∙ rw (K.same_refl a) refl

  pub length-plug :
      (fs : List (Frame Prefix V)) (t : Trie Prefix V) → length fs + nodes t ≤ nodes (plug fs t)
  length-plug [] t = omega arith
  length-plug (f ∷ fs) t = omega (arith, length-plug fs (fill f t), bigger f)
    where
      bigger : (f : Frame Prefix V) → suc (nodes t) ≤ nodes (fill f t)
      bigger (went_left q w h r up) = omega arith
      bigger (went_right q w h l up) = omega arith
