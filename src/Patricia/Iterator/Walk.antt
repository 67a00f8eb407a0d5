-- ===== src/Patricia/Iterator/Walk.antt =====
-- The iterators visit the entries of a sound map in pre-order, each once.
use lib_dwm.Base.{
  ℕ, zero, suc, ◌<◌, ◌≡◌, refl, sym, ap, ◌∙◌, Bool, true, false, Option, none, some, List, [], ◌∷◌,
  ◌++◌, if◌then◌else◌, Bool-cases, inl, inr, arith, length, length-append, true≢false,
}
use mathlib.Core.List.{append_assoc, append-nil}
use lib_dwm.Patricia.Key.{PrefixKey}
use lib_dwm.Patricia.Trie.{Trie, null, node}
use lib_dwm.Patricia.Shape.{IsWellFormed, Extends, HasParents, count}
use lib_dwm.Patricia.Map.{PrefixMap, IsSound}
use lib_dwm.Patricia.Iterator.{
  first_some, nodes, parent_of, left_of, right_of, first_value, deref, is_at, climb, successor,
  begin, increment, visited, rounds_end,
}
use lib_dwm.Patricia.Iterator.Zipper.{
  Frame, went_left, went_right, plug, plug-IsWellFormed, plug-HasParents, deref-here, length-plug,
}

abbrev pub head : {A : Type 0} → List A → Option A
head [] = none
head (x ∷ xs) = some x

-- The prefixes with a value, in pre-order.
abbrev pub keys : {P V : Type 0} → Trie P V → List P
keys null = []
keys (node q w true l r up) = q ∷ (keys l ++ keys r)
keys (node q w false l r up) = keys l ++ keys r

-- Those behind a place in pre-order.
abbrev behind : {P V : Type 0} → List (Frame P V) → List P
behind [] = []
behind (went_left q w h r up ∷ fs) = keys r ++ behind fs
behind (went_right q w h l up ∷ fs) = behind fs

head-append : {A : Type 0} (xs ys : List A) → head (xs ++ ys) ≡ first_some (head xs) (head ys)
head-append [] ys = refl
head-append (x ∷ xs) ys = refl

first_value-keys : {P V : Type 0} (t : Trie P V) → first_value t ≡ head (keys t)
unfolding first_value
first_value-keys null = refl
first_value-keys (node q w true l r up) = refl
first_value-keys (node q w false l r up) =
    rw (first_value-keys l, first_value-keys r) (sym (head-append (keys l) (keys r)))

module _ (K : PrefixKey) {V : Type 0} where
  open K use {Prefix, mask_length, bit, same, contains, IsValid}

  climb-top :
      (n : ℕ) (root : Trie Prefix V) (a : Prefix)
      → parent_of (deref K a root) ≡ none
      → climb K (suc n) root a ≡ none
  unfolding climb
  climb-top n root a e = rw (climb, e) refl

  climb-up :
      (n : ℕ) (root at_p : Trie Prefix V) (a p : Prefix)
      → parent_of (deref K a root) ≡ some p
      → deref K p root ≡ at_p
      → climb K (suc n) root a
        ≡ first_some
            (if is_at K (left_of at_p) a then first_value (right_of at_p) else none)
            (climb K n root p)
  unfolding climb
  climb-up n root at_p a p e d = rw (climb, e, d) refl

  -- The left child of a node is not the right one.
  left_elsewhere :
      (q a : Prefix) (s : Trie Prefix V)
      → IsValid a
      → IsWellFormed K s
      → Extends K q false s
      → bit a (mask_length q) ≡ true
      → is_at K s a ≡ false
  left_elsewhere q a null va wf e on = refl
  left_elsewhere q a (node c w h l r up) va wf (inside, lt, off) on = elim (Bool-cases (same c a)) [
    | inl e ↦ absurd (
        true≢false
          (sym on ∙ ap (λ x. bit x (mask_length q)) (sym (K.eq_of_same c a wf.0 va e)) ∙ off))
    | inr e ↦ e
  ]

  -- With fuel for the frames above, climbing from a node finds the next entry behind it.
  climb-behind :
      (n : ℕ) (fs : List (Frame Prefix V)) (a : Prefix) (w : V) (h : Bool) (l r : Trie Prefix V)
      (up : Option Prefix)
      → IsWellFormed K (plug fs (node a w h l r up))
      → HasParents none (plug fs (node a w h l r up))
      → length fs < n
      → climb K n (plug fs (node a w h l r up)) a ≡ head (behind fs)
  climb-behind zero fs a w h l r up wf ps lt = absurd (omega arith)
  climb-behind (suc n) [] a w h l r up wf ps lt =
      climb-top n _ a (ap parent_of (deref-here K [] a w h l r up wf) ∙ ps.0)
  climb-behind (suc n) (went_left q v g s old ∷ fs) a w h l r up wf ps lt =
      let fs' : List (Frame Prefix V) = went_left q v g s old ∷ fs in
      let parents = plug-HasParents K fs' (node a w h l r up) ps in
      climb-up n _ (node q v g (node a w h l r up) s old) a q
        (ap parent_of (deref-here K fs' a w h l r up wf) ∙ parents.0)
        (deref-here K fs q v g (node a w h l r up) s old wf)
      ∙ rw
          (
            K.same_refl a,
            climb-behind n fs q v g (node a w h l r up) s old wf ps (omega arith),
            first_value-keys s,
          )
          (sym (head-append (keys s) (behind fs)))
  climb-behind (suc n) (went_right q v g s old ∷ fs) a w h l r up wf ps lt =
      let fs' : List (Frame Prefix V) = went_right q v g s old ∷ fs in
      let parents = plug-HasParents K fs' (node a w h l r up) ps in
      climb-up n _ (node q v g s (node a w h l r up) old) a q
        (ap parent_of (deref-here K fs' a w h l r up wf) ∙ parents.0)
        (deref-here K fs q v g s (node a w h l r up) old wf)
      ∙ rw
          (
            let (vq, es, (inside, more, on), _, ws, wa) = plug-IsWellFormed K fs _ wf in
                left_elsewhere q a s wa.0 ws es on,
            climb-behind n fs q v g s (node a w h l r up) old wf ps (omega arith),
          )
          refl

  -- The successor of a node in a sound trie is the first entry below it, or else behind it.
  successor-behind :
      (fs : List (Frame Prefix V)) (a : Prefix) (w : V) (h : Bool) (l r : Trie Prefix V)
      (up : Option Prefix)
      → IsWellFormed K (plug fs (node a w h l r up))
      → HasParents none (plug fs (node a w h l r up))
      → successor K (nodes (plug fs (node a w h l r up))) (plug fs (node a w h l r up)) a
        ≡ head (keys l ++ (keys r ++ behind fs))
  unfolding successor
  successor-behind fs a w h l r up wf ps =
      rw
        (
          deref-here K fs a w h l r up wf,
          first_value-keys l,
          first_value-keys r,
          climb-behind (nodes (plug fs (node a w h l r up))) fs a w h l r up wf ps
              (omega (arith, length-plug K fs (node a w h l r up))),
        )
        (sym (
          head-append (keys l) (keys r ++ behind fs)
          ∙ ap (first_some (head (keys l))) (head-append (keys r) (behind fs))))

  -- The walk from the first of some entries visits just these.
  abbrev Visits : PrefixMap Prefix V → List Prefix → Type 0
  Visits m ks =
      (visited K (length ks) m (head ks) ≡ ks) × (rounds_end K (length ks) m (head ks) ≡ none)

  Visits-cons :
      (m : PrefixMap Prefix V) (a : Prefix) (ks : List Prefix)
      → increment K m (some a) ≡ head ks
      → Visits m ks
      → Visits m (a ∷ ks)
  unfolding visited rounds_end
  Visits-cons m a ks e v = (
    ap (λ it. a ∷ visited K (length ks) m it) e ∙ ap (◌∷◌ a) v.0,
    ap (rounds_end K (length ks) m) e ∙ v.1,
  )

  increment-behind :
      (m : PrefixMap Prefix V) (fs : List (Frame Prefix V)) (a : Prefix) (w : V) (h : Bool)
      (l r : Trie Prefix V) (up : Option Prefix)
      → m.root ≡ plug fs (node a w h l r up)
      → IsSound K m
      → increment K m (some a) ≡ head (keys l ++ (keys r ++ behind fs))
  unfolding increment
  increment-behind m fs a w h l r up e s =
      rw e (successor-behind fs a w h l r up (rw e at s.shape) (rw e at s.parents))

  start : (m : PrefixMap Prefix V) → Visits m []
  unfolding visited rounds_end
  start m = (refl, refl)

  walk_through :
      (m : PrefixMap Prefix V) (fs : List (Frame Prefix V)) (t : Trie Prefix V)
      → m.root ≡ plug fs t
      → IsSound K m
      → Visits m (behind fs)
      → Visits m (keys t ++ behind fs)
  walk_through m fs null e s v = v
  walk_through m fs (node a w true l r up) e s v =
      let on_right = walk_through m (went_right a w true l up ∷ fs) r e s v in
      let on_left = walk_through m (went_left a w true r up ∷ fs) l e s on_right in
      rw (append_assoc (keys l) (keys r) (behind fs))
        (Visits-cons m a _ (increment-behind m fs a w true l r up e s) on_left)
  walk_through m fs (node a w false l r up) e s v =
      let on_right = walk_through m (went_right a w false l up ∷ fs) r e s v in
      let on_left = walk_through m (went_left a w false r up ∷ fs) l e s on_right in
      rw (append_assoc (keys l) (keys r) (behind fs)) on_left

  pub length-keys : (t : Trie Prefix V) → length (keys t) ≡ count t
  length-keys null = refl
  length-keys (node q w true l r up) =
      omega (arith, length-append (keys l) (keys r), length-keys l, length-keys r)
  length-keys (node q w false l r up) =
      omega (arith, length-append (keys l) (keys r), length-keys l, length-keys r)

  walk_from :
      (m : PrefixMap Prefix V) (ks : List Prefix) (rounds : ℕ) (it : Option Prefix)
      → rounds ≡ length ks
      → it ≡ head ks
      → Visits m ks
      → (visited K rounds m it ≡ ks) × (rounds_end K rounds m it ≡ none)
  walk_from m ks rounds it e_rounds e_it v = rw (e_rounds, e_it) v

  -- The loop from begin() to end() over a sound map ends after as many rounds as the map has
  -- entries, and visits the prefixes that hold a value in pre-order.
  pub visited-keys :
      (m : PrefixMap Prefix V)
      → IsSound K m
      → (visited K m.size m (begin K m) ≡ keys m.root) × (rounds_end K m.size m (begin K m) ≡ none)
  unfolding begin
  visited-keys m s =
      walk_from m (keys m.root) m.size (first_value m.root) (s.counted ∙ sym (length-keys m.root))
        (first_value-keys m.root)
        (rw (append-nil (keys m.root)) at (walk_through m [] m.root refl s (start m)))
