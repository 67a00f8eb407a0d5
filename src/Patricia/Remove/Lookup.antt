-- ===== src/Patricia/Remove/Lookup.antt =====
-- What a search finds after `removeNode`.
use lib_dwm.Base.{
  ℕ, ◌≤◌, ◌<◌, ◌≡◌, refl, sym, ap, ◌∙◌, Bool, true, false, ◌&&◌, Option, none, some, inl, inr,
  arith, Bool-cases, is_some, if◌then◌else◌,
}
use lib_dwm.Patricia.Key.{PrefixKey, same_of_eq, contains_antisymm}
use lib_dwm.Patricia.Trie.{Trie, null, node, Removed, find, in_child, leads_to, remove_node}
use lib_dwm.Patricia.Shape.{IsWellFormed, RootContains}
use lib_dwm.Patricia.Insert.Nodes.{find-node, find_outside, find-set_parent}
use lib_dwm.Patricia.Remove.Compact.{find-compact, child_absent}
use lib_dwm.Patricia.Remove.Shape.{in_child-Keeps, remove_node-Keeps}
use lib_dwm.Patricia.Remove.Cases.{below, remove_node_cases}

-- A prefix that is no longer than one that contains it is the same.
false_same :
    (K : PrefixKey) (q p : K.Prefix)
    → K.IsValid q
    → K.IsValid p
    → K.contains q p ≡ true
    → K.same q p ≡ false
    → K.mask_length p ≤ K.mask_length q
    → ⊥
false_same K q p vq vp c n le = cc (same_of_eq K q p (contains_antisymm K q p vq vp c le))

module _ (K : PrefixKey) {V : Type 0} (p key : K.Prefix) (vp : K.IsValid p)
    (vk : K.IsValid key) where
  open K use {Prefix, mask_length, bit, same, contains, IsValid}

  -- A removal: nothing is found at the prefix any more, all else is found as before, and the
  -- answer says whether something was found there.
  abbrev pub Forgets : Trie Prefix V → Removed Prefix V → Type 0
  Forgets t a =
      (find K key a.root ≡ (if same p key then none else find K key t))
      × (a.removed ≡ is_some (find K p t))

  leads_to_root : (c : Trie Prefix V) → leads_to K c p ≡ false → RootContains K c p → ⊥
  leads_to_root null e rc = rc
  leads_to_root (node q w h l r up) e rc = cc

  absent_key :
      (c : Trie Prefix V)
      → find K p c ≡ none
      → find K key c ≡ (if same p key then none else find K key c)
  absent_key c e = elim (Bool-cases (same p key)) [
    | inl s ↦ rw s (ap (λ (x : Prefix). find K x c) (sym (K.eq_of_same p key vp vk s)) ∙ e)
    | inr s ↦ rw s refl
  ]

  in_child-Forgets :
      (q : Prefix) (size : ℕ) (c : Trie Prefix V) (below : Removed Prefix V)
      → IsWellFormed K c
      → Forgets c below
      → Forgets c (in_child K q p size c below)
  in_child-Forgets q size c below wf (f, e) = elim (Bool-cases (leads_to K c p)) [
    | inl y ↦ rw y (find-set_parent K key (some q) below.root ∙ f, e)
    | inr y ↦
        let absent : find K p c ≡ none = find_outside K c p vp wf (leads_to_root c y) in
        rw y (absent_key c absent, rw absent)
  ]

  absent_null : find K p (let t : Trie Prefix V = null in t) ≡ none
  absent_null = find_outside K null p vp tt (λ rc. rc)

  -- A node with a prefix at least as long as the removed one holds it only as its own.
  short_absent :
      (q : Prefix) (w : V) (h : Bool) (l r : Trie Prefix V) (up : Option Prefix)
      → IsValid q
      → (h && same q p) ≡ false
      → mask_length p ≤ mask_length q
      → find K p (node q w h l r up) ≡ none
  short_absent q w h l r up vq miss le = elim (Bool-cases (same q p)) [
    | inl s ↦ rw (find-node K p q w h l r up, s) (ground arith)
    | inr s ↦ elim (Bool-cases (contains q p)) [
      | inl c ↦ absurd (false_same K q p vq vp c s le)
      | inr c ↦ rw (find-node K p q w h l r up, s, c) refl
    ]
  ]

  hit_found :
      (q : Prefix) (w : V) (h : Bool) (l r : Trie Prefix V) (up : Option Prefix)
      → h ≡ true
      → same q p ≡ true
      → true ≡ is_some (find K p (node q w h l r up))
  hit_found q w h l r up t s = rw (find-node K p q w h l r up, s, t) refl

  hit_forgets :
      (q : Prefix) (w : V) (h : Bool) (l r : Trie Prefix V) (up : Option Prefix)
      → IsValid q
      → same q p ≡ true
      → find K key (node q w false l r up)
        ≡ (if same p key then none else find K key (node q w h l r up))
  hit_forgets q w h l r up vq s =
      rw
        (
          find-node K key q w false l r up,
          find-node K key q w h l r up,
          ← ap (λ (x : Prefix). same x key) (K.eq_of_same q p vq vp s),
        )
        (ground arith)

  -- One step of the recursion: the child that the next bit chooses is replaced.
  forget_descend :
      (q : Prefix) (w : V) (h : Bool) (l r l' r' : Trie Prefix V) (up : Option Prefix)
      → mask_length q < mask_length p
      → (bit p (mask_length q) ≡ false
          → (r' ≡ r) × (find K key l' ≡ (if same p key then none else find K key l)))
      → (bit p (mask_length q) ≡ true
          → (l' ≡ l) × (find K key r' ≡ (if same p key then none else find K key r)))
      → find K key (node q w h l' r' up)
        ≡ (if same p key then none else find K key (node q w h l r up))
  forget_descend q w h l r l' r' up lt left right =
      let its_bit : same p key ≡ true → bit p (mask_length q) ≡ bit key (mask_length q) =
        λ s. ap (λ (x : Prefix). bit x (mask_length q)) (K.eq_of_same p key vp vk s) in
      let differ : same p key ≡ true → same q key ≡ true → ⊥ =
        λ s s'. omega (arith, K.same_mask_length p key s, K.same_mask_length q key s') in
      ground (
        arith,
        find-node K key q w h l' r' up,
        find-node K key q w h l r up,
        its_bit,
        differ,
        left,
        right,
      )

  -- Whether the prefix is found below a node that is not its own.
  found_below :
      (q : Prefix) (w : V) (h : Bool) (l r : Trie Prefix V) (up : Option Prefix)
      → mask_length q < mask_length p
      → IsWellFormed K (node q w h l r up)
      → is_some (find K p (node q w h l r up))
        ≡ (if bit p (mask_length q) then is_some (find K p r) else is_some (find K p l))
  found_below q w h l r up lt (vq, el, er, comp, wl, wr) =
      let differ : same q p ≡ true → ⊥ = λ s. omega (arith, K.same_mask_length q p s) in
      let absent_l : contains q p ≡ false → find K p l ≡ none =
        λ n. child_absent K q p false l vq vp el wl λ c _ _. cc in
      let absent_r : contains q p ≡ false → find K p r ≡ none =
        λ n. child_absent K q p true r vq vp er wr λ c _ _. cc in
      ground (arith, find-node K p q w h l r up, differ, absent_l, absent_r)

  pub remove_node-Forgets :
      (size : ℕ) (t : Trie Prefix V) → IsWellFormed K t → Forgets t (remove_node K p size t)
  unfolding remove_node
  remove_node-Forgets size null wf = (absent_key null absent_null, rw absent_null)
  remove_node-Forgets size (node q w h l r up) wf =
      let (vq, el, er, comp, wl, wr) = wf in
      let (kr, xr, nr) =
        in_child-Keeps K q p size r (remove_node K p size r) wr (remove_node-Keeps K p size r wr) in
      let (kl, xl, nl) =
        in_child-Keeps K q p size l (remove_node K p size l) wl (remove_node-Keeps K p size l wl) in
      let (fr, gr) =
        in_child-Forgets q size r (remove_node K p size r) wr (remove_node-Forgets size r wr) in
      let (fl, gl) =
        in_child-Forgets q size l (remove_node K p size l) wl (remove_node-Forgets size l wl) in
      let r' = (below K p size q w h l r up r).root in
      let l' = (below K p size q w h l r up l).root in
      remove_node_cases K p size q w h l r up (Forgets (node q w h l r up))
        (λ t s. (
          find-compact K key q w false l r up vk vq el er wl wr ∙ hit_forgets q w h l r up vq s,
          hit_found q w h l r up t s,
        ))
        (λ e le. let absent = short_absent q w h l r up vq e le in (absent_key _ absent, rw absent))
        (λ lt b. (
          elim (Bool-cases (below K p size q w h l r up r).removed) [
            | inl y ↦ rw y (
                find-compact K key q w h l r' up vk vq el (xr q true vq er) wl kr
                ∙ forget_descend q w h l r l r' up lt (λ e. cc) (λ e. (refl, fr)))
            | inr y ↦ rw y (forget_descend q w h l r l r' up lt (λ e. cc) (λ e. (refl, fr)))
          ],
          rw (found_below q w h l r up lt wf, b) gr,
        ))
        (λ lt b. (
          elim (Bool-cases (below K p size q w h l r up l).removed) [
            | inl y ↦ rw y (
                find-compact K key q w h l' r up vk vq (xl q false vq el) er kl wr
                ∙ forget_descend q w h l r l' r up lt (λ e. (refl, fl)) (λ e. cc))
            | inr y ↦ rw y (forget_descend q w h l r l' r up lt (λ e. (refl, fl)) (λ e. cc))
          ],
          rw (found_below q w h l r up lt wf, b) gl,
        ))
