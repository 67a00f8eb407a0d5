-- ===== src/Patricia/Insert/Lookup.antt =====
-- What a search finds after `addNode`.
use lib_dwm.Base.{
  ℕ, ◌<◌, ◌≡◌, refl, ap, ◌∙◌, Bool, true, false, not, Option, some, arith, if◌then◌else◌, is_some,
}
use lib_dwm.Patricia.Key.{PrefixKey, contains_bit}
use lib_dwm.Patricia.Trie.{Trie, null, node, find, add_node}
use lib_dwm.Patricia.Insert.Cases.{add_node_cases}
use lib_dwm.Patricia.Shape.{IsWellFormed}
use lib_dwm.Patricia.Insert.Nodes.{
  find-leaf, find-node, find-put_above, find-split, find_null, find_outside, merged,
  put_above_absent,
}

module _ (K : PrefixKey) {V : Type 0} where
  open K use {Prefix, mask_length, bit, same, contains, IsValid, common}

  -- One step of the recursion of `addNode`: the new prefix goes below the node, into the child
  -- that its next bit chooses.
  find-descend :
      (q p key : Prefix) (w v : V) (h update : Bool) (l r l' r' : Trie Prefix V)
      (old : Option Prefix)
      → IsValid q
      → IsValid p
      → IsValid key
      → contains q p ≡ true
      → mask_length q < mask_length p
      → (bit p (mask_length q) ≡ false
          → (r' ≡ r)
            × (find K key l'
                ≡ (if same p key then merged K update (find K p l) v else find K key l)))
      → (bit p (mask_length q) ≡ true
          → (l' ≡ l)
            × (find K key r'
                ≡ (if same p key then merged K update (find K p r) v else find K key r)))
      → find K key (node q w h l' r' old) ≡ (
          if same p key
          then merged K update (find K p (node q w h l r old)) v
          else find K key (node q w h l r old))
  find-descend q p key w v h update l r l' r' old vq vp vk inside lt left right =
      let under : same p key ≡ true → contains q key ≡ true =
        λ s. rw (← K.eq_of_same p key vp vk s) inside in
      let its_bit : same p key ≡ true → bit p (mask_length q) ≡ bit key (mask_length q) =
        λ s. ap (λ (x : Prefix). bit x (mask_length q)) (K.eq_of_same p key vp vk s) in
      let differ : same p key ≡ true → same q key ≡ true → ⊥ =
        λ s s'. omega (arith, K.same_mask_length p key s, K.same_mask_length q key s') in
      let differ' : same q p ≡ true → ⊥ = λ s. omega (arith, K.same_mask_length q p s) in
      ground (
        arith,
        find-node K key q w h l' r' old,
        find-node K key q w h l r old,
        find-node K p q w h l r old,
        under,
        its_bit,
        differ,
        differ',
        left,
        right,
      )

  -- After an addition every search finds what it found before, but for the prefix that was added.
  pub find-add_node :
      (default : V) (p : Prefix) (v : V) (update : Bool) (size : ℕ) (t : Trie Prefix V)
      (up : Option Prefix) (key : Prefix)
      → IsValid p
      → IsValid key
      → IsWellFormed K t
      → find K key (add_node K default p v update size t up).root
        ≡ (if same p key then merged K update (find K p t) v else find K key t)
  unfolding add_node
  find-add_node default p v update size null up key vp vk wf =
      rw (find_null K p, find_null K key) (find-leaf K key p v up)
  find-add_node default p v update size (node q w h l r old) up key vp vk wf =
      let (vq, _, _, _, wl, wr) = wf in
      add_node_cases K default p v update size q w h l r old up
        (λ a. find K key a.root ≡ (
          if same p key
          then merged K update (find K p (node q w h l r old)) v
          else find K key (node q w h l r old)))
        vq vp
        (λ s t. ground (
          arith,
          ap (λ (x : Prefix). same x key) (K.eq_of_same q p vq vp s),
          find-node K key q (if update then v else w) true l r old,
          find-node K key q w h l r old,
          find-node K p q w h l r old,
        ))
        (λ s f. ground (
          arith,
          ap (λ (x : Prefix). same x key) (K.eq_of_same q p vq vp s),
          find-node K key q v true l r old,
          find-node K key q w h l r old,
          find-node K p q w h l r old,
        ))
        (λ c lt b.
          find-descend q p key w v h update l r l _ old vq vp vk c lt (λ e. cc)
            (λ e. (refl, find-add_node default p v update size r (some q) key vp vk wr)))
        (λ c lt b.
          find-descend q p key w v h update l r _ r old vq vp vk c lt
            (λ e. (refl, find-add_node default p v update size l (some q) key vp vk wl)) (λ e. cc))
        (λ c lt.
          rw (put_above_absent K q p key vq vp vk c lt w h l r old wf)
            (find-put_above K q p key vq vp vk c lt w v h l r old up wf))
        (λ d dq dp ne vc m cq cp.
          rw (find_outside K (node q w h l r old) p vp wf λ c. ne (contains_bit K q p d vq vp c dq))
            (find-split K q p key vq vp vk d dq dp cq cp ne default w v h l r old up wf vc m))

  -- `inserted` says that the prefix was absent.
  pub add_node-inserted :
      (default : V) (p : Prefix) (v : V) (update : Bool) (size : ℕ) (t : Trie Prefix V)
      (up : Option Prefix)
      → IsValid p
      → IsWellFormed K t
      → (add_node K default p v update size t up).inserted ≡ not (is_some (find K p t))
  unfolding add_node
  add_node-inserted default p v update size null up vp wf = rw (find_null K p) refl
  add_node-inserted default p v update size (node q w h l r old) up vp wf =
      let (vq, _, _, _, wl, wr) = wf in
      let longer : mask_length q < mask_length p → same q p ≡ true → ⊥ =
        λ lt s. omega (arith, K.same_mask_length q p s) in
      add_node_cases K default p v update size q w h l r old up
        (λ a. a.inserted ≡ not (is_some (find K p (node q w h l r old)))) vq vp
        (λ s t. rw (find-node K p q w h l r old, s, t) refl)
        (λ s f. rw (find-node K p q w h l r old, s, f) refl)
        (λ c lt b.
          add_node-inserted default p v update size r (some q) vp wr
          ∙ ground (arith, find-node K p q w h l r old, longer lt))
        (λ c lt b.
          add_node-inserted default p v update size l (some q) vp wl
          ∙ ground (arith, find-node K p q w h l r old, longer lt))
        (λ c lt. rw (put_above_absent K q p p vq vp vp c lt w h l r old wf) refl)
        (λ d dq dp ne vc m cq cp.
          rw (find_outside K (node q w h l r old) p vp wf λ c. ne (contains_bit K q p d vq vp c dq))
            refl)
