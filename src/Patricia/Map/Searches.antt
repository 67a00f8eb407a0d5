-- ===== src/Patricia/Map/Searches.antt =====
-- What the searches of the map return.
use lib_dwm.Base.{
  ◌≤◌, ◌<◌, ◌≡◌, refl, ◌∙◌, Bool, true, ◌&&◌, not, none, some, List, [], inl, inr, arith,
  if◌then◌else◌, ltb, Bool-cases, ltb→lt, ltb-false, le_of_not_lt, le→leb, leb_of_lt,
}
use lib_dwm.Patricia.Key.{PrefixKey}
use lib_dwm.Patricia.Trie.{Trie, null, node}
use lib_dwm.Patricia.Search.Chain.{
  chain, wider_chain, lookup, own, find_matches-chain, find_wider-chain,
}
use lib_dwm.Patricia.Search.Matches.{Ascends, lookup-chain, lookup-own, chain-Ascends, root_from}
use lib_dwm.Patricia.Search.Longest.{find_longest_sound, find_longest_maximal}
use lib_dwm.Patricia.Map.{
  PrefixMap, IsSound, find, find_longest, find_matches, find_wider, is_empty_list,
}

module _ (K : PrefixKey) {V : Type 0} where
  open K use {Prefix, mask_length, same, contains, IsValid}

  -- The matches, looked up at any prefix, give what the map holds there if that prefix contains
  -- the one sought, and nothing otherwise; they stand in the order of growing mask length.
  pub find_matches_lem :
      (m : PrefixMap Prefix V) (pfx k : Prefix)
      → IsValid pfx
      → IsValid k
      → IsSound K m
      → (lookup K k (find_matches K m pfx).1 ≡ (if contains k pfx then find K m k else none))
        × Ascends K 0 (find_matches K m pfx).1
        × ((find_matches K m pfx).0 ≡ not (is_empty_list (find_matches K m pfx).1))
  unfolding find_matches find
  find_matches_lem m pfx k vp vk s = rw (find_matches-chain K pfx [] m.root) (
    lookup-chain K k pfx m.root vk vp s.shape,
    chain-Ascends K 0 pfx m.root s.shape (root_from K m.root),
    refl,
  )

  own_too_long :
      (k q pfx : Prefix) (w : V) (h : Bool)
      → mask_length pfx ≤ mask_length q
      → none ≡ (if ltb (mask_length k) (mask_length pfx) then lookup K k (own K h q w []) else none)
  own_too_long k q pfx w h le =
      let e : same q k ≡ true → mask_length q ≡ mask_length k = λ s. K.same_mask_length q k s in
      rw (lookup-own K k q w h []) (ground (arith, e))

  own_short :
      (k q pfx : Prefix) (w : V) (h : Bool) (xs ys : List (Prefix × V))
      → mask_length q < mask_length pfx
      → lookup K k xs ≡ (if ltb (mask_length k) (mask_length pfx) then lookup K k ys else none)
      → lookup K k (own K h q w xs)
        ≡ (if ltb (mask_length k) (mask_length pfx) then lookup K k (own K h q w ys) else none)
  own_short k q pfx w h xs ys lt tail =
      let e : same q k ≡ true → mask_length q ≡ mask_length k = λ s. K.same_mask_length q k s in
      rw (lookup-own K k q w h xs, lookup-own K k q w h ys) (ground (arith, e, tail))

  -- The walk of `find_wider` keeps the entries of the chain that are shorter than the prefix.
  lookup-wider_chain :
      (k pfx : Prefix) (t : Trie Prefix V)
      → lookup K k (wider_chain K pfx t)
        ≡ (if ltb (mask_length k) (mask_length pfx) then lookup K k (chain K pfx t) else none)
  unfolding wider_chain chain
  lookup-wider_chain k pfx null = ground arith
  lookup-wider_chain k pfx (node q w h l r up) = elim (Bool-cases (contains q pfx)) [
    | inr out ↦ rw out (ground arith)
    | inl inside ↦ elim (Bool-cases (ltb (mask_length q) (mask_length pfx))) [
      | inr long ↦
          rw (inside, long, le→leb _ _ (le_of_not_lt (ltb-false _ _ long)))
            (own_too_long k q pfx w h (le_of_not_lt (ltb-false _ _ long)))
      | inl short ↦
          rw (inside, short, leb_of_lt _ _ (ltb→lt _ _ short))
            (own_short k q pfx w h _ _ (ltb→lt _ _ short)
              (ground (arith, lookup-wider_chain k pfx l, lookup-wider_chain k pfx r)))
    ]
  ]

  -- The wider matches, looked up at any prefix, give what the map holds there if that prefix
  -- contains the one sought and is shorter, and nothing otherwise.
  pub find_wider_lem :
      (m : PrefixMap Prefix V) (pfx k : Prefix)
      → IsValid pfx
      → IsValid k
      → IsSound K m
      → lookup K k (find_wider K m pfx).1
        ≡ (if ltb (mask_length k) (mask_length pfx) && contains k pfx then find K m k else none)
  unfolding find_wider find
  find_wider_lem m pfx k vp vk s = rw (find_wider-chain K pfx [] m.root) (
      lookup-wider_chain k pfx m.root
      ∙ rw (lookup-chain K k pfx m.root vk vp s.shape) (ground arith))

  -- What `find_longest` returns is an entry of the map and contains the prefix sought.
  pub find_longest_is_match :
      (m : PrefixMap Prefix V) (pfx : Prefix) (e : Prefix × V)
      → IsValid pfx
      → IsSound K m
      → find_longest K m pfx ≡ some e
      → IsValid e.0 × (find K m e.0 ≡ some e.1) × (contains e.0 pfx ≡ true)
  unfolding find_longest find
  find_longest_is_match m pfx e vp s h = find_longest_sound K pfx m.root e vp s.shape h

  -- If some entry of the map contains the prefix sought, `find_longest` returns an entry of the map
  -- that contains the prefix, with a mask at least as long.
  pub find_longest_is_longest :
      (m : PrefixMap Prefix V) (pfx k : Prefix) (v : V)
      → IsValid pfx
      → IsValid k
      → IsSound K m
      → find K m k ≡ some v
      → contains k pfx ≡ true
      → (e : Prefix × V) × (find_longest K m pfx ≡ some e)
        × IsValid e.0
        × (find K m e.0 ≡ some e.1)
        × (contains e.0 pfx ≡ true)
        × (mask_length k ≤ mask_length e.0)
  unfolding find_longest find
  find_longest_is_longest m pfx k v vp vk s f c =
      let (e, found, longest) = find_longest_maximal K pfx m.root k v vp vk s.shape f c in
      let (valid, there, match) = find_longest_is_match m pfx e vp s found in
      (e, found, valid, there, match, longest)
