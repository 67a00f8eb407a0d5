-- ===== src/Patricia/Contract.antt =====
-- What a search for the longest match promises, whatever holds the entries: stated of the map that
-- the container stands for. The trie keeps the promise, and the promise leaves one answer.
use lib_dwm.Base.{
  ◌≤◌, ◌≡◌, refl, sym, ap, ◌∙◌, true, Option, none, some, inl, inr, Option-cases, eq_of_some,
  none_ne_some,
}
use lib_dwm.Patricia.Key.{PrefixKey, contains_comparable, contains_antisymm}
use lib_dwm.Patricia.Map.{PrefixMap, IsSound, find, find_longest}
use lib_dwm.Patricia.Map.Searches.{find_longest_is_match, find_longest_is_longest}

module _ (K : PrefixKey) {V : Type 0} where
  open K use {Prefix, mask_length, contains, IsValid}

  -- An answer of a search for the longest match of `pfx` in the map `f`: nothing if no entry
  -- contains `pfx`, and else an entry that contains it and whose mask is the longest.
  abbrev pub IsLongest : (Prefix → Option V) → Prefix → Option (Prefix × V) → Type 0
  IsLongest f pfx none = (k : Prefix) → IsValid k → contains k pfx ≡ true → f k ≡ none
  IsLongest f pfx (some e) =
      IsValid e.0
      × (contains e.0 pfx ≡ true)
      × (f e.0 ≡ some e.1)
      × ((k : Prefix) (v : V)
          → IsValid k
          → contains k pfx ≡ true
          → f k ≡ some v
          → mask_length k ≤ mask_length e.0)

  -- Two answers of such a search in maps with the same valid entries are the same.
  pub IsLongest-unique :
      (f g : Prefix → Option V) (pfx : Prefix) (a b : Option (Prefix × V))
      → IsValid pfx
      → ((k : Prefix) → IsValid k → f k ≡ g k)
      → IsLongest f pfx a
      → IsLongest g pfx b
      → a ≡ b
  IsLongest-unique f g pfx none none vp e ha hb = refl
  IsLongest-unique f g pfx none (some (q, w)) vp e ha (vq, c, found, max) =
      absurd (none_ne_some (sym (ha q vq c) ∙ e q vq ∙ found))
  IsLongest-unique f g pfx (some (p, v)) none vp e (vq, c, found, max) hb =
      absurd (none_ne_some (sym (hb p vq c) ∙ sym (e p vq) ∙ found))
  IsLongest-unique f g pfx (some (p, v)) (some (q, w)) vp e (vp', c, found, max)
        (vq, d, there, max') =
      let p≤q = max' p v vp' c (sym (e p vp') ∙ found) in
      let q≤p = max q w vq d (e q vq ∙ there) in
      let same_prefix : p ≡ q =
        contains_antisymm K p q vp' vq (contains_comparable K p q pfx vp' vq vp c d p≤q) q≤p in
      let same_value : v ≡ w = eq_of_some (sym found ∙ e p vp' ∙ ap g same_prefix ∙ there) in
      λ i. some (same_prefix i, same_value i)

  -- The promise is about the valid entries alone.
  pub IsLongest-agree :
      (f g : Prefix → Option V) (pfx : Prefix) (o : Option (Prefix × V))
      → ((k : Prefix) → IsValid k → f k ≡ g k)
      → IsLongest f pfx o
      → IsLongest g pfx o
  IsLongest-agree f g pfx none e h = λ k vk c. sym (e k vk) ∙ h k vk c
  IsLongest-agree f g pfx (some (p, v)) e (vp, c, found, max) =
      (vp, c, sym (e p vp) ∙ found, λ k w vk ck there. max k w vk ck (e k vk ∙ there))

  -- The search of the trie keeps the promise on every sound map.
  pub find_longest-IsLongest :
      (m : PrefixMap Prefix V) (pfx : Prefix)
      → IsValid pfx
      → IsSound K m
      → IsLongest (find K m) pfx (find_longest K m pfx)
  find_longest-IsLongest m pfx vp s = elim (Option-cases (find_longest K m pfx)) [
    | inl n ↦ rw n λ k vk c. elim (Option-cases (find K m k)) [
      | inl absent ↦ absent
      | inr (v, found) ↦
          let (e, longest, _, _, _, _) = find_longest_is_longest K m pfx k v vp vk s found c in
          absurd (none_ne_some (sym n ∙ longest))
    ]
    | inr (e, h) ↦
        let (ve, found, c) = find_longest_is_match K m pfx e vp s h in
        rw h (
          ve,
          c,
          found,
          λ k v vk ck fk.
              let (e', h', _, _, _, le) = find_longest_is_longest K m pfx k v vp vk s fk ck in
              rw (ap mask_length (ap (λ (x : Prefix × V). x.0) (eq_of_some (sym h ∙ h')))) le,
        )
  ]
