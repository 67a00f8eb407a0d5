-- ===== src/Ipv6/Trie/Laws.antt =====
-- The IPv6 trie is a map from prefixes to values as long as it has its nodes.
use lib_dwm.Base.{
  ◌≡◌, refl, ap, ◌∙◌, Bool, Option, none, some, not, is_some, or_else, if◌then◌else◌,
}
use lib_dwm.Ipv6.Prefix.{Ipv6Prefix, IsValid, same_prefix}
use lib_dwm.Ipv6.Prefix.Key.{ipv6_key}
use lib_dwm.Ipv6.Trie.{Ipv6PrefixPatricia, usable, insert, remove, find, find_longest}
use lib_dwm.Patricia.Map.{PrefixMap, IsSound, copy}
use lib_dwm.Patricia.Map
use lib_dwm.Patricia.Map.Laws.{insert-IsSound, find-insert, remove-IsSound, find-remove}
use lib_dwm.Patricia.Contract.{IsLongest, IsLongest-agree, find_longest-IsLongest}

module _ {V : Type 0} where
  -- An object with a sound trie, in which lookups at valid prefixes find what the map f says.
  pub record Holds (t : Ipv6PrefixPatricia V) (f : Ipv6Prefix → Option V) : Type 0 where
    pub trie : PrefixMap Ipv6Prefix V
    pub is_usable : t ≡ usable trie
    pub sound : IsSound ipv6_key trie
    pub finds : (k : Ipv6Prefix) → IsValid k → Map.find ipv6_key trie k ≡ f k

  abbrev pub store_new : (Ipv6Prefix → Option V) → Ipv6Prefix → Option V → Ipv6Prefix → Option V
  store_new f p o k = if same_prefix p k then o else f k

  -- On an object that holds a map, and for a valid prefix: `insert` keeps an entry that is there
  -- and else makes one, `Remove` forgets it, both say whether it was there, `find` finds what the
  -- map has, and `find_longest` the longest match in it.
  pub trie_refines :
      (default : V) (t : Ipv6PrefixPatricia V) (f : Ipv6Prefix → Option V) (p : Ipv6Prefix) (v : V)
      → IsValid p
      → Holds t f
      → ((t' : Ipv6PrefixPatricia V) × (insert default t p v ≡ some (t', not (is_some (f p))))
          × Holds t' (store_new f p (some (or_else (f p) v))))
        × ((t' : Ipv6PrefixPatricia V) × (remove t p ≡ some (t', is_some (f p)))
            × Holds t' (store_new f p none))
        × (find t p ≡ some (f p))
        × ((o : Option (Ipv6Prefix × V)) × (find_longest t p ≡ some o) × IsLongest ipv6_key f p o)
  unfolding insert remove find find_longest
  trie_refines default t f p v vp h =
      let m : PrefixMap Ipv6Prefix V = h.trie in
      let at_p : Map.find ipv6_key m p ≡ f p = h.finds p vp in
      let answer : is_some (Map.find ipv6_key m p) ≡ is_some (f p) = ap is_some at_p in
      rw h.is_usable (
        (
          usable (Map.insert ipv6_key default m p v).0,
          ap (λ (b : Bool). some (usable (Map.insert ipv6_key default m p v).0, b))
              ((find-insert ipv6_key default m p p v vp vp h.sound).1 ∙ ap not answer),
          record {
            trie = (Map.insert ipv6_key default m p v).0;
            is_usable = refl;
            sound = insert-IsSound ipv6_key default m p v vp h.sound;
            finds = λ k vk.
                (find-insert ipv6_key default m p k v vp vk h.sound).0
                ∙ rw (at_p, h.finds k vk) refl;
          },
        ),
        (
          usable (Map.remove ipv6_key m p).0,
          ap (λ (b : Bool). some (usable (Map.remove ipv6_key m p).0, b))
              ((find-remove ipv6_key m p p vp vp h.sound).1 ∙ answer),
          record {
            trie = (Map.remove ipv6_key m p).0;
            is_usable = refl;
            sound = remove-IsSound ipv6_key m p h.sound;
            finds = λ k vk. (find-remove ipv6_key m p k vp vk h.sound).0 ∙ rw (h.finds k vk) refl;
          },
        ),
        ap some at_p,
        (
          Map.find_longest ipv6_key m p,
          refl,
          IsLongest-agree ipv6_key (Map.find ipv6_key m) f p _ h.finds
              (find_longest-IsLongest ipv6_key m p vp h.sound),
        ),
      )
